-- ===== src/Server/Serve.antt =====
-- A whole round of `ServerLoop` on a well-formed request.
use nrp_reference.Base.{
  ℕ, zero, suc, ◌+◌, ◌-◌, ◌≤◌, ◌<◌, ◌≡◌, ◌⊎◌, refl, ap, inl, inr, Bool, true, false, List, [], ◌∷◌,
  ◌++◌, Option, none, some, Outcome, ok, undefined, out_of_fuel, arith, length, take, take_all,
  replicate, All, All-append, length-append, length-replicate, Option-cases, ◌∙◌,
}
use nrp_reference.MruCache
use nrp_reference.StdHelpers.{SockaddrStorage, sockaddr_eq}
use nrp_reference.Protocol.MsgType
use nrp_reference.Protocol.Layout.{Bytes, header_bytes}
use nrp_reference.Protocol.Packet.{
  Message, message_size, encode_message, encode_messages, messages_size, encode_packet, IsMessage,
  IsPacket,
}
use nrp_reference.Protocol.Validate.{validate_packet}
use nrp_reference.Protocol.Complete.{validate_packet-encode_packet}
use nrp_reference.Protocol.Encoded.{Accepted-encode_packet, packet_header}
use nrp_reference.Protocol.Sound.{IsByte}
use nrp_reference.Server.Parsed.{parse_messages-Parsed}
use nrp_reference.Server.Replies.{IsReply, IsMessage-of_reply}
use nrp_reference.Server.Loop.{
  NrpdServer, receive_buffer, set_mtu, send_response, answer_request, serve,
}
use nrp_reference.Server.Response.{response, echo, SendsOk, send_messages, length-encode_messages}

-- A message whose fields fit the bytes that they are written to.
abbrev pub IsBytes : Message → Type 0
IsBytes m = IsByte m.msg_type × IsByte m.count × All IsByte m.content

header_bytes-IsByte : (len t c : ℕ) → IsByte t → IsByte c → All IsByte (header_bytes len t c)
header_bytes-IsByte len t c ht hc = (omega arith, (omega arith, (ht, (hc, tt))))

encode_messages-IsByte : (ms : List Message) → All IsBytes ms → All IsByte (encode_messages ms)
encode_messages-IsByte [] b = tt
encode_messages-IsByte (m ∷ ms) ((t, c, body), b) =
    All-append IsByte (encode_message m) (encode_messages ms)
      (All-append IsByte (header_bytes (message_size m) m.msg_type m.count) m.content
        (header_bytes-IsByte (message_size m) m.msg_type m.count t c) body)
      (encode_messages-IsByte ms b)

replicate-IsByte : (n : ℕ) → All IsByte (replicate n 0)
replicate-IsByte zero = tt
replicate-IsByte (suc n) = (omega arith, replicate-IsByte n)

-- The array into which a packet was received.
received :
    (datagram : Bytes)
    → length datagram ≤ 65507
    → receive_buffer datagram ≡ datagram ++ replicate (65507 - length datagram) 0
unfolding receive_buffer
received datagram small =
    ap (λ bs. bs ++ replicate (65507 - length bs) 0) (take_all datagram 65507 small)

replies-IsMessage : (ms : List Message) → All (IsReply MsgType.max) ms → All (IsMessage false) ms
replies-IsMessage [] all = tt
replies-IsMessage (m ∷ ms) (good, all) = (IsMessage-of_reply good, replies-IsMessage ms all)

-- What a round sends in answer to a request: a well-formed response, or the request's own header.
abbrev pub Answered : Bytes → Outcome (NrpdServer × Option Bytes) → Type 0
Answered request (ok (server, some packet)) =
    ((ms : List Message) × IsPacket false ms × (packet ≡ encode_packet MsgType.response ms))
    ⊎ (packet ≡ take 4 request)
Answered request _ = ⊥

abbrev pub request_packet : List Message → Bytes
request_packet ms = encode_packet MsgType.request ms

Answered-of_sends :
    (request tail : Bytes) (sent : List Message) (m : Outcome (NrpdServer × Option Bytes))
    → SendsOk (request ++ tail) sent m
    → All (IsReply MsgType.max) sent
    → length sent < 256
    → 4 + messages_size sent ≤ 65507
    → take 4 (request ++ tail) ≡ take 4 request
    → Answered request m
Answered-of_sends request tail sent (ok (server, some packet)) (response more e) good few small
      same =
    inl (
      sent,
      record {
        messages = replies-IsMessage sent good;
        some_message = more;
        count_byte = few;
        size = small;
      },
      e,
    )
Answered-of_sends request tail sent (ok (server, some packet)) (echo none_sent e) good few small
      same =
    inr (e ∙ same)
Answered-of_sends request tail sent (ok (server, none)) h good few small same = absurd h
Answered-of_sends request tail sent undefined h good few small same = absurd h
Answered-of_sends request tail sent out_of_fuel h good few small same = absurd h

answer_request-Answered :
    (fuel : ℕ) (server : NrpdServer) (ms : List Message) (tail : Bytes)
    → IsPacket true ms
    → All (λ (m : Message). m.msg_type < MsgType.max) ms
    → All IsBytes ms
    → All IsByte tail
    → length ms < fuel
    → server.config.default_entropy < 256
    → 4 < server.mtu
    → server.mtu ≤ 1236
    → 1236 ≤ length (request_packet ms ++ tail)
    → Answered (request_packet ms) (answer_request fuel server (request_packet ms ++ tail))
unfolding answer_request
answer_request-Answered fuel server ms tail v types bytes tail_bytes f d lo hi room =
    let buffer = request_packet ms ++ tail in
    let (a, below) = Accepted-encode_packet MsgType.max true ms tail fuel v types f in
    let all =
      All-append IsByte (request_packet ms) tail
        (All-append IsByte (header_bytes (4 + messages_size ms) MsgType.request (length ms))
          (encode_messages ms)
          (header_bytes-IsByte (4 + messages_size ms) MsgType.request (length ms) (omega arith)
            v.count_byte)
          (encode_messages-IsByte ms bytes))
        tail_bytes in
    let (s, parsed, good) =
      parse_messages-Parsed MsgType.max fuel server.mtu server.config server.device buffer
        (packet_header true ms tail) a below (omega arith) all d lo hi in
    rw parsed (
      Answered-of_sends (request_packet ms) tail good.sent (send_response server buffer s)
        (send_messages server buffer s good.sent good.msgs good.total good.fits good.few hi room)
        good.replies good.few (omega (arith, good.total, good.fits)) refl)

-- The cache's verdict on a client.
abbrev pub present : NrpdServer → SockaddrStorage → (ℕ → ℕ) → Bool
present server src_addr now =
    (MruCache.is_present_add sockaddr_eq server.recent_clients src_addr (now 0) (now 1) (now 2)
      (now 3)).1

-- A round of the server's loop on a well-formed request of known message types, from a client that the
-- cache lets pass, with a fuel above the number of messages and a default entropy size below 256, ends
-- without a fault and sends either a well-formed response or the first four bytes of the request.
pub serve-Answered :
    (fuel : ℕ) (server : NrpdServer) (ms : List Message) (src_addr : SockaddrStorage) (now : ℕ → ℕ)
    → IsPacket true ms
    → All (λ (m : Message). m.msg_type < MsgType.max) ms
    → All IsBytes ms
    → length ms < fuel
    → server.config.default_entropy < 256
    → present server src_addr now ≡ false
    → Answered (request_packet ms) (serve fuel server (some (request_packet ms, src_addr)) now)
unfolding serve
serve-Answered fuel server ms src_addr now v types bytes f d fresh =
    let request = request_packet ms in
    let tail : Bytes = replicate (65507 - length request) 0 in
    let size : length request ≡ 4 + messages_size ms = omega (arith, length-encode_messages ms) in
    let clients =
      (MruCache.is_present_add sockaddr_eq server.recent_clients src_addr (now 0) (now 1) (now 2)
        (now 3)).0 in
    let ready = set_mtu (record server { recent_clients = clients }) src_addr in
    let lo : 4 < ready.mtu = ground arith in
    let hi : ready.mtu ≤ 1236 = ground arith in
    let room : 1236 ≤ length (request ++ tail) = omega (
      arith,
      length-append request tail,
      length-replicate {A = ℕ} (65507 - length request) 0,
      size,
      v.size,
    ) in
    rw
      (
        received request (omega (arith, size, v.size)),
        validate_packet-encode_packet true ms tail fuel v f,
        fresh,
      )
      (answer_request-Answered fuel ready ms tail v types bytes
        (replicate-IsByte (65507 - length request)) f d lo hi room)

-- The client's verdict on what was sent, followed by anything in its buffer.
abbrev Welcome : Bytes → Bytes → Outcome (NrpdServer × Option Bytes) → Type 0
Welcome request rest (ok (server, some packet)) =
    (validate_packet 256 (some (packet ++ rest)) false ≡ ok true) ⊎ (packet ≡ take 4 request)
Welcome request rest _ = ⊥

Welcome-of_Answered :
    (request rest : Bytes) (m : Outcome (NrpdServer × Option Bytes))
    → Answered request m
    → Welcome request rest m
Welcome-of_Answered request rest (ok (server, some packet)) (inl (ms, v, e)) =
    inl (rw e (validate_packet-encode_packet false ms rest 256 v v.count_byte))
Welcome-of_Answered request rest (ok (server, some packet)) (inr e) = inr e
Welcome-of_Answered request rest (ok (server, none)) h = absurd h
Welcome-of_Answered request rest undefined h = absurd h
Welcome-of_Answered request rest out_of_fuel h = absurd h

-- A round of the server's loop on a well-formed request of known message types, from a client that the
-- cache lets pass, with a fuel above the number of messages and a default entropy size below 256, ends
-- without a fault, and what it sends passes the client's validation, whatever stands behind it in the
-- client's buffer, or is the first four bytes of the request.
serve-validate_packet :
    (fuel : ℕ) (server : NrpdServer) (ms : List Message) (src_addr : SockaddrStorage) (now : ℕ → ℕ)
    (rest : Bytes)
    → IsPacket true ms
    → All (λ (m : Message). m.msg_type < MsgType.max) ms
    → All IsBytes ms
    → length ms < fuel
    → server.config.default_entropy < 256
    → present server src_addr now ≡ false
    → Welcome (request_packet ms) rest (serve fuel server (some (request_packet ms, src_addr)) now)
serve-validate_packet fuel server ms src_addr now rest v types bytes f d fresh =
    Welcome-of_Answered (request_packet ms) rest
      (serve fuel server (some (request_packet ms, src_addr)) now)
      (serve-Answered fuel server ms src_addr now v types bytes f d fresh)

held_unchanged :
    (server : NrpdServer) (src_addr : SockaddrStorage) (now : ℕ → ℕ)
    → present server src_addr now ≡ true
    → (MruCache.is_present_add sockaddr_eq server.recent_clients src_addr
        (now 0)
        (now 1)
        (now 2)
        (now 3)).0
      ≡ server.recent_clients
unfolding MruCache.is_present_add
held_unchanged server src_addr now held =
    elim (Option-cases (MruCache.find sockaddr_eq src_addr server.recent_clients.entries)) [
      | inl missing ↦ ground arith
      | inr (t, found) ↦ ground arith
    ]

-- A well-formed request from a client that the cache still holds gets no answer, and leaves the server as
-- it was: the entry is not renewed.
serve_banned :
    (fuel : ℕ) (server : NrpdServer) (ms : List Message) (src_addr : SockaddrStorage) (now : ℕ → ℕ)
    → IsPacket true ms
    → length ms < fuel
    → present server src_addr now ≡ true
    → serve fuel server (some (request_packet ms, src_addr)) now ≡ ok (server, none)
unfolding serve
serve_banned fuel server ms src_addr now v f held =
    let size : length (request_packet ms) ≡ 4 + messages_size ms =
      omega (arith, length-encode_messages ms) in
    let tail : Bytes = replicate (65507 - length (request_packet ms)) 0 in
    rw
      (
        received (request_packet ms) (omega (arith, size, v.size)),
        validate_packet-encode_packet true ms tail fuel v f,
        held,
        held_unchanged server src_addr now held,
      )
      refl
