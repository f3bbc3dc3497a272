-- ===== src/Server/Response.antt =====
-- What a round of the server's loop sends, once the messages are made.
use nrp_reference.Base.{
  ℕ, suc, ◌+◌, ◌≤◌, ◌<◌, ◌≡◌, refl, ap, false, List, [], ◌∷◌, ◌++◌, Option, some, Outcome, ok,
  arith, length, take, take_all, drop, map, ltb, length-append, length-drop, take-append,
  append_assoc,
}
use nrp_reference.Protocol.MsgType
use nrp_reference.Protocol.Layout.{Bytes, read_header, header_bytes}
use nrp_reference.Protocol.Packet.{
  Message, message_size, encode_message, encode_messages, messages_size, encode_packet,
}
use nrp_reference.Protocol.Generate.{to_byte, generate_packet_header}
use nrp_reference.Protocol.Generated.{write_room, read_bytes_room}
use nrp_reference.Server.Parse.{Progress}
use nrp_reference.Server.Loop.{NrpdServer, copy_messages, fill_response, send_response}

read_header-message :
    (m : Message)
    → message_size m < 65536
    → read_header (encode_message m)
      ≡ ok (record {
        length = message_size m;
        msg_type = m.msg_type;
        count = m.count;
        content = m.content;
      })
unfolding read_header
read_header-message m h = ground arith

pub length-encode_messages : (ms : List Message) → length (encode_messages ms) ≡ messages_size ms
length-encode_messages [] = refl
length-encode_messages (m ∷ ms) =
    omega (arith, length-append (encode_message m) (encode_messages ms), length-encode_messages ms)

copy_messages-encode :
    (ms : List Message) (dst : Bytes)
    → messages_size ms < 65536
    → messages_size ms ≤ length dst
    → copy_messages (map encode_message ms) dst ≡ ok (encode_messages ms)
unfolding copy_messages
copy_messages-encode [] dst small room = refl
copy_messages-encode (m ∷ ms) dst small room =
    rw
      (
        read_header-message m (omega arith),
        read_bytes_room (message_size m) (encode_message m) (omega arith),
        take_all (encode_message m) (message_size m) (omega arith),
        write_room (encode_message m) dst (message_size m) (omega arith) (omega arith),
        copy_messages-encode ms (drop (message_size m) dst) (omega arith)
            (omega (arith, length-drop (message_size m) dst)),
      )
      refl

length-map_encode : (ms : List Message) → length (map encode_message ms) ≡ length ms
length-map_encode [] = refl
length-map_encode (m ∷ ms) = ap suc (length-map_encode ms)

generate_packet_header-response :
    (len count : ℕ) (dst : Bytes)
    → len ≤ 65507
    → 0 < count
    → 4 ≤ length dst
    → generate_packet_header len MsgType.response count (some dst)
      ≡ ok (some (record { written = header_bytes len MsgType.response count; next = drop 4 dst }))
unfolding generate_packet_header
generate_packet_header-response len count dst small more room =
    ground (arith, write_room (header_bytes len MsgType.response count) dst 4)

fill_response-encode :
    (m : Message) (ms : List Message) (buffer : Bytes)
    → let sent = m ∷ ms in
      length sent < 256
      → 4 + messages_size sent ≤ 65507
      → 4 + messages_size sent ≤ length buffer
      → (rest : Bytes) × (fill_response (messages_size sent + 4) (map encode_message sent) buffer
          ≡ ok (encode_packet MsgType.response sent ++ rest))
unfolding fill_response
fill_response-encode m ms buffer few small room =
    let sent = m ∷ ms in
    let byte : to_byte (length (map encode_message sent)) ≡ length sent =
      omega (arith, length-map_encode ms) in
    let swap : messages_size sent + 4 ≡ 4 + messages_size sent = omega arith in
    (
      drop (length (encode_messages sent)) (drop 4 buffer),
      rw
          (
            byte,
            swap,
            generate_packet_header-response (4 + messages_size sent) (length sent) buffer small
                (omega arith) (omega arith),
            copy_messages-encode sent (drop 4 buffer) (omega arith)
                (omega (arith, length-drop 4 buffer)),
            append_assoc (header_bytes (4 + messages_size sent) MsgType.response (length sent))
                (encode_messages sent) (drop (length (encode_messages sent)) (drop 4 buffer)),
          )
          refl,
    )

fill_response_nil : (buffer : Bytes) (n : ℕ) → n ≤ 65507 → fill_response n [] buffer ≡ ok buffer
unfolding fill_response generate_packet_header
fill_response_nil buffer n small = ground arith

-- What is sent: the packet of some messages, or, if there are none, the first bytes of the array as the
-- request left them there.
pub data Sends (buffer : Bytes) (sent : List Message) (packet : Bytes) : Type 0 where
  response :
      0 < length sent → packet ≡ encode_packet MsgType.response sent → Sends buffer sent packet
  echo : sent ≡ [] → packet ≡ take 4 buffer → Sends buffer sent packet

abbrev pub SendsOk : Bytes → List Message → Outcome (NrpdServer × Option Bytes) → Type 0
SendsOk buffer sent (ok (server, some packet)) = Sends buffer sent packet
SendsOk buffer sent _ = ⊥

pub send_messages :
    (server : NrpdServer) (buffer : Bytes) (s : Progress) (sent : List Message)
    → s.msgs ≡ map encode_message sent
    → s.out_message_length ≡ messages_size sent
    → 4 + s.out_message_length ≤ server.mtu
    → length sent < 256
    → server.mtu ≤ 1236
    → 1236 ≤ length buffer
    → SendsOk buffer sent (send_response server buffer s)
unfolding send_response
send_messages server buffer s [] e total fits few small room =
    let within : ltb server.mtu (s.out_message_length + 4) ≡ false = ground arith in
    rw
      (
        within,
        e,
        total,
        fill_response_nil buffer (0 + 4) (omega arith),
        read_bytes_room (0 + 4) buffer (omega arith),
      )
      (echo refl refl)
send_messages server buffer s (m ∷ ms) e total fits few small room =
    let sent = m ∷ ms in
    let within : ltb server.mtu (s.out_message_length + 4) ≡ false = ground arith in
    let (rest, filled) = fill_response-encode m ms buffer few (omega arith) (omega arith) in
    let packet = encode_packet MsgType.response sent in
    let size : messages_size sent + 4 ≡ length packet =
      omega (arith, length-encode_messages sent) in
    rw
      (
        within,
        e,
        total,
        filled,
        read_bytes_room (messages_size sent + 4) (packet ++ rest)
            (omega (arith, length-append packet rest)),
        take-append packet rest (messages_size sent + 4) size,
      )
      (response (omega arith) refl)
