-- ===== src/Client/Requested.antt =====
-- What `ConstructRequest` asks for, and that a server accepts it.
use nrp_reference.Base.{
  ℕ, ◌+◌, ◌*◌, ◌≤◌, ◌<◌, ◌≡◌, refl, inl, inr, Bool, true, false, ◌&&◌, List, [], ◌∷◌, ◌++◌, some,
  ok, arith, ltb, if◌then◌else◌, length, drop, length-drop, drop-add, sym, append_assoc, ◌⊎◌,
}
use nrp_reference.Protocol.MsgType
use nrp_reference.Protocol.Layout.{Bytes, header_bytes}
use nrp_reference.Protocol.Packet.{
  Message, messages_size, encode_packet, encode_messages, IsMessage, IsPacket,
}
use nrp_reference.Protocol.Generate.{
  to_byte, generate_request_entropy_message, generate_request_peers_message, generate_packet_header,
}
use nrp_reference.Protocol.Generated.{write_room}
use nrp_reference.Protocol.Validate.{validate_packet}
use nrp_reference.Protocol.Complete.{validate_packet-encode_packet}
use nrp_reference.ServerRecord.{ServerRecord}
use nrp_reference.Config.State.{Config}
use nrp_reference.Client.Request.{
  Draft, request_peers, request_messages, construct_request, server_msg_support_count,
}

abbrev ask : ℕ → ℕ → Message
ask msg_type count = record { msg_type = msg_type; count = count; content = [] }

-- The messages of a request in their order: entropy, then the peers that both sides have enabled.
-- Entropy, then the peers of the two families, if they are wanted.
abbrev pub wanted : ℕ → Bool → Bool → List Message
wanted entropy true true =
    ask MsgType.entropy entropy ∷ ask MsgType.ip4peers 0 ∷ ask MsgType.ip6peers 0 ∷ []
wanted entropy true false = ask MsgType.entropy entropy ∷ ask MsgType.ip4peers 0 ∷ []
wanted entropy false true = ask MsgType.entropy entropy ∷ ask MsgType.ip6peers 0 ∷ []
wanted entropy false false = ask MsgType.entropy entropy ∷ []

-- The messages of a request: the peers of a family are wanted if both sides have it enabled.
abbrev pub requested : Config → ServerRecord → List Message
requested c server =
    wanted c.default_entropy (server.ip4_peers && c.client_enable_ip4)
      (server.ip6_peers && c.client_enable_ip6)

ask-IsMessage : (t n : ℕ) → 4 ≤ t → t ≤ 6 → n < 256 → IsMessage true (ask t n)
ask-IsMessage t n lo hi small = record {
  body = inl (lo, hi, refl);
  count_byte = small;
  size = omega arith;
}

wanted-IsPacket : (n : ℕ) (four six : Bool) → n < 256 → IsPacket true (wanted n four six)
wanted-IsPacket n true true d = record {
  messages = (
    ask-IsMessage 5 n (omega arith) (omega arith) d,
    (
      ask-IsMessage 4 0 (omega arith) (omega arith) (omega arith),
      (ask-IsMessage 6 0 (omega arith) (omega arith) (omega arith), tt),
    ),
  );
  some_message = omega arith;
  count_byte = omega arith;
  size = omega arith;
}
wanted-IsPacket n true false d = record {
  messages = (
    ask-IsMessage 5 n (omega arith) (omega arith) d,
    (ask-IsMessage 4 0 (omega arith) (omega arith) (omega arith), tt),
  );
  some_message = omega arith;
  count_byte = omega arith;
  size = omega arith;
}
wanted-IsPacket n false true d = record {
  messages = (
    ask-IsMessage 5 n (omega arith) (omega arith) d,
    (ask-IsMessage 6 0 (omega arith) (omega arith) (omega arith), tt),
  );
  some_message = omega arith;
  count_byte = omega arith;
  size = omega arith;
}
wanted-IsPacket n false false d = record {
  messages = (ask-IsMessage 5 n (omega arith) (omega arith) d, tt);
  some_message = omega arith;
  count_byte = omega arith;
  size = omega arith;
}

pub requested-IsPacket :
    (c : Config) (server : ServerRecord)
    → c.default_entropy < 256
    → IsPacket true (requested c server)
requested-IsPacket c server d =
    wanted-IsPacket c.default_entropy (server.ip4_peers && c.client_enable_ip4)
      (server.ip6_peers && c.client_enable_ip6) d

draft_of : List Message → Bytes → Draft
draft_of ms dst = record {
  body = encode_messages ms;
  msg = some (drop (messages_size ms) dst);
  msg_count = length ms;
  msg_size = 4 + messages_size ms;
}

entropy_asked :
    (n : ℕ) (dst : Bytes)
    → 4 ≤ length dst
    → generate_request_entropy_message n (some dst)
      ≡ ok (some (record { written = header_bytes 4 MsgType.entropy n; next = drop 4 dst }))
unfolding generate_request_entropy_message
entropy_asked n dst room =
    rw (write_room (header_bytes 4 MsgType.entropy n) dst 4 (omega arith) room) refl

peers_asked :
    (t : ℕ) (dst : Bytes)
    → (t ≡ MsgType.ip4peers) ⊎ (t ≡ MsgType.ip6peers)
    → 4 ≤ length dst
    → generate_request_peers_message t 0 (some dst)
      ≡ ok (some (record { written = header_bytes 4 t 0; next = drop 4 dst }))
unfolding generate_request_peers_message
peers_asked t dst h room = ground (arith, write_room (header_bytes 4 t 0) dst 4)

request_messages-draft :
    (c : Config) (server : ServerRecord) (dst : Bytes) (four six : Bool)
    → c.default_entropy < 256
    → (server.ip4_peers && c.client_enable_ip4) ≡ four
    → (server.ip6_peers && c.client_enable_ip6) ≡ six
    → messages_size (wanted c.default_entropy four six) ≤ length dst
    → request_messages c server dst ≡ ok (draft_of (wanted c.default_entropy four six) dst)
unfolding request_messages request_peers draft_of
request_messages-draft c server dst true true d h4 h6 room =
    let byte : to_byte c.default_entropy ≡ c.default_entropy = omega arith in
    rw
      (
        byte,
        entropy_asked c.default_entropy dst (omega arith),
        h4,
        peers_asked 4 (drop 4 dst) (inl refl) (omega (arith, length-drop 4 dst)),
        h6,
        peers_asked 6 (drop 4 (drop 4 dst)) (inr refl)
            (omega (arith, length-drop 4 dst, length-drop 4 (drop 4 dst))),
        sym (drop-add 4 4 dst),
        sym (drop-add 8 4 dst),
      )
      refl
request_messages-draft c server dst true false d h4 h6 room =
    let byte : to_byte c.default_entropy ≡ c.default_entropy = omega arith in
    rw
      (
        byte,
        entropy_asked c.default_entropy dst (omega arith),
        h4,
        peers_asked 4 (drop 4 dst) (inl refl) (omega (arith, length-drop 4 dst)),
        h6,
        sym (drop-add 4 4 dst),
      )
      refl
request_messages-draft c server dst false true d h4 h6 room =
    let byte : to_byte c.default_entropy ≡ c.default_entropy = omega arith in
    rw
      (
        byte,
        entropy_asked c.default_entropy dst (omega arith),
        h4,
        h6,
        peers_asked 6 (drop 4 dst) (inr refl) (omega (arith, length-drop 4 dst)),
        sym (drop-add 4 4 dst),
      )
      refl
request_messages-draft c server dst false false d h4 h6 room =
    let byte : to_byte c.default_entropy ≡ c.default_entropy = omega arith in
    rw (byte, entropy_asked c.default_entropy dst (omega arith), h4, h6) refl

packet_header_asked :
    (len count : ℕ) (dst : Bytes)
    → len ≤ 65507
    → 0 < count
    → 4 ≤ length dst
    → generate_packet_header len MsgType.request count (some dst)
      ≡ ok (some (record { written = header_bytes len MsgType.request count; next = drop 4 dst }))
unfolding generate_packet_header
packet_header_asked len count dst small more room =
    ground (arith, write_room (header_bytes len MsgType.request count) dst 4)

wanted_room :
    (n : ℕ) (a b c d : Bool)
    → messages_size (wanted n (a && b) (c && d)) + 4
      ≤ 4 * (2 + (if a then 1 else 0) + (if c then 1 else 0))
wanted_room n a b c d = ground arith

-- In a buffer that has the stated size and room for every message that the server supports, and with a
-- default entropy size below 256, `ConstructRequest` writes the packet that asks for entropy and for the
-- peers of the families that both sides have enabled, and reports its length.
pub construct_request-encode :
    (c : Config) (server : ServerRecord) (buf_size : ℕ) (buffer : Bytes)
    → c.default_entropy < 256
    → 4 * server_msg_support_count server ≤ buf_size
    → buf_size ≤ length buffer
    → (rest : Bytes) × (construct_request c server buf_size buffer
        ≡ ok (
            some (
              encode_packet MsgType.request (requested c server) ++ rest,
              4 + messages_size (requested c server),
            )))
unfolding construct_request draft_of
construct_request-encode c server buf_size buffer d enough room =
    let ms = requested c server in
    let v =
      wanted-IsPacket c.default_entropy (server.ip4_peers && c.client_enable_ip4)
        (server.ip6_peers && c.client_enable_ip6) d in
    let need =
      wanted_room c.default_entropy server.ip4_peers c.client_enable_ip4 server.ip6_peers
        c.client_enable_ip6 in
    let small : ltb buf_size (4 * server_msg_support_count server) ≡ false = ground arith in
    let byte : to_byte (length ms) ≡ length ms = omega (arith, v.count_byte) in
    let have : messages_size ms + 4 ≤ length buffer = omega arith in
    (
      drop (length (encode_messages ms)) (drop 4 buffer),
      rw
          (
            small,
            request_messages-draft c server (drop 4 buffer) _ _ d refl refl
                (omega (arith, length-drop 4 buffer)),
            byte,
            packet_header_asked (4 + messages_size ms) (length ms) buffer v.size v.some_message
                (omega arith),
            append_assoc (header_bytes (4 + messages_size ms) MsgType.request (length ms))
                (encode_messages ms) (drop (length (encode_messages ms)) (drop 4 buffer)),
          )
          refl,
    )

-- In a buffer that has the stated size and room for every message that the server supports, and with a
-- default entropy size below 256, what `ConstructRequest` writes passes a server's validation.
construct_request-validate_packet :
    (c : Config) (server : ServerRecord) (buf_size : ℕ) (buffer : Bytes)
    → c.default_entropy < 256
    → 4 * server_msg_support_count server ≤ buf_size
    → buf_size ≤ length buffer
    → (request : Bytes) × (size : ℕ) × (construct_request c server buf_size buffer
        ≡ ok (some (request, size)))
      × (validate_packet 4 (some request) true ≡ ok true)
construct_request-validate_packet c server buf_size buffer d enough room =
    let (rest, e) = construct_request-encode c server buf_size buffer d enough room in
    let ms = requested c server in
    let v =
      wanted-IsPacket c.default_entropy (server.ip4_peers && c.client_enable_ip4)
        (server.ip6_peers && c.client_enable_ip6) d in
    let few : length ms < 4 = ground arith in
    (
      encode_packet MsgType.request ms ++ rest,
      4 + messages_size ms,
      e,
      validate_packet-encode_packet true ms rest 4 v few,
    )
