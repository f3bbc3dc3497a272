-- ===== src/Protocol/Complete.antt =====
-- The validators accept every well-formed packet.
use nrp_reference.Base.{
  ℕ, zero, suc, ◌+◌, ◌*◌, ◌<◌, ◌≡◌, refl, Bool, true, false, List, [], ◌∷◌, ◌++◌, length, All,
  append_assoc, arith, ok, some, drop, drop-append,
}
use nrp_reference.Protocol.Layout.{Bytes, Header, read_header, next_message}
use nrp_reference.Protocol.Validate.{
  validate_rejection, validate_rejections, validate_reject_header, validate_content,
  validate_header, validate_message_size, validate_message_header, validate_messages,
  validate_packet, validate_packet_header,
}
use nrp_reference.Protocol.Packet.{
  Message, message_size, encode_message, encode_messages, messages_size, encode_packet, Rejections,
  IsRejection, IsMessage, IsPacket, packet_type,
}

validate_rejection-true : (t r : ℕ) → IsRejection t r → validate_rejection t r ≡ true
unfolding validate_rejection
validate_rejection-true t r h = ground arith

validate_rejections-true :
    (n : ℕ) (content rest : Bytes)
    → Rejections n content
    → validate_rejections n (content ++ rest) ≡ ok true
unfolding validate_rejections
validate_rejections-true zero content rest h = refl
validate_rejections-true (suc n) [] rest h = absurd h
validate_rejections-true (suc n) (t ∷ []) rest h = absurd h
validate_rejections-true (suc n) (t ∷ r ∷ content) rest (q, h) =
    rw (validate_rejection-true t r q) (validate_rejections-true n content rest h)

length-Rejections : (n : ℕ) (content : Bytes) → Rejections n content → length content ≡ n * 2
length-Rejections zero [] h = omega arith
length-Rejections zero (t ∷ content) h = absurd h
length-Rejections (suc n) [] h = absurd h
length-Rejections (suc n) (t ∷ []) h = absurd h
length-Rejections (suc n) (t ∷ r ∷ content) (q, h) = omega (arith, length-Rejections n content h)

-- The header that the bytes of a message spell, with what lies behind it.
abbrev pub header_of : Message → Bytes → Header
header_of m rest = record {
  length = message_size m;
  msg_type = m.msg_type;
  count = m.count;
  content = m.content ++ rest;
}

pub read_header-encode :
    (m : Message) (rest : Bytes)
    → message_size m < 65536
    → read_header (encode_message m ++ rest) ≡ ok (header_of m rest)
unfolding read_header
read_header-encode m rest h = ground arith

pub validate_header-encode :
    (is_request : Bool) (m : Message) (rest : Bytes)
    → IsMessage is_request m
    → validate_header (header_of m rest) is_request ≡ ok true
unfolding validate_header validate_content validate_message_size validate_reject_header
validate_header-encode true m rest v = ground arith
validate_header-encode false m rest v =
    ground
      (arith, validate_rejections-true m.count m.content rest, length-Rejections m.count m.content)

validate_message_header-encode :
    (is_request : Bool) (m : Message) (rest : Bytes)
    → IsMessage is_request m
    → validate_message_header (some (encode_message m ++ rest)) is_request ≡ ok true
unfolding validate_message_header
validate_message_header-encode is_request m rest v =
    rw (read_header-encode m rest (omega (arith, v.size)))
      (validate_header-encode is_request m rest v)

pub drop-encode :
    (m : Message) (rest : Bytes) → drop (message_size m) (encode_message m ++ rest) ≡ rest
drop-encode m rest = drop-append (encode_message m) rest (message_size m) (omega arith)

pub next_message-encode :
    (at : ℕ) (m : Message) (rest : Bytes)
    → message_size m < 65536
    → next_message (record { at = at; bytes = encode_message m ++ rest })
      ≡ ok (record { at = at + message_size m; bytes = rest })
unfolding next_message
next_message-encode at m rest h = ground (arith, read_header-encode m rest h, drop-encode m rest)

validate_messages-encode :
    (is_request : Bool) (ms : List Message) (rest : Bytes) (fuel end at count : ℕ)
    → All (IsMessage is_request) ms
    → length ms < fuel
    → at + messages_size ms ≡ end
    → validate_messages fuel is_request end
        (record { at = at; bytes = encode_messages ms ++ rest })
        count
      ≡ ok (some (record { at = end; bytes = rest }, count + length ms))
unfolding validate_messages
validate_messages-encode is_request [] rest zero end at count v f e = absurd (omega arith)
validate_messages-encode is_request [] rest (suc fuel) end at count v f e = ground arith
validate_messages-encode is_request (m ∷ ms) rest zero end at count v f e = absurd (omega arith)
validate_messages-encode is_request (m ∷ ms) rest (suc fuel) end at count (v, vs) f e =
    rw (append_assoc (encode_message m) (encode_messages ms) rest) (
      ground (
        arith,
        validate_message_header-encode is_request m (encode_messages ms ++ rest) v,
        next_message-encode at m (encode_messages ms ++ rest),
        validate_messages-encode is_request ms rest fuel end (at + message_size m) (count + 1) vs,
      ))

-- Every well-formed packet, request or response, passes validation, whatever stands behind it in the
-- buffer: the loop ends within a fuel above the number of messages and reads nothing outside the array.
pub validate_packet-encode_packet :
    (is_request : Bool) (ms : List Message) (rest : Bytes) (fuel : ℕ)
    → IsPacket is_request ms
    → length ms < fuel
    → validate_packet fuel (some (encode_packet (packet_type is_request) ms ++ rest)) is_request
      ≡ ok true
unfolding validate_packet validate_packet_header read_header
validate_packet-encode_packet true ms rest fuel v f =
    ground
      (arith, validate_messages-encode true ms rest fuel (4 + messages_size ms) 4 0 v.messages f)
validate_packet-encode_packet false ms rest fuel v f =
    ground
      (arith, validate_messages-encode false ms rest fuel (4 + messages_size ms) 4 0 v.messages f)
