-- ===== src/Protocol/Sound.antt =====
-- What the validators accept in a response is a well-formed packet.
use nrp_reference.Protocol.MsgType
use nrp_reference.Base.{
  ℕ, zero, suc, ◌+◌, ◌-◌, ◌*◌, ◌≤◌, ◌<◌, ◌≡◌, refl, sym, ap, ◌∙◌, inl, inr, Bool, true, false, ltb,
  ◌&&◌, List, [], ◌∷◌, ◌++◌, append_assoc, some, ok, arith, length, take, drop, All, All-drop,
  take-append-drop, length-take, length-drop, Bool-cases,
}
use nrp_reference.Protocol.Layout.{Bytes, Header, Pointer, read_header, advance, header_bytes}
use nrp_reference.Protocol.Validate.{
  validate_rejection, validate_rejections, validate_reject_header, validate_content,
  validate_header, validate_message_size, validate_packet,
}
use nrp_reference.Protocol.Packet.{
  Message, message_size, encode_message, encode_messages, messages_size, encode_packet, Rejections,
  IsRejection, IsMessage, IsPacket,
}
use nrp_reference.Protocol.Accept.{Accepted-of_true}
use nrp_reference.Protocol.Walk.{Walk, TypesBelow, Walk-le}

abbrev pub IsByte : ℕ → Type 0
IsByte b = b < 256

-- A test for lists of bytes.
abbrev pub are_bytes : Bytes → Bool
are_bytes [] = true
are_bytes (b ∷ bs) = ltb b 256 && are_bytes bs

pub All-are_bytes : (bs : Bytes) → are_bytes bs ≡ true → All IsByte bs
All-are_bytes [] h = tt
All-are_bytes (b ∷ bs) h = (ground arith, All-are_bytes bs (ground arith))

-- The bytes that a header was read from.
pub read_header_bytes :
    (bs : Bytes) (hdr : Header)
    → read_header bs ≡ ok hdr
    → All IsByte bs
    → (bs ≡ header_bytes hdr.length hdr.msg_type hdr.count ++ hdr.content)
      × (hdr.length < 65536)
      × (hdr.count < 256)
      × All IsByte hdr.content
unfolding read_header
read_header_bytes [] hdr r h = cc
read_header_bytes (a ∷ []) hdr r h = cc
read_header_bytes (a ∷ b ∷ []) hdr r h = cc
read_header_bytes (a ∷ b ∷ t ∷ []) hdr r h = cc
read_header_bytes (a ∷ b ∷ t ∷ c ∷ rest) hdr r h = ground arith

read_header-type :
    (bs : Bytes) (hdr : Header) → read_header bs ≡ ok hdr → All IsByte bs → hdr.msg_type < 256
unfolding read_header
read_header-type [] hdr r h = cc
read_header-type (a ∷ []) hdr r h = cc
read_header-type (a ∷ b ∷ []) hdr r h = cc
read_header-type (a ∷ b ∷ t ∷ []) hdr r h = cc
read_header-type (a ∷ b ∷ t ∷ c ∷ rest) hdr r h = ground arith

-- Types are bytes.
pub TypesBelow-byte :
    (is_request : Bool) (end n : ℕ) (p q : Pointer) (w : Walk is_request end n p q)
    → All IsByte p.bytes
    → TypesBelow 256 is_request end n p q w
TypesBelow-byte is_request end zero p q w b = tt
TypesBelow-byte is_request end (suc n) p q (lt, (hdr, r, v, w)) b = (
  read_header-type p.bytes hdr r b,
  TypesBelow-byte is_request end n (advance p hdr.length) q w
      (All-drop IsByte hdr.length p.bytes b),
)

IsRejection-of_true : (t r : ℕ) → validate_rejection t r ≡ true → IsRejection t r
unfolding validate_rejection
IsRejection-of_true t r h = ground arith

Rejections-of_true :
    (n k : ℕ) (content : Bytes)
    → validate_rejections n content ≡ ok true
    → k ≡ n * 2
    → Rejections n (take k content)
unfolding validate_rejections
Rejections-of_true zero zero content h e = tt
Rejections-of_true zero (suc k) content h e = absurd (omega arith)
Rejections-of_true (suc n) zero content h e = absurd (omega arith)
Rejections-of_true (suc n) (suc zero) content h e = absurd (omega arith)
Rejections-of_true (suc n) (suc (suc k)) [] h e = cc
Rejections-of_true (suc n) (suc (suc k)) (t ∷ []) h e = cc
Rejections-of_true (suc n) (suc (suc k)) (t ∷ r ∷ content) h e =
    elim (Bool-cases (validate_rejection t r)) [
      | inl good ↦ (
        IsRejection-of_true t r good,
        Rejections-of_true n k content (ground arith) (omega arith),
      )
      | inr bad ↦ absurd (ground arith)
    ]

message_of : Header → Message
message_of hdr = record {
  msg_type = hdr.msg_type;
  count = hdr.count;
  content = take (hdr.length - 4) hdr.content;
}

-- A message that passes states a length that covers its header, and its content is as it must be.
message_of_valid :
    (hdr : Header)
    → validate_header hdr false ≡ ok true
    → hdr.length < 65536
    → hdr.count < 256
    → hdr.length ≤ 4 + length hdr.content
    → (4 ≤ hdr.length) × IsMessage false (message_of hdr)
unfolding validate_header validate_content validate_message_size validate_reject_header message_of
message_of_valid hdr v l c bound = (
  ground arith,
  record {
    body = ground (
      arith,
      Rejections-of_true hdr.count (hdr.length - 4) hdr.content,
      length-take (hdr.length - 4) hdr.content,
    );
    count_byte = c;
    size = ground (arith, length-take (hdr.length - 4) hdr.content);
  },
)

-- The bytes between the two ends of a walk over a response are the bytes of well-formed messages.
abbrev Decodes : ℕ → Pointer → Pointer → Type 0
Decodes n p q =
    (ms : List Message) × All (IsMessage false) ms
    × (length ms ≡ n)
    × (p.bytes ≡ encode_messages ms ++ q.bytes)
    × (q.at ≡ p.at + messages_size ms)

pub drop_header :
    (n k a b c d : ℕ) (xs : Bytes) → n ≡ 4 + k → drop n (a ∷ b ∷ c ∷ d ∷ xs) ≡ drop k xs
drop_header (suc (suc (suc (suc n)))) k a b c d xs e = ap (λ j. drop j xs) (omega arith)
drop_header _ k a b c d xs e = absurd (omega arith)

message_size-message_of :
    (hdr : Header)
    → 4 ≤ hdr.length
    → hdr.length ≤ 4 + length hdr.content
    → message_size (message_of hdr) ≡ hdr.length
unfolding message_of
message_size-message_of hdr h bound = omega (arith, length-take (hdr.length - 4) hdr.content)

encode_of_header :
    (hdr : Header)
    → 4 ≤ hdr.length
    → hdr.length ≤ 4 + length hdr.content
    → header_bytes hdr.length hdr.msg_type hdr.count ++ hdr.content
      ≡ encode_message (message_of hdr) ++ drop (hdr.length - 4) hdr.content
unfolding message_of
encode_of_header hdr h bound =
    rw (message_size-message_of hdr h bound, take-append-drop (hdr.length - 4) hdr.content)

Decodes-step :
    (n : ℕ) (p q : Pointer) (hdr : Header)
    → p.bytes ≡ header_bytes hdr.length hdr.msg_type hdr.count ++ hdr.content
    → 4 ≤ hdr.length
    → hdr.length ≤ 4 + length hdr.content
    → IsMessage false (message_of hdr)
    → Decodes n (advance p hdr.length) q
    → Decodes (suc n) p q
Decodes-step n p q hdr spelt long within good (ms, all, len, rest, at) =
    (message_of hdr ∷ ms, (good, all), ap suc len, bytes, total)
  where
    behind : drop hdr.length p.bytes ≡ drop (hdr.length - 4) hdr.content
    behind = rw spelt (drop_header hdr.length (hdr.length - 4) _ _ _ _ _ (omega arith))

    bytes : p.bytes ≡ encode_messages (message_of hdr ∷ ms) ++ q.bytes
    bytes =
        spelt
        ∙ encode_of_header hdr long within
        ∙ ap (◌++◌ (encode_message (message_of hdr))) (sym behind ∙ rest)
        ∙ sym (append_assoc (encode_message (message_of hdr)) (encode_messages ms) q.bytes)

    total : q.at ≡ p.at + messages_size (message_of hdr ∷ ms)
    total = omega (arith, message_size-message_of hdr long within)

decode-Walk :
    (end n : ℕ) (p q : Pointer)
    → Walk false end n p q
    → All IsByte p.bytes
    → end ≤ p.at + length p.bytes
    → q.at ≤ end
    → Decodes n p q
decode-Walk end zero p q (e, same) b l qe = ([], tt, refl, ground arith, ground arith)
decode-Walk end (suc n) p q (lt, (hdr, r, v, w)) b l qe =
    let (spelt, small, count_byte, bytes) = read_header_bytes p.bytes hdr r b in
    let on = Walk-le false end n (advance p hdr.length) q w in
    let within : hdr.length ≤ 4 + length hdr.content = omega (arith, ap length spelt) in
    let (long, good) = message_of_valid hdr v small count_byte within in
    Decodes-step n p q hdr spelt long within good (
      decode-Walk end n (advance p hdr.length) q w (All-drop IsByte hdr.length p.bytes b)
        (omega (arith, length-drop hdr.length p.bytes)) qe)

module _ (pkt : Header) (ms : List Message) where
  header_packet :
      (rest : Bytes)
      → pkt.length ≡ 4 + messages_size ms
      → pkt.msg_type ≡ MsgType.response
      → length ms ≡ pkt.count
      → pkt.content ≡ encode_messages ms ++ rest
      → header_bytes pkt.length pkt.msg_type pkt.count ++ pkt.content
        ≡ encode_packet MsgType.response ms ++ rest
  header_packet rest l t n c = rw (l, t, ← n, c) refl

  IsPacket-of :
      All (IsMessage false) ms
      → length ms ≡ pkt.count
      → pkt.length ≡ 4 + messages_size ms
      → pkt.count < 256
      → 0 < pkt.count
      → pkt.length ≤ 65507
      → IsPacket false ms
  IsPacket-of all n l count_byte more small = record {
    messages = all;
    some_message = omega arith;
    count_byte = omega arith;
    size = omega arith;
  }

-- A response that passes validation in a buffer of at least 65,507 bytes is the encoding of well-formed
-- messages, at least one and at most 255 of them, with nothing between or behind them up to the length
-- that its header states.
pub encode_packet-of_validate_packet :
    (fuel : ℕ) (buffer : Bytes)
    → validate_packet fuel (some buffer) false ≡ ok true
    → All IsByte buffer
    → 65507 ≤ length buffer
    → (ms : List Message) × (rest : Bytes) × IsPacket false ms
      × (buffer ≡ encode_packet MsgType.response ms ++ rest)
encode_packet-of_validate_packet fuel buffer h b l =
    let (pkt, a) = Accepted-of_true false fuel buffer h in
    let (spelt, small, count_byte, bytes) = read_header_bytes buffer pkt a.header b in
    let (ms, all, len, body, at) =
      decode-Walk pkt.length pkt.count (record { at = 4; bytes = pkt.content }) a.end a.walk bytes
        (omega (arith, ap length spelt, a.small)) (omega (arith, a.exact)) in
    (
      ms,
      a.end.bytes,
      IsPacket-of pkt ms all len (omega (arith, a.exact)) count_byte a.some_message a.small,
      spelt ∙ header_packet pkt ms a.end.bytes (omega (arith, a.exact)) a.kind len body,
    )
