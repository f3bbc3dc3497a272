-- ===== src/Protocol/Bounds.antt =====
-- Which bytes `ValidatePacket` reads: none outside the array if the array has a margin behind the end
-- that the packet states, and past the array's end if it has none.
use nrp_reference.Protocol.MsgType
use nrp_reference.Base.{
  ℕ, zero, suc, ◌+◌, ◌*◌, ◌≤◌, ◌<◌, ◌≡◌, ◌≢◌, [], ◌∷◌, refl, ap, ◌⊎◌, inl, inr, Bool, true, false,
  some, Outcome, ok, undefined, out_of_fuel, arith, All, All-drop, ltb, Bool-cases, ltb→lt, length,
  drop, length-drop,
}
use nrp_reference.Protocol.Layout.{
  Bytes, Header, Pointer, read_header, next_message, advance, packet_header_size,
}
use nrp_reference.Protocol.Validate.{
  validate_rejections, validate_reject_header, validate_content, validate_header,
  validate_message_header, validate_messages, validate_packet, validate_packet_header,
}
use nrp_reference.Protocol.Sound.{IsByte, read_header_bytes}

-- A read leaves the array only if fewer bytes are left than it needs.
read_header-undefined : (bs : Bytes) → read_header bs ≡ undefined → length bs < 4
unfolding read_header
read_header-undefined [] h = omega arith
read_header-undefined (a ∷ []) h = omega arith
read_header-undefined (a ∷ b ∷ []) h = omega arith
read_header-undefined (a ∷ b ∷ t ∷ []) h = omega arith
read_header-undefined (a ∷ b ∷ t ∷ c ∷ rest) h = cc

read_header_short : (bs : Bytes) → length bs < 4 → read_header bs ≡ undefined
unfolding read_header
read_header_short [] h = refl
read_header_short (a ∷ []) h = refl
read_header_short (a ∷ b ∷ []) h = refl
read_header_short (a ∷ b ∷ t ∷ []) h = refl
read_header_short (a ∷ b ∷ t ∷ c ∷ rest) h = absurd (omega arith)

validate_rejections-undefined :
    (n : ℕ) (content : Bytes) → validate_rejections n content ≡ undefined → length content < n * 2
unfolding validate_rejections
validate_rejections-undefined zero content h = cc
validate_rejections-undefined (suc n) [] h = omega arith
validate_rejections-undefined (suc n) (t ∷ []) h = omega arith
validate_rejections-undefined (suc n) (t ∷ r ∷ content) h =
    ground (arith, validate_rejections-undefined n content)

-- How far behind a message's start its checks may read.
abbrev pub margin : Bool → ℕ
margin true = 3
margin false = 513

validate_header-defined :
    (hdr : Header) (is_request : Bool)
    → hdr.count < 256
    → margin is_request ≤ 3 + length hdr.content
    → validate_header hdr is_request ≢ undefined
unfolding validate_header validate_content validate_reject_header
validate_header-defined hdr true c l h = ground arith
validate_header-defined hdr false c l h =
    ground (arith, validate_rejections-undefined hdr.count hdr.content)

-- A round that went wrong did so at its header, or in a later round.
abbrev Wrong : Bool → ℕ → ℕ → Pointer → ℕ → Type 0
Wrong is_request end fuel p count =
    (read_header p.bytes ≡ undefined)
    ⊎ ((hdr : Header) × (read_header p.bytes ≡ ok hdr)
        × ((validate_header hdr is_request ≡ undefined)
            ⊎ (validate_messages fuel is_request end (advance p hdr.length) (count + 1)
                ≡ undefined)))

Wrong-header :
    (is_request : Bool) (end fuel : ℕ) (p : Pointer) (count : ℕ) (m : Outcome Header)
    → read_header p.bytes ≡ m
    → p.at < end
    → validate_messages (suc fuel) is_request end p count ≡ undefined
    → Wrong is_request end fuel p count
unfolding validate_messages validate_message_header next_message
Wrong-header is_request end fuel p count (ok hdr) r lt h = inr (hdr, r, ground arith)
Wrong-header is_request end fuel p count undefined r lt h = inl r
Wrong-header is_request end fuel p count out_of_fuel r lt h = absurd (ground arith)

three-le-margin : (is_request : Bool) → 3 ≤ margin is_request
three-le-margin true = omega arith
three-le-margin false = omega arith

loop_defined :
    (is_request : Bool) (end fuel : ℕ) (p : Pointer) (count : ℕ)
    → All IsByte p.bytes
    → (end ≤ p.at) ⊎ (end + margin is_request ≤ p.at + length p.bytes)
    → validate_messages fuel is_request end p count ≢ undefined
unfolding validate_messages
loop_defined is_request end zero p count b room h = cc
loop_defined is_request end (suc fuel) p count b room h = elim (Bool-cases (ltb p.at end)) [
  | inr done ↦ absurd (ground arith)
  | inl more ↦
      let lt = ltb→lt p.at end more in
      let three = three-le-margin is_request in
      elim (Wrong-header is_request end fuel p count (read_header p.bytes) refl lt h) [
        | inl short ↦ absurd (omega (arith, read_header-undefined p.bytes short))
        | inr (hdr, r, wrong) ↦
            let (spelt, small, count_byte, bytes) = read_header_bytes p.bytes hdr r b in
            elim wrong [
              | inl v ↦
                  validate_header-defined hdr is_request count_byte (omega (arith, ap length spelt))
                    v
              | inr rest ↦
                  loop_defined is_request end fuel (advance p hdr.length) (count + 1)
                    (All-drop IsByte hdr.length p.bytes b)
                    (omega (arith, length-drop hdr.length p.bytes)) rest
            ]
      ]
]

abbrev start : Header → Pointer
start pkt = record { at = packet_header_size; bytes = pkt.content }

wrong_loop :
    (fuel : ℕ) (pkt : Header) (is_request : Bool)
    → validate_packet_header fuel pkt is_request ≡ undefined
    → validate_messages fuel is_request pkt.length (start pkt) 0 ≡ undefined
unfolding validate_packet_header
wrong_loop fuel pkt is_request h = ground arith

-- Validation reads nothing outside a buffer of bytes that goes on behind the stated end of the packet, by
-- three bytes for a request and by 513 for a response.
pub validate_packet-defined :
    (is_request : Bool) (fuel : ℕ) (buffer : Bytes) (pkt : Header)
    → All IsByte buffer
    → read_header buffer ≡ ok pkt
    → pkt.length + margin is_request ≤ length buffer
    → validate_packet fuel (some buffer) is_request ≢ undefined
unfolding validate_packet
validate_packet-defined is_request fuel buffer pkt b r room h =
    let (spelt, small, count_byte, bytes) = read_header_bytes buffer pkt r b in
    loop_defined is_request pkt.length fuel (start pkt) 0 bytes
      (inr (omega (arith, ap length spelt))) (wrong_loop fuel pkt is_request (ground arith))

-- A request that states the length of the server's whole buffer, with a first message of a type above that
-- of IPv6 peers that ends within the packet but less than four bytes before its end, is read past the
-- buffer's end.
pub validate_request_packet-overrun :
    (fuel : ℕ) (buffer : Bytes) (pkt hdr : Header)
    → read_header buffer ≡ ok pkt
    → length buffer ≡ 65507
    → pkt.length ≡ 65507
    → pkt.msg_type ≡ MsgType.request
    → pkt.count ≢ 0
    → read_header pkt.content ≡ ok hdr
    → 65499 < hdr.length
    → hdr.length < 65503
    → MsgType.ip6peers < hdr.msg_type
    → All IsByte buffer
    → validate_packet (suc (suc fuel)) (some buffer) true ≡ undefined
unfolding validate_packet validate_packet_header validate_messages validate_message_header
    next_message validate_header validate_content
validate_request_packet-overrun fuel buffer pkt hdr r full len kind count first low high unknown b =
    let (spelt, small, count_byte, bytes) = read_header_bytes buffer pkt r b in
    let short : length (drop hdr.length pkt.content) < 4 =
      omega (arith, ap length spelt, length-drop hdr.length pkt.content) in
    ground (arith, read_header_short (drop hdr.length pkt.content) short)
