-- ===== src/Protocol/Termination.antt =====
-- When the loop of `ValidatePacket` ends: on every response, and on a request unless a message of a
-- type that the server does not know states the length zero.
use nrp_reference.Protocol.MsgType
use nrp_reference.Base.{
  ℕ, zero, suc, ◌+◌, ◌*◌, ◌≤◌, ◌<◌, ◌≡◌, ◌≢◌, [], ◌∷◌, refl, ◌⊎◌, inl, inr, Bool, true, false, some,
  Outcome, ok, undefined, out_of_fuel, arith, All, All-drop, ltb, Bool-cases, ltb→lt, drop,
  drop-add, ◌++◌, >>=-eq-out_of_fuel,
}
use nrp_reference.Protocol.Layout.{
  Bytes, header_bytes, Header, Pointer, read_header, next_message, advance, packet_header_size,
}
use nrp_reference.Protocol.Validate.{
  validate_rejections, validate_reject_header, validate_content, validate_header,
  validate_message_size, validate_message_header, validate_messages, validate_packet,
  validate_packet_header,
}
use nrp_reference.Protocol.Sound.{IsByte, read_header_bytes}

-- A header that passes in a response states a length that covers itself.
response_advances :
    (hdr : Header) → hdr.count < 256 → validate_header hdr false ≡ ok true → 4 ≤ hdr.length
unfolding validate_header validate_content validate_message_size validate_reject_header
response_advances hdr c v = ground arith

read_header-ends : (bs : Bytes) → read_header bs ≢ out_of_fuel
unfolding read_header
read_header-ends [] h = cc
read_header-ends (a ∷ []) h = cc
read_header-ends (a ∷ b ∷ []) h = cc
read_header-ends (a ∷ b ∷ t ∷ []) h = cc
read_header-ends (a ∷ b ∷ t ∷ c ∷ rest) h = cc

-- Checking one header takes no loop but the bounded one over rejections.
validate_rejections-ends : (n : ℕ) (content : Bytes) → validate_rejections n content ≢ out_of_fuel
unfolding validate_rejections
validate_rejections-ends zero content h = cc
validate_rejections-ends (suc n) [] h = cc
validate_rejections-ends (suc n) (t ∷ []) h = cc
validate_rejections-ends (suc n) (t ∷ r ∷ content) h =
    ground (arith, validate_rejections-ends n content)

validate_header-ends :
    (hdr : Header) (is_request : Bool) → validate_header hdr is_request ≢ out_of_fuel
unfolding validate_header validate_content validate_reject_header
validate_header-ends hdr is_request h =
    ground (arith, validate_rejections-ends hdr.count hdr.content)

-- A loop that did not end has made its first round over a valid message, and did not end from there.
abbrev Unended : Bool → ℕ → ℕ → Pointer → ℕ → Type 0
Unended is_request end fuel p count =
    (hdr : Header) × (p.at < end)
    × (read_header p.bytes ≡ ok hdr)
    × (validate_header hdr is_request ≡ ok true)
    × (validate_messages fuel is_request end (advance p hdr.length) (count + 1) ≡ out_of_fuel)

-- The first message of the loop, if it can be read.
after_header :
    (is_request : Bool) (end fuel : ℕ) (p : Pointer) (count : ℕ) (m : Outcome Header)
    → read_header p.bytes ≡ m
    → p.at < end
    → validate_messages (suc fuel) is_request end p count ≡ out_of_fuel
    → Unended is_request end fuel p count
unfolding validate_messages validate_message_header next_message
after_header is_request end fuel p count (ok hdr) r lt h = (
  hdr,
  lt,
  r,
  ground (arith, validate_header-ends hdr is_request),
  ground (arith, validate_header-ends hdr is_request),
)
after_header is_request end fuel p count undefined r lt h = absurd (ground arith)
after_header is_request end fuel p count out_of_fuel r lt h = absurd (read_header-ends p.bytes r)

round-Unended :
    (is_request : Bool) (end fuel : ℕ) (p : Pointer) (count : ℕ)
    → validate_messages (suc fuel) is_request end p count ≡ out_of_fuel
    → Unended is_request end fuel p count
unfolding validate_messages
round-Unended is_request end fuel p count h = elim (Bool-cases (ltb p.at end)) [
  | inl more ↦
      after_header is_request end fuel p count (read_header p.bytes) refl (ltb→lt p.at end more) h
  | inr done ↦ absurd (ground arith)
]

-- Each round over a response moves on by four bytes at least.
response_loop_ends :
    (end fuel : ℕ) (p : Pointer) (count : ℕ)
    → All IsByte p.bytes
    → end ≤ p.at + 4 * fuel
    → validate_messages (suc fuel) false end p count ≢ out_of_fuel
response_loop_ends end zero p count b bound h =
    let (hdr, lt, r, v, rest) = round-Unended false end zero p count h in absurd (omega arith)
response_loop_ends end (suc fuel) p count b bound h =
    let (hdr, lt, r, v, rest) = round-Unended false end (suc fuel) p count h in
    let (spelt, small, count_byte, bytes) = read_header_bytes p.bytes hdr r b in
    let long = response_advances hdr count_byte v in
    response_loop_ends end fuel (advance p hdr.length) (count + 1)
      (All-drop IsByte hdr.length p.bytes b) (omega arith) rest

abbrev start : Header → Pointer
start pkt = record { at = packet_header_size; bytes = pkt.content }

unended_loop :
    (fuel : ℕ) (pkt : Header) (is_request : Bool)
    → validate_packet_header fuel pkt is_request ≡ out_of_fuel
    → (pkt.length ≤ 65507)
      × (validate_messages fuel is_request pkt.length (start pkt) 0 ≡ out_of_fuel)
unfolding validate_packet_header
unended_loop fuel pkt is_request h = ground arith

unended_packet :
    (fuel : ℕ) (buffer : Bytes) (is_request : Bool)
    → validate_packet fuel (some buffer) is_request ≡ out_of_fuel
    → (pkt : Header) × (read_header buffer ≡ ok pkt)
      × (pkt.length ≤ 65507)
      × (validate_messages fuel is_request pkt.length (start pkt) 0 ≡ out_of_fuel)
unfolding validate_packet
unended_packet fuel buffer is_request h =
    elim (>>=-eq-out_of_fuel (read_header buffer)
      (λ pkt. validate_packet_header fuel pkt is_request) h) [
        | inl e ↦ absurd (read_header-ends buffer e)
        | inr (pkt, r, e) ↦
            let (small, loop) = unended_loop fuel pkt is_request e in (pkt, r, small, loop)
      ]

-- The validation of a response ends, whatever bytes arrive: a fuel of 16,377 is enough.
pub validate_response_packet-ends :
    (fuel : ℕ) (buffer : Bytes)
    → All IsByte buffer
    → 16376 < fuel
    → validate_packet fuel (some buffer) false ≢ out_of_fuel
validate_response_packet-ends zero buffer b f h = absurd (omega arith)
validate_response_packet-ends (suc fuel) buffer b f h =
    let (pkt, r, small, loop) = unended_packet (suc fuel) buffer false h in
    let (spelt, len, count_byte, bytes) = read_header_bytes buffer pkt r b in
    response_loop_ends pkt.length fuel (start pkt) 0 bytes (omega arith) loop

-- A message with which the loop over a request cannot move on.
abbrev pub Stuck : Bytes → Type 0
Stuck bs =
    (k : ℕ) × (hdr : Header) × (read_header (drop k bs) ≡ ok hdr)
    × (hdr.length ≡ 0)
    × (MsgType.ip6peers < hdr.msg_type)

request_advances :
    (hdr : Header)
    → hdr.count < 256
    → validate_header hdr true ≡ ok true
    → hdr.length ≡ 0
    → MsgType.ip6peers < hdr.msg_type
unfolding validate_header validate_content validate_message_size validate_reject_header
request_advances hdr c v e = ground arith

Stuck-drop : (n : ℕ) (bs : Bytes) → Stuck (drop n bs) → Stuck bs
Stuck-drop n bs (k, hdr, r, e, t) = (n + k, hdr, rw (drop-add n k bs) r, e, t)

Stuck-content :
    (buffer : Bytes) (pkt : Header)
    → buffer ≡ header_bytes pkt.length pkt.msg_type pkt.count ++ pkt.content
    → Stuck pkt.content
    → Stuck buffer
Stuck-content buffer pkt e s =
    rw e (Stuck-drop 4 (header_bytes pkt.length pkt.msg_type pkt.count ++ pkt.content) s)

zero_or_suc : (n : ℕ) → (n ≡ 0) ⊎ (0 < n)
zero_or_suc n = omega arith

request_loop_spins :
    (fuel end : ℕ) (p : Pointer) (count : ℕ) (hdr : Header)
    → p.at < end
    → read_header p.bytes ≡ ok hdr
    → hdr.length ≡ 0
    → MsgType.ip6peers < hdr.msg_type
    → validate_messages fuel true end p count ≡ out_of_fuel
unfolding validate_messages validate_message_header next_message validate_header validate_content
request_loop_spins zero end p count hdr lt r e t = refl
request_loop_spins (suc fuel) end p count hdr lt r e t =
    ground (arith, request_loop_spins fuel end p (count + 1) hdr)

request_loop-Stuck :
    (end fuel : ℕ) (p : Pointer) (count : ℕ)
    → All IsByte p.bytes
    → end ≤ p.at + fuel
    → validate_messages (suc fuel) true end p count ≡ out_of_fuel
    → Stuck p.bytes
request_loop-Stuck end zero p count b bound h =
    let (hdr, lt, r, v, rest) = round-Unended true end zero p count h in absurd (omega arith)
request_loop-Stuck end (suc fuel) p count b bound h =
    let (hdr, lt, r, v, rest) = round-Unended true end (suc fuel) p count h in
    elim (zero_or_suc hdr.length) [
      | inl e ↦ (0, hdr, r, e, request_advances hdr (read_header_bytes p.bytes hdr r b).2 v e)
      | inr more ↦ Stuck-drop hdr.length p.bytes (
          request_loop-Stuck end fuel (advance p hdr.length) (count + 1)
            (All-drop IsByte hdr.length p.bytes b) (omega arith) rest)
    ]

-- Where the validation of a request has not ended with a fuel of 65,505 or more, the buffer holds a message
-- header with the length zero and a type above that of IPv6 peers.
pub validate_request_packet-Stuck :
    (fuel : ℕ) (buffer : Bytes)
    → All IsByte buffer
    → 65504 < fuel
    → validate_packet fuel (some buffer) true ≡ out_of_fuel
    → Stuck buffer
validate_request_packet-Stuck zero buffer b f h = absurd (omega arith)
validate_request_packet-Stuck (suc fuel) buffer b f h =
    let (pkt, r, small, loop) = unended_packet (suc fuel) buffer true h in
    let (spelt, len, count_byte, bytes) = read_header_bytes buffer pkt r b in
    Stuck-content buffer pkt spelt
      (request_loop-Stuck pkt.length fuel (start pkt) 0 bytes (omega arith) loop)

-- If the first message of a request has the length zero and a type above that of IPv6 peers, and the
-- packet's own header passes, no fuel is enough: the datagram keeps the server in the loop forever.
pub validate_request_packet-spins :
    (fuel : ℕ) (buffer : Bytes) (pkt hdr : Header)
    → read_header buffer ≡ ok pkt
    → pkt.length ≤ 65507
    → 4 < pkt.length
    → pkt.msg_type ≡ MsgType.request
    → pkt.count ≢ 0
    → read_header pkt.content ≡ ok hdr
    → hdr.length ≡ 0
    → MsgType.ip6peers < hdr.msg_type
    → validate_packet fuel (some buffer) true ≡ out_of_fuel
unfolding validate_packet validate_packet_header
validate_request_packet-spins fuel buffer pkt hdr r small more kind count first zero_length
      unknown =
    ground (arith, request_loop_spins fuel pkt.length (start pkt) 0 hdr)
