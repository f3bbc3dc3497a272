-- ===== src/Protocol/Walk.antt =====
-- What the loop of `ValidatePacket` has seen when it ends: a walk over message headers, each valid.
use nrp_reference.Base.{
  ℕ, zero, suc, ◌+◌, ◌≤◌, ◌<◌, ◌≡◌, ap, Bool, true, some, ok, arith, ltb, ltb→lt, Bool-cases, ◌⊎◌,
  inl, inr,
}
use nrp_reference.Protocol.Layout.{Header, Pointer, read_header, next_message, advance}
use nrp_reference.Protocol.Validate.{validate_header, validate_message_header, validate_messages}

-- `n` steps lead from one pointer to the other, which is the first at or behind the end.
abbrev pub Walk : Bool → ℕ → ℕ → Pointer → Pointer → Type 0
Walk is_request end zero p q = (end ≤ p.at) × (p ≡ q)
Walk is_request end (suc n) p q =
    (p.at < end)
    × ((hdr : Header) × (read_header p.bytes ≡ ok hdr)
        × (validate_header hdr is_request ≡ ok true)
        × Walk is_request end n (advance p hdr.length) q)

abbrev pub WalkTo : Bool → ℕ → ℕ → Pointer → ℕ → Pointer → ℕ → Type 0
WalkTo is_request end fuel p count q m =
    (n : ℕ) × Walk is_request end n p q × (m ≡ count + n) × (n < fuel)

-- One round of the loop, if the loop ends with all messages valid.
abbrev Round : Bool → ℕ → ℕ → Pointer → ℕ → Pointer × ℕ → Type 0
Round is_request end fuel p count r =
    ((end ≤ p.at) × (r ≡ (p, count)))
    ⊎ ((p.at < end)
        × ((hdr : Header) × (read_header p.bytes ≡ ok hdr)
            × (validate_header hdr is_request ≡ ok true)
            × (validate_messages fuel is_request end (advance p hdr.length) (count + 1)
                ≡ ok (some r))))

round_of_validate :
    (is_request : Bool) (end fuel : ℕ) (p : Pointer) (count : ℕ) (r : Pointer × ℕ)
    → validate_messages (suc fuel) is_request end p count ≡ ok (some r)
    → Round is_request end fuel p count r
unfolding validate_messages validate_message_header next_message
round_of_validate is_request end fuel p count r h = elim (Bool-cases (ltb p.at end)) [
  | inl more ↦ inr (ltb→lt p.at end more, ground arith)
  | inr done ↦ inl (ground arith, ground arith)
]

pub walk_of_validate :
    (is_request : Bool) (end fuel : ℕ) (p : Pointer) (count : ℕ) (q : Pointer) (m : ℕ)
    → validate_messages fuel is_request end p count ≡ ok (some (q, m))
    → WalkTo is_request end fuel p count q m
unfolding validate_messages
walk_of_validate is_request end zero p count q m h = cc
walk_of_validate is_request end (suc fuel) p count q m h =
    elim (round_of_validate is_request end fuel p count (q, m) h) [
      | inl (e, same) ↦
          (0, (e, ground arith), omega (arith, ap (λ (r : Pointer × ℕ). r.1) same), omega arith)
      | inr (lt, (hdr, r, v, rest)) ↦
          let (n, w, sum, f) =
            walk_of_validate is_request end fuel (advance p hdr.length) (count + 1) q m rest in
          (suc n, (lt, (hdr, r, v, w)), omega arith, omega arith)
    ]

pub validate_of_Walk :
    (is_request : Bool) (end fuel : ℕ) (p : Pointer) (count : ℕ) (q : Pointer) (n : ℕ)
    → Walk is_request end n p q
    → n < fuel
    → validate_messages fuel is_request end p count ≡ ok (some (q, count + n))
unfolding validate_messages validate_message_header next_message
validate_of_Walk is_request end zero p count q n w f = absurd (omega arith)
validate_of_Walk is_request end (suc fuel) p count q zero (w, e) f = ground (arith, e)
validate_of_Walk is_request end (suc fuel) p count q (suc n) (lt, (hdr, r, v, w)) f =
    ground (arith, validate_of_Walk is_request end fuel (advance p hdr.length) (count + 1) q n w)

-- A walk never goes back.
pub Walk-le :
    (is_request : Bool) (end n : ℕ) (p q : Pointer) → Walk is_request end n p q → p.at ≤ q.at
Walk-le is_request end zero p q (e, same) = omega (arith, ap (λ (r : Pointer). r.at) same)
Walk-le is_request end (suc n) p q (lt, (hdr, r, v, w)) =
    omega (arith, Walk-le is_request end n (advance p hdr.length) q w)

-- It ends at or behind the end.
pub Walk-end :
    (is_request : Bool) (end n : ℕ) (p q : Pointer) → Walk is_request end n p q → end ≤ q.at
Walk-end is_request end zero p q (e, same) = omega (arith, ap (λ (r : Pointer). r.at) same)
Walk-end is_request end (suc n) p q (lt, (hdr, r, v, w)) =
    Walk-end is_request end n (advance p hdr.length) q w

-- Every message on the walk has a type below the bound.
abbrev pub TypesBelow :
    ℕ → (is_request : Bool) (end n : ℕ) (p q : Pointer) → Walk is_request end n p q → Type 0
TypesBelow bound is_request end zero p q w = Unit
TypesBelow bound is_request end (suc n) p q (lt, (hdr, r, v, w)) =
    (hdr.msg_type < bound) × TypesBelow bound is_request end n (advance p hdr.length) q w
