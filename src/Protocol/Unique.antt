-- ===== src/Protocol/Unique.antt =====
-- The bytes of a response, read as messages: in at most one way.
use native.Mathlib.Bridge.{le_prop}
use mathlib.Core.HLevel.{Σ_prop_path, hedberg}
use native.Mathlib.Decide.{ℕ_discrete}
use nrp_reference.Protocol.MsgType
use nrp_reference.Base.{
  ℕ, zero, suc, ◌≤◌, ◌<◌, ◌≡◌, ◌⊎◌, refl, sym, ap, ◌∙◌, inl, inr, true, false, List, [], ◌∷◌, ◌++◌,
  append_assoc, some, ok, arith, length, All,
}
use nrp_reference.Protocol.Layout.{Bytes}
use nrp_reference.Protocol.Validate.{validate_packet}
use nrp_reference.Protocol.Sound.{IsByte, encode_packet-of_validate_packet}
use nrp_reference.Protocol.Packet.{
  Message, message_size, encode_message, encode_messages, encode_packet, Rejections, IsRejection,
  IsResponseBody, IsMessage, IsPacket,
}

-- Being well-formed is a proposition.
exclusive_sum {ℓ κ} : {A : Type ℓ} {B : Type κ} → (A → B → ⊥) → IsProp A → IsProp B → IsProp (A ⊎ B)
exclusive_sum not_both a b (inl x) (inl y) = ap inl (a x y)
exclusive_sum not_both a b (inl x) (inr y) = absurd (not_both x y)
exclusive_sum not_both a b (inr x) (inl y) = absurd (not_both y x)
exclusive_sum not_both a b (inr x) (inr y) = ap inr (b x y)

IsRejection-IsProp : (t r : ℕ) → IsProp (IsRejection t r)
IsRejection-IsProp t r = hlevel (le_prop)

Rejections-IsProp : (n : ℕ) (content : Bytes) → IsProp (Rejections n content)
Rejections-IsProp zero [] = hlevel
Rejections-IsProp zero (t ∷ rest) = hlevel
Rejections-IsProp (suc n) [] = hlevel
Rejections-IsProp (suc n) (t ∷ []) = hlevel
Rejections-IsProp (suc n) (t ∷ r ∷ rest) = hlevel (IsRejection-IsProp t r, Rejections-IsProp n rest)

IsResponseBody-IsProp : (m : Message) → IsProp (IsResponseBody m)
IsResponseBody-IsProp m =
    exclusive_sum (λ p q. ground arith) (hlevel)
      (exclusive_sum (λ p q. ground arith) (hlevel)
        (exclusive_sum (λ p q. ground arith) (hlevel)
          (hlevel (le_prop, Rejections-IsProp m.count m.content))))

IsMessage-IsProp : (m : Message) → IsProp (IsMessage false m)
IsMessage-IsProp m = hlevel (IsResponseBody-IsProp m, le_prop)

All-IsMessage-IsProp : (ms : List Message) → IsProp (All (IsMessage false) ms)
All-IsMessage-IsProp [] = hlevel
All-IsMessage-IsProp (m ∷ ms) = hlevel (IsMessage-IsProp m, All-IsMessage-IsProp ms)

IsPacket-IsProp : (ms : List Message) → IsProp (IsPacket false ms)
IsPacket-IsProp ms = hlevel (All-IsMessage-IsProp ms, le_prop)

-- The encoding is injective, whatever stands behind it.
append-injective {ℓ} :
    {A : Type ℓ} (xs ys xs' ys' : List A)
    → length xs ≡ length xs'
    → xs ++ ys ≡ xs' ++ ys'
    → (xs ≡ xs') × (ys ≡ ys')
append-injective [] ys [] ys' e h = (refl, h)
append-injective [] ys (y ∷ xs') ys' e h = absurd (omega arith)
append-injective (x ∷ xs) ys [] ys' e h = absurd (omega arith)
append-injective (x ∷ xs) ys (y ∷ xs') ys' e h =
    let (same, rest) = append-injective xs ys xs' ys' (omega arith) (cc) in (cc, rest)

-- The header states the size.
encode_message-injective :
    (m m' : Message) (rest rest' : Bytes)
    → message_size m < 65507
    → message_size m' < 65507
    → encode_message m ++ rest ≡ encode_message m' ++ rest'
    → (m ≡ m') × (rest ≡ rest')
encode_message-injective m m' rest rest' small small' h =
    let size : length m.content ≡ length m'.content = ground arith in
    let (same, behind) = append-injective m.content rest m'.content rest' size (cc) in
    (ground arith, behind)

encode_messages-injective :
    (ms ms' : List Message) (rest rest' : Bytes)
    → All (IsMessage false) ms
    → All (IsMessage false) ms'
    → length ms ≡ length ms'
    → encode_messages ms ++ rest ≡ encode_messages ms' ++ rest'
    → (ms ≡ ms') × (rest ≡ rest')
encode_messages-injective [] [] rest rest' v v' n h = (refl, h)
encode_messages-injective [] (m ∷ ms') rest rest' v v' n h = absurd (omega arith)
encode_messages-injective (m ∷ ms) [] rest rest' v v' n h = absurd (omega arith)
encode_messages-injective (m ∷ ms) (m' ∷ ms') rest rest' (v, vs) (v', vs') n h =
    let split =
      sym (append_assoc (encode_message m) (encode_messages ms) rest)
      ∙ h
      ∙ append_assoc (encode_message m') (encode_messages ms') rest' in
    let (first, behind) = encode_message-injective m m' _ _ v.size v'.size split in
    let (others, end) = encode_messages-injective ms ms' rest rest' vs vs' (omega arith) behind in
    (cc, end)

-- The header counts the messages.
encode_packet-injective :
    (ms ms' : List Message) (rest rest' : Bytes)
    → IsPacket false ms
    → IsPacket false ms'
    → encode_packet MsgType.response ms ++ rest ≡ encode_packet MsgType.response ms' ++ rest'
    → (ms ≡ ms') × (rest ≡ rest')
encode_packet-injective ms ms' rest rest' v v' h =
    encode_messages-injective ms ms' rest rest' v.messages v'.messages (ground arith) (ground arith)

-- A reading of a buffer: the messages of a well-formed response, and what stands behind it.
abbrev IsReading : Bytes → List Message × Bytes → Type 0
IsReading buffer read =
    IsPacket false read.0 × (buffer ≡ encode_packet MsgType.response read.0 ++ read.1)

abbrev pub Reading : Bytes → Type 0
Reading buffer = (read : List Message × Bytes) × IsReading buffer read

Bytes-IsSet : IsSet Bytes
Bytes-IsSet = hlevel (hedberg, ℕ_discrete)

Reading-IsProp : (buffer : Bytes) → IsProp (Reading buffer)
Reading-IsProp buffer ((ms, rest), (v, e)) ((ms', rest'), (v', e')) =
    let (same, behind) = encode_packet-injective ms ms' rest rest' v v' (sym e ∙ e') in
    Σ_prop_path {B = IsReading buffer} (λ read. hlevel (IsPacket-IsProp read.0, Bytes-IsSet))
      {u = ((ms, rest), (v, e))} {v = ((ms', rest'), (v', e'))} (cc)

-- A response that passes validation in a buffer of at least 65,507 bytes can be read as the encoding of
-- well-formed messages with some bytes behind them, and in one way only: any two readings of the buffer are
-- equal, with their messages and the bytes behind.
pub validate_packet-Reading :
    (fuel : ℕ) (buffer : Bytes)
    → validate_packet fuel (some buffer) false ≡ ok true
    → All IsByte buffer
    → 65507 ≤ length buffer
    → Reading buffer × IsProp (Reading buffer)
validate_packet-Reading fuel buffer h b l =
    let (ms, rest, v, e) = encode_packet-of_validate_packet fuel buffer h b l in
    (((ms, rest), (v, e)), Reading-IsProp buffer)
