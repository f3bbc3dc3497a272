-- ===== src/Server/Replies.antt =====
-- What a reply may hold, with rejections of the types that the request holds, and that the rejections
-- which `ParseMessages` writes are such a message.
use nrp_reference.Base.{
  ℕ, zero, suc, ◌+◌, ◌*◌, ◌≤◌, ◌<◌, ◌≡◌, refl, sym, subst, inr, false, List, [], ◌∷◌, some, ok,
  arith, length, take, drop, replicate, length-replicate, length-drop, All,
}
use nrp_reference.Protocol.MsgType
use nrp_reference.Protocol.Layout.{Bytes, header_bytes}
use nrp_reference.Protocol.Packet.{Message, message_size, encode_message, IsMessage, Rejections}
use nrp_reference.Protocol.Generate.{to_byte, generate_reject_header, generate_reject_message}
use nrp_reference.Protocol.Generated.{write_room}
use nrp_reference.Server.Parse.{Reject, write_rejections, reject_message}
use nrp_reference.Server.Progress.{IsRefusal}

-- The two bytes of each rejection.
abbrev pub reject_bytes : List Reject → Bytes
reject_bytes [] = []
reject_bytes (r ∷ rs) = r.msg_type ∷ r.reason ∷ reject_bytes rs

abbrev pub rejection_message : ℕ → List Reject → Message
rejection_message n rs = record {
  msg_type = MsgType.reject;
  count = n;
  content = reject_bytes (take n rs);
}

length-reject_bytes :
    (n : ℕ) (rs : List Reject) → n ≤ length rs → length (reject_bytes (take n rs)) ≡ n * 2
length-reject_bytes zero rs h = omega arith
length-reject_bytes (suc n) [] h = absurd (omega arith)
length-reject_bytes (suc n) (r ∷ rs) h = omega (arith, length-reject_bytes n rs (omega arith))

generate_reject_message-bytes :
    (bound : ℕ) (r : Reject) (dst : Bytes)
    → IsRefusal bound r
    → bound ≤ 256
    → 2 ≤ length dst
    → generate_reject_message r.reason r.msg_type (some dst)
      ≡ ok (some (record { written = r.msg_type ∷ r.reason ∷ []; next = drop 2 dst }))
unfolding generate_reject_message
generate_reject_message-bytes bound r dst h b l =
    let t : to_byte r.msg_type ≡ r.msg_type = omega arith in
    let why : to_byte r.reason ≡ r.reason = omega arith in
    ground (arith, write_room (r.msg_type ∷ r.reason ∷ []) dst 2)

-- The loop writes the first rejections, as many as the message counts.
write_rejections-bytes :
    (bound n : ℕ) (rs : List Reject) (dst : Bytes)
    → All (IsRefusal bound) rs
    → bound ≤ 256
    → n ≤ length rs
    → n * 2 ≤ length dst
    → write_rejections (n * 2) rs dst ≡ ok (reject_bytes (take n rs))
unfolding write_rejections
write_rejections-bytes bound zero [] dst all b h l = refl
write_rejections-bytes bound zero (r ∷ rs) dst all b h l = refl
write_rejections-bytes bound (suc n) [] dst all b h l = absurd (omega arith)
write_rejections-bytes bound (suc n) (r ∷ rs) dst (good, all) b h l = ground (
  arith,
  generate_reject_message-bytes bound r dst good b,
  write_rejections-bytes bound n rs (drop 2 dst) all b,
  length-drop 2 dst,
)

-- Into an array of the size that `n` rejections need, for `n` from 1 to 255 and at least `n` rejections of
-- types that may be rejected, the server writes the encoding of the message with the first `n` of them.
pub reject_message-encode :
    (bound n size : ℕ) (rs : List Reject)
    → All (IsRefusal bound) rs
    → bound ≤ 256
    → 0 < n
    → n < 256
    → n ≤ length rs
    → size ≡ 4 + 2 * n
    → reject_message n size rs ≡ ok (encode_message (rejection_message n rs))
unfolding reject_message generate_reject_header
reject_message-encode bound n size rs all b more c h e =
    let byte : to_byte n ≡ n = omega arith in
    let room = length-replicate {A = ℕ} size 0 in
    ground (
      arith,
      write_room (header_bytes (4 + 2 * n) MsgType.reject n) (replicate size 0) 4,
      length-drop 4 (replicate {A = ℕ} size 0),
      write_rejections-bytes bound n rs (drop 4 (replicate size 0)) all b,
      length-reject_bytes n rs,
    )

-- A message that the server sends: one that any client accepts, or rejections of the request's types.
pub data IsReply (bound : ℕ) (m : Message) : Type 0 where
  accepted : IsMessage false m → IsReply bound m
  rejected :
      (n : ℕ) (rs : List Reject)
      → All (IsRefusal bound) rs
      → 0 < n
      → n < 256
      → n ≤ length rs
      → m ≡ rejection_message n rs
      → IsReply bound m

Rejections-reject_bytes :
    (n : ℕ) (rs : List Reject)
    → All (IsRefusal MsgType.max) rs
    → n ≤ length rs
    → Rejections n (reject_bytes (take n rs))
Rejections-reject_bytes zero rs all h = tt
Rejections-reject_bytes (suc n) [] all h = absurd (omega arith)
Rejections-reject_bytes (suc n) (r ∷ rs) (good, all) h =
    ((good.0, good.1, good.2, omega arith), Rejections-reject_bytes n rs all (omega arith))

rejection_message-IsMessage :
    (n : ℕ) (rs : List Reject)
    → All (IsRefusal MsgType.max) rs
    → 0 < n
    → n < 256
    → n ≤ length rs
    → IsMessage false (rejection_message n rs)
rejection_message-IsMessage n rs all more c h = record {
  body = inr (inr (inr (refl, more, Rejections-reject_bytes n rs all h)));
  count_byte = c;
  size = omega (arith, length-reject_bytes n rs h);
}

-- Where the request holds only types that the protocol defines, any client accepts the reply.
pub IsMessage-of_reply : {m : Message} → IsReply MsgType.max m → IsMessage false m
IsMessage-of_reply (accepted v) = v
IsMessage-of_reply {m} (rejected n rs all more c h e) =
    subst (IsMessage false) (sym e) (rejection_message-IsMessage n rs all more c h)

pub rejection_size :
    (n : ℕ) (rs : List Reject) → n ≤ length rs → message_size (rejection_message n rs) ≡ 4 + 2 * n
rejection_size n rs h = omega (arith, length-reject_bytes n rs h)
