-- ===== src/Server/Progress.antt =====
-- The loop of `ParseMessages` on a request that passed validation: it ends, leaves no array, and every
-- message that it collects is well-formed and paid for out of the packet's space.
use nrp_reference.Base.{
  ℕ, zero, suc, ◌+◌, ◌-◌, ◌≤◌, ◌<◌, ◌≡◌, ◌≢◌, refl, sym, ap, true, false, ◌&&◌, List, [], ◌∷◌, ◌++◌,
  Option, none, some, Outcome, ok, undefined, out_of_fuel, ◌>>=◌, arith, length, length-append, All,
  All-append, All-drop, map, if_cases, ltb, Bool-cases, ◌||◌, ◌==◌, inl, inr,
}
use nrp_reference.Base.Int.{pos, ◌-ℤ◌}
use nrp_reference.Protocol.Layout.{Bytes, Header, Pointer, next_message, advance}
use nrp_reference.Protocol.MsgType
use nrp_reference.Protocol.Packet.{Message, message_size, messages_size, encode_message, IsMessage}
use nrp_reference.Protocol.Sound.{IsByte, read_header_bytes}
use nrp_reference.Protocol.Walk.{Walk, TypesBelow}
use nrp_reference.Protocol.Validate.{validate_header}
use nrp_reference.Protocol.RejectReason
use nrp_reference.Config.State.{Config, enable_peers_response}
use nrp_reference.Config.Servers.{is_positive}
use nrp_reference.Server.Sizes.{remaining_le}
use nrp_reference.Server.Responses.{
  RandomDevice, generate_peers_response, generate_entropy_response,
}
use nrp_reference.Server.Answers.{
  IsAnswer, IsPeers, PeersAnswer, EntropyAnswer, generate_peers_response-PeersAnswer,
  generate_entropy_response-EntropyAnswer,
}
use nrp_reference.Server.Parse.{
  Reject, Progress, remaining, reject, append, answer, answer_messages,
}

-- A rejection that the server sends: of a type below the bound that a request may hold, but not of
-- entropy.
abbrev pub IsRefusal : ℕ → Reject → Type 0
IsRefusal bound r =
    (MsgType.request_msg_min ≤ r.msg_type)
    × (r.msg_type < bound)
    × (r.msg_type ≢ MsgType.entropy)
    × (r.reason ≡ RejectReason.unsupported)

-- `space` bytes were there at the start; `n` messages have been read, of types below the bound.
pub record Inv (bound space n : ℕ) (s : Progress) : Type 0 where
  pub sent : List Message
  pub left : ℕ
  pub msgs : s.msgs ≡ map encode_message sent
  pub messages : All (IsMessage false) sent
  pub filled : All (λ m. 5 ≤ message_size m) sent
  pub total : s.out_message_length ≡ messages_size sent
  pub remaining_bytes : s.bytes_remaining ≡ pos left
  pub accounted : s.out_message_length + left ≡ space
  pub refused : All (IsRefusal bound) s.rejections
  pub rejected : length s.rejections ≤ n
  pub entropy_size : s.config.default_entropy < 256

messages_size-append :
    (xs ys : List Message) → messages_size (xs ++ ys) ≡ messages_size xs + messages_size ys
messages_size-append [] ys = omega arith
messages_size-append (x ∷ xs) ys = omega (arith, messages_size-append xs ys)

map-append_one :
    (xs : List Message) (m : Message)
    → map encode_message (xs ++ m ∷ []) ≡ map encode_message xs ++ encode_message m ∷ []
map-append_one [] m = refl
map-append_one (x ∷ xs) m = ap (◌∷◌ (encode_message x)) (map-append_one xs m)

reject-Inv :
    (bound space n t : ℕ) (s : Progress)
    → 4 ≤ t
    → t < bound
    → t ≢ MsgType.entropy
    → Inv bound space n s
    → Inv bound space (suc n) (reject t s)
reject-Inv bound space n t s lo hi ne v = record {
  sent = v.sent;
  left = v.left;
  msgs = v.msgs;
  messages = v.messages;
  filled = v.filled;
  total = v.total;
  remaining_bytes = v.remaining_bytes;
  accounted = v.accounted;
  refused =
      All-append (IsRefusal bound) s.rejections (record { msg_type = t; reason = 3 } ∷ []) v.refused
        ((lo, hi, ne, refl), tt);
  rejected =
      omega
        (arith, length-append s.rejections (record { msg_type = t; reason = 3 } ∷ []), v.rejected);
  entropy_size = v.entropy_size;
}

append-Inv :
    (bound space n size room : ℕ) (message : Option Bytes) (s : Progress)
    → IsAnswer room message size
    → (v : Inv bound space n s) → room ≤ v.left
    → Inv bound space (suc n) (append message size s)
unfolding ◌-ℤ◌
append-Inv bound space n size room none s a v r = record {
  sent = v.sent;
  left = v.left;
  msgs = v.msgs;
  messages = v.messages;
  filled = v.filled;
  total = v.total;
  remaining_bytes = v.remaining_bytes;
  accounted = v.accounted;
  refused = v.refused;
  rejected = omega (arith, v.rejected);
  entropy_size = v.entropy_size;
}
append-Inv bound space n size room (some bytes) s (m, good, spelt, same, fits, more) v r = record {
  sent = v.sent ++ (m ∷ []);
  left = v.left - size;
  msgs = rw (v.msgs, spelt) (sym (map-append_one v.sent m));
  messages = All-append (IsMessage false) v.sent (m ∷ []) v.messages (good, tt);
  filled = All-append (λ m. 5 ≤ message_size m) v.sent (m ∷ []) v.filled (omega arith, tt);
  total = omega (arith, messages_size-append v.sent (m ∷ []), v.total);
  remaining_bytes = rw v.remaining_bytes (ground arith);
  accounted = omega (arith, v.accounted);
  refused = v.refused;
  rejected = omega (arith, v.rejected);
  entropy_size = v.entropy_size;
}

-- The outcome is progress that keeps the invariant.
abbrev Keeps : ℕ → ℕ → ℕ → Outcome Progress → Type 0
Keeps bound space n (ok s) = Inv bound space n s
Keeps bound space n _ = ⊥

module _ (bound space n a : ℕ) (s : Progress) (v : Inv bound space n s) (le : a ≤ v.left) where
  peers_bind :
      (m : Outcome (Config × Option Bytes × ℕ))
      → PeersAnswer a s.config.default_entropy m
      → Keeps bound space (suc n) (m >>= λ r. ok (append r.1 r.2 (record s { config = r.0 })))
  peers_bind (ok (config, message, size)) (answer, kept) =
      append-Inv bound space n size a message (record s { config = config }) answer
        (record {
          sent = v.sent;
          left = v.left;
          msgs = v.msgs;
          messages = v.messages;
          filled = v.filled;
          total = v.total;
          remaining_bytes = v.remaining_bytes;
          accounted = v.accounted;
          refused = v.refused;
          rejected = v.rejected;
          entropy_size = omega (arith, kept, v.entropy_size);
        })
        le
  peers_bind undefined h = absurd h
  peers_bind out_of_fuel h = absurd h

  entropy_bind :
      (m : Outcome (RandomDevice × Option Bytes × ℕ))
      → EntropyAnswer a m
      → Keeps bound space (suc n) (m >>= λ r. ok (append r.1 r.2 (record s { device = r.0 })))
  entropy_bind (ok (device, message, size)) answer =
      append-Inv bound space n size a message (record s { device = device }) answer
        (record {
          sent = v.sent;
          left = v.left;
          msgs = v.msgs;
          messages = v.messages;
          filled = v.filled;
          total = v.total;
          remaining_bytes = v.remaining_bytes;
          accounted = v.accounted;
          refused = v.refused;
          rejected = v.rejected;
          entropy_size = v.entropy_size;
        })
        le
  entropy_bind undefined h = absurd h
  entropy_bind out_of_fuel h = absurd h

IsPeers-type : (t : ℕ) → (t == MsgType.ip4peers || t == MsgType.ip6peers) ≡ true → IsPeers t
IsPeers-type t h = ground arith

module _ (bound space n : ℕ) (msg : Header) (s : Progress) (v : Inv bound space n s)
    (small : space < 1300) (more : is_positive (remaining s) ≡ true) where
  peers-Keeps :
      IsPeers msg.msg_type
      → Keeps bound space (suc n) (
          generate_peers_response s.config msg.msg_type msg.count (remaining s) >>= λ r.
          ok (append r.1 r.2 (record s { config = r.0 })))
  peers-Keeps p =
      let (a, e, pos_a, le) =
        remaining_le s.bytes_remaining (length s.rejections) v.left v.remaining_bytes more in
      rw e (
        peers_bind bound space n a s v le
          (generate_peers_response s.config msg.msg_type msg.count (pos a))
          (generate_peers_response-PeersAnswer s.config msg.msg_type msg.count a p pos_a
            (omega (arith, v.accounted))))

  entropy-Keeps :
      msg.count < 256
      → Keeps bound space (suc n) (
          generate_entropy_response s.config s.device msg.count (remaining s) >>= λ r.
          ok (append r.1 r.2 (record s { device = r.0 })))
  entropy-Keeps c =
      let (a, e, pos_a, le) =
        remaining_le s.bytes_remaining (length s.rejections) v.left v.remaining_bytes more in
      rw e (
        entropy_bind bound space n a s v le
          (generate_entropy_response s.config s.device msg.count (pos a))
          (generate_entropy_response-EntropyAnswer s.config s.device msg.count a c v.entropy_size
            (omega (arith, v.accounted))))

  -- One message is answered, rejected or passed over.
  answer-Keeps :
      4 ≤ msg.msg_type
      → msg.msg_type < bound
      → msg.count < 256
      → Keeps bound space (suc n) (answer msg s)
  unfolding answer
  answer-Keeps lo hi c =
      let P = Keeps bound space (suc n) in
      let refused = λ (ne : msg.msg_type ≢ MsgType.entropy).
        reject-Inv bound space n msg.msg_type s lo hi ne v in
      if_cases P (msg.msg_type == MsgType.ip4peers || msg.msg_type == MsgType.ip6peers) _ _
        (λ p.
          if_cases P (enable_peers_response s.config msg.msg_type) _ (ok (reject msg.msg_type s))
            (λ h. peers-Keeps (IsPeers-type msg.msg_type p)) (λ h. refused (ground arith)))
        (λ p.
          if_cases P (msg.msg_type == MsgType.entropy) _ (ok (reject msg.msg_type s))
            (λ h. entropy-Keeps c) (λ h. refused (ground arith)))

request_type : (hdr : Header) → validate_header hdr true ≡ ok true → 4 ≤ hdr.msg_type
unfolding validate_header
request_type hdr h = ground arith

-- After the loop: the invariant for some number of messages read, at most all of them.
abbrev pub Finishes : ℕ → ℕ → ℕ → Outcome Progress → Type 0
Finishes bound space n (ok s) = (k : ℕ) × (k ≤ n) × Inv bound space k s
Finishes bound space n _ = ⊥

Finishes-bind :
    (bound space n k fuel end : ℕ) (q : Pointer) (m : Outcome Progress)
    → Keeps bound space k m
    → ((s : Progress) → Inv bound space k s → Finishes bound space n (answer_messages fuel end q s))
    → Finishes bound space n (m >>= λ s. answer_messages fuel end q s)
Finishes-bind bound space n k fuel end q (ok s) v f = f s v
Finishes-bind bound space n k fuel end q undefined v f = absurd v
Finishes-bind bound space n k fuel end q out_of_fuel v f = absurd v

-- The loop follows the walk that the validation took, as long as there is space.
pub answer_messages-Finishes :
    (bound end space steps fuel k total : ℕ) (p q : Pointer) (s : Progress)
    → k + steps ≡ total
    → steps < fuel
    → (w : Walk true end steps p q) → TypesBelow bound true end steps p q w
    → All IsByte p.bytes
    → space < 1300
    → Inv bound space k s
    → Finishes bound space total (answer_messages fuel end p s)
unfolding answer_messages next_message
answer_messages-Finishes bound end space steps zero k total p q s sum f w types b small v =
    absurd (omega arith)
answer_messages-Finishes bound end space zero (suc fuel) k total p q s sum f (e, same) types b small
      v =
    let done : (ltb p.at end && is_positive (remaining s)) ≡ false = ground arith in
    rw (done, Finishes) (k, omega arith, v)
answer_messages-Finishes bound end space (suc steps) (suc fuel) k total p q s sum f
      (lt, (hdr, r, good, w)) (type, types) b small v =
    elim (Bool-cases (ltb p.at end && is_positive (remaining s))) [
      | inr full ↦ rw (full, Finishes) (k, omega arith, v)
      | inl more ↦
          let (spelt, len, count_byte, bytes) = read_header_bytes p.bytes hdr r b in
          rw (more, r, Finishes)
            (Finishes-bind bound space total (suc k) fuel end (advance p hdr.length) (answer hdr s)
              (answer-Keeps bound space k hdr s v small (ground arith) (request_type hdr good) type
                count_byte)
              (λ s' v'.
                answer_messages-Finishes bound end space steps fuel (suc k) total
                  (advance p hdr.length) q s' (omega arith) (omega arith) w types
                  (All-drop IsByte hdr.length p.bytes b) small v'))
    ]
