-- ===== src/Client/Taken.antt =====
-- What `ParseResponse` does with one message: it ends without a fault, leaves the reference to the server
-- good, and writes entropy messages, and nothing else, to the random device.
use nrp_reference.Base.{
  ℕ, ◌+◌, ◌*◌, ◌≤◌, ◌<◌, ◌≡◌, ◌≢◌, ◌⊎◌, refl, sym, ◌∙◌, inl, inr, Bool, true, false, List, ◌∷◌,
  ◌++◌, Option, none, some, Outcome, ok, arith, ltb, ◌==◌, length, length-append, take-append, drop,
  drop-append, Bool-cases,
}
use nrp_reference.Protocol.MsgType
use nrp_reference.Protocol.Layout.{Bytes, Pointer, next_message, header_bytes}
use nrp_reference.Protocol.Packet.{
  Message, message_size, encode_message, IsBody, IsMessage, Rejections,
}
use nrp_reference.Protocol.Generated.{read_bytes_room}
use nrp_reference.Protocol.Complete.{header_of, read_header-encode, next_message-encode}
use nrp_reference.Config.State.{Config}
use nrp_reference.Config.Servers.{ServerRef}
use nrp_reference.Config.Update.{store}
use nrp_reference.Config.References.{
  Points, load_of_Points, Keeps, Keeps-refl, store-Keeps, peer_length,
  add_servers_from_message-Keeps,
}
use nrp_reference.Server.Responses.{RandomDevice, read_random}
use nrp_reference.Client.Entropy.{
  zero_out, scramble_with, scramble_entropy, consume_entropy, secret_size,
}
use nrp_reference.Client.Scramble.{length-zero_out}
use nrp_reference.Client.Rejected.{after_rejections, parse_reject_message-after_rejections}
use nrp_reference.Client.Parse.{
  Client, consume, take_entropy, take_peers, take_rejections, take_message,
}

-- Entropy stays where it is and as long as it is.
Scrambled : Bytes → Bytes → Outcome (Bytes × Bool) → Type 0
Scrambled content rest m =
    (left : Bytes) × (success : Bool) × (m ≡ ok (left ++ rest, success))
    × (length left ≡ length content)

scramble_with-Scrambled :
    (read : Option Bytes) (stack content rest : Bytes)
    → Scrambled content rest (scramble_with read stack (length content) (content ++ rest))
unfolding scramble_with Scrambled
scramble_with-Scrambled none stack content rest = (content, false, refl, refl)
scramble_with-Scrambled (some bytes) stack content rest = elim (Bool-cases (length bytes == 0)) [
  | inl empty ↦ (content, false, rw empty refl, refl)
  | inr read ↦
      let secret = bytes ++ drop (length bytes) stack in
      (
        zero_out secret 0 content,
        true,
        rw
            (
              read,
              read_bytes_room (length content) (content ++ rest)
                  (omega (arith, length-append content rest)),
              take-append content rest (length content) refl,
              drop-append content rest (length content) refl,
            )
            refl,
        length-zero_out secret 0 content,
      )
]

scramble_entropy-left :
    (device : RandomDevice) (stack content rest : Bytes)
    → (device' : RandomDevice) × (left : Bytes) × (success : Bool) × (scramble_entropy device stack
          (length content)
          (content ++ rest)
        ≡ ok (device', left ++ rest, success))
      × (length left ≡ length content)
unfolding scramble_entropy Scrambled
scramble_entropy-left device stack content rest = elim (Bool-cases (ltb 512 (length content))) [
  | inl large ↦ (device, content, false, rw large refl, refl)
  | inr small ↦
      let r = read_random device (secret_size (length content)) in
      let (left, success, e, same) = scramble_with-Scrambled r.0 stack content rest in
      (r.1, left, success, rw (small, e) refl, same)
]

consume_entropy-written :
    (accepts : Bytes → Bool) (left rest : Bytes)
    → length left ≤ 512
    → consume_entropy accepts (length left) (left ++ rest) ≡ ok (some left, accepts left)
unfolding consume_entropy
consume_entropy-written accepts left rest h =
    let allowed : ltb 512 (length left) ≡ false = ground arith in
    rw
      (
        allowed,
        read_bytes_room (length left) (left ++ rest) (omega (arith, length-append left rest)),
        take-append left rest (length left) refl,
      )
      refl

-- What a message adds to the random device.
abbrev pub Adds : Message → List Bytes → List Bytes → Type 0
Adds m before after =
    ((m.msg_type ≡ MsgType.entropy)
      × ((left : Bytes) × (after ≡ left ∷ before) × (length left ≡ m.count)))
    ⊎ ((m.msg_type ≢ MsgType.entropy) × (after ≡ before))

-- What the loop has after a message.
pub record Taken (ref : ServerRef) (at : ℕ) (m : Message) (rest : Bytes) (before client : Client)
    (p : Pointer) : Type 0 where
  pub next : next_message p ≡ ok (record { at = at + message_size m; bytes = rest })
  pub keeps : Keeps before.config client.config
  pub adds : Adds m before.consumed client.consumed

module _ (accepts : Bytes → Bool) (stack : Bytes) (now : ℕ → ℕ) (ref : ServerRef) (at : ℕ)
    (m : Message) (rest : Bytes) (client : Client) where
  abbrev pub TakesTo : Outcome (Client × Pointer) → Type 0
  TakesTo r =
      (client' : Client) × (p' : Pointer) × (r ≡ ok (client', p'))
      × Taken ref at m rest client client' p'

  abbrev pub start : Pointer
  start = record { at = at; bytes = encode_message m ++ rest }

  -- The pointer after entropy was changed in place.
  abbrev scrambled : Bytes → Pointer
  scrambled left = record {
    at = at;
    bytes = header_bytes (message_size m) m.msg_type m.count ++ (left ++ rest);
  }

  next_message-scrambled :
      (left : Bytes)
      → length left ≡ length m.content
      → message_size m < 65536
      → next_message (scrambled left) ≡ ok (record { at = at + message_size m; bytes = rest })
  next_message-scrambled left same small =
      let m' : Message = record m { content = left } in
      let size : message_size m' ≡ message_size m = omega arith in
      rw (sym size) (next_message-encode at m' rest (omega arith))

  entropy_done :
      (device' : RandomDevice) (left : Bytes) (success : Bool)
      → m.msg_type ≡ MsgType.entropy
      → length m.content ≡ m.count
      → m.count < 256
      → scramble_entropy client.device stack m.count (m.content ++ rest)
        ≡ ok (device', left ++ rest, success)
      → length left ≡ m.count
      → TakesTo (take_entropy accepts stack (header_of m rest) start client)
  unfolding take_entropy
  entropy_done device' left success t len small e same = (
    consume (some left) (record client { device = device' }),
    scrambled left,
    rw (e, sym same, consume_entropy-written accepts left rest (omega arith)) refl,
    record {
      next = next_message-scrambled left (omega arith) (omega arith);
      keeps = Keeps-refl client.config;
      adds = inl (t, (left, refl, same));
    },
  )

  take_entropy-Taken :
      m.msg_type ≡ MsgType.entropy
      → length m.content ≡ m.count
      → m.count < 256
      → TakesTo (take_entropy accepts stack (header_of m rest) start client)
  take_entropy-Taken t len small =
      let (device', left, success, e, same) =
        scramble_entropy-left client.device stack m.content rest in
      entropy_done device' left success t len small (rw (sym len) e) (same ∙ len)

  unchanged :
      (config' : Config)
      → m.msg_type ≢ MsgType.entropy
      → message_size m < 65536
      → Keeps client.config config'
      → Taken ref at m rest client (record client { config = config' }) start
  unchanged config' t small k = record {
    next = next_message-encode at m rest small;
    keeps = k;
    adds = inr (t, refl);
  }

  take_peers-Taken :
      (enabled : Bool)
      → m.msg_type ≢ MsgType.entropy
      → length m.content ≡ m.count * peer_length (m.msg_type == MsgType.ip6peers)
      → message_size m < 65536
      → TakesTo (take_peers enabled now start client)
  unfolding take_peers
  take_peers-Taken false t len small =
      (client, start, refl, unchanged client.config t small (Keeps-refl client.config))
  take_peers-Taken true t len small =
      let (c', added, done, k) =
        add_servers_from_message-Keeps client.config (encode_message m ++ rest) (header_of m rest)
          now (read_header-encode m rest small) (omega (arith, length-append m.content rest)) in
      (record client { config = c' }, start, rw done refl, unchanged c' t small k)

  take_rejections-Taken :
      m.msg_type ≢ MsgType.entropy
      → Rejections m.count m.content
      → message_size m < 65507
      → Points client.config ref
      → TakesTo (take_rejections ref start client)
  unfolding take_rejections
  take_rejections-Taken t good small points =
      let (s, found) = load_of_Points client.config ref points in
      let c' = store client.config ref (after_rejections m.content s) in
      (
        record client { config = c' },
        start,
        rw (found, parse_reject_message-after_rejections s m rest small good) refl,
        unchanged c' t (omega arith) (store-Keeps client.config ref (after_rejections m.content s)),
      )

  -- The cases of the `switch` that a response can reach.
  dispatch_entropy :
      m.msg_type ≡ MsgType.entropy
      → take_message accepts stack now ref (header_of m rest) start client
        ≡ take_entropy accepts stack (header_of m rest) start client
  unfolding take_message
  dispatch_entropy t = ground arith

  dispatch_ip4peers :
      m.msg_type ≡ MsgType.ip4peers
      → take_message accepts stack now ref (header_of m rest) start client
        ≡ take_peers client.config.client_enable_ip4 now start client
  unfolding take_message
  dispatch_ip4peers t = ground arith

  dispatch_ip6peers :
      m.msg_type ≡ MsgType.ip6peers
      → take_message accepts stack now ref (header_of m rest) start client
        ≡ take_peers client.config.client_enable_ip6 now start client
  unfolding take_message
  dispatch_ip6peers t = ground arith

  dispatch_reject :
      m.msg_type ≡ MsgType.reject
      → take_message accepts stack now ref (header_of m rest) start client
        ≡ take_rejections ref start client
  unfolding take_message
  dispatch_reject t = ground arith

  take_body-Taken :
      IsBody false m
      → m.count < 256
      → message_size m < 65507
      → Points client.config ref
      → TakesTo (take_message accepts stack now ref (header_of m rest) start client)
  take_body-Taken (inl (t, len)) c small points = rw (dispatch_ip4peers t) (
      take_peers-Taken client.config.client_enable_ip4 (omega (arith, t)) (ground arith)
        (omega arith))
  take_body-Taken (inr (inl (t, len))) c small points =
      rw (dispatch_entropy t) (take_entropy-Taken t len c)
  take_body-Taken (inr (inr (inl (t, len)))) c small points = rw (dispatch_ip6peers t) (
      take_peers-Taken client.config.client_enable_ip6 (omega (arith, t)) (ground arith)
        (omega arith))
  take_body-Taken (inr (inr (inr (t, more, good)))) c small points =
      rw (dispatch_reject t) (take_rejections-Taken (omega (arith, t)) good small points)

  pub take_message-Taken :
      IsMessage false m
      → Points client.config ref
      → TakesTo (take_message accepts stack now ref (header_of m rest) start client)
  take_message-Taken v points = take_body-Taken v.body v.count_byte v.size points
