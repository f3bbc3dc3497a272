-- ===== src/Client/Round.antt =====
-- A round of `ClientLoop` in which the server answers.
use Prim.Native.Nat.{bit_xor}
use nrp_reference.Base.{
  >>=_congr, ◌/◌, ap, ◌%◌, ◌^◌, ◌≢◌, ◌⊎◌, if◌then◌else◌, inl, inr, ◌==◌, Bool-cases, >>=_assoc, ℕ,
  zero, suc, ◌+◌, ◌*◌, ◌≤◌, ◌<◌, ◌≡◌, refl, Bool, true, false, List, [], ◌∷◌, ◌++◌, some, Outcome,
  ok, ◌>>=◌, arith, length, take, drop, take-append, take_all, leb, ◌∙◌,
}
use nrp_reference.MruCache.{ticks_per_second}
use nrp_reference.ServerRecord.{ServerRecord}
use nrp_reference.Protocol.MsgType
use nrp_reference.Protocol.Layout.{Bytes}
use nrp_reference.Protocol.Packet.{Message, messages_size, encode_packet, IsPacket}
use nrp_reference.Protocol.Validate.{validate_packet}
use nrp_reference.Protocol.Complete.{validate_packet-encode_packet}
use nrp_reference.Config.State.{Config}
use nrp_reference.Config.Servers.{
  ServerRef, in_active, in_probationary, in_configured, get_next_server,
}
use nrp_reference.Config.Lists.{deref}
use nrp_reference.Config.Update.{load, mark_server_successful}
use nrp_reference.Config.References.{Points, Keeps}
use nrp_reference.Server.Response.{length-encode_messages}
use nrp_reference.Client.Request.{construct_request}
use nrp_reference.Client.Requested.{requested, construct_request-encode}
use nrp_reference.Client.Parse.{Client, parse_response}
use nrp_reference.Client.Parsed.{AddsAll, parse_response-AddsAll}
use nrp_reference.Client.Loop.{
  little_endian, elapsed, Received, datagram, Surroundings, Round, server_address, add_time_entropy,
  take_reply, contact, client_round,
}

deref-defined :
    (ss : List ServerRecord) (i : ℕ) (s : ServerRecord) → deref ss (some i) ≡ ok s → i < length ss
unfolding deref
deref-defined [] i s h = ground arith
deref-defined (t ∷ ss) zero s h = omega arith
deref-defined (t ∷ ss) (suc i) s h = omega (arith, deref-defined ss i s h)

Points-of_load :
    (c : Config) (ref : ServerRef) (s : ServerRecord) → load c ref ≡ ok s → Points c ref
unfolding load
Points-of_load c (in_active i) s h = deref-defined c.active_servers i s h
Points-of_load c (in_probationary i) s h = deref-defined c.probationary_servers i s h
Points-of_load c in_configured s h = deref-defined c.configured_servers 0 s h

module _ (fuel : ℕ) (accepts : Bytes → Bool) (stack : Bytes) (now : ℕ → ℕ) (world : Surroundings)
    (ref : ServerRef) where
  -- What the client has in its buffer, once an answer is written over the request.
  abbrev pub overwritten : Bytes → Bytes → Bytes
  overwritten bytes buffer = bytes ++ drop (length bytes) buffer

  -- From `recv` on, for an answer that is valid and parsed.
  take_reply-valid :
      (received : Received) (bytes buffer : Bytes) (client parsed : Client)
      → received ≡ datagram bytes
      → length bytes ≤ 65507
      → validate_packet fuel (some (overwritten bytes buffer)) false ≡ ok true
      → parse_response accepts stack now ref 65507 (overwritten bytes buffer) client
        ≡ ok (parsed, true)
      → take_reply fuel accepts stack now world ref buffer received client ≡ (
          mark_server_successful parsed.config ref world.success_time >>= λ config.
          ok (add_time_entropy world (record parsed { config = config })))
  unfolding take_reply
  take_reply-valid received bytes buffer client parsed arrived small valid done =
      rw (arrived, take_all bytes 65507 small, valid, done) refl

  -- From `ConstructRequest` on, where the request is sent.
  pub contact-sent :
      (server : ServerRecord) (buffer request : Bytes) (size : ℕ) (client : Client)
      → construct_request client.config server 65507 buffer ≡ ok (some (request, size))
      → world.connects ≡ true
      → world.sends ≡ true
      → contact fuel accepts stack now world ref server buffer client ≡ (
          take_reply fuel accepts stack now world ref request world.receives client >>= λ client'.
          ok (record { client = client'; sent = some (server_address server, take size request) }))
  unfolding contact
  contact-sent server buffer request size client made connects sends =
      rw (made, connects, sends) refl

  pub client_round-due :
      (config : Config) (server : ServerRecord) (buffer : Bytes) (client : Client)
      → get_next_server client.config ≡ ok (config, ref)
      → load config ref ≡ ok server
      → server.last_access_time + server.retry_time * ticks_per_second < world.now
      → client_round fuel accepts stack now world buffer client
        ≡ contact fuel accepts stack now world ref server buffer (record client { config = config })
  unfolding client_round
  client_round-due config server buffer client next loaded due =
      let late : leb world.now (server.last_access_time + server.retry_time * ticks_per_second)
          ≡ false =
        ground arith in
      rw (next, loaded, late) refl

module _ (fuel : ℕ) (accepts : Bytes → Bool) (stack : Bytes) (now : ℕ → ℕ) (world : Surroundings)
    (ref : ServerRef) where
  -- The end of a round, once the answer is parsed: the server is marked as successful.
  abbrev marked_end : Client → (ℕ × ℕ × Bytes) × Bytes → Config → Outcome Round
  marked_end parsed sent config = ok (record {
    client = add_time_entropy world (record parsed { config = config });
    sent = some sent;
  })

  contact-marked_end :
      (bytes request packet buffer : Bytes) (size : ℕ) (server : ServerRecord)
      (client parsed : Client)
      → world.connects ≡ true
      → world.sends ≡ true
      → world.receives ≡ datagram bytes
      → construct_request client.config server 65507 buffer ≡ ok (some (request, size))
      → take size request ≡ packet
      → length bytes ≤ 65507
      → validate_packet fuel
          (some (overwritten fuel accepts stack now world ref bytes request))
          false
        ≡ ok true
      → parse_response accepts stack now ref 65507
          (overwritten fuel accepts stack now world ref bytes request)
          client
        ≡ ok (parsed, true)
      → contact fuel accepts stack now world ref server buffer client ≡ (
          mark_server_successful parsed.config ref world.success_time
          >>= marked_end parsed (server_address server, packet))
  contact-marked_end bytes request packet buffer size server client parsed connects sends received
        made cut small valid done =
      contact-sent fuel accepts stack now world ref server buffer request size client made connects
        sends
      ∙ rw
          (
            cut,
            take_reply-valid fuel accepts stack now world ref world.receives bytes request client
                parsed received small valid done,
          )
          (>>=_assoc (mark_server_successful parsed.config ref world.success_time) _ _)

-- Where a server is: the family, the port and the host.
abbrev pub destination : ServerRecord → ℕ × ℕ × Bytes
destination server =
    if server.ipv6
    then (10, server.port, take 16 server.host)
    else (2, server.port, take 4 server.host)

pub server_address-destination :
    (server : ServerRecord) → server_address server ≡ destination server
unfolding server_address
server_address-destination server = ground arith

-- The number that bytes spell, the lowest first.
abbrev pub spelled : Bytes → ℕ
spelled [] = 0
spelled (b ∷ bs) = b + 256 * spelled bs

-- What the two readings of the clock add to what the random device got: nothing if they agree in their last four
-- digits, and else the eight bytes of their exclusive or.
abbrev pub TimeAdded : Surroundings → List Bytes → List Bytes → Type 0
TimeAdded world before after =
    ((world.first_time % 10_000 ≡ world.second_time % 10_000) × (after ≡ before))
    ⊎ ((world.first_time % 10_000 ≢ world.second_time % 10_000)
        × ((piece : Bytes) × (after ≡ piece ∷ before)
            × (length piece ≡ 8)
            × (spelled piece ≡ bit_xor world.first_time world.second_time % 2 ^ 64)))

spelled-little_endian : (n : ℕ) → spelled (little_endian 8 n) ≡ n % 2 ^ 64
unfolding little_endian
spelled-little_endian n = omega arith

length-little_endian : (k n : ℕ) → length (little_endian k n) ≡ k
unfolding little_endian
length-little_endian zero n = refl
length-little_endian (suc k) n = ap suc (length-little_endian k (n / 256))

elapsed-same : (a b : ℕ) → elapsed a b % 10_000 ≡ 0 → a % 10_000 ≡ b % 10_000
elapsed-same a b h = omega arith

elapsed-other : (a b : ℕ) → a % 10_000 ≡ b % 10_000 → elapsed a b % 10_000 ≡ 0
elapsed-other a b h = omega arith

add_time_entropy-TimeAdded :
    (world : Surroundings) (client : Client)
    → TimeAdded world client.consumed (add_time_entropy world client).consumed
unfolding add_time_entropy
add_time_entropy-TimeAdded world client =
    elim (Bool-cases (elapsed world.first_time world.second_time % 10_000 == 0)) [
      | inl same ↦
          inl (elapsed-same world.first_time world.second_time (ground arith), simp same refl)
      | inr other ↦ inr (
        (λ e. absurd (ground (arith, elapsed-other world.first_time world.second_time e))),
        (
          little_endian 8 (bit_xor world.first_time world.second_time),
          simp other refl,
          length-little_endian 8 (bit_xor world.first_time world.second_time),
          spelled-little_endian (bit_xor world.first_time world.second_time),
        ),
      )
    ]

-- The configuration plays no part in it.
add_time_entropy-config :
    (world : Surroundings) (client : Client) (config : Config)
    → add_time_entropy world (record client { config = config })
      ≡ record client { config = config; consumed = (add_time_entropy world client).consumed }
unfolding add_time_entropy
add_time_entropy-config world client config =
    elim (Bool-cases (elapsed world.first_time world.second_time % 10_000 == 0)) [
      | inl same ↦ simp same refl
      | inr other ↦ simp other refl
    ]

module _ (fuel : ℕ) (accepts : Bytes → Bool) (stack : Bytes) (now : ℕ → ℕ) (world : Surroundings)
    (ref : ServerRef) where
  -- The end of a round: the server is marked as successful, and the time is added to what was consumed.
  abbrev pub Ends : Client → (ℕ × ℕ × Bytes) × Bytes → Outcome Round → Type 0
  Ends parsed sent round =
      (consumed : List Bytes) × TimeAdded world parsed.consumed consumed
      × (round ≡ (
          mark_server_successful parsed.config ref world.success_time >>= λ config. ok (record {
            client = record parsed { config = config; consumed = consumed };
            sent = some sent;
          })))

  marked_end-Ends :
      (parsed : Client) (server : ServerRecord) (packet : Bytes) (round : Outcome Round)
      → round ≡ (
          mark_server_successful parsed.config ref world.success_time
          >>= marked_end fuel accepts stack now world ref parsed (server_address server, packet))
      → Ends parsed (destination server, packet) round
  marked_end-Ends parsed server packet round made = (
    (add_time_entropy world parsed).consumed,
    add_time_entropy-TimeAdded world parsed,
    made
        ∙ >>=_congr (mark_server_successful parsed.config ref world.success_time) _ _ (λ config.
          rw (add_time_entropy-config world parsed config, server_address-destination server) refl),
  )

  -- A round in which a request is due, `connect` and `send` succeed, and a well-formed response arrives, with a
  -- default entropy size below 256, a buffer of at least 65,507 bytes and a fuel above the number of messages: what is sent to the family, port and
  -- host of the server that `GetNextServer` chose is the request that the configuration wants of it. The response,
  -- with what is left in the buffer behind it, passes validation and is parsed without a fault; each entropy
  -- message writes one piece to the random device, and no list gets shorter. The round ends as
  -- `MarkServerSuccessful` does, and the exclusive or of the two times is written to the device too, unless they
  -- agree in their last four digits.
  pub client_round-encode :
      (config : Config) (server : ServerRecord) (ms : List Message) (buffer : Bytes)
      (client : Client)
      → get_next_server client.config ≡ ok (config, ref)
      → load config ref ≡ ok server
      → server.last_access_time + server.retry_time * ticks_per_second < world.now
      → world.connects ≡ true
      → world.sends ≡ true
      → world.receives ≡ datagram (encode_packet MsgType.response ms)
      → IsPacket false ms
      → length ms < fuel
      → config.default_entropy < 256
      → 65507 ≤ length buffer
      → (behind : Bytes) × (parsed : Client) × (validate_packet fuel
            (some (encode_packet MsgType.response ms ++ behind))
            false
          ≡ ok true)
        × (parse_response accepts stack now ref 65507
              (encode_packet MsgType.response ms ++ behind)
              (record client { config = config })
            ≡ ok (parsed, true))
        × Keeps config parsed.config
        × AddsAll ms client.consumed parsed.consumed
        × Ends parsed
            (destination server, encode_packet MsgType.request (requested config server))
            (client_round fuel accepts stack now world buffer client)
  client_round-encode config server ms buffer client next loaded due connects sends received v f d
        room =
      let wanted = requested config server in
      let request = encode_packet MsgType.request wanted in
      let (tail, made) =
        construct_request-encode config server 65507 buffer d (ground arith) room in
      let cut : take (4 + messages_size wanted) (request ++ tail) ≡ request =
        take-append request tail (4 + messages_size wanted)
          (omega (arith, length-encode_messages wanted)) in
      let answer_bytes = encode_packet MsgType.response ms in
      let ready : Client = record client { config = config } in
      let behind = drop (length answer_bytes) (request ++ tail) in
      let valid = validate_packet-encode_packet false ms behind fuel v f in
      let (parsed, done, keeps, adds) =
        parse_response-AddsAll accepts stack now ref ms behind 65507 ready v v.size
          (Points-of_load config ref server loaded) in
      (
        behind,
        parsed,
        valid,
        done,
        keeps,
        adds,
        marked_end-Ends parsed server request
            (client_round fuel accepts stack now world buffer client)
            (client_round-due fuel accepts stack now world ref config server buffer client next
                loaded due
              ∙ contact-marked_end fuel accepts stack now world ref answer_bytes (request ++ tail)
                  request buffer (4 + messages_size wanted) server ready parsed connects sends
                  received made cut (omega (arith, length-encode_messages ms, v.size)) valid done),
      )
