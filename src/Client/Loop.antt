-- ===== src/Client/Loop.antt =====
-- client.cpp: one round of `ClientLoop`. What the network does in it is an input.
use Prim.Native.Nat.{bit_xor}
use nrp_reference.Base.{
  ℕ, zero, suc, ◌+◌, ◌-◌, ◌*◌, ◌/◌, ◌%◌, Bool, [], ◌∷◌, ◌++◌, Option, none, some, Outcome, ok,
  ◌>>=◌, leb, ◌==◌, if◌then◌else◌, length, take, drop,
}
use nrp_reference.MruCache.{ticks_per_second}
use nrp_reference.StdHelpers.{af_inet, af_inet6}
use nrp_reference.ServerRecord.{ServerRecord, host_size}
use nrp_reference.Protocol.Layout.{Bytes, max_response_message_size}
use nrp_reference.Protocol.Validate.{validate_response_packet}
use nrp_reference.Config.Servers.{ServerRef, get_next_server}
use nrp_reference.Config.Update.{load, increment_server_fail_count, mark_server_successful}
use nrp_reference.Client.Request.{construct_request}
use nrp_reference.Client.Parse.{Client, parse_response}

-- What `recv` does: a datagram arrives, the wait times out, or there is another error.
pub data Received : Type 0 where
  datagram : Bytes → Received
  timed_out : Received
  failed : Received

-- What the round meets: the clock at the test and at the updates of the configuration, whether `connect`
-- and `send` succeed, what `recv` does, and the two readings of the high-resolution clock.
pub record Surroundings : Type 0 where
  pub now : ℕ
  pub fail_time : ℕ
  pub ban_time : ℕ
  pub success_time : ℕ
  pub connects : Bool
  pub sends : Bool
  pub receives : Received
  pub first_time : ℕ
  pub second_time : ℕ

-- The address that `ConnectServer` connects to: the family, the port and the host.
unfoldable pub server_address : ServerRecord → ℕ × ℕ × Bytes
server_address server = (
  if server.ipv6 then af_inet6 else af_inet,
  server.port,
  take (host_size server.ipv6) server.host,
)

-- The bytes of a 64-bit number, as a little-endian machine holds it.
unfoldable pub little_endian : ℕ → ℕ → Bytes
little_endian zero n = []
little_endian (suc size) n = n % 256 ∷ little_endian size (n / 256)

-- `end - begin` without its sign, which does not change whether its remainder is 0. The clock may go back.
abbrev pub elapsed : ℕ → ℕ → ℕ
elapsed begin end = (end - begin) + (begin - end)

-- The end of the round: the measured times are written to the random device, unless the clock lies.
unfoldable pub add_time_entropy : Surroundings → Client → Client
add_time_entropy world client =
    if elapsed world.first_time world.second_time % 10_000 == 0 then client else record client {
      consumed = little_endian 8 (bit_xor world.first_time world.second_time) ∷ client.consumed;
    }

-- What the round leaves: the client, and what it sent where, if anything. What it leaves in the client's buffer
-- is not kept: the next round takes any buffer.
pub record Round : Type 0 where
  pub client : Client
  pub sent : Option ((ℕ × ℕ × Bytes) × Bytes)

-- `IncrementServerFailCount` of the client's configuration.
unfoldable pub punish : Surroundings → ServerRef → Client → Outcome Client
punish world ref client = do
  config ← increment_server_fail_count client.config ref world.fail_time world.ban_time
  ok (record client { config = config })

-- From `recv` on.
unfoldable pub take_reply :
    ℕ
    → (Bytes → Bool)
    → Bytes
    → (ℕ → ℕ)
    → Surroundings
    → ServerRef
    → Bytes
    → Received
    → Client
    → Outcome Client
take_reply fuel accepts stack now world ref buffer failed client = ok client
take_reply fuel accepts stack now world ref buffer timed_out client = punish world ref client
take_reply fuel accepts stack now world ref buffer (datagram bytes) client = do
  let received = take max_response_message_size bytes
  let filled = received ++ drop (length received) buffer
  valid ← validate_response_packet fuel (some filled)
  if valid
      then (do
        (parsed, success) ←
            parse_response accepts stack now ref max_response_message_size filled client
        config ← mark_server_successful parsed.config ref world.success_time
        ok (add_time_entropy world (record parsed { config = config })))
      else punish world ref client

-- From `ConstructRequest` on.
unfoldable pub contact :
    ℕ
    → (Bytes → Bool)
    → Bytes
    → (ℕ → ℕ)
    → Surroundings
    → ServerRef
    → ServerRecord
    → Bytes
    → Client
    → Outcome Round
contact fuel accepts stack now world ref server buffer client = do
  made ← construct_request client.config server max_response_message_size buffer
  elim made [
    | none ↦ ok (record { client = client; sent = none })
    | some (request, size) ↦
        let address = server_address server in
        let quiet : Round = record { client = client; sent = none } in
        if world.connects
        then (if world.sends
            then (do
              client' ← take_reply fuel accepts stack now world ref request world.receives client
              ok (record { client = client'; sent = some (address, take size request) }))
            else ok quiet)
        else ok quiet
  ]

-- One round of the loop.
unfoldable pub client_round :
    ℕ → (Bytes → Bool) → Bytes → (ℕ → ℕ) → Surroundings → Bytes → Client → Outcome Round
client_round fuel accepts stack now world buffer client = do
  (config, ref) ← get_next_server client.config
  let ready = record client { config = config }
  server ← load config ref
  if leb world.now (server.last_access_time + server.retry_time * ticks_per_second)
      then ok (record { client = ready; sent = none })
      else contact fuel accepts stack now world ref server buffer ready
