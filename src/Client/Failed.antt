-- ===== src/Client/Failed.antt =====
-- The rounds of `ClientLoop` in which the server gives no valid answer.
use nrp_reference.Base.{
  ap, >>=_assoc, if◌then◌else◌, drop, ℕ, ◌+◌, ◌*◌, ◌≤◌, ◌<◌, ◌≡◌, refl, sym, Bool, true, false,
  ◌++◌, Option, none, some, Outcome, ok, ◌>>=◌, arith, length, take, take-append, ◌∙◌,
}
use nrp_reference.MruCache.{ticks_per_second}
use nrp_reference.ServerRecord.{ServerRecord}
use nrp_reference.Protocol.MsgType
use nrp_reference.Protocol.Layout.{Bytes}
use nrp_reference.Protocol.Packet.{messages_size, encode_packet}
use nrp_reference.Protocol.Validate.{validate_response_packet}
use nrp_reference.Config.State.{Config}
use nrp_reference.Config.Servers.{ServerRef, get_next_server}
use nrp_reference.Config.Update.{load, increment_server_fail_count}
use nrp_reference.Server.Response.{length-encode_messages}
use nrp_reference.Client.Request.{construct_request}
use nrp_reference.Client.Requested.{requested, construct_request-encode}
use nrp_reference.Client.Parse.{Client}
use nrp_reference.Client.Loop.{
  Received, Surroundings, Round, server_address, punish, take_reply, contact, client_round,
}
use nrp_reference.Client.Round.{
  destination, server_address-destination, contact-sent, client_round-due,
}

-- The buffer once a datagram is received over what it held.
abbrev pub received_over : Bytes → Bytes → Bytes
received_over held bytes =
    let received = take 65507 bytes in received ++ drop (length received) held

-- What can go wrong: no connection, nothing sent, an error of `recv`, no answer in time, or an answer that, with
-- what stands behind it in the buffer that held the request, is no valid response.
pub data Trouble (fuel : ℕ) (world : Surroundings) (held : Bytes) : Type 0 where
  unconnected : world.connects ≡ false → Trouble fuel world held
  unsent : world.connects ≡ true → world.sends ≡ false → Trouble fuel world held
  broken :
      world.connects ≡ true
      → world.sends ≡ true
      → world.receives ≡ Received.failed
      → Trouble fuel world held
  unanswered :
      world.connects ≡ true
      → world.sends ≡ true
      → world.receives ≡ Received.timed_out
      → Trouble fuel world held
  invalid :
      (bytes : Bytes)
      → world.connects ≡ true
      → world.sends ≡ true
      → world.receives ≡ Received.datagram bytes
      → validate_response_packet fuel (some (received_over held bytes)) ≡ ok false
      → Trouble fuel world held

module _ {fuel : ℕ} {world : Surroundings} {held : Bytes} where
  -- Whether the request was sent.
  abbrev pub request_sent : Trouble fuel world held → Bool
  request_sent (unconnected c) = false
  request_sent (unsent c s) = false
  request_sent (broken c s r) = true
  request_sent (unanswered c s r) = true
  request_sent (invalid bytes c s r bad) = true

  -- What becomes of the configuration: only the last two are held against the server.
  abbrev pub blamed : Trouble fuel world held → ServerRef → Config → Outcome Config
  blamed (unconnected c) ref config = ok config
  blamed (unsent c s) ref config = ok config
  blamed (broken c s r) ref config = ok config
  blamed (unanswered c s r) ref config =
      increment_server_fail_count config ref world.fail_time world.ban_time
  blamed (invalid bytes c s r bad) ref config =
      increment_server_fail_count config ref world.fail_time world.ban_time

-- The end of a round with nothing consumed.
abbrev pub unsuccessful : Client → Option ((ℕ × ℕ × Bytes) × Bytes) → Config → Round
unsuccessful client request config = record {
  client = record client { config = config };
  sent = request;
}

abbrev with_config : Client → Config → Outcome Client
with_config client config = ok (record client { config = config })

module _ (fuel : ℕ) (accepts : Bytes → Bool) (stack : Bytes) (now : ℕ → ℕ) (world : Surroundings)
    (ref : ServerRef) where
  take_reply-blamed :
      (held : Bytes) (trouble : Trouble fuel world held) (received : Received) (client : Client)
      → world.receives ≡ received
      → request_sent trouble ≡ true
      → take_reply fuel accepts stack now world ref held received client
        ≡ (blamed trouble ref client.config >>= with_config client)
  unfolding take_reply punish
  take_reply-blamed held (unconnected c) received client e s = cc
  take_reply-blamed held (unsent c n) received client e s = cc
  take_reply-blamed held (broken c n r) received client e s = let same = sym e ∙ r in rw same refl
  take_reply-blamed held (unanswered c n r) received client e s =
      let same = sym e ∙ r in rw same refl
  take_reply-blamed held (invalid bytes c n r bad) received client e s =
      let same = sym e ∙ r in rw (same, bad) refl

  -- The result of a round with such an end, for the request that was made.
  abbrev pub Fails :
      {held : Bytes}
      → Trouble fuel world held
      → Client
      → Config
      → (ℕ × ℕ × Bytes) × Bytes
      → Outcome Round
      → Type 0
  Fails trouble client config request round = round ≡ (
      blamed trouble ref config >>= λ config'.
      ok (unsuccessful client (if request_sent trouble then some request else none) config'))

  answered-Fails :
      (server : ServerRecord) (buffer held : Bytes) (size : ℕ) (trouble : Trouble fuel world held)
      (client : Client)
      → world.connects ≡ true
      → world.sends ≡ true
      → request_sent trouble ≡ true
      → construct_request client.config server 65507 buffer ≡ ok (some (held, size))
      → Fails trouble client client.config
          (server_address server, take size held)
          (contact fuel accepts stack now world ref server buffer client)
  answered-Fails server buffer held size trouble client connects sends sent made =
      contact-sent fuel accepts stack now world ref server buffer held size client made connects
        sends
      ∙ rw (take_reply-blamed held trouble world.receives client refl sent, sent)
          (>>=_assoc (blamed trouble ref client.config) (with_config client) _)

  contact-Fails :
      (server : ServerRecord) (buffer held : Bytes) (size : ℕ) (trouble : Trouble fuel world held)
      (client : Client)
      → construct_request client.config server 65507 buffer ≡ ok (some (held, size))
      → Fails trouble client client.config
          (server_address server, take size held)
          (contact fuel accepts stack now world ref server buffer client)
  unfolding contact
  contact-Fails server buffer held size (unconnected c) client made = rw made (simp c refl)
  contact-Fails server buffer held size (unsent c n) client made = rw made (simp (c, n) refl)
  contact-Fails server buffer held size (broken c n r) client made =
      answered-Fails server buffer held size (broken c n r) client c n refl made
  contact-Fails server buffer held size (unanswered c n r) client made =
      answered-Fails server buffer held size (unanswered c n r) client c n refl made
  contact-Fails server buffer held size (invalid bytes c n r bad) client made =
      answered-Fails server buffer held size (invalid bytes c n r bad) client c n refl made

  -- With a default entropy size below 256 and a buffer of at least 65,507 bytes, in which `ConstructRequest` made
  -- the request that is due, a round in which something goes wrong consumes no entropy and changes the lists at
  -- most by what is held against the server that `GetNextServer` chose: an answer that does not come in time, or
  -- that is no valid response as it stands in the buffer over the request, counts as a failure of the server, while
  -- an error of `connect`, `send` or `recv` leaves its record as it was. Where `connect` and `send` succeed, the
  -- request that the configuration wants of the server was sent to its family, port and host, and else nothing
  -- was sent.
  pub client_round-failed :
      (config : Config) (server : ServerRecord) (buffer held : Bytes) (size : ℕ)
      (trouble : Trouble fuel world held) (client : Client)
      → get_next_server client.config ≡ ok (config, ref)
      → load config ref ≡ ok server
      → server.last_access_time + server.retry_time * ticks_per_second < world.now
      → config.default_entropy < 256
      → 65507 ≤ length buffer
      → construct_request config server 65507 buffer ≡ ok (some (held, size))
      → Fails trouble client config
          (destination server, encode_packet MsgType.request (requested config server))
          (client_round fuel accepts stack now world buffer client)
  client_round-failed config server buffer held size trouble client next loaded due d room made =
      let wanted = requested config server in
      let request = encode_packet MsgType.request wanted in
      let (tail, same) =
        construct_request-encode config server 65507 buffer d (ground arith) room in
      let cut : take (4 + messages_size wanted) (request ++ tail) ≡ request =
        take-append request tail (4 + messages_size wanted)
          (omega (arith, length-encode_messages wanted)) in
      let first : held ≡ request ++ tail = cc in
      let second : size ≡ 4 + messages_size wanted = cc in
      let sent : take size held ≡ request =
        ap (λ (n : ℕ). take n held) second ∙ (ap (take (4 + messages_size wanted)) first ∙ cut) in
      client_round-due fuel accepts stack now world ref config server buffer client next loaded due
      ∙ contact-Fails server buffer held size trouble (record client { config = config }) made
      ∙ rw (sent, server_address-destination server) refl
