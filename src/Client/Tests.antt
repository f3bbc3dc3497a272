-- ===== src/Client/Tests.antt =====
-- Requests to a server, and the answers to them.
use nrp_reference.Base.{
  ℕ, length-replicate, ◌≤◌, List, inl, inr, ◌+◌, ◌≡◌, refl, true, false, [], ◌∷◌, ◌++◌, none, some,
  ok, arith, length, replicate,
}
use nrp_reference.Base.Int.{negsuc}
use nrp_reference.Protocol.MsgType
use nrp_reference.Protocol.Layout.{Bytes, read_header}
use nrp_reference.Protocol.Packet.{Message, messages_size, encode_message, encode_packet, IsPacket}
use nrp_reference.ServerRecord.{ServerRecord}
use nrp_reference.Config.State.{Config}
use nrp_reference.Client.Request.{construct_request}
use nrp_reference.Client.Requested.{requested, construct_request-encode}
use nrp_reference.Config.Servers.{in_configured}
use nrp_reference.Config.References.{Keeps}
use nrp_reference.Client.Parse.{Client, parse_response}
use nrp_reference.Client.Parsed.{AddsAll, parse_response-AddsAll}
use nrp_reference.Config.Servers.{get_next_server, step_iterator, choose_server, configured_front}
use nrp_reference.Config.Lists.{deref}
use nrp_reference.Config.Update.{load}
use nrp_reference.Client.Loop.{Surroundings, datagram, client_round}
use nrp_reference.Client.Failed.{received_over, Trouble, invalid, Fails, client_round-failed}
use nrp_reference.Protocol.Validate.{
  validate_packet, validate_packet_header, validate_response_packet,
}
use nrp_reference.Client.Round.{destination, Ends, client_round-encode}
use nrp_reference.Client.Rejects.{parse_reject_message}
use nrp_reference.Client.Rejected.{after_rejections, parse_reject_message-after_rejections}

abbrev server : ServerRecord
server = record {
  host = 10 ∷ 0 ∷ 0 ∷ 1 ∷ [];
  port = 8080;
  failure_count = 0;
  last_access_time = 0;
  retry_time = 60;
  ipv6 = false;
  probationary = false;
  ip4_peers = true;
  ip6_peers = true;
  signkey = true;
  shuttingdown = false;
}

abbrev config : Config
config = record {
  port = 8080;
  enable_server = true;
  enable_client = true;
  banned_servers = record {
    entries = [];
    lifetime_seconds = 60;
    clean_interval_seconds = 60;
    last_clean_time = 0;
  };
  configured_servers = server ∷ [];
  active_servers = [];
  probationary_servers = [];
  active_iterator = none;
  probationary_iterator = none;
  count_ip6_servers = negsuc 0;
  count_ip4_servers = negsuc 0;
  prev_returned_probationary = true;
  enable_ip4_peers = true;
  enable_ip6_peers = true;
  client_enable_ip4 = true;
  client_enable_ip6 = false;
  server_enable_ip4 = true;
  server_enable_ip6 = true;
  client_request_interval_seconds = 60;
  client_receive_timeout = 30;
  default_entropy = 8;
}

construct_request-encode_example :
    (rest : Bytes) × (construct_request config server 20 (replicate 20 0)
      ≡ ok (
          some (
            encode_packet MsgType.request (requested config server) ++ rest,
            4 + messages_size (requested config server),
          )))
construct_request-encode_example =
    construct_request-encode config server 20 (replicate 20 0) (omega arith) (omega arith)
      (omega arith)

-- Two bytes of secret for nine bytes of entropy.
abbrev entropy : Bytes
entropy = 1 ∷ 2 ∷ 3 ∷ 4 ∷ 5 ∷ 6 ∷ 7 ∷ 8 ∷ 9 ∷ 10 ∷ []

-- No IPv6 peers, and the server is shutting down.
abbrev refusals : Message
refusals = record { msg_type = 3; count = 2; content = 6 ∷ 3 ∷ 4 ∷ 2 ∷ [] }

parse_reject_message-after_rejections_example :
    parse_reject_message server (some (encode_message refusals ++ []))
    ≡ ok (after_rejections refusals.content server, true)
parse_reject_message-after_rejections_example =
    parse_reject_message-after_rejections server refusals [] (omega arith) (
      (omega arith, omega arith, omega arith, omega arith),
      ((omega arith, omega arith, omega arith, omega arith), tt),
    )

-- Three bytes of entropy and one peer.
abbrev reply : List Message
reply =
    record { msg_type = 5; count = 3; content = 7 ∷ 8 ∷ 9 ∷ [] }
    ∷ record { msg_type = 4; count = 1; content = 10 ∷ 0 ∷ 0 ∷ 3 ∷ 31 ∷ 144 ∷ [] }
    ∷ []

reply-IsPacket : IsPacket false reply
reply-IsPacket = record {
  messages = (
    record { body = inr (inl (refl, refl)); count_byte = omega arith; size = omega arith },
    (record { body = inl (refl, refl); count_byte = omega arith; size = omega arith }, tt),
  );
  some_message = omega arith;
  count_byte = omega arith;
  size = omega arith;
}

abbrev waiting : Client
waiting = record { config = config; device = some (165 ∷ []) ∷ []; consumed = [] }

parse_response-AddsAll_example :
    (client' : Client) × (parse_response
        (λ bs. true)
        []
        (λ i. 7)
        in_configured
        40
        (encode_packet MsgType.response reply ++ replicate 12 0)
        waiting
      ≡ ok (client', true))
    × Keeps config client'.config
    × AddsAll reply [] client'.consumed
parse_response-AddsAll_example =
    parse_response-AddsAll (λ bs. true) [] (λ i. 7) in_configured reply (replicate 12 0) 40 waiting
      reply-IsPacket (omega arith) (omega arith)

-- A minute after the start the server answers, a second after it was asked.
abbrev answering : Surroundings
answering = record {
  now = 60_000_000_001;
  fail_time = 61_000_000_000;
  ban_time = 61_000_000_000;
  success_time = 61_000_000_000;
  connects = true;
  sends = true;
  receives = datagram (encode_packet MsgType.response reply);
  first_time = 60_000_000_001;
  second_time = 61_000_000_012;
}

unfoldable zeros : Bytes
zeros = replicate 65507 0

zeros_enough : 65507 ≤ length zeros
unfolding zeros
zeros_enough = omega (arith, length-replicate {A = ℕ} 65507 0)

chosen : get_next_server waiting.config ≡ ok (config, in_configured)
unfolding get_next_server step_iterator choose_server configured_front
chosen = refl

server_loaded : load config in_configured ≡ ok server
unfolding load deref
server_loaded = refl

client_round-encode_example :
    (behind : Bytes) × (parsed : Client) × (validate_packet 4
        (some (encode_packet MsgType.response reply ++ behind))
        false
      ≡ ok true)
    × (parse_response
          (λ bs. true)
          []
          (λ i. 7)
          in_configured
          65507
          (encode_packet MsgType.response reply ++ behind)
          (record waiting { config = config })
        ≡ ok (parsed, true))
    × Keeps config parsed.config
    × AddsAll reply [] parsed.consumed
    × Ends 4
        (λ bs. true)
        []
        (λ i. 7)
        answering
        in_configured
        parsed
        (destination server, encode_packet MsgType.request (requested config server))
        (client_round 4 (λ bs. true) [] (λ i. 7) answering zeros waiting)
client_round-encode_example =
    client_round-encode 4 (λ bs. true) [] (λ i. 7) answering in_configured config server reply zeros
      waiting chosen server_loaded (omega arith) refl refl refl reply-IsPacket (omega arith)
      (omega arith) zeros_enough

-- A server that answers with a header alone.
abbrev garbled : Surroundings
garbled = record answering { receives = datagram (0 ∷ 9 ∷ 2 ∷ 0 ∷ []) }

-- The request in the client's buffer.
abbrev asked :
    (rest : Bytes) × (construct_request config server 65507 zeros
      ≡ ok (
          some (
            encode_packet MsgType.request (requested config server) ++ rest,
            4 + messages_size (requested config server),
          )))
asked = construct_request-encode config server 65507 zeros (omega arith) (omega arith) zeros_enough

abbrev held : Bytes
held = encode_packet MsgType.request (requested config server) ++ asked.0

garbled-invalid :
    validate_response_packet 4 (some (received_over held (0 ∷ 9 ∷ 2 ∷ 0 ∷ []))) ≡ ok false
unfolding validate_packet read_header validate_packet_header
garbled-invalid = refl

abbrev trouble : Trouble 4 garbled held
trouble = invalid (0 ∷ 9 ∷ 2 ∷ 0 ∷ []) refl refl refl garbled-invalid

client_round-failed_example :
    Fails 4
      (λ bs. true)
      []
      (λ i. 7)
      garbled
      in_configured
      trouble
      waiting
      config
      (destination server, encode_packet MsgType.request (requested config server))
      (client_round 4 (λ bs. true) [] (λ i. 7) garbled zeros waiting)
client_round-failed_example =
    client_round-failed 4 (λ bs. true) [] (λ i. 7) garbled in_configured config server zeros held
      (4 + messages_size (requested config server)) trouble waiting chosen server_loaded
      (omega arith) (omega arith) zeros_enough asked.1
