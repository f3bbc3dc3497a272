-- ===== src/Daemon/Tests.antt =====
-- A server that answers a request, and a client whose configured server does not answer.
use nrp_reference.Base.{
  ℕ, ◌<◌, ◌≡◌, refl, inl, true, false, List, [], ◌∷◌, Option, none, some, Outcome, ok, undefined,
  out_of_fuel, arith, replicate,
}
use nrp_reference.MruCache
use nrp_reference.StdHelpers.{SockaddrStorage}
use nrp_reference.ServerRecord.{ServerRecord}
use nrp_reference.Protocol.Layout.{Bytes}
use nrp_reference.Protocol.Packet.{Message, IsPacket}
use nrp_reference.Config.State.{init}
use nrp_reference.Config.Lists.{deref}
use nrp_reference.Config.Update.{load, store, increment_server_fail_count}
use nrp_reference.Config.Servers.{get_next_server, step_iterator, choose_server, configured_front}
use nrp_reference.Config.Valid.{IsValid}
use nrp_reference.Server.Loop.{NrpdServer, running, serve}
use nrp_reference.Server.Serve.{Answered, present, request_packet, serve-Answered}
use nrp_reference.Protocol.Generate.{
  generate_request_entropy_message, write, generate_request_peers_message, generate_packet_header,
}
use nrp_reference.Client.Request.{construct_request, request_messages, request_peers}
use nrp_reference.Client.Parse.{Client}
use nrp_reference.Client.Loop.{
  server_address, Surroundings, timed_out, Round, client_round, contact, take_reply, punish,
}
use nrp_reference.Startup.{open_socket, open_device, Call, System}
use nrp_reference.Startup.Server
use nrp_reference.Startup.Server.{
  ServerHost, initialize_server, open_server_socket, allow_ip4, bind_server, finish_server,
}
use nrp_reference.Startup.Client
use nrp_reference.Startup.Client.{ClientHost}
use nrp_reference.Startup.Main
use nrp_reference.Startup.Main.{main}
use nrp_reference.Server.Loop
use nrp_reference.Base.Int.{pos}
use nrp_reference.Daemon.{started, served, asked, configured, Daemon-IsValid}

abbrev server_record : ServerRecord
server_record = record {
  host = 10 ∷ 0 ∷ 0 ∷ 1 ∷ [];
  port = 8080;
  failure_count = 0;
  last_access_time = 0;
  retry_time = 60;
  ipv6 = false;
  probationary = false;
  ip4_peers = true;
  ip6_peers = true;
  signkey = true;
  shuttingdown = false;
}

abbrev client : Client
client = record { config = configured true true 0 (server_record ∷ []); device = []; consumed = [] }

abbrev silent : Surroundings
silent = record {
  now = 60_000_000_001;
  fail_time = 91_000_000_000;
  ban_time = 91_000_000_000;
  success_time = 0;
  connects = true;
  sends = true;
  receives = timed_out;
  first_time = 0;
  second_time = 0;
}

-- What the round leaves: the server has failed once.
abbrev unanswered : Client
unanswered = record client {
  config = record client.config {
    configured_servers =
        record server_record { failure_count = 1; last_access_time = 91_000_000_000 } ∷ [];
  };
}

abbrev request_bytes : Bytes
request_bytes = 0 ∷ 16 ∷ 1 ∷ 3 ∷ 0 ∷ 4 ∷ 5 ∷ 8 ∷ 0 ∷ 4 ∷ 4 ∷ 0 ∷ 0 ∷ 4 ∷ 6 ∷ 0 ∷ []

abbrev silent_round : Round
silent_round = record {
  client = unanswered;
  sent = some ((2, 8080, 10 ∷ 0 ∷ 0 ∷ 1 ∷ []), request_bytes);
}

client_round-silent_round :
    client_round 4 (λ bs. true) [] (λ i. 7) silent (replicate 40 0) client ≡ ok silent_round
unfolding client_round contact construct_request get_next_server step_iterator choose_server
    configured_front init load deref take_reply punish increment_server_fail_count store
    request_messages request_peers generate_request_entropy_message write
    generate_request_peers_message generate_packet_header server_address
client_round-silent_round = refl

-- A request for entropy from another client.
abbrev entropy_request : List Message
entropy_request = record { msg_type = 5; count = 0; content = [] } ∷ []

entropy_request-IsPacket : IsPacket true entropy_request
entropy_request-IsPacket = record {
  messages = (
    record {
      body = inl (omega arith, omega arith, refl);
      count_byte = omega arith;
      size = omega arith;
    },
    tt,
  );
  some_message = omega arith;
  count_byte = omega arith;
  size = omega arith;
}

-- Descriptor 3 for every socket and 4 for the device.
abbrev granting : System
granting calls (open_socket family) = (pos 3, 0)
granting calls (open_device writable) = (pos 4, 0)
granting calls _ = (pos 0, 0)

-- The objects as their constructors leave them.
abbrev new_server : ServerHost
new_server = record {
  server = record {
    state = Loop.notinitialized;
    recent_clients = MruCache.init 0 0;
    config = client.config;
    device = some (1 ∷ 2 ∷ 3 ∷ 4 ∷ 5 ∷ 6 ∷ 7 ∷ 8 ∷ []) ∷ [];
    mtu = 0;
  };
  socketfd = none;
  randomfd = none;
}

abbrev new_client : ClientHost
new_client = record {
  client = client;
  state = Client.notinitialized;
  socketfd4 = none;
  socketfd6 = none;
  randomfd = none;
}

abbrev server : NrpdServer
server = record new_server.server {
  state = running;
  recent_clients = MruCache.init 60 5;
  mtu = 1236;
}

abbrev server_host : ServerHost
server_host = record {
  server = record server { state = Loop.initialized };
  socketfd = some (pos 3);
  randomfd = some (pos 4);
}

abbrev client_host : ClientHost
client_host = record new_client {
  state = Client.running;
  socketfd4 = some (pos 3);
  socketfd6 = some (pos 3);
  randomfd = some (pos 4);
}

main_started :
    (calls : List Call) × (main granting 5 new_server new_client []
      ≡ ok (Main.started (some server) server_host client_host calls))
unfolding main initialize_server init open_server_socket allow_ip4 bind_server Server.open_random
    finish_server Main.main_client Client.initialize_client Client.open_socket6
    Client.open_client_socket Client.open_socket4 Client.open_random Client.finish_client
    Main.start_threads Loop.start_loop Client.start_client MruCache.init
main_started = (_, refl)

abbrev waiting : NrpdServer
waiting = record server { config = unanswered.config }

abbrev client_address : SockaddrStorage
client_address = record { ss_family = 2; sa = 31 ∷ 144 ∷ 10 ∷ 0 ∷ 0 ∷ 2 ∷ [] }

abbrev clock : ℕ → ℕ
clock i = 92_000_000_000

small_entropy : waiting.config.default_entropy < 256
unfolding init
small_entropy = omega arith

unknown_client : present waiting client_address clock ≡ false
unfolding MruCache.is_present_add MruCache.find MruCache.init
unknown_client = refl

sent :
    (bytes : Bytes) (m : Outcome (NrpdServer × Option Bytes))
    → Answered bytes m
    → (server' : NrpdServer) × (packet : Bytes) × (m ≡ ok (server', some packet))
sent bytes (ok (server', some packet)) h = (server', packet, refl)
sent bytes (ok (server', none)) h = absurd h
sent bytes undefined h = absurd h
sent bytes out_of_fuel h = absurd h

abbrev served_request :
    (server' : NrpdServer) × (packet : Bytes) × (serve 3 waiting
        (some (request_packet entropy_request, client_address))
        clock
      ≡ ok (server', some packet))
served_request =
    sent (request_packet entropy_request)
      (serve 3 waiting (some (request_packet entropy_request, client_address)) clock)
      (serve-Answered 3 waiting entropy_request client_address clock entropy_request-IsPacket
        (omega arith, tt) ((omega arith, omega arith, tt), tt) (omega arith) small_entropy
        unknown_client)

-- A round of the client, then a round of the server.
Daemon-IsValid_example :
    (served_request.0.config ≡ served_request.0.config) × IsValid served_request.0.config
Daemon-IsValid_example = Daemon-IsValid (
    served 3 (some (request_packet entropy_request, client_address)) clock served_request.0
      (some served_request.1)
      (asked 4 (λ bs. true) [] (λ i. 7) silent (replicate 40 0) silent_round
        (started granting 5 new_server server_host new_client client_host [] main_started.0 server
          true true 0 (server_record ∷ []) (refl, tt) refl refl main_started.1)
        client_round-silent_round)
      served_request.2)
