-- ===== src/Exchange/Tests.antt =====
-- A client that asks a new server.
use nrp_reference.Base.{
  ℕ, ◌≤◌, ◌≡◌, refl, true, false, [], ◌∷◌, some, ok, arith, length, length-replicate, replicate,
  take,
}
use nrp_reference.MruCache
use nrp_reference.StdHelpers.{SockaddrStorage}
use nrp_reference.ServerRecord.{ServerRecord}
use nrp_reference.Protocol.Layout.{Bytes}
use nrp_reference.Config.State.{init}
use nrp_reference.Config.Servers.{in_configured}
use nrp_reference.Client.Parse.{Client}
use nrp_reference.Client.Request.{construct_request}
use nrp_reference.Server.Loop.{NrpdServer, running, serve}
use nrp_reference.Server.Serve.{present}
use nrp_reference.Exchange.{Completes, construct_request-serve}

abbrev server_record : ServerRecord
server_record = record {
  host = 10 ∷ 0 ∷ 0 ∷ 1 ∷ [];
  port = 8080;
  failure_count = 0;
  last_access_time = 0;
  retry_time = 60;
  ipv6 = false;
  probationary = false;
  ip4_peers = true;
  ip6_peers = true;
  signkey = true;
  shuttingdown = false;
}

abbrev client : Client
client = record {
  config = record (init true true 0) { configured_servers = server_record ∷ [] };
  device = some (165 ∷ []) ∷ [];
  consumed = [];
}

abbrev server : NrpdServer
server = record {
  state = running;
  recent_clients = MruCache.init 60 0;
  config = init true true 0;
  device = some (1 ∷ 2 ∷ 3 ∷ 4 ∷ 5 ∷ 6 ∷ 7 ∷ 8 ∷ []) ∷ [];
  mtu = 532;
}

abbrev client_address : SockaddrStorage
client_address = record { ss_family = 2; sa = 31 ∷ 144 ∷ 10 ∷ 0 ∷ 0 ∷ 2 ∷ [] }

unfoldable zeros : Bytes
zeros = replicate 65507 0

zeros_enough : 65507 ≤ length zeros
unfolding zeros
zeros_enough = omega (arith, length-replicate {A = ℕ} 65507 0)

new_client : present server client_address (λ i. 10) ≡ false
unfolding MruCache.is_present_add MruCache.find MruCache.init
new_client = refl

construct_request-serve_example :
    (request : Bytes) × (size : ℕ) × (construct_request client.config server_record 65507 zeros
      ≡ ok (some (request, size)))
    × Completes
        (λ bytes. true)
        []
        (λ i. 7)
        in_configured
        client
        []
        request
        (serve 4 server (some (take size request, client_address)) (λ i. 10))
unfolding init
construct_request-serve_example =
    construct_request-serve (λ bytes. true) [] (λ i. 7) in_configured client [] 4 server
      server_record zeros client_address (λ i. 10) (omega arith) (omega arith) zeros_enough
      (omega arith) new_client (omega arith)
