-- ===== src/Startup/Server.antt =====
-- server.cpp: `InitializeServer`, the destructor and `ServerThread`'s start of the loop.
use nrp_reference.Base.{
  ℕ, false, List, Option, none, some, Outcome, ok, ◌>>=◌, if◌then◌else◌, not, ◌&&◌,
}
use nrp_reference.Base.Int.{ℤ}
use nrp_reference.MruCache
use nrp_reference.StdHelpers.{af_inet, af_inet6}
use nrp_reference.Protocol.Layout.{max_ip6_packet_size, client_min_retry_seconds}
use nrp_reference.Server.Loop.{NrpdServer, initialized, destroying}
use nrp_reference.Config.Accessors.{enable_server_ip4, enable_server_ip6, server_port}
use nrp_reference.Startup.{
  Address, Call, open_socket, set_v6only, bind_socket, open_device, System, Setup, attempt,
  ◌followed_by◌, read_descriptor, close_descriptor, is_negative, htons, sockaddr_in_size,
  sockaddr_in6_size,
}

-- The server with its descriptors.
pub record ServerHost : Type 0 where
  pub server : NrpdServer
  pub socketfd : Option ℤ
  pub randomfd : Option ℤ

-- The socket of the first two branches.
unfoldable pub open_server_socket : System → ℕ → Setup ServerHost
open_server_socket os family host =
    attempt os is_negative (open_socket family) (λ fd. record host { socketfd = some fd })

-- `Dual-Stack`.
unfoldable pub allow_ip4 : System → Setup ServerHost
allow_ip4 os host calls =
    if enable_server_ip4 host.server.config
    then (do
      fd ← read_descriptor host.socketfd
      attempt os is_negative (set_v6only fd 0) (λ _. host) calls)
    else ok (host, calls, none)

unfoldable pub bind_server : System → Address → ℕ → Setup ServerHost
bind_server os address size host calls = do
  fd ← read_descriptor host.socketfd
  attempt os is_negative (bind_socket fd address size) (λ _. host) calls

-- The maximal packet size and the random device.
unfoldable pub open_random : System → Setup ServerHost
open_random os host = attempt os is_negative (open_device false) (λ fd. record host {
  server = record host.server { mtu = max_ip6_packet_size };
  randomfd = some fd;
})

-- The cache of recent clients, and the new state.
unfoldable pub finish_server : ℕ → Setup ServerHost
finish_server now host calls = ok (
  record host {
    server = record host.server {
      recent_clients = MruCache.init client_min_retry_seconds now;
      state = initialized;
    };
  },
  calls,
  none,
)

-- `InitializeServer`. `now` is the reading of the clock by the constructor of the cache; with neither
-- family enabled the socket was never opened and the address is still empty.
unfoldable pub initialize_server : System → ℕ → Setup ServerHost
initialize_server os now host calls =
    let config = host.server.config in
    let rest = open_random os followed_by finish_server now in
    let port = htons (server_port config) in
    if (enable_server_ip4 config) && not (enable_server_ip6 config)
    then (open_server_socket os af_inet
          followed_by bind_server os (record { family = af_inet; port = port }) sockaddr_in_size
          followed_by rest)
        host calls
    else if enable_server_ip6 config
    then (open_server_socket os af_inet6
          followed_by allow_ip4 os
          followed_by bind_server os (record { family = af_inet6; port = port }) sockaddr_in6_size
          followed_by rest)
        host calls
    else (bind_server os (record { family = 0; port = 0 }) 0 followed_by rest) host calls

-- The destructor.
unfoldable pub destroy_server : ServerHost → List Call → Outcome (ServerHost × List Call)
destroy_server host calls = do
  calls' ← close_descriptor host.socketfd calls
  calls'' ← close_descriptor host.randomfd calls'
  ok (record host { server = record host.server { state = destroying } }, calls'')
