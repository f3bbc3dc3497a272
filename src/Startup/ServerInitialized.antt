-- ===== src/Startup/ServerInitialized.antt =====
-- What `InitializeServer` leaves.
use nrp_reference.Base.{
  ℕ, ◌≡◌, refl, inl, inr, true, false, ◌||◌, List, [], ◌∷◌, ◌++◌, Option, none, some, Outcome, ok,
  arith, if◌then◌else◌, Bool-cases,
}
use nrp_reference.Base.Int.{ℤ}
use nrp_reference.MruCache
use nrp_reference.StdHelpers.{af_inet, af_inet6}
use nrp_reference.Protocol.Layout.{max_ip6_packet_size, client_min_retry_seconds}
use nrp_reference.Config.State.{Config}
use nrp_reference.Server.Loop.{NrpdServer}
use nrp_reference.Startup.{
  Address, Call, open_socket, set_v6only, bind_socket, open_device, System, Setup, ◌followed_by◌,
  is_negative, htons, sockaddr_in_size, sockaddr_in6_size,
}
use nrp_reference.Startup.Server
use nrp_reference.Startup.Server.{
  ServerHost, initialize_server, open_server_socket, allow_ip4, bind_server, finish_server,
}
use nrp_reference.Startup.Attempts.{Failed, attempt_cases, is_negative-is_failure}

-- The calls of `InitializeServer` with its two descriptors, the latest first.
abbrev pub server_calls : Config → ℤ → List Call
server_calls config fd =
    let port = htons config.port in
    open_device false
    ∷ (if config.server_enable_ip6
        then bind_socket fd (record { family = af_inet6; port = port }) sockaddr_in6_size
          ∷ (if config.server_enable_ip4
              then set_v6only fd 0 ∷ open_socket af_inet6 ∷ []
              else open_socket af_inet6 ∷ [])
        else bind_socket fd (record { family = af_inet; port = port }) sockaddr_in_size
          ∷ open_socket af_inet
          ∷ [])

-- What `InitializeServer` must leave, given its calls with the socket.
abbrev Leaves :
    System
    → ℕ
    → ServerHost
    → (ℤ → List Call)
    → List Call
    → Outcome (ServerHost × List Call × Option ℕ)
    → Type 0
Leaves os now host made calls (ok (host', calls', none)) =
    (fd : ℤ) × (random : ℤ) × (is_negative fd ≡ false)
    × (is_negative random ≡ false)
    × (calls' ≡ made fd ++ calls)
    × (host' ≡ record {
      server = record host.server {
        mtu = max_ip6_packet_size;
        recent_clients = MruCache.init client_min_retry_seconds now;
        state = nrp_reference.Server.Loop.initialized;
      };
      socketfd = some fd;
      randomfd = some random;
    })
Leaves os now host made calls (ok (host', calls', some code)) =
    (host'.server.state ≡ host.server.state)
    × (host'.server.config ≡ host.server.config)
    × Failed os calls' code
Leaves os now host made calls _ = ⊥

abbrev pub ServerInitialized :
    System → ℕ → ServerHost → List Call → Outcome (ServerHost × List Call × Option ℕ) → Type 0
ServerInitialized os now host = Leaves os now host (server_calls host.server.config)

module _ (os : System) (now : ℕ) (host : ServerHost) (calls : List Call) where
  abbrev opened : ℤ → ServerHost
  opened fd = record host { socketfd = some fd }

  random-Leaves :
      (made : ℤ → List Call) (fd : ℤ) (before : List Call)
      → is_negative fd ≡ false
      → open_device false ∷ before ≡ made fd ++ calls
      → Leaves os now host made calls
          ((Server.open_random os followed_by finish_server now) (opened fd) before)
  unfolding Server.open_random finish_server
  random-Leaves made fd before h e =
      attempt_cases (Leaves os now host made calls) os is_negative (open_device false)
        (λ n. record {
          server = record host.server { mtu = max_ip6_packet_size };
          socketfd = some fd;
          randomfd = some n;
        })
        before (finish_server now)
        (λ bad. (refl, refl, (is_negative-is_failure (open_device false) _ bad, refl)))
        (λ good. (fd, (os before (open_device false)).0, h, good, e, refl))

  bind-Leaves :
      (made : ℤ → List Call) (address : Address) (size : ℕ) (fd : ℤ) (before : List Call)
      → is_negative fd ≡ false
      → open_device false ∷ bind_socket fd address size ∷ before ≡ made fd ++ calls
      → Leaves os now host made calls (
          (bind_server os address size
              followed_by Server.open_random os
              followed_by finish_server now)
            (opened fd)
            before)
  unfolding bind_server
  bind-Leaves made address size fd before h e =
      attempt_cases (Leaves os now host made calls) os is_negative (bind_socket fd address size)
        (λ _. opened fd) before (Server.open_random os followed_by finish_server now)
        (λ bad. (refl, refl, (is_negative-is_failure (bind_socket fd address size) _ bad, refl)))
        (λ good. random-Leaves made fd (bind_socket fd address size ∷ before) h e)

  allow-Leaves :
      (made : ℤ → List Call) (address : Address) (size : ℕ) (fd : ℤ) (before : List Call)
      → is_negative fd ≡ false
      → open_device false
          ∷ bind_socket fd address size
          ∷ (if host.server.config.server_enable_ip4 then set_v6only fd 0 ∷ before else before)
        ≡ made fd ++ calls
      → Leaves os now host made calls (
          (allow_ip4 os
              followed_by bind_server os address size
              followed_by Server.open_random os
              followed_by finish_server now)
            (opened fd)
            before)
  unfolding allow_ip4
  allow-Leaves made address size fd before h e =
      elim (Bool-cases host.server.config.server_enable_ip4) [
        | inl dual ↦ simp dual (
            attempt_cases (Leaves os now host made calls) os is_negative (set_v6only fd 0)
              (λ _. opened fd) before
              (bind_server os address size
                followed_by Server.open_random os
                followed_by finish_server now)
              (λ bad. (refl, refl, (is_negative-is_failure (set_v6only fd 0) _ bad, refl)))
              (λ good.
                bind-Leaves made address size fd (set_v6only fd 0 ∷ before) h (simp dual at e)))
        | inr single ↦ simp single (bind-Leaves made address size fd before h (simp single at e))
      ]

  -- The three modes.
  socket-Leaves :
      (made : ℤ → List Call) (family : ℕ) (next : Setup ServerHost)
      → ((fd : ℤ)
          → is_negative fd ≡ false
          → Leaves os now host made calls (next (opened fd) (open_socket family ∷ calls)))
      → Leaves os now host made calls ((open_server_socket os family followed_by next) host calls)
  unfolding open_server_socket
  socket-Leaves made family next good =
      attempt_cases (Leaves os now host made calls) os is_negative (open_socket family) opened calls
        next (λ bad. (refl, refl, (is_negative-is_failure (open_socket family) _ bad, refl)))
        (λ fine. good (os calls (open_socket family)).0 fine)

-- With IPv4 or IPv6 enabled, `InitializeServer` returns. Either all its calls succeed, which are the ones
-- of the three modes in their order, and it leaves the server initialized with an empty cache of clients, the
-- larger packet size and two descriptors that are not negative; or it returns the `errno` of its last
-- call, which failed, and leaves the state and the configuration as they were.
pub initialize_server-ServerInitialized :
    (os : System) (now : ℕ) (host : ServerHost) (calls : List Call)
    → (host.server.config.server_enable_ip4 || host.server.config.server_enable_ip6) ≡ true
    → ServerInitialized os now host calls (initialize_server os now host calls)
unfolding initialize_server
initialize_server-ServerInitialized os now host calls h =
    let made = server_calls host.server.config in
    let bound4 : Address = record { family = af_inet; port = htons host.server.config.port } in
    let bound6 : Address = record { family = af_inet6; port = htons host.server.config.port } in
    let rest : Setup ServerHost = Server.open_random os followed_by finish_server now in
    let dual =
      socket-Leaves os now host calls made af_inet6
        (allow_ip4 os followed_by bind_server os bound6 sockaddr_in6_size followed_by rest) in
    let only4 =
      socket-Leaves os now host calls made af_inet
        (bind_server os bound4 sockaddr_in_size followed_by rest) in
    let four_known = Bool-cases host.server.config.server_enable_ip4 in
    let then6 = λ (fd : ℤ).
      allow-Leaves os now host calls made bound6 sockaddr_in6_size fd
        (open_socket af_inet6 ∷ calls) in
    elim (Bool-cases host.server.config.server_enable_ip6) [
      | inl six ↦ elim four_known [
        | inl four ↦ simp (six, four) (dual (λ fd good. then6 fd good (ground arith)))
        | inr no_four ↦ simp (six, no_four) (dual (λ fd good. then6 fd good (ground arith)))
      ]
      | inr no_six ↦ elim four_known [
        | inl four ↦
            simp (no_six, four)
              (only4 (λ fd good.
                bind-Leaves os now host calls made bound4 sockaddr_in_size fd
                  (open_socket af_inet ∷ calls) good (ground arith)))
        | inr no_four ↦ absurd (ground arith)
      ]
    ]
