-- ===== src/Startup/Kept.antt =====
-- The initialisations keep the configuration that `main` passed to both constructors.
use nrp_reference.Base.{
  ℕ, zero, suc, ◌≡◌, refl, ◌∙◌, inl, inr, ◌&&◌, not, List, Option, some, ok, >>=-eq-ok, arith,
  Bool-cases,
}
use nrp_reference.Base.Int.{ℤ}
use nrp_reference.Config.State.{Config}
use nrp_reference.Config.Accessors.{
  enable_client_ip4, enable_client_ip6, enable_server_ip4, enable_server_ip6, server_port,
  receive_timeout,
}
use nrp_reference.Server.Loop.{NrpdServer, start_loop}
use nrp_reference.StdHelpers.{af_inet, af_inet6}
use nrp_reference.Startup.{
  Call, open_socket, set_receive_timeout, set_v6only, bind_socket, System, Address, ◌followed_by◌,
  is_negative, is_nonzero, htons, sockaddr_in_size, sockaddr_in6_size,
}
use nrp_reference.Startup.Server
use nrp_reference.Startup.Server.{
  ServerHost, open_server_socket, allow_ip4, bind_server, finish_server, initialize_server,
  destroy_server,
}
use nrp_reference.Startup.Client
use nrp_reference.Startup.Client.{
  ClientHost, set_timeout, bind_client, open_client_socket, keep4, keep6, open_socket4,
  open_socket6, finish_client, initialize_client, start_client, destroy_client,
}
use nrp_reference.Startup.Keeps.{
  Keeps, followed_by-Keeps, attempt-Keeps, reading-Keeps, skip-Keeps, choice-Keeps,
}
use nrp_reference.Startup.Main.{
  started, return_code, exit_failure, start_threads, main_client, main,
}

abbrev server_config : ServerHost → Config
server_config host = host.server.config

module _ (os : System) where
  open_server_socket-Keeps : (family : ℕ) → Keeps server_config (open_server_socket os family)
  unfolding open_server_socket
  open_server_socket-Keeps family =
      attempt-Keeps server_config os is_negative (open_socket family)
        (λ host fd. record host { socketfd = some fd }) (λ host fd. refl)

  allow_ip4-Keeps : Keeps server_config (allow_ip4 os)
  unfolding allow_ip4
  allow_ip4-Keeps =
      choice-Keeps server_config (λ host. enable_server_ip4 host.server.config) _ _
        (reading-Keeps server_config (λ host. host.socketfd) _
          (λ fd.
            attempt-Keeps server_config os is_negative (set_v6only fd 0) (λ host answer. host)
              (λ host answer. refl)))
        (skip-Keeps server_config (λ host. host) (λ host. refl))

  bind_server-Keeps :
      (address : Address) (size : ℕ) → Keeps server_config (bind_server os address size)
  unfolding bind_server
  bind_server-Keeps address size =
      reading-Keeps server_config (λ host. host.socketfd) _
        (λ fd.
          attempt-Keeps server_config os is_negative (bind_socket fd address size)
            (λ host answer. host) (λ host answer. refl))

  open_random-Keeps : Keeps server_config (Server.open_random os)
  unfolding Server.open_random Keeps
  open_random-Keeps host host' calls calls' error h = ground arith

  finish_server-Keeps : (now : ℕ) → Keeps server_config (finish_server now)
  unfolding finish_server Keeps
  finish_server-Keeps now host host' calls calls' error h = ground arith

  finish-Keeps :
      (now : ℕ) → Keeps server_config (Server.open_random os followed_by finish_server now)
  finish-Keeps now = followed_by-Keeps server_config _ _ open_random-Keeps (finish_server-Keeps now)

  bound-Keeps :
      (now : ℕ) (address : Address) (size : ℕ)
      → Keeps server_config (
          bind_server os address size
          followed_by Server.open_random os
          followed_by finish_server now)
  bound-Keeps now address size =
      followed_by-Keeps server_config _ _ (bind_server-Keeps address size) (finish-Keeps now)

  initialize_server-Keeps : (now : ℕ) → Keeps server_config (initialize_server os now)
  unfolding initialize_server Keeps
  initialize_server-Keeps now host host' calls calls' error h =
      let port = htons (server_port host.server.config) in
      elim (Bool-cases
        (enable_server_ip4 host.server.config && not (enable_server_ip6 host.server.config))) [
          | inl four ↦
              followed_by-Keeps server_config _ _ (open_server_socket-Keeps af_inet)
                (bound-Keeps now (record { family = af_inet; port = port }) sockaddr_in_size) host
                host' calls calls' error (simp four at h)
          | inr not_four ↦
              let rest = simp not_four at h in
              elim (Bool-cases (enable_server_ip6 host.server.config)) [
                | inl six ↦
                    followed_by-Keeps server_config _ _ (open_server_socket-Keeps af_inet6)
                      (followed_by-Keeps server_config _ _ allow_ip4-Keeps (
                        bound-Keeps now (record { family = af_inet6; port = port })
                          sockaddr_in6_size))
                      host host' calls calls' error (simp six at rest)
                | inr neither ↦
                    bound-Keeps now (record { family = 0; port = 0 }) 0 host host' calls calls'
                      error (simp neither at rest)
              ]
        ]

abbrev client_config : ClientHost → Config
client_config host = host.client.config

module _ (os : System) where
  bind_client-Keeps :
      (family : ℕ) (descriptor : ClientHost → Option ℤ)
      → Keeps client_config (bind_client os family descriptor)
  bind_client-Keeps family descriptor = reading-Keeps client_config descriptor _ (λ fd.
      attempt-Keeps client_config os is_nonzero
        (bind_socket fd (record { family = family; port = 0 }) sockaddr_in6_size)
        (λ host answer. host) (λ host answer. refl))

  set_timeout-Keeps :
      (timeout : ℕ) (descriptor : ClientHost → Option ℤ)
      → Keeps client_config (set_timeout os timeout descriptor)
  set_timeout-Keeps timeout descriptor = reading-Keeps client_config descriptor _ (λ fd.
      attempt-Keeps client_config os is_negative (set_receive_timeout fd timeout)
        (λ host answer. host) (λ host answer. refl))

  open_client_socket-Keeps :
      (family : ℕ) (descriptor : ClientHost → Option ℤ) (keep : ClientHost → ℤ → ClientHost)
      → ((host : ClientHost) (fd : ℤ) → (keep host fd).client.config ≡ host.client.config)
      → Keeps client_config (open_client_socket os family descriptor keep)
  unfolding open_client_socket Keeps
  open_client_socket-Keeps family descriptor keep same host =
      followed_by-Keeps client_config _ _
        (attempt-Keeps client_config os is_negative (open_socket family) keep same)
        (followed_by-Keeps client_config _ _
          (set_timeout-Keeps (receive_timeout host.client.config) descriptor)
          (bind_client-Keeps family descriptor))
        host

  open_socket6-Keeps : Keeps client_config (open_socket6 os)
  unfolding open_socket6
  open_socket6-Keeps =
      choice-Keeps client_config (λ host. enable_client_ip6 host.client.config) _ _
        (open_client_socket-Keeps af_inet6 (λ h. h.socketfd6) keep6 (λ host fd. refl))
        (skip-Keeps client_config (λ host. host) (λ host. refl))

  open_socket4-Keeps : Keeps client_config (open_socket4 os)
  unfolding open_socket4
  open_socket4-Keeps =
      choice-Keeps client_config (λ host. enable_client_ip4 host.client.config) _ _
        (open_client_socket-Keeps af_inet (λ h. h.socketfd4) keep4 (λ host fd. refl))
        (skip-Keeps client_config (λ host. host) (λ host. refl))

  open_client_random-Keeps : Keeps client_config (Client.open_random os)
  unfolding Client.open_random Keeps
  open_client_random-Keeps host host' calls calls' error h = ground arith

  finish_client-Keeps : Keeps client_config finish_client
  unfolding finish_client Keeps
  finish_client-Keeps host host' calls calls' error h = ground arith

  initialize_client-Keeps : Keeps client_config (initialize_client os)
  unfolding initialize_client
  initialize_client-Keeps = followed_by-Keeps client_config _ _ open_socket6-Keeps (
      followed_by-Keeps client_config _ _ open_socket4-Keeps
        (followed_by-Keeps client_config _ _ open_client_random-Keeps finish_client-Keeps))

-- `EXIT_FAILURE` is no start.
exit_failure-ends :
    (server server' : ServerHost) (client client' : ClientHost) (calls calls' : List Call)
    (loop : Option NrpdServer)
    → exit_failure server client calls ≡ ok (started loop server' client' calls')
    → ⊥
unfolding exit_failure
exit_failure-ends server server' client client' calls calls' loop h =
    let ((client₁, calls₁), one, h₁) = >>=-eq-ok (destroy_client client calls) _ h in
    let ((server₁, calls₂), two, h₂) = >>=-eq-ok (destroy_server server calls₁) _ h₁ in cc

-- What the threads start with.
SameConfig : ServerHost → ClientHost → NrpdServer → ClientHost → Type 0
SameConfig server client loop client' =
    (loop.config ≡ server.server.config) × (client'.client.config ≡ client.client.config)

start_threads-SameConfig :
    (server server' : ServerHost) (client client' : ClientHost) (calls calls' : List Call)
    (loop : NrpdServer)
    → start_threads server client calls ≡ ok (started (some loop) server' client' calls')
    → SameConfig server client loop client'
unfolding start_threads start_loop start_client SameConfig
start_threads-SameConfig server server' client client' calls calls' loop h = ground arith

main_client-SameConfig :
    (os : System) (server server' : ServerHost) (client client' : ClientHost)
    (calls calls' : List Call) (loop : NrpdServer)
    → main_client os server client calls ≡ ok (started (some loop) server' client' calls')
    → SameConfig server client loop client'
unfolding main_client Keeps SameConfig
main_client-SameConfig os server server' client client' calls calls' loop h =
    let ((client₁, calls₁, error), made, rest) =
      >>=-eq-ok (initialize_client os client calls) _ h in
    go client₁ calls₁ error (return_code error) made rest
  where
    go :
        (client₁ : ClientHost) (calls₁ : List Call) (error : Option ℕ) (code : ℕ)
        → initialize_client os client calls ≡ ok (client₁, calls₁, error)
        → elim code [
          | zero ↦ start_threads server client₁ calls₁
          | suc n ↦ exit_failure server client₁ calls₁
        ]
          ≡ ok (started (some loop) server' client' calls')
        → SameConfig server client loop client'
    go client₁ calls₁ error zero made rest =
        let (same, same') =
          start_threads-SameConfig server server' client₁ client' calls₁ calls' loop rest in
        (same, same' ∙ initialize_client-Keeps os client client₁ calls calls₁ error made)
    go client₁ calls₁ error (suc n) made rest =
        absurd (exit_failure-ends server server' client₁ client' calls₁ calls' (some loop) rest)

-- When `main` starts the loops of both threads, they share the configurations that it made its objects with.
pub main-SameConfig :
    (os : System) (now : ℕ) (server server' : ServerHost) (client client' : ClientHost)
    (calls calls' : List Call) (loop : NrpdServer)
    → main os now server client calls ≡ ok (started (some loop) server' client' calls')
    → (loop.config ≡ server.server.config) × (client'.client.config ≡ client.client.config)
unfolding main Keeps SameConfig
main-SameConfig os now server server' client client' calls calls' loop h =
    let ((server₁, calls₁, error), made, rest) =
      >>=-eq-ok (initialize_server os now server calls) _ h in
    go server₁ calls₁ error (return_code error) made rest
  where
    go :
        (server₁ : ServerHost) (calls₁ : List Call) (error : Option ℕ) (code : ℕ)
        → initialize_server os now server calls ≡ ok (server₁, calls₁, error)
        → elim code [
          | zero ↦ main_client os server₁ client calls₁
          | suc n ↦ exit_failure server₁ client calls₁
        ]
          ≡ ok (started (some loop) server' client' calls')
        → (loop.config ≡ server.server.config) × (client'.client.config ≡ client.client.config)
    go server₁ calls₁ error zero made rest =
        let (same, same') =
          main_client-SameConfig os server₁ server' client client' calls₁ calls' loop rest in
        (same ∙ initialize_server-Keeps os now server server₁ calls calls₁ error made, same')
    go server₁ calls₁ error (suc n) made rest =
        absurd (exit_failure-ends server₁ server' client client' calls₁ calls' (some loop) rest)
