-- ===== src/Startup/Started.antt =====
-- How `main` starts the daemon, and how it ends where it cannot.
use nrp_reference.Base.{
  ℕ, zero, suc, ◌≡◌, ◌≢◌, refl, ap, ◌⊎◌, inl, inr, true, ◌||◌, List, [], ◌∷◌, Option, none, some,
  Outcome, ok, undefined, out_of_fuel,
}
use nrp_reference.Server.Loop
use nrp_reference.Server.Loop.{NrpdServer, start_loop}
use nrp_reference.Base.Int.{ℤ, pos, negsuc}
use nrp_reference.Base.{◌∙◌, ◌>>=◌, >>=_assoc}
use nrp_reference.Startup.{Call, close_file, System, close_descriptor}
use nrp_reference.Startup.Client
use nrp_reference.Startup.Attempts.{Failed, is_failure}
use nrp_reference.Startup.Server.{ServerHost, initialize_server, destroy_server}
use nrp_reference.Startup.Client.{ClientHost, initialize_client, destroy_client, start_client}
use nrp_reference.Startup.Main.{
  Program, started, exited, exit_failure, start_threads, main_client, main,
}
use nrp_reference.Startup.ServerInitialized.{ServerInitialized, initialize_server-ServerInitialized}
use nrp_reference.Startup.ClientInitialized.{ClientInitialized, initialize_client-ClientInitialized}

-- What POSIX documents of `errno`: a call that fails sets it to a positive number.
abbrev pub SetsErrno : System → Type 0
SetsErrno os =
    (calls : List Call) (call : Call)
    → is_failure call (os calls call).0 ≡ true
    → (os calls call).1 ≢ 0

-- `main` with both threads running: both initialisations made all their calls with success.
abbrev pub Runs : System → ℕ → ServerHost → ClientHost → List Call → Outcome Program → Type 0
Runs os now server client calls made =
    (server' : ServerHost) × (client' : ClientHost) × (calls₁ : List Call) × (calls₂ : List Call)
    × ServerInitialized os now server calls (ok (server', calls₁, none))
    × ClientInitialized os client calls₁ (ok (client', calls₂, none))
    × (made
        ≡ ok (
            started (some (record server'.server { state = Loop.running })) server'
              (record client' { state = Client.running }) calls₂))

-- The end of a program that returns 1: each descriptor that is above 0 is closed, in order. A descriptor without a
-- value cannot be tested.
abbrev pub exit_with_closed : List (Option ℤ) → List Call → Outcome Program
exit_with_closed [] calls = ok (exited 1 calls)
exit_with_closed (none ∷ fds) calls = undefined
exit_with_closed (some (pos (suc fd)) ∷ fds) calls =
    exit_with_closed fds (close_file (pos (suc fd)) ∷ calls)
exit_with_closed (some (pos zero) ∷ fds) calls = exit_with_closed fds calls
exit_with_closed (some (negsuc n) ∷ fds) calls = exit_with_closed fds calls

abbrev pub descriptors : ServerHost → ClientHost → List (Option ℤ)
descriptors server client =
    client.socketfd4 ∷ client.socketfd6 ∷ client.randomfd ∷ server.socketfd ∷ server.randomfd ∷ []

-- `main` after the server's initialisation failed, or the client's.
abbrev pub ServerFails : System → ℕ → ServerHost → ClientHost → List Call → Outcome Program → Type 0
ServerFails os now server client calls made =
    (server' : ServerHost) × (calls₁ : List Call) × (code : ℕ) × (initialize_server os now server
        calls
      ≡ ok (server', calls₁, some code))
    × ServerInitialized os now server calls (ok (server', calls₁, some code))
    × (made ≡ exit_with_closed (descriptors server' client) calls₁)

abbrev pub ClientFails : System → ℕ → ServerHost → ClientHost → List Call → Outcome Program → Type 0
ClientFails os now server client calls made =
    (server' : ServerHost) × (client' : ClientHost) × (calls₁ : List Call) × (calls₂ : List Call)
    × (code : ℕ) × ServerInitialized os now server calls (ok (server', calls₁, none))
    × (initialize_client os client calls₁ ≡ ok (client', calls₂, some code))
    × ClientInitialized os client calls₁ (ok (client', calls₂, some code))
    × (made ≡ exit_with_closed (descriptors server' client') calls₂)

-- One destructor's step.
close_step :
    (fd : Option ℤ) (fds : List (Option ℤ)) (calls : List Call)
    (after : List Call → Outcome Program)
    → ((calls' : List Call) → after calls' ≡ exit_with_closed fds calls')
    → (close_descriptor fd calls >>= after) ≡ exit_with_closed (fd ∷ fds) calls
unfolding close_descriptor
close_step none fds calls after h = refl
close_step (some (pos zero)) fds calls after h = h calls
close_step (some (pos (suc fd))) fds calls after h = h (close_file (pos (suc fd)) ∷ calls)
close_step (some (negsuc n)) fds calls after h = h calls

close_steps {ℓ} :
    {Object : Type ℓ} (fd : Option ℤ) (fds : List (Option ℤ)) (calls : List Call)
    (destroy : List Call → Outcome Object) (after : Object → Outcome Program)
    → ((calls' : List Call) → (destroy calls' >>= after) ≡ exit_with_closed fds calls')
    → (close_descriptor fd calls >>= destroy >>= after) ≡ exit_with_closed (fd ∷ fds) calls
close_steps fd fds calls destroy after h =
    >>=_assoc (close_descriptor fd calls) destroy after
    ∙ close_step fd fds calls (λ calls'. destroy calls' >>= after) h

exit_failure-closed :
    (server : ServerHost) (client : ClientHost) (calls : List Call)
    → exit_failure server client calls ≡ exit_with_closed (descriptors server client) calls
unfolding exit_failure destroy_client destroy_server
exit_failure-closed server client calls = close_steps client.socketfd4 _ calls _ _ (λ calls₁.
    close_steps client.socketfd6 _ calls₁ _ _ (λ calls₂.
      close_steps client.randomfd _ calls₂ _ _ (λ calls₃.
        close_steps server.socketfd _ calls₃ _ _
          (λ calls₄. close_steps server.randomfd [] calls₄ _ _ (λ calls₅. refl)))))

Failed-errno : (os : System) (calls : List Call) → SetsErrno os → Failed os calls 0 → ⊥
Failed-errno os [] errno bad = bad
Failed-errno os (call ∷ before) errno (failed, code) = errno before call failed code

start_loop-initialized :
    (s : NrpdServer)
    → s.state ≡ Loop.initialized
    → start_loop s ≡ some (record s { state = Loop.running })
unfolding start_loop
start_loop-initialized s ready = rw ready refl

module _ (os : System) (errno : SetsErrno os) (now : ℕ) (server : ServerHost) (client : ClientHost)
    (calls : List Call) where
  client_left :
      (server' : ServerHost) (calls₁ : List Call)
      → ServerInitialized os now server calls (ok (server', calls₁, none))
      → (left : Outcome (ClientHost × List Call × Option ℕ))
      → initialize_client os client calls₁ ≡ left
      → ClientInitialized os client calls₁ left
      → Runs os now server client calls (main_client os server' client calls₁)
        ⊎ ClientFails os now server client calls (main_client os server' client calls₁)
  unfolding main_client start_threads start_client
  client_left server' calls₁ ready (ok (client', calls₂, none)) e done =
      let (fd, random, good, good', made, same) = ready in
      inl (
        server',
        client',
        calls₁,
        calls₂,
        ready,
        done,
        rw e (
            ap
              (λ loop. ok (started loop server' (record client' { state = Client.running }) calls₂))
              (start_loop-initialized server'.server
                (ap (λ (h : ServerHost). h.server.state) same))),
      )
  client_left server' calls₁ ready (ok (client', calls₂, some zero)) e (state, same, bad) =
      absurd (Failed-errno os calls₂ errno bad)
  client_left server' calls₁ ready (ok (client', calls₂, some (suc code))) e (state, same, bad) =
      inr (
        server',
        client',
        calls₁,
        calls₂,
        suc code,
        ready,
        e,
        (state, same, bad),
        rw e (exit_failure-closed server' client' calls₂),
      )
  client_left server' calls₁ ready undefined e bad = absurd bad
  client_left server' calls₁ ready out_of_fuel e bad = absurd bad

  server_left :
      (left : Outcome (ServerHost × List Call × Option ℕ))
      → initialize_server os now server calls ≡ left
      → ServerInitialized os now server calls left
      → Runs os now server client calls (main os now server client calls)
        ⊎ ServerFails os now server client calls (main os now server client calls)
        ⊎ ClientFails os now server client calls (main os now server client calls)
  unfolding main
  server_left (ok (server', calls₁, none)) e done =
      rw e
        (elim (client_left server' calls₁ done (initialize_client os client calls₁) refl
          (initialize_client-ClientInitialized os client calls₁)) [
            | inl runs ↦ inl runs
            | inr fails ↦ inr (inr fails)
          ])
  server_left (ok (server', calls₁, some zero)) e (state, same, bad) =
      absurd (Failed-errno os calls₁ errno bad)
  server_left (ok (server', calls₁, some (suc code))) e (state, same, bad) = inr (
      inl (
        server',
        calls₁,
        suc code,
        e,
        (state, same, bad),
        rw e (exit_failure-closed server' client calls₁),
      ))
  server_left undefined e bad = absurd bad
  server_left out_of_fuel e bad = absurd bad

  -- With IPv4 or IPv6 enabled for the server, and calls that set `errno` when they fail, `main` comes to one of
  -- three ends. Both initialisations make all their calls with success, and the loops of server and client run with
  -- the objects that they left. Or the last call of the server's initialisation failed, or the last of the client's
  -- after the server's went well: then the program returns `EXIT_FAILURE`, 1, after it closed every descriptor above 0
  -- of the client (IPv4, IPv6, device) and the server (socket, device), in this order; where one of them was never
  -- assigned, the behaviour is undefined.
  pub main-started :
      (server.server.config.server_enable_ip4 || server.server.config.server_enable_ip6) ≡ true
      → Runs os now server client calls (main os now server client calls)
        ⊎ ServerFails os now server client calls (main os now server client calls)
        ⊎ ClientFails os now server client calls (main os now server client calls)
  main-started enabled =
      server_left (initialize_server os now server calls) refl
        (initialize_server-ServerInitialized os now server calls enabled)

-- Where the server's initialisation returns an error, `main` destroys a client whose descriptors were never
-- assigned: its destructor reads them, which is undefined.
pub main-undefined :
    (os : System) (now : ℕ) (server server' : ServerHost) (client : ClientHost)
    (calls calls' : List Call) (code : ℕ)
    → initialize_server os now server calls ≡ ok (server', calls', some (suc code))
    → client.socketfd4 ≡ none
    → main os now server client calls ≡ undefined
unfolding main exit_failure destroy_client close_descriptor
main-undefined os now server server' client calls calls' code failed unassigned =
    rw (failed, unassigned) refl
