-- ===== src/Startup/ClientInitialized.antt =====
-- What `InitializeClient` leaves.
use nrp_reference.Base.{
  ℕ, ◌≡◌, refl, ap, ◌∙◌, inl, inr, true, false, List, ◌∷◌, Option, none, some, Outcome, ok, ◌>>=◌,
  arith, if◌then◌else◌, Bool-cases,
}
use nrp_reference.Base.Int.{ℤ, pos}
use nrp_reference.StdHelpers.{af_inet, af_inet6}
use nrp_reference.Config.State.{Config}
use nrp_reference.Startup.{
  Call, open_socket, set_receive_timeout, bind_socket, open_device, System, Setup, ◌followed_by◌,
  is_negative, is_nonzero, sockaddr_in6_size,
}
use nrp_reference.Startup.Client
use nrp_reference.Startup.Client.{
  ClientHost, ClientState, initialize_client, keep4, keep6, open_socket4, open_socket6,
  open_client_socket, set_timeout, bind_client, finish_client,
}
use nrp_reference.Startup.Attempts.{Failed, attempt_cases, is_negative-is_failure}

-- What an initialisation may leave.
abbrev Left : Type 0
Left = Outcome (ClientHost × List Call × Option ℕ)

-- What follows a part, applied to what the part left.
abbrev and_then : Setup ClientHost → Left → Left
and_then next left = left >>= λ (host', calls', error). elim error [
  | none ↦ next host' calls'
  | some code ↦ ok (host', calls', some code)
]

-- The calls for one socket, the latest first.
abbrev pub socket_calls : ℕ → ℤ → ℕ → List Call → List Call
socket_calls family fd timeout before =
    bind_socket fd (record { family = family; port = 0 }) sockaddr_in6_size
    ∷ set_receive_timeout fd timeout
    ∷ open_socket family
    ∷ before

module _ (os : System) (P : Left → Type 0) (host : ClientHost) (calls : List Call) where
  abbrev timeout : ℕ
  timeout = host.client.config.client_receive_timeout

  -- Every early return satisfies the predicate.
  abbrev Returns : Type 0
  Returns =
      (host' : ClientHost) (calls' : List Call) (code : ℕ)
      → host'.state ≡ host.state
      → host'.client ≡ host.client
      → Failed os calls' code
      → P (ok (host', calls', some code))

  -- One socket and what follows it, from the last call back.
  bind_client-cases :
      (family : ℕ) (get : ClientHost → Option ℤ) (h : ClientHost) (fd : ℤ) (before : List Call)
      (next : Setup ClientHost)
      → get h ≡ some fd
      → h.state ≡ host.state
      → h.client ≡ host.client
      → Returns
      → P (
          next h (bind_socket fd (record { family = family; port = 0 }) sockaddr_in6_size ∷ before))
      → P (and_then next (bind_client os family get h before))
  bind_client-cases family get h fd before next got state client bad good =
      let call = bind_socket fd (record { family = family; port = 0 }) sockaddr_in6_size in
      rw got (
        attempt_cases P os is_nonzero call (λ _. h) before next
          (λ wrong. bad h (call ∷ before) (os before call).1 state client (wrong, refl))
          (λ fine. good))

  set_timeout-cases :
      (family : ℕ) (get : ClientHost → Option ℤ) (h : ClientHost) (fd : ℤ) (before : List Call)
      (next : Setup ClientHost)
      → get h ≡ some fd
      → h.state ≡ host.state
      → h.client ≡ host.client
      → Returns
      → P (
          next h (
            bind_socket fd (record { family = family; port = 0 }) sockaddr_in6_size
            ∷ set_receive_timeout fd timeout
            ∷ before))
      → P (
          and_then next
            ((set_timeout os timeout get followed_by bind_client os family get) h before))
  set_timeout-cases family get h fd before next got state client bad good =
      let call = set_receive_timeout fd timeout in
      rw got (
        attempt_cases (λ left. P (and_then next left)) os is_negative call (λ _. h) before
          (bind_client os family get)
          (λ wrong.
            bad h (call ∷ before) (os before call).1 state client
              (is_negative-is_failure call _ wrong, refl))
          (λ fine.
            bind_client-cases family get h fd (call ∷ before) next got state client bad good))

  open_client_socket-cases :
      (family : ℕ) (get : ClientHost → Option ℤ) (keep : ClientHost → ℤ → ClientHost)
      (next : Setup ClientHost)
      → ((fd : ℤ) → get (keep host fd) ≡ some fd)
      → ((fd : ℤ) → ((keep host fd).state ≡ host.state) × ((keep host fd).client ≡ host.client))
      → Returns
      → ((fd : ℤ)
          → is_negative fd ≡ false
          → P (next (keep host fd) (socket_calls family fd timeout calls)))
      → P (and_then next (open_client_socket os family get keep host calls))
  unfolding open_client_socket
  open_client_socket-cases family get keep next got same bad good =
      let fd = (os calls (open_socket family)).0 in
      attempt_cases (λ left. P (and_then next left)) os is_negative (open_socket family) (keep host)
        calls (set_timeout os timeout get followed_by bind_client os family get)
        (λ wrong.
          bad (keep host fd) (open_socket family ∷ calls) (os calls (open_socket family)).1
            (same fd).0 (same fd).1 (is_negative-is_failure (open_socket family) fd wrong, refl))
        (λ fine.
          set_timeout-cases family get (keep host fd) fd (open_socket family ∷ calls) next (got fd)
            (same fd).0 (same fd).1 bad (good fd fine))

  open_socket6-cases :
      (next : Setup ClientHost)
      → Returns
      → (host.client.config.client_enable_ip6 ≡ false → P (next host calls))
      → (host.client.config.client_enable_ip6 ≡ true
          → (fd : ℤ) → is_negative fd ≡ false
          → P (next (keep6 host fd) (socket_calls af_inet6 fd timeout calls)))
      → P ((open_socket6 os followed_by next) host calls)
  unfolding open_socket6
  open_socket6-cases next bad skipped good =
      elim (Bool-cases host.client.config.client_enable_ip6) [
        | inl enabled ↦ simp enabled (
            open_client_socket-cases af_inet6 (λ h. h.socketfd6) keep6 next (λ fd. refl)
              (λ fd. (refl, refl)) bad (good enabled))
        | inr disabled ↦ simp disabled (skipped disabled)
      ]

  open_socket4-cases :
      (next : Setup ClientHost)
      → Returns
      → (host.client.config.client_enable_ip4 ≡ false → P (next host calls))
      → (host.client.config.client_enable_ip4 ≡ true
          → (fd : ℤ) → is_negative fd ≡ false
          → P (next (keep4 host fd) (socket_calls af_inet fd timeout calls)))
      → P ((open_socket4 os followed_by next) host calls)
  unfolding open_socket4
  open_socket4-cases next bad skipped good =
      elim (Bool-cases host.client.config.client_enable_ip4) [
        | inl enabled ↦ simp enabled (
            open_client_socket-cases af_inet (λ h. h.socketfd4) keep4 next (λ fd. refl)
              (λ fd. (refl, refl)) bad (good enabled))
        | inr disabled ↦ simp disabled (skipped disabled)
      ]

  open_random-cases :
      (next : Setup ClientHost)
      → Returns
      → ((fd : ℤ)
          → is_negative fd ≡ false
          → P (next (record host { randomfd = some fd }) (open_device true ∷ calls)))
      → P ((Client.open_random os followed_by next) host calls)
  unfolding Client.open_random
  open_random-cases next bad good =
      let fd = (os calls (open_device true)).0 in
      attempt_cases P os is_negative (open_device true) (λ n. record host { randomfd = some n })
        calls next
        (λ wrong.
          bad (record host { randomfd = some fd }) (open_device true ∷ calls)
            (os calls (open_device true)).1 refl refl
            (is_negative-is_failure (open_device true) fd wrong, refl))
        (λ fine. good fd fine)

-- The calls of `InitializeClient` with its descriptors, the latest first, before those that were made
-- earlier.
abbrev pub client_calls : Config → ℤ → ℤ → List Call → List Call
client_calls config fd4 fd6 calls =
    let timeout = config.client_receive_timeout in
    let after6 =
      if config.client_enable_ip6 then socket_calls af_inet6 fd6 timeout calls else calls in
    open_device true
    ∷ (if config.client_enable_ip4 then socket_calls af_inet fd4 timeout after6 else after6)

-- What `InitializeClient` must leave.
abbrev pub ClientInitialized : System → ClientHost → List Call → Left → Type 0
ClientInitialized os host calls (ok (host', calls', none)) =
    (fd4 : ℤ) × (fd6 : ℤ) × (random : ℤ) × (is_negative fd4 ≡ false)
    × (is_negative fd6 ≡ false)
    × (is_negative random ≡ false)
    × (calls' ≡ client_calls host.client.config fd4 fd6 calls)
    × (host' ≡ record {
      client = host.client;
      state = Client.initialized;
      socketfd4 = if host.client.config.client_enable_ip4 then some fd4 else host.socketfd4;
      socketfd6 = if host.client.config.client_enable_ip6 then some fd6 else host.socketfd6;
      randomfd = some random;
    })
ClientInitialized os host calls (ok (host', calls', some code)) =
    (host'.state ≡ host.state) × (host'.client ≡ host.client) × Failed os calls' code
ClientInitialized os host calls _ = ⊥

module _ (os : System) (host : ClientHost) (calls : List Call) where
  abbrev Leaves : Left → Type 0
  Leaves = ClientInitialized os host calls

  abbrev opened4 : ℤ → List Call → List Call
  opened4 fd before =
      if host.client.config.client_enable_ip4
      then socket_calls af_inet fd host.client.config.client_receive_timeout before
      else before

  abbrev opened6 : ℤ → List Call
  opened6 fd =
      if host.client.config.client_enable_ip6
      then socket_calls af_inet6 fd host.client.config.client_receive_timeout calls
      else calls

  abbrev ready6 : ℤ → ClientHost
  ready6 fd6 = record host {
    socketfd6 = if host.client.config.client_enable_ip6 then some fd6 else host.socketfd6;
  }

  abbrev ready : ℤ → ℤ → ClientHost
  ready fd4 fd6 = record {
    client = host.client;
    state = host.state;
    socketfd4 = if host.client.config.client_enable_ip4 then some fd4 else host.socketfd4;
    socketfd6 = if host.client.config.client_enable_ip6 then some fd6 else host.socketfd6;
    randomfd = host.randomfd;
  }

  random-Leaves :
      (h : ClientHost) (before : List Call) (fd4 fd6 : ℤ)
      → is_negative fd4 ≡ false
      → is_negative fd6 ≡ false
      → h ≡ ready fd4 fd6
      → before ≡ opened4 fd4 (opened6 fd6)
      → Leaves ((Client.open_random os followed_by finish_client) h before)
  unfolding finish_client
  random-Leaves h before fd4 fd6 ok4 ok6 same made =
      open_random-cases os Leaves h before finish_client
        (λ host' calls' code state client failed.
          (state ∙ ap ClientHost.state same, client ∙ ap ClientHost.client same, failed))
        (λ random fine. (
          fd4,
          fd6,
          random,
          ok4,
          ok6,
          fine,
          ap (λ c. open_device true ∷ c) made,
          ap (λ (g : ClientHost). record g { state = Client.initialized; randomfd = some random })
              same,
        ))

  socket4-Leaves :
      (h : ClientHost) (before : List Call) (fd6 : ℤ)
      → is_negative fd6 ≡ false
      → h ≡ ready6 fd6
      → before ≡ opened6 fd6
      → Leaves
          ((open_socket4 os followed_by Client.open_random os followed_by finish_client) h before)
  socket4-Leaves h before fd6 ok6 same made =
      open_socket4-cases os Leaves h before (Client.open_random os followed_by finish_client)
        (λ host' calls' code state client failed.
          (state ∙ ap ClientHost.state same, client ∙ ap ClientHost.client same, failed))
        (λ disabled. random-Leaves h before (pos 0) fd6 refl ok6 (ground arith) (ground arith))
        (λ enabled fd4 fine.
          random-Leaves (keep4 h fd4)
            (socket_calls af_inet fd4 h.client.config.client_receive_timeout before) fd4 fd6 fine
            ok6 (ground arith) (ground arith))

  socket6-Leaves : Leaves (
      (open_socket6 os
          followed_by open_socket4 os
          followed_by Client.open_random os
          followed_by finish_client)
        host calls)
  socket6-Leaves =
      open_socket6-cases os Leaves host calls
        (open_socket4 os followed_by Client.open_random os followed_by finish_client)
        (λ host' calls' code state client failed. (state, client, failed))
        (λ disabled. socket4-Leaves host calls (pos 0) refl (ground arith) (ground arith))
        (λ enabled fd6 fine.
          socket4-Leaves (keep6 host fd6)
            (socket_calls af_inet6 fd6 host.client.config.client_receive_timeout calls) fd6 fine
            (ground arith) (ground arith))

-- `InitializeClient` returns. Either all its calls succeed, which are those of the enabled families in
-- their order and the opening of the random device, and it leaves the client initialized with a descriptor that
-- is not negative for each of them, the other socket as it was; or it returns the `errno` of its last call,
-- which failed, and leaves the state as it was.
pub initialize_client-ClientInitialized :
    (os : System) (host : ClientHost) (calls : List Call)
    → ClientInitialized os host calls (initialize_client os host calls)
unfolding initialize_client
initialize_client-ClientInitialized os host calls = socket6-Leaves os host calls
