-- ===== src/Startup/Client.antt =====
-- client.cpp: `InitializeClient`, the destructor, the start of `ClientLoop`, and the descriptor that
-- `ConnectServer` uses.
use nrp_reference.Base.{ℕ, true, List, Option, none, some, Outcome, ok, ◌>>=◌, if◌then◌else◌}
use nrp_reference.Base.Int.{ℤ}
use nrp_reference.StdHelpers.{af_inet, af_inet6}
use nrp_reference.ServerRecord.{ServerRecord}
use nrp_reference.Client.Parse.{Client}
use nrp_reference.Config.Accessors.{enable_client_ip4, enable_client_ip6, receive_timeout}
use nrp_reference.Startup.{
  Call, open_socket, set_receive_timeout, bind_socket, open_device, System, Setup, attempt,
  ◌followed_by◌, read_descriptor, close_descriptor, is_negative, is_nonzero, sockaddr_in6_size,
}

pub data ClientState : Type 0 where
  notinitialized initialized running stopping destroying : ClientState

-- The client with its state and its descriptors.
pub record ClientHost : Type 0 where
  pub client : Client
  pub state : ClientState
  pub socketfd4 : Option ℤ
  pub socketfd6 : Option ℤ
  pub randomfd : Option ℤ

-- The calls on one family's socket, which `get` reads: its timeout, and `bind` to any port. For both
-- families `bind` is passed the larger size, and any answer but 0 is an error.
abbrev pub set_timeout : System → ℕ → (ClientHost → Option ℤ) → Setup ClientHost
set_timeout os timeout get host calls = do
  fd ← read_descriptor (get host)
  attempt os is_negative (set_receive_timeout fd timeout) (λ _. host) calls

abbrev pub bind_client : System → ℕ → (ClientHost → Option ℤ) → Setup ClientHost
bind_client os family get host calls = do
  fd ← read_descriptor (get host)
  attempt os is_nonzero (bind_socket fd (record { family = family; port = 0 }) sockaddr_in6_size)
      (λ _. host) calls

-- One family's socket, which `keep` assigns.
unfoldable pub open_client_socket :
    System → ℕ → (ClientHost → Option ℤ) → (ClientHost → ℤ → ClientHost) → Setup ClientHost
open_client_socket os family get keep host =
    ((λ h. attempt os is_negative (open_socket family) (keep h))
        followed_by set_timeout os (receive_timeout host.client.config) get
        followed_by bind_client os family get)
      host

abbrev pub keep6 : ClientHost → ℤ → ClientHost
keep6 host fd = record host { socketfd6 = some fd }

abbrev pub keep4 : ClientHost → ℤ → ClientHost
keep4 host fd = record host { socketfd4 = some fd }

unfoldable pub open_socket6 : System → Setup ClientHost
open_socket6 os host calls =
    if enable_client_ip6 host.client.config
    then open_client_socket os af_inet6 (λ h. h.socketfd6) keep6 host calls
    else ok (host, calls, none)

unfoldable pub open_socket4 : System → Setup ClientHost
open_socket4 os host calls =
    if enable_client_ip4 host.client.config
    then open_client_socket os af_inet (λ h. h.socketfd4) keep4 host calls
    else ok (host, calls, none)

unfoldable pub open_random : System → Setup ClientHost
open_random os host =
    attempt os is_negative (open_device true) (λ fd. record host { randomfd = some fd })

unfoldable pub finish_client : Setup ClientHost
finish_client host calls = ok (record host { state = initialized }, calls, none)

-- `InitializeClient`.
unfoldable pub initialize_client : System → Setup ClientHost
initialize_client os =
    open_socket6 os followed_by open_socket4 os followed_by open_random os followed_by finish_client

-- The destructor.
unfoldable pub destroy_client : ClientHost → List Call → Outcome (ClientHost × List Call)
destroy_client host calls = do
  calls' ← close_descriptor host.socketfd4 calls
  calls'' ← close_descriptor host.socketfd6 calls'
  calls''' ← close_descriptor host.randomfd calls''
  ok (record host { state = destroying }, calls''')

-- The start of `ClientLoop`, which does not look at the state.
unfoldable pub start_client : ClientHost → ClientHost
start_client host = record host { state = running }

-- The descriptor that `ConnectServer` connects and the loop sends on.
unfoldable pub server_socket : ClientHost → ServerRecord → Outcome ℤ
server_socket host server = read_descriptor (if server.ipv6 then host.socketfd6 else host.socketfd4)
