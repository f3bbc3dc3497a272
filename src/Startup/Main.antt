-- ===== src/Startup/Main.antt =====
-- main.cpp: `main`, without the parts under `if(false)`.
use nrp_reference.Base.{ℕ, zero, suc, List, Option, none, some, Outcome, ok, ◌>>=◌}
use nrp_reference.Server.Loop.{NrpdServer, start_loop}
use nrp_reference.Startup.{Call, System}
use nrp_reference.Startup.Server.{ServerHost, initialize_server, destroy_server}
use nrp_reference.Startup.Client.{ClientHost, initialize_client, destroy_client, start_client}

-- How `main` goes on: it returned a code, or its two threads run. The server's thread ends at once if the
-- loop does not start.
pub data Program : Type 0 where
  exited : ℕ → List Call → Program
  started : Option NrpdServer → ServerHost → ClientHost → List Call → Program

-- What an initialisation returns: `errno` or `EXIT_SUCCESS`.
abbrev pub return_code : Option ℕ → ℕ
return_code none = 0
return_code (some errno) = errno

-- `return EXIT_FAILURE`, with the destructors of the client and of the server.
unfoldable pub exit_failure : ServerHost → ClientHost → List Call → Outcome Program
exit_failure server client calls = do
  (client', calls') ← destroy_client client calls
  (server', calls'') ← destroy_server server calls'
  ok (exited 1 calls'')

-- `ServerThread` and `ClientThread`.
unfoldable pub start_threads : ServerHost → ClientHost → List Call → Outcome Program
start_threads server client calls =
    ok (started (start_loop server.server) server (start_client client) calls)

-- From the initialisation of the client on.
unfoldable pub main_client : System → ServerHost → ClientHost → List Call → Outcome Program
main_client os server client calls = do
  (client', calls', error) ← initialize_client os client calls
  elim (return_code error) [
    | zero ↦ start_threads server client' calls'
    | suc code ↦ exit_failure server client' calls'
  ]

-- `main`, from the objects as their constructors leave them.
unfoldable pub main : System → ℕ → ServerHost → ClientHost → List Call → Outcome Program
main os now server client calls = do
  (server', calls', error) ← initialize_server os now server calls
  elim (return_code error) [
    | zero ↦ main_client os server' client calls'
    | suc code ↦ exit_failure server' client calls'
  ]
