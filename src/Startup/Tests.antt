-- ===== src/Startup/Tests.antt =====
-- Starting on a system that grants every call, and on one that refuses them.
use nrp_reference.Base.{◌≡◌, ◌⊎◌, refl, true, [], ◌∷◌, none, some, ok, undefined, arith}
use nrp_reference.Base.Int.{pos, negsuc}
use nrp_reference.MruCache
use nrp_reference.Config.State.{init}
use nrp_reference.Server.Loop
use nrp_reference.Startup.{open_socket, open_device, System}
use nrp_reference.Startup.Server.{ServerHost, initialize_server, open_server_socket}
use nrp_reference.Startup.Client
use nrp_reference.Startup.Client.{ClientHost, initialize_client}
use nrp_reference.Startup.Main.{main}
use nrp_reference.Startup.ServerInitialized.{ServerInitialized, initialize_server-ServerInitialized}
use nrp_reference.Startup.ClientInitialized.{ClientInitialized, initialize_client-ClientInitialized}
use nrp_reference.Startup.Started.{
  SetsErrno, Runs, ServerFails, ClientFails, main-started, main-undefined,
}

-- Descriptor 3 for every socket and 4 for the device.
abbrev granting : System
granting calls (open_socket family) = (pos 3, 0)
granting calls (open_device writable) = (pos 4, 0)
granting calls _ = (pos 0, 0)

-- `EACCES` for everything.
abbrev refusing : System
refusing calls call = (negsuc 0, 13)

-- The objects as their constructors leave them.
abbrev new_server : ServerHost
new_server = record {
  server = record {
    state = Loop.notinitialized;
    recent_clients = MruCache.init 0 0;
    config = init true true 0;
    device = [];
    mtu = 0;
  };
  socketfd = none;
  randomfd = none;
}

abbrev new_client : ClientHost
new_client = record {
  client = record { config = init true true 0; device = []; consumed = [] };
  state = Client.notinitialized;
  socketfd4 = none;
  socketfd6 = none;
  randomfd = none;
}

granting-SetsErrno : SetsErrno granting
granting-SetsErrno calls call h = ground arith

refused_at_once :
    initialize_server refusing 0 new_server []
    ≡ ok (record new_server { socketfd = some (negsuc 0) }, open_socket 10 ∷ [], some 13)
unfolding initialize_server open_server_socket init
refused_at_once = refl

initialize_server-ServerInitialized_example :
    ServerInitialized granting 5 new_server [] (initialize_server granting 5 new_server [])
unfolding init
initialize_server-ServerInitialized_example =
    initialize_server-ServerInitialized granting 5 new_server [] refl

initialize_client-ClientInitialized_example :
    ClientInitialized granting new_client [] (initialize_client granting new_client [])
initialize_client-ClientInitialized_example =
    initialize_client-ClientInitialized granting new_client []

main-started_example :
    Runs granting 5 new_server new_client [] (main granting 5 new_server new_client [])
    ⊎ ServerFails granting 5 new_server new_client [] (main granting 5 new_server new_client [])
    ⊎ ClientFails granting 5 new_server new_client [] (main granting 5 new_server new_client [])
unfolding init
main-started_example = main-started granting granting-SetsErrno 5 new_server new_client [] refl

main-undefined_example : main refusing 0 new_server new_client [] ≡ undefined
main-undefined_example =
    main-undefined refusing 0 new_server (record new_server { socketfd = some (negsuc 0) })
      new_client [] (open_socket 10 ∷ []) 12 refused_at_once refl
