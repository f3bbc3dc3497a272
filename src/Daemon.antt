-- ===== src/Daemon.antt =====
-- The whole program: `main`, and the rounds of its two threads, one after the other in any order, on the
-- configuration that they share, with the cleaners of both caches.
mod Tests
use nrp_reference.Base.{ℕ, ◌≡◌, refl, sym, ◌∙◌, subst, Bool, List, All, Option, some, Outcome, ok}
use nrp_reference.MruCache
use nrp_reference.StdHelpers.{SockaddrStorage}
use nrp_reference.Protocol.Layout.{Bytes}
use nrp_reference.ServerRecord.{ServerRecord}
use nrp_reference.Config.State.{Config, init}
use nrp_reference.Config.Steps.{Steps, done, cleaned, one-Step, Steps-append}
use nrp_reference.Config.Valid.{HasAddress, IsValid}
use nrp_reference.Config.Reached.{init-IsValid, Steps-IsValid}
use nrp_reference.Server.Loop.{NrpdServer, serve}
use nrp_reference.Server.Operations.{serve-Steps}
use nrp_reference.Client.Parse.{Client}
use nrp_reference.Client.Loop.{Surroundings, Round, client_round}
use nrp_reference.Startup.{Call, System}
use nrp_reference.Startup.Server.{ServerHost}
use nrp_reference.Startup.Client.{ClientHost}
use nrp_reference.Startup.Main
use nrp_reference.Startup.Main.{main}
use nrp_reference.Startup.Kept.{main-SameConfig}
use nrp_reference.Client.Operations.{client_round-Steps}

-- A new configuration with the servers that are configured. The program configures none.
abbrev pub configured : Bool → Bool → ℕ → List ServerRecord → Config
configured four six now servers = record (init four six now) { configured_servers = servers }

configured-IsValid :
    (four six : Bool) (now : ℕ) (servers : List ServerRecord)
    → All HasAddress servers
    → IsValid (configured four six now servers)
configured-IsValid four six now servers addresses =
    let v = init-IsValid four six now in
    record {
      sorted = v.sorted;
      active_in = v.active_in;
      probationary_in = v.probationary_in;
      active = v.active;
      probationary = v.probationary;
      configured = addresses;
    }

-- The server and the client after some rounds. `main` starts both with the same new configuration, and each
-- round leaves its configuration to both.
pub data Daemon : NrpdServer → Client → Type 0 where
  started :
      (os : System) (began : ℕ) (server server' : ServerHost) (client client' : ClientHost)
      (calls calls' : List Call) (loop : NrpdServer) (four six : Bool) (now : ℕ)
      (servers : List ServerRecord)
      → All HasAddress servers
      → server.server.config ≡ configured four six now servers
      → client.client.config ≡ configured four six now servers
      → main os began server client calls ≡ ok (Main.started (some loop) server' client' calls')
      → Daemon loop client'.client
  served :
      {server : NrpdServer} {client : Client} (fuel : ℕ)
      (received : Option (Bytes × SockaddrStorage)) (now : ℕ → ℕ) (server' : NrpdServer)
      (sent : Option Bytes)
      → Daemon server client
      → serve fuel server received now ≡ ok (server', sent)
      → Daemon server' (record client { config = server'.config })
  asked :
      {server : NrpdServer} {client : Client} (fuel : ℕ) (accepts : Bytes → Bool) (stack : Bytes)
      (now : ℕ → ℕ) (world : Surroundings) (buffer : Bytes) (round : Round)
      → Daemon server client
      → client_round fuel accepts stack now world buffer client ≡ ok round
      → Daemon (record server { config = round.client.config }) round.client
  cleaned_clients :
      {server : NrpdServer} {client : Client} (now : ℕ → ℕ) (end : ℕ)
      → Daemon server client
      → Daemon
          (record server { recent_clients = (MruCache.clean server.recent_clients now end).0 })
          client
  cleaned_bans :
      {server : NrpdServer} {client : Client} (now : ℕ → ℕ) (end : ℕ) (config : Config)
      → Daemon server client
      → config ≡ record client.config {
        banned_servers = (MruCache.clean client.config.banned_servers now end).0;
      }
      → Daemon (record server { config = config }) (record client { config = config })

-- Both threads see one configuration, which operations of `NrpdConfig` made from a new one.
record Shared (server : NrpdServer) (client : Client) : Type 0 where
  pub four : Bool
  pub six : Bool
  pub now : ℕ
  pub servers : List ServerRecord
  pub addresses : All HasAddress servers
  pub shared : server.config ≡ client.config
  pub made : Steps (configured four six now servers) client.config

Daemon-Shared :
    {server : NrpdServer} {client : Client} → Daemon server client → Shared server client
Daemon-Shared
      (started os began server server' client client' calls calls' loop four six now servers
        addresses e f h) =
    let (same, same') =
      main-SameConfig os began server server' client client' calls calls' loop h in
    record {
      four = four;
      six = six;
      now = now;
      servers = servers;
      addresses = addresses;
      shared = (same ∙ e) ∙ sym (same' ∙ f);
      made =
          subst (Steps (configured four six now servers)) (sym (same' ∙ f))
            (done (configured four six now servers));
    }
Daemon-Shared (served {server = server} {client = client} fuel received now server' sent d h) =
    let before = Daemon-Shared d in
    record {
      four = before.four;
      six = before.six;
      now = before.now;
      servers = before.servers;
      addresses = before.addresses;
      shared = refl;
      made =
          Steps-append
            (subst (Steps (configured before.four before.six before.now before.servers))
              (sym before.shared) before.made)
            (serve-Steps fuel server server' received now sent h);
    }
Daemon-Shared
      (asked {server = server} {client = client} fuel accepts stack now world buffer round d h) =
    let before = Daemon-Shared d in
    record {
      four = before.four;
      six = before.six;
      now = before.now;
      servers = before.servers;
      addresses = before.addresses;
      shared = refl;
      made =
          Steps-append before.made
            (client_round-Steps fuel accepts stack now world buffer client round h);
    }
Daemon-Shared (cleaned_clients now end d) =
    let before = Daemon-Shared d in
    record {
      four = before.four;
      six = before.six;
      now = before.now;
      servers = before.servers;
      addresses = before.addresses;
      shared = before.shared;
      made = before.made;
    }
Daemon-Shared (cleaned_bans {server = server} {client = client} now end config d e) =
    let before = Daemon-Shared d in
    record {
      four = before.four;
      six = before.six;
      now = before.now;
      servers = before.servers;
      addresses = before.addresses;
      shared = refl;
      made =
          Steps-append before.made
            (subst (Steps client.config) (sym e) (one-Step (cleaned client.config now end)));
    }

-- When `main` starts both threads on a new configuration, whose configured servers have addresses of the size of
-- their family, then after any rounds of the two threads and runs of the cleaners, in any order, both threads see
-- the same configuration; its set of active servers is in strictly ascending order, both its iterators are on an
-- element or at the end, and every address in its lists has the size of its family.
pub Daemon-IsValid :
    {server : NrpdServer} {client : Client}
    → Daemon server client
    → (server.config ≡ client.config) × IsValid client.config
Daemon-IsValid d =
    let s = Daemon-Shared d in
    (s.shared, Steps-IsValid s.made (configured-IsValid s.four s.six s.now s.servers s.addresses))
