-- ===== src/Config/Tests.antt =====
-- A configuration with an active and a probationary server, and the theorems on the lists there.
use nrp_reference.Base.{
  ℕ, ◌<◌, ◌≡◌, refl, Bool, true, false, List, [], ◌∷◌, ◌++◌, none, some, ok, arith, length,
}
use nrp_reference.Base.Int.{pos, negsuc}
use nrp_reference.Base.Memory.{memcmp}
use nrp_reference.ServerRecord.{ServerRecord, server_lt, server_eq}
use nrp_reference.Config.State.{Config}
use nrp_reference.Config.Lists.{erase_at, emplace_index, deref}
use nrp_reference.Config.Servers.{
  ServerRef, get_server_list, count_family, in_active, in_probationary, get_next_server,
  active_server_count,
}
use nrp_reference.Config.Update.{
  load, add_peers, add_server, emplace_active, increment_server_fail_count, mark_server_successful,
}
use nrp_reference.Config.Choice.{NextServer, get_next_server-NextServer}
use nrp_reference.Protocol.Layout.{Bytes}
use nrp_reference.Config.Turns.{nth_next, IsEven, nth_next-active, nth_next-starved}
use nrp_reference.Config.Promotion.{successful}
use nrp_reference.Config.Promoted.{Leaves, mark_server_successful-promoted}
use nrp_reference.Config.Counts.{peers_type, emplace_active-uncounted}
use nrp_reference.Config.Dropped.{
  given_up, without_probationary, without_active, increment_server_fail_count-dropped,
  increment_server_fail_count-dropped_active,
}
use nrp_reference.Config.Banned.{increment_server_fail_count-banned}
use nrp_reference.Config.Valid.{IsValid}
use nrp_reference.Config.Counts.{family}
use nrp_reference.Config.Heard.{newcomers}
use nrp_reference.Config.Peers.{first_peers, get_server_list-add_peers}
use nrp_reference.MruCache
use nrp_reference.Config.Tries.{fail_again, StillThere, fail_again-StillThere}

abbrev server_at : List ℕ → Bool → Bool → ServerRecord
server_at host ipv6 probationary = record {
  host = host;
  port = 8080;
  failure_count = 0;
  last_access_time = 0;
  retry_time = 60;
  ipv6 = ipv6;
  probationary = probationary;
  ip4_peers = true;
  ip6_peers = true;
  signkey = true;
  shuttingdown = false;
}

abbrev known : ServerRecord
known = server_at (10 ∷ 0 ∷ 0 ∷ 1 ∷ []) false false

abbrev tried : ServerRecord
tried = server_at (10 ∷ 0 ∷ 0 ∷ 2 ∷ []) false true

abbrev local : ServerRecord
local = server_at (0 ∷ 0 ∷ 0 ∷ 0 ∷ 0 ∷ 0 ∷ 0 ∷ 0 ∷ 0 ∷ 0 ∷ 0 ∷ 0 ∷ 0 ∷ 0 ∷ 0 ∷ 1 ∷ []) true false

abbrev config : Config
config = record {
  port = 8080;
  enable_server = true;
  enable_client = true;
  banned_servers = record {
    entries = [];
    lifetime_seconds = 60;
    clean_interval_seconds = 60;
    last_clean_time = 0;
  };
  configured_servers = [];
  active_servers = known ∷ [];
  probationary_servers = tried ∷ [];
  active_iterator = none;
  probationary_iterator = none;
  count_ip6_servers = negsuc 0;
  count_ip4_servers = negsuc 0;
  prev_returned_probationary = true;
  enable_ip4_peers = true;
  enable_ip6_peers = true;
  client_enable_ip4 = true;
  client_enable_ip6 = true;
  server_enable_ip4 = true;
  server_enable_ip6 = true;
  client_request_interval_seconds = 60;
  client_receive_timeout = 30;
  default_entropy = 8;
}

known_loaded : load config (in_active 0) ≡ ok known
unfolding load deref
known_loaded = refl

local_placed : emplace_index local config.active_servers ≡ some 1
unfolding emplace_index server_lt memcmp
local_placed = refl

get_next_server-NextServer_example : NextServer config (get_next_server config)
get_next_server-NextServer_example = get_next_server-NextServer config

emplace_active-uncounted_example :
    let d = emplace_active local config in
    (active_server_count d (peers_type true) ≡ (d, pos 0))
    × (0 < length (family true d.active_servers))
emplace_active-uncounted_example = emplace_active-uncounted local config 1 refl local_placed

fail_again-StillThere_example :
    (c' : Config) × (fail_again 3 (λ i. 50) (in_active 0) config ≡ ok c')
    × StillThere 3 (in_active 0) config c' known
fail_again-StillThere_example =
    fail_again-StillThere 3 (λ i. 50) (in_active 0) config known known_loaded (omega arith)

-- Two active servers and nobody on probation.
abbrev settled : Config
settled = record config { active_servers = known ∷ local ∷ []; probationary_servers = [] }

nth_next-active_example :
    (k : ℕ) × (k < 2) × ((c' : Config) × (nth_next k settled ≡ ok (c', in_active 1)))
nth_next-active_example = nth_next-active settled 1 refl (omega arith)

-- Two active servers, of which the second is starved while the third server is on probation.
abbrev unsettled : Config
unsettled = record config { active_servers = known ∷ local ∷ [] }

nth_next-starved_example :
    (c' : Config) × (ref : ServerRef) × (nth_next 6 unsettled ≡ ok (c', ref)) × IsEven ref
nth_next-starved_example =
    nth_next-starved 6 unsettled (omega arith, omega arith, omega arith, refl)

-- The second server on probation has just been returned.
abbrev on_trial : Config
on_trial = record config {
  probationary_servers = server_at (10 ∷ 0 ∷ 0 ∷ 3 ∷ []) false true ∷ tried ∷ [];
  probationary_iterator = some 1;
}

tried_loaded : load on_trial (in_probationary 1) ≡ ok tried
unfolding load deref
tried_loaded = refl

mark_server_successful-promoted_example :
    Leaves on_trial (successful tried 90) 1 (mark_server_successful on_trial (in_probationary 1) 90)
mark_server_successful-promoted_example =
    mark_server_successful-promoted on_trial 1 tried 90 (tt, tt) tried_loaded refl refl

-- The server on probation has failed three times in a row.
abbrev failing : ServerRecord
failing = record tried { failure_count = 3 }

abbrev troubled : Config
troubled = record on_trial {
  probationary_servers = server_at (10 ∷ 0 ∷ 0 ∷ 3 ∷ []) false true ∷ failing ∷ [];
}

failing_loaded : load troubled (in_probationary 1) ≡ ok failing
unfolding load deref
failing_loaded = refl

increment_server_fail_count-dropped_example :
    increment_server_fail_count troubled (in_probationary 1) 80 90
    ≡ without_probationary troubled (given_up troubled failing 80 90) 1
increment_server_fail_count-dropped_example =
    increment_server_fail_count-dropped troubled 1 failing 80 90 failing_loaded refl refl
      (omega arith)

-- So has the second active server.
abbrev failing_local : ServerRecord
failing_local = record local { failure_count = 3 }

abbrev troubled_set : Config
troubled_set = record config {
  active_servers = known ∷ failing_local ∷ [];
  active_iterator = some 1;
}

failing_local_loaded : load troubled_set (in_active 1) ≡ ok failing_local
unfolding load deref
failing_local_loaded = refl

increment_server_fail_count-dropped_active_example :
    increment_server_fail_count troubled_set (in_active 1) 80 90
    ≡ without_active troubled_set (given_up troubled_set failing_local 80 90) 1
increment_server_fail_count-dropped_active_example =
    increment_server_fail_count-dropped_active troubled_set 1 failing_local 80 90
      failing_local_loaded refl refl (omega arith)

-- A minute is the lifetime of the list: ten seconds after it was dropped, the server is heard of again.
abbrev rest_of : Config
rest_of = record (given_up troubled failing 80 90) {
  probationary_servers = server_at (10 ∷ 0 ∷ 0 ∷ 3 ∷ []) false true ∷ [];
  probationary_iterator = some 0;
}

same_server : server_eq tried failing ≡ true
unfolding server_eq memcmp
same_server = refl

nobody_banned : MruCache.find server_eq failing troubled.banned_servers.entries ≡ none
unfolding MruCache.find
nobody_banned = refl

dropped : increment_server_fail_count troubled (in_probationary 1) 80 90 ≡ ok rest_of
unfolding erase_at
dropped = increment_server_fail_count-dropped_example

increment_server_fail_count-banned_example :
    add_server rest_of tried 10_000_000_000 10_000_000_000 ≡ rest_of
increment_server_fail_count-banned_example =
    increment_server_fail_count-banned troubled rest_of (in_probationary 1) failing tried 80 90
      10_000_000_000 10_000_000_000 failing_loaded (omega arith) nobody_banned dropped same_server
      (omega arith)

-- A server that knows two servers, and a client that has one of them among its active servers.
settled-IsValid : IsValid settled
unfolding server_lt memcmp
settled-IsValid = record {
  sorted = ((refl, tt), (tt, tt));
  active_in = tt;
  probationary_in = tt;
  active = (refl, (refl, tt));
  probationary = tt;
  configured = tt;
}

settled_count :
    (active_server_count settled (peers_type true)).1
    ≡ pos (length (family true settled.active_servers))
unfolding active_server_count count_family
settled_count = refl

get_server_list-add_peers_example :
    let peers = first_peers true 5 settled in
    (bytes : Bytes) × (client' : Config) × ((get_server_list settled (peers_type true) (pos 5)).1
      ≡ some bytes)
    × (add_peers (length peers) true (bytes ++ (0 ∷ [])) (λ i. 7) config ≡ ok client')
    × (client'.probationary_servers
        ≡ config.probationary_servers ++ newcomers config (λ i. 7) peers)
get_server_list-add_peers_example =
    get_server_list-add_peers true 5 settled config (0 ∷ []) (λ i. 7) settled-IsValid
      (omega arith, (omega arith, tt)) (omega arith) (omega arith) settled_count
