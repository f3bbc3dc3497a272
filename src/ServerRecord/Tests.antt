-- ===== src/ServerRecord/Tests.antt =====
-- Servers in the order of the set.
use nrp_reference.Base.{ℕ, ◌≡◌, ◌⊎◌, ◌↔◌, refl, Bool, true, false, List, [], ◌∷◌}
use nrp_reference.Base.Memory.{memcmp}
use nrp_reference.ServerRecord.{ServerRecord, server_eq, server_lt}
use nrp_reference.ServerRecord.Order.{equivalent, server_lt-strict_weak_order, server_eq_iff}

abbrev server_at : List ℕ → Bool → ℕ → ServerRecord
server_at host ipv6 port = record {
  host = host;
  port = port;
  failure_count = 0;
  last_access_time = 0;
  retry_time = 60;
  ipv6 = ipv6;
  probationary = true;
  ip4_peers = true;
  ip6_peers = true;
  signkey = true;
  shuttingdown = false;
}

abbrev low : ServerRecord
low = server_at (10 ∷ 0 ∷ 0 ∷ 1 ∷ []) false 8080

abbrev low_on_another_port : ServerRecord
low_on_another_port = server_at (10 ∷ 0 ∷ 0 ∷ 1 ∷ []) false 9090

abbrev high : ServerRecord
high = server_at (10 ∷ 0 ∷ 1 ∷ 0 ∷ []) false 8080

abbrev six : ServerRecord
six = server_at (0 ∷ 0 ∷ 0 ∷ 0 ∷ 0 ∷ 0 ∷ 0 ∷ 0 ∷ 0 ∷ 0 ∷ 0 ∷ 0 ∷ 0 ∷ 0 ∷ 0 ∷ 1 ∷ []) true 8080

low_below_high : server_lt low high ≡ true
unfolding server_lt memcmp
low_below_high = refl

high_below_six : server_lt high six ≡ true
unfolding server_lt memcmp
high_below_six = refl

ports_equivalent : equivalent low low_on_another_port ≡ true
unfolding server_lt memcmp
ports_equivalent = refl

low-equivalent : equivalent low low ≡ true
unfolding server_lt memcmp
low-equivalent = refl

server_eq_iff_example :
    (server_eq low low_on_another_port ≡ true)
    ↔ ((equivalent low low_on_another_port ≡ true) × (low.port ≡ low_on_another_port.port))
server_eq_iff_example = server_eq_iff low low_on_another_port

server_lt-strict_weak_order_example :
    (server_lt high low ≡ false) × ((server_lt low six ≡ true) ⊎ (server_lt six high ≡ true))
server_lt-strict_weak_order_example = server_lt-strict_weak_order low high six low_below_high
