-- ===== src/MruCache/Tests.antt =====
-- The cache on two client addresses.
use nrp_reference.Base.{◌≡◌, refl, true, false, [], ◌∷◌, some, none, arith}
use nrp_reference.Base.Memory.{memcmp}
use nrp_reference.StdHelpers.{SockaddrStorage, sockaddr_eq}
use nrp_reference.StdHelpers.Laws.{sockaddr_eq-IsPartialEquivalence}
use nrp_reference.MruCache.{MruCache, lifetime, find, is_present_add, is_present, add, clean}
use nrp_reference.MruCache.Laws.{add_expired}
use nrp_reference.MruCache.View.{view, ask, put, is_live, view-is_present_add}
use nrp_reference.MruCache.Clean.{Unique, operations-Unique, is_present-clean}

abbrev first : SockaddrStorage
first = record { ss_family = 2; sa = 31 ∷ 144 ∷ 10 ∷ 0 ∷ 0 ∷ 1 ∷ [] }

abbrev second : SockaddrStorage
second = record { ss_family = 2; sa = 31 ∷ 144 ∷ 10 ∷ 0 ∷ 0 ∷ 2 ∷ [] }

-- The first client was added at the time 5; entries live for a second.
abbrev cache : MruCache SockaddrStorage
cache = record {
  entries = (first, 5) ∷ [];
  lifetime_seconds = 1;
  clean_interval_seconds = 1;
  last_clean_time = 0;
}

first_itself : sockaddr_eq first first ≡ true
unfolding sockaddr_eq memcmp
first_itself = refl

second_itself : sockaddr_eq second second ≡ true
unfolding sockaddr_eq memcmp
second_itself = refl

find-first : find sockaddr_eq first cache.entries ≡ some 5
unfolding find sockaddr_eq memcmp
find-first = refl

find-second : find sockaddr_eq second cache.entries ≡ none
unfolding find sockaddr_eq memcmp
find-second = refl

second_passes : (is_present_add sockaddr_eq cache second 10 11 12 13).1 ≡ false
unfolding is_present_add find sockaddr_eq memcmp
second_passes = refl

cache-Unique : Unique sockaddr_eq cache.entries
unfolding find
cache-Unique = (refl, tt)

add_expired_example :
    (is_present sockaddr_eq (add sockaddr_eq cache first 1_000_000_005) first 1_000_000_006 0).0
    ≡ false
add_expired_example =
    add_expired sockaddr_eq cache first 5 1_000_000_005 1_000_000_006 0 find-first (omega arith)

operations-Unique_example :
    Unique sockaddr_eq (is_present_add sockaddr_eq cache second 10 11 12 13).0.entries
    × Unique sockaddr_eq (add sockaddr_eq cache second 10).entries
    × Unique sockaddr_eq (clean cache (λ i. 20) 14).0.entries
operations-Unique_example =
    operations-Unique sockaddr_eq sockaddr_eq-IsPartialEquivalence cache second 10 11 12 13 14
      (λ i. 20) cache-Unique

is_present-clean_example :
    (is_present sockaddr_eq (clean cache (λ i. 20) 21).0 first 30 31).0
    ≡ (is_present sockaddr_eq cache first 30 31).0
is_present-clean_example =
    is_present-clean sockaddr_eq sockaddr_eq-IsPartialEquivalence cache first (λ i. 20) 21 30 31
      cache-Unique (λ j. omega arith)

-- The second client asks; the entry of the first stays.
view-is_present_add_example :
    let specified = ask sockaddr_eq (lifetime cache) second 10 11 12 (view sockaddr_eq cache) in
    (view sockaddr_eq (is_present_add sockaddr_eq cache second 10 11 12 13).0 first
      ≡ specified.0 first)
    × ((is_present_add sockaddr_eq cache second 10 11 12 13).1 ≡ specified.1)
    × (view sockaddr_eq (add sockaddr_eq cache second 10) first
        ≡ put sockaddr_eq second 10 (view sockaddr_eq cache) first)
    × ((is_present sockaddr_eq cache second 11 13).0
        ≡ is_live (lifetime cache) 11 (view sockaddr_eq cache second))
view-is_present_add_example =
    view-is_present_add sockaddr_eq sockaddr_eq-IsPartialEquivalence cache second first 10 11 12 13
      second_itself
