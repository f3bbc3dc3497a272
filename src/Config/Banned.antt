-- ===== src/Config/Banned.antt =====
-- A server that `IncrementServerFailCount` gives up is not taken in again while its ban lasts.
use nrp_reference.Base.{
  ℕ, ◌+◌, ◌<◌, ◌≤◌, ◌≡◌, refl, sym, ap, ◌∙◌, inl, inr, Bool, true, false, none, ok, >>=-eq-ok,
  arith, leb, Bool-cases,
}
use nrp_reference.MruCache
use nrp_reference.MruCache.{MruCache, lifetime}
use nrp_reference.MruCache.Laws.{IsPartialEquivalence, add_new}
use nrp_reference.MruCache.Clean.{find_congr}
use nrp_reference.ServerRecord.{ServerRecord, server_eq}
use nrp_reference.ServerRecord.Order.{equivalent, equivalent_trans, server_eq_iff}
use nrp_reference.Config.State.{Config}
use nrp_reference.Config.Lists.{deref, prev}
use nrp_reference.Config.Servers.{ServerRef}
use nrp_reference.Config.Update.{
  load, store, decrement_count, erase_probationary, remove_probationary, erase_active,
  remove_active, drop_server, increment_server_fail_count, add_server,
}
use nrp_reference.Config.Failures.{failed_record, failed_config, increment_server_fail_count_lem}
use nrp_reference.Config.Promotion.{server_eq_refl}

equivalent_sym : (a b : ServerRecord) → equivalent a b ≡ true → equivalent b a ≡ true
equivalent_sym a b h = ground arith

server_eq-IsPartialEquivalence : IsPartialEquivalence server_eq
server_eq-IsPartialEquivalence = record {
  symmetric = λ a b h.
      let (e, p) = (server_eq_iff a b).0 h in (server_eq_iff b a).1 (equivalent_sym a b e, sym p);
  transitive = λ a b c h k.
      let (e, p) = (server_eq_iff a b).0 h in
      let (f, q) = (server_eq_iff b c).0 k in
      (server_eq_iff a c).1 (equivalent_trans a b c e f, p ∙ q);
}

-- The list of the banned is left alone by what drops a server.
SameBanned : Config → Config → Type 0
SameBanned c d = d.banned_servers ≡ c.banned_servers

decrement_count-SameBanned : (b : Bool) (c : Config) → SameBanned c (decrement_count b c)
unfolding decrement_count SameBanned
decrement_count-SameBanned true c = refl
decrement_count-SameBanned false c = refl

store-SameBanned : (c : Config) (ref : ServerRef) (s : ServerRecord) → SameBanned c (store c ref s)
unfolding store SameBanned
store-SameBanned c (ServerRef.in_active i) s = refl
store-SameBanned c (ServerRef.in_probationary i) s = refl
store-SameBanned c ServerRef.in_configured s = refl

erase_probationary-SameBanned : (c d : Config) → erase_probationary c ≡ ok d → SameBanned c d
unfolding erase_probationary prev SameBanned
erase_probationary-SameBanned c d h = ground arith

erase_active-SameBanned : (c d : Config) → erase_active c ≡ ok d → SameBanned c d
unfolding erase_active prev SameBanned
erase_active-SameBanned c d h = ground arith

remove_probationary-SameBanned :
    (s : ServerRecord) (c d : Config) → remove_probationary s c ≡ ok d → SameBanned c d
unfolding remove_probationary SameBanned
remove_probationary-SameBanned s c d h = ground arith

remove_active-SameBanned :
    (s : ServerRecord) (c d : Config) → remove_active s c ≡ ok d → SameBanned c d
unfolding remove_active SameBanned
remove_active-SameBanned s c d h = ground arith

drop_server-SameBanned :
    (serv : ServerRecord) (c d : Config) → drop_server serv c ≡ ok d → SameBanned c d
unfolding drop_server SameBanned
drop_server-SameBanned serv c d h = elim (Bool-cases serv.probationary) [
  | inl trial ↦
      let (at, found, rest) =
        >>=-eq-ok (deref c.probationary_servers c.probationary_iterator) _ (simp trial at h) in
      elim (Bool-cases (server_eq serv at)) [
        | inl same ↦
            erase_probationary-SameBanned (decrement_count serv.ipv6 c) d (simp same at rest)
            ∙ decrement_count-SameBanned serv.ipv6 c
        | inr other ↦ remove_probationary-SameBanned serv c d (simp other at rest)
      ]
  | inr settled ↦
      let (at, found, rest) =
        >>=-eq-ok (deref c.active_servers c.active_iterator) _ (simp settled at h) in
      elim (Bool-cases (server_eq serv at)) [
        | inl same ↦
            erase_active-SameBanned (decrement_count serv.ipv6 c) d (simp same at rest)
            ∙ decrement_count-SameBanned serv.ipv6 c
        | inr other ↦ remove_active-SameBanned serv c d (simp other at rest)
      ]
]

-- Whether a server is banned, asked by a record of the same address and port.
is_present-server_eq :
    (cache : MruCache ServerRecord) (a b : ServerRecord) (t u : ℕ)
    → server_eq a b ≡ true
    → (MruCache.is_present server_eq cache a t u).0 ≡ (MruCache.is_present server_eq cache b t u).0
unfolding MruCache.is_present
is_present-server_eq cache a b t u h =
    ground (arith, find_congr server_eq server_eq-IsPartialEquivalence a b cache.entries h)

add_server_banned :
    (c : Config) (peer : ServerRecord) (t u : ℕ)
    → (MruCache.is_present server_eq c.banned_servers
        (record peer { retry_time = c.client_request_interval_seconds })
        t
        u).0
      ≡ true
    → add_server c peer t u ≡ c
unfolding add_server
add_server_banned c peer t u h = rw h refl

-- The list of the banned after a server was dropped.
dropped-banned :
    (c d : Config) (ref : ServerRef) (old : ServerRecord) (now ban_time : ℕ)
    → load c ref ≡ ok old
    → 3 ≤ old.failure_count
    → increment_server_fail_count c ref now ban_time ≡ ok d
    → d.banned_servers ≡ MruCache.add server_eq c.banned_servers (failed_record old now) ban_time
unfolding SameBanned
dropped-banned c d ref old now ban_time found often h =
    let serv = failed_record old now in
    let too_often : leb 3 old.failure_count ≡ true = ground arith in
    let dropped : drop_server serv (failed_config c ref old now ban_time) ≡ ok d =
      (simp too_often at (sym (increment_server_fail_count_lem c ref old now ban_time found)))
      ∙ h in
    drop_server-SameBanned serv (failed_config c ref old now ban_time) d dropped
    ∙ ap (λ cache. MruCache.add server_eq cache serv ban_time) (store-SameBanned c ref serv)

-- Fields that the comparison does not read.
server_eq_failed : (old : ServerRecord) (now : ℕ) → server_eq (failed_record old now) old ≡ true
unfolding server_eq
server_eq_failed old now = server_eq_refl old

server_eq_peer :
    (peer old : ServerRecord) (now interval : ℕ)
    → server_eq peer old ≡ true
    → server_eq (record peer { retry_time = interval }) (failed_record old now) ≡ true
unfolding server_eq
server_eq_peer peer old now interval h = h

-- A server with no entry among the banned, which fails when it has failed three times or more in a row, is
-- banned: until a lifetime of the list after that, no peer of its address and port is taken in.
pub increment_server_fail_count-banned :
    (c d : Config) (ref : ServerRef) (old peer : ServerRecord) (now ban_time t u : ℕ)
    → load c ref ≡ ok old
    → 3 ≤ old.failure_count
    → MruCache.find server_eq old c.banned_servers.entries ≡ none
    → increment_server_fail_count c ref now ban_time ≡ ok d
    → server_eq peer old ≡ true
    → t < ban_time + lifetime c.banned_servers
    → add_server d peer t u ≡ d
increment_server_fail_count-banned c d ref old peer now ban_time t u found often new h same soon =
    let serv = failed_record old now in
    let rec : ServerRecord = record peer { retry_time = d.client_request_interval_seconds } in
    let unknown : MruCache.find server_eq serv c.banned_servers.entries ≡ none =
      find_congr server_eq server_eq-IsPartialEquivalence serv old c.banned_servers.entries
        (server_eq_failed old now)
      ∙ new in
    let banned : (MruCache.is_present server_eq d.banned_servers rec t u).0 ≡ true =
      ap (λ cache. (MruCache.is_present server_eq cache rec t u).0)
        (dropped-banned c d ref old now ban_time found often h)
      ∙ (is_present-server_eq (MruCache.add server_eq c.banned_servers serv ban_time) rec serv t u
            (server_eq_peer peer old now d.client_request_interval_seconds same)
          ∙ (add_new server_eq c.banned_servers serv ban_time t u (server_eq_refl serv) unknown
              ∙ ground arith)) in
    add_server_banned d peer t u banned
