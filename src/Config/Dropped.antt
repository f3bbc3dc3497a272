-- ===== src/Config/Dropped.antt =====
-- `IncrementServerFailCount` on a server that failed too often and that `GetNextServer` has just returned.
use nrp_reference.Base.{
  ℕ, zero, suc, ◌≤◌, ◌≡◌, refl, ap, ◌∙◌, Bool, true, false, List, some, Outcome, ok, undefined,
  arith, set, leb,
}
use nrp_reference.Base.Int.{pos, ◌-ℤ◌}
use nrp_reference.Base.{if◌then◌else◌, inl, inr, Bool-cases}
use nrp_reference.MruCache
use nrp_reference.ServerRecord.{ServerRecord, server_eq}
use nrp_reference.Config.State.{Config}
use nrp_reference.Config.Lists.{deref, erase_at, prev}
use nrp_reference.Config.Servers.{ServerRef, in_active, in_probationary}
use nrp_reference.Config.Update.{
  load, store, decrement_count, erase_probationary, erase_active, drop_server,
  increment_server_fail_count,
}
use nrp_reference.Config.Failures.{failed_record, failed_config, increment_server_fail_count_lem}
use nrp_reference.Config.Erased.{erase_active-at}
use nrp_reference.Config.Promotion.{server_eq_refl, deref-set, erase_at-set, erase_probationary-at}

-- The configuration once the server is banned, with the count of active servers of its family one less.
abbrev pub given_up : Config → ServerRecord → ℕ → ℕ → Config
given_up c old now ban_time = record c {
  banned_servers = MruCache.add server_eq c.banned_servers (failed_record old now) ban_time;
  count_ip6_servers = if old.ipv6 then c.count_ip6_servers -ℤ pos 1 else c.count_ip6_servers;
  count_ip4_servers = if old.ipv6 then c.count_ip4_servers else c.count_ip4_servers -ℤ pos 1;
}

decrement_count-given_up :
    (c : Config) (old : ServerRecord) (now ban_time : ℕ)
    → decrement_count old.ipv6 (record c {
      banned_servers = MruCache.add server_eq c.banned_servers (failed_record old now) ban_time;
    })
      ≡ given_up c old now ban_time
unfolding decrement_count
decrement_count-given_up c old now ban_time = elim (Bool-cases old.ipv6) [
  | inl six ↦ simp six refl
  | inr four ↦ simp four refl
]

-- The server is erased from its place on probation, or from the set. There is no place before the first.
abbrev pub without_probationary : Config → Config → ℕ → Outcome Config
without_probationary c d zero = undefined
without_probationary c d (suc j) = ok (record d {
  probationary_servers = erase_at (suc j) c.probationary_servers;
  probationary_iterator = some j;
})

abbrev pub without_active : Config → Config → ℕ → Outcome Config
without_active c d zero = undefined
without_active c d (suc j) =
    ok (record d { active_servers = erase_at (suc j) c.active_servers; active_iterator = some j })

-- A server fails for the fourth time or later: what is left to do is to drop it.
failed_too_often :
    (c : Config) (ref : ServerRef) (old : ServerRecord) (now ban_time : ℕ)
    → load c ref ≡ ok old
    → 3 ≤ old.failure_count
    → increment_server_fail_count c ref now ban_time
      ≡ drop_server (failed_record old now) (failed_config c ref old now ban_time)
failed_too_often c ref old now ban_time found often =
    let too_often : leb 3 old.failure_count ≡ true = ground arith in
    increment_server_fail_count_lem c ref old now ban_time found ∙ simp too_often refl

-- On probation.
decrement_count-probationary :
    (b : Bool) (c : Config) (ps : List ServerRecord)
    → decrement_count b (record c { probationary_servers = ps })
      ≡ record (decrement_count b c) { probationary_servers = ps }
unfolding decrement_count
decrement_count-probationary true c ps = refl
decrement_count-probationary false c ps = refl

decrement_count-probationary_iterator :
    (b : Bool) (c : Config) → (decrement_count b c).probationary_iterator ≡ c.probationary_iterator
unfolding decrement_count
decrement_count-probationary_iterator true c = refl
decrement_count-probationary_iterator false c = refl

erase-without_probationary :
    (c d : Config) (i : ℕ) (serv : ServerRecord)
    → d.probationary_iterator ≡ some i
    → erase_probationary (record d { probationary_servers = set c.probationary_servers i serv })
      ≡ without_probationary c d i
unfolding prev
erase-without_probationary c d zero serv at =
    erase_probationary-at (record d { probationary_servers = set c.probationary_servers 0 serv }) 0
      at
erase-without_probationary c d (suc j) serv at =
    erase_probationary-at
      (record d { probationary_servers = set c.probationary_servers (suc j) serv }) (suc j) at
    ∙ ap (λ ps. ok (record d { probationary_servers = ps; probationary_iterator = some j }))
        (erase_at-set c.probationary_servers (suc j) serv)

drop_server-at_probationary :
    (serv : ServerRecord) (c : Config)
    → serv.probationary ≡ true
    → deref c.probationary_servers c.probationary_iterator ≡ ok serv
    → drop_server serv c ≡ erase_probationary (decrement_count serv.ipv6 c)
unfolding drop_server
drop_server-at_probationary serv c trial at = simp (trial, at, server_eq_refl serv) refl

-- A server on probation that fails for the fourth time in a row or later, while the iterator is on it as
-- `GetNextServer` left it, is banned and erased from the list, whose iterator goes back by one place; if it is
-- the first of the list, there is no such place and the behaviour is undefined. The count of active servers
-- of its family goes down by one, although it was none of them.
pub increment_server_fail_count-dropped :
    (c : Config) (i : ℕ) (old : ServerRecord) (now ban_time : ℕ)
    → load c (in_probationary i) ≡ ok old
    → c.probationary_iterator ≡ some i
    → old.probationary ≡ true
    → 3 ≤ old.failure_count
    → increment_server_fail_count c (in_probationary i) now ban_time
      ≡ without_probationary c (given_up c old now ban_time) i
unfolding load store
increment_server_fail_count-dropped c i old now ban_time found at trial often =
    let serv = failed_record old now in
    let ps = set c.probationary_servers i serv in
    let value : deref ps c.probationary_iterator ≡ ok serv =
      ap (deref ps) at ∙ deref-set c.probationary_servers i old serv found in
    let banned : Config = record c {
      banned_servers = MruCache.add server_eq c.banned_servers serv ban_time;
    } in
    failed_too_often c (in_probationary i) old now ban_time found often
    ∙ (drop_server-at_probationary serv (failed_config c (in_probationary i) old now ban_time) trial
          value
        ∙ (ap erase_probationary (decrement_count-probationary old.ipv6 banned ps)
            ∙ (erase-without_probationary c (decrement_count old.ipv6 banned) i serv
                  (decrement_count-probationary_iterator old.ipv6 banned ∙ at)
                ∙ ap (λ d. without_probationary c d i)
                    (decrement_count-given_up c old now ban_time))))

-- In the set of active servers.
decrement_count-active :
    (b : Bool) (c : Config) (ss : List ServerRecord)
    → decrement_count b (record c { active_servers = ss })
      ≡ record (decrement_count b c) { active_servers = ss }
unfolding decrement_count
decrement_count-active true c ss = refl
decrement_count-active false c ss = refl

decrement_count-active_iterator :
    (b : Bool) (c : Config) → (decrement_count b c).active_iterator ≡ c.active_iterator
unfolding decrement_count
decrement_count-active_iterator true c = refl
decrement_count-active_iterator false c = refl

erase-without_active :
    (c d : Config) (i : ℕ) (serv : ServerRecord)
    → d.active_iterator ≡ some i
    → erase_active (record d { active_servers = set c.active_servers i serv })
      ≡ without_active c d i
unfolding prev
erase-without_active c d zero serv at =
    erase_active-at (record d { active_servers = set c.active_servers 0 serv }) 0 at
erase-without_active c d (suc j) serv at =
    erase_active-at (record d { active_servers = set c.active_servers (suc j) serv }) (suc j) at
    ∙ ap (λ ss. ok (record d { active_servers = ss; active_iterator = some j }))
        (erase_at-set c.active_servers (suc j) serv)

drop_server-at_active :
    (serv : ServerRecord) (c : Config)
    → serv.probationary ≡ false
    → deref c.active_servers c.active_iterator ≡ ok serv
    → drop_server serv c ≡ erase_active (decrement_count serv.ipv6 c)
unfolding drop_server
drop_server-at_active serv c settled at = simp (settled, at, server_eq_refl serv) refl

-- An active server that fails for the fourth time in a row or later, while the iterator is on it as
-- `GetNextServer` left it, is banned and erased from the set, whose iterator goes back by one place, and the count
-- of its family goes down by one; if it is the first of the set, there is no such place and the behaviour is
-- undefined.
pub increment_server_fail_count-dropped_active :
    (c : Config) (i : ℕ) (old : ServerRecord) (now ban_time : ℕ)
    → load c (in_active i) ≡ ok old
    → c.active_iterator ≡ some i
    → old.probationary ≡ false
    → 3 ≤ old.failure_count
    → increment_server_fail_count c (in_active i) now ban_time
      ≡ without_active c (given_up c old now ban_time) i
unfolding load store
increment_server_fail_count-dropped_active c i old now ban_time found at settled often =
    let serv = failed_record old now in
    let ss = set c.active_servers i serv in
    let value : deref ss c.active_iterator ≡ ok serv =
      ap (deref ss) at ∙ deref-set c.active_servers i old serv found in
    let banned : Config = record c {
      banned_servers = MruCache.add server_eq c.banned_servers serv ban_time;
    } in
    failed_too_often c (in_active i) old now ban_time found often
    ∙ (drop_server-at_active serv (failed_config c (in_active i) old now ban_time) settled value
        ∙ (ap erase_active (decrement_count-active old.ipv6 banned ss)
            ∙ (erase-without_active c (decrement_count old.ipv6 banned) i serv
                  (decrement_count-active_iterator old.ipv6 banned ∙ at)
                ∙ ap (λ d. without_active c d i) (decrement_count-given_up c old now ban_time))))
