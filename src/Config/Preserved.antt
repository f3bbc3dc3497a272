-- ===== src/Config/Preserved.antt =====
-- Every operation on the configuration keeps it well-formed.
use nrp_reference.Base.{
  ℕ, ◌+◌, ◌≡◌, refl, subst, inl, inr, false, List, Option, none, some, ok, >>=-eq-ok, arith, leb,
  Bool-cases,
}
use nrp_reference.MruCache
use nrp_reference.Protocol.Layout.{client_max_server_timeout_count}
use nrp_reference.ServerRecord.{ServerRecord, server_eq}
use nrp_reference.Config.State.{Config}
use nrp_reference.Config.Lists.{deref, emplace_index, insert_at, index_after_insert}
use nrp_reference.Config.Servers.{
  ServerRef, in_active, in_probationary, in_configured, active_server_count, get_next_server,
  step_iterator, choose_server,
}
use nrp_reference.Config.Sorted.{insert_at-IsSorted, All-insert_at}
use nrp_reference.Config.Choice.{IsMoved, step_iterator-IsMoved}
use nrp_reference.Config.Update.{
  load, store, back_off, increment_count, increment_server_fail_count, emplace_active,
  mark_server_successful,
}
use nrp_reference.Config.Valid.{
  HasAddress, IsIn, IsValid, IsIn-set, set-IsSorted, All-HasAddress-set, All-deref,
}
use nrp_reference.Config.Indices.{IsIn-insert_at}
use nrp_reference.Config.Erased.{
  SameLists-IsValid, increment_count-SameLists, active_server_count-SameLists,
  erase_probationary-IsValid, remove_probationary-IsValid, drop_server-IsValid,
}

pub active_server_count-IsValid :
    (c : Config) (t : ℕ) → IsValid c → IsValid (active_server_count c t).0
active_server_count-IsValid c t v =
    SameLists-IsValid c (active_server_count c t).0 (active_server_count-SameLists c t) v

IsIn-of_IsMoved : (ss : List ServerRecord) (o : Option ℕ) → IsMoved ss o → IsIn o ss
IsIn-of_IsMoved ss none h = tt
IsIn-of_IsMoved ss (some i) h = h

pub get_next_server-IsValid :
    (c c' : Config) (ref : ServerRef) → get_next_server c ≡ ok (c', ref) → IsValid c → IsValid c'
unfolding get_next_server
get_next_server-IsValid c c' ref h v =
    let a = step_iterator c.active_servers c.active_iterator in
    let p = step_iterator c.probationary_servers c.probationary_iterator in
    let (r, chosen, made) =
      >>=-eq-ok (choose_server c.prev_returned_probationary a p c.configured_servers) _ h in
    let w : IsValid (record c {
      active_iterator = a;
      probationary_iterator = p;
      prev_returned_probationary = r.0;
    }) =
      record {
        sorted = v.sorted;
        active_in =
            IsIn-of_IsMoved c.active_servers a
              (step_iterator-IsMoved c.active_servers c.active_iterator);
        probationary_in =
            IsIn-of_IsMoved c.probationary_servers p
              (step_iterator-IsMoved c.probationary_servers c.probationary_iterator);
        active = v.active;
        probationary = v.probationary;
        configured = v.configured;
      } in
    subst IsValid (ground arith) w

pub store-IsValid :
    (c : Config) (ref : ServerRef) (s t : ServerRecord)
    → load c ref ≡ ok s
    → t.host ≡ s.host
    → t.ipv6 ≡ s.ipv6
    → IsValid c
    → IsValid (store c ref t)
unfolding load store
store-IsValid c (in_active i) s t found h e v = record {
  sorted = set-IsSorted c.active_servers i s t found h e v.sorted;
  active_in = IsIn-set c.active_iterator c.active_servers i t v.active_in;
  probationary_in = v.probationary_in;
  active = All-HasAddress-set c.active_servers i s t found h e v.active;
  probationary = v.probationary;
  configured = v.configured;
}
store-IsValid c (in_probationary i) s t found h e v = record {
  sorted = v.sorted;
  active_in = v.active_in;
  probationary_in = IsIn-set c.probationary_iterator c.probationary_servers i t v.probationary_in;
  active = v.active;
  probationary = All-HasAddress-set c.probationary_servers i s t found h e v.probationary;
  configured = v.configured;
}
store-IsValid c in_configured s t found h e v = record {
  sorted = v.sorted;
  active_in = v.active_in;
  probationary_in = v.probationary_in;
  active = v.active;
  probationary = v.probationary;
  configured = All-HasAddress-set c.configured_servers 0 s t found h e v.configured;
}

load-HasAddress :
    (c : Config) (ref : ServerRef) (s : ServerRecord) → load c ref ≡ ok s → IsValid c → HasAddress s
unfolding load
load-HasAddress c (in_active i) s h v = All-deref HasAddress c.active_servers i s h v.active
load-HasAddress c (in_probationary i) s h v =
    All-deref HasAddress c.probationary_servers i s h v.probationary
load-HasAddress c in_configured s h v = All-deref HasAddress c.configured_servers 0 s h v.configured

-- `emplace`, with the place that it finds.
emplaced-IsValid :
    (serv : ServerRecord) (c : Config) (o : Option ℕ)
    → emplace_index serv c.active_servers ≡ o
    → HasAddress serv
    → IsValid c
    → IsValid (elim o [
      | none ↦ c
      | some j ↦ increment_count serv.ipv6 (record c {
        active_servers = insert_at j serv c.active_servers;
        active_iterator = index_after_insert j c.active_iterator;
      })
    ])
emplaced-IsValid serv c none there address v = v
emplaced-IsValid serv c (some j) found address v =
    let inserted : Config = record c {
      active_servers = insert_at j serv c.active_servers;
      active_iterator = index_after_insert j c.active_iterator;
    } in
    SameLists-IsValid inserted (increment_count serv.ipv6 inserted)
      (increment_count-SameLists serv.ipv6 inserted)
      (record {
        sorted = insert_at-IsSorted serv c.active_servers j v.sorted found;
        active_in = IsIn-insert_at c.active_iterator j serv c.active_servers v.active_in;
        probationary_in = v.probationary_in;
        active = All-insert_at HasAddress j serv c.active_servers address v.active;
        probationary = v.probationary;
        configured = v.configured;
      })

emplace_active-IsValid :
    (serv : ServerRecord) (c : Config)
    → HasAddress serv
    → IsValid c
    → IsValid (emplace_active serv c)
unfolding emplace_active
emplace_active-IsValid serv c address v =
    emplaced-IsValid serv c (emplace_index serv c.active_servers) refl address v

-- The banned servers are no part of it.
pub banned-IsValid :
    (c : Config) (banned : MruCache.MruCache ServerRecord)
    → IsValid c
    → IsValid (record c { banned_servers = banned })
banned-IsValid c banned v = record {
  sorted = v.sorted;
  active_in = v.active_in;
  probationary_in = v.probationary_in;
  active = v.active;
  probationary = v.probationary;
  configured = v.configured;
}

pub increment_server_fail_count-IsValid :
    (c d : Config) (ref : ServerRef) (now ban_time : ℕ)
    → increment_server_fail_count c ref now ban_time ≡ ok d
    → IsValid c
    → IsValid d
unfolding increment_server_fail_count
increment_server_fail_count-IsValid c d ref now ban_time h v =
    let (old, found, rest) = >>=-eq-ok (load c ref) _ h in
    let serv : ServerRecord = record old {
      failure_count = old.failure_count + 1;
      last_access_time = now;
      retry_time = back_off old.retry_time;
    } in
    let failed = store c ref serv in
    let w = store-IsValid c ref old serv found refl refl v in
    elim (Bool-cases (leb client_max_server_timeout_count (serv.failure_count + 1))) [
      | inl too_often ↦
          drop_server-IsValid serv
            (record failed {
              banned_servers = MruCache.add server_eq failed.banned_servers serv ban_time;
            })
            d (simp too_often at rest)
            (banned-IsValid failed (MruCache.add server_eq failed.banned_servers serv ban_time) w)
      | inr tolerated ↦ subst IsValid (ground arith) w
    ]

pub mark_server_successful-IsValid :
    (c d : Config) (ref : ServerRef) (now : ℕ)
    → mark_server_successful c ref now ≡ ok d
    → IsValid c
    → IsValid d
unfolding mark_server_successful
mark_server_successful-IsValid c d ref now h v =
    let (old, found, rest) = >>=-eq-ok (load c ref) _ h in
    let reset : ServerRecord = record old { failure_count = 0; last_access_time = now } in
    let serv : ServerRecord = record reset { probationary = false } in
    let moved = emplace_active serv (store c ref serv) in
    let w =
      emplace_active-IsValid serv (store c ref serv) (load-HasAddress c ref old found v)
        (store-IsValid c ref old serv found refl refl v) in
    elim (Bool-cases old.probationary) [
      | inl trial ↦
          let (at, pointed, end) =
            >>=-eq-ok (deref moved.probationary_servers moved.probationary_iterator) _
              (simp trial at rest) in
          elim (Bool-cases (server_eq serv at)) [
            | inl same ↦ erase_probationary-IsValid moved d (simp same at end) w
            | inr other ↦ remove_probationary-IsValid serv moved d (simp other at end) w
          ]
      | inr settled ↦ subst IsValid (ground arith) (store-IsValid c ref old reset found refl refl v)
    ]
