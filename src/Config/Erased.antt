-- ===== src/Config/Erased.antt =====
-- What erases a server from a list keeps the configuration well-formed, where it returns.
use nrp_reference.Base.{
  ℕ, zero, suc, ◌<◌, ◌≡◌, refl, sym, ◌∙◌, subst, inl, inr, Bool, true, false, Option, none, some,
  Outcome, ok, ◌>>=◌, >>=-eq-ok, arith, length, All, Bool-cases, Option-cases,
}
use nrp_reference.ServerRecord.{ServerRecord, server_eq}
use nrp_reference.Config.State.{Config}
use nrp_reference.Config.Lists.{
  deref, prev, erase_at, remove, index_after_remove, find_index, index_after_erase,
}
use nrp_reference.Config.Servers.{active_server_count}
use nrp_reference.Config.Sorted.{IsSorted, erase_at-IsSorted, All-erase_at}
use nrp_reference.Config.Update.{
  decrement_count, increment_count, erase_probationary, remove_probationary, erase_active,
  remove_active, is_at, drop_server,
}
use nrp_reference.Config.Promotion.{erase_probationary-at}
use nrp_reference.Config.Valid.{HasAddress, IsIn, IsValid}
use nrp_reference.Config.Indices.{IsIn-erase_at, IsIn-erase_other, IsIn-remove, All-remove}

-- The lists and the iterators are the same.
pub record SameLists (c d : Config) : Type 0 where
  pub active : d.active_servers ≡ c.active_servers
  pub probationary : d.probationary_servers ≡ c.probationary_servers
  pub configured : d.configured_servers ≡ c.configured_servers
  pub active_iterator : d.active_iterator ≡ c.active_iterator
  pub probationary_iterator : d.probationary_iterator ≡ c.probationary_iterator

pub SameLists-IsValid : (c d : Config) → SameLists c d → IsValid c → IsValid d
SameLists-IsValid c d e v = record {
  sorted = subst IsSorted (sym e.active) v.sorted;
  active_in = rw (e.active_iterator, e.active) v.active_in;
  probationary_in = rw (e.probationary_iterator, e.probationary) v.probationary_in;
  active = subst (All HasAddress) (sym e.active) v.active;
  probationary = subst (All HasAddress) (sym e.probationary) v.probationary;
  configured = subst (All HasAddress) (sym e.configured) v.configured;
}

pub increment_count-SameLists : (b : Bool) (c : Config) → SameLists c (increment_count b c)
unfolding increment_count
increment_count-SameLists true c = record {
  active = refl;
  probationary = refl;
  configured = refl;
  active_iterator = refl;
  probationary_iterator = refl;
}
increment_count-SameLists false c = record {
  active = refl;
  probationary = refl;
  configured = refl;
  active_iterator = refl;
  probationary_iterator = refl;
}

decrement_count-SameLists : (b : Bool) (c : Config) → SameLists c (decrement_count b c)
unfolding decrement_count
decrement_count-SameLists true c = record {
  active = refl;
  probationary = refl;
  configured = refl;
  active_iterator = refl;
  probationary_iterator = refl;
}
decrement_count-SameLists false c = record {
  active = refl;
  probationary = refl;
  configured = refl;
  active_iterator = refl;
  probationary_iterator = refl;
}

pub active_server_count-SameLists : (c : Config) (t : ℕ) → SameLists c (active_server_count c t).0
unfolding active_server_count
active_server_count-SameLists c t = record {
  active = ground arith;
  probationary = ground arith;
  configured = ground arith;
  active_iterator = ground arith;
  probationary_iterator = ground arith;
}

-- The erasures, where they return.
erase_probationary_at :
    (c d : Config) (i : ℕ) (m : Outcome ℕ)
    → c.probationary_iterator ≡ some i
    → prev i ≡ m
    → (m >>= λ j. ok (record c {
      probationary_servers = erase_at i c.probationary_servers;
      probationary_iterator = some j;
    }))
      ≡ ok d
    → IsValid c
    → IsValid d
unfolding prev
erase_probationary_at c d zero m at before h v = ground arith
erase_probationary_at c d (suc i) m at before h v =
    let within : suc i < length c.probationary_servers =
      subst (λ o. IsIn o c.probationary_servers) at v.probationary_in in
    let w : IsValid (record c {
      probationary_servers = erase_at (suc i) c.probationary_servers;
      probationary_iterator = some i;
    }) =
      record {
        sorted = v.sorted;
        active_in = v.active_in;
        probationary_in = IsIn-erase_at (suc i) i c.probationary_servers refl within;
        active = v.active;
        probationary = All-erase_at HasAddress (suc i) c.probationary_servers v.probationary;
        configured = v.configured;
      } in
    subst IsValid (ground arith) w

pub erase_probationary-IsValid :
    (c d : Config) → erase_probationary c ≡ ok d → IsValid c → IsValid d
unfolding erase_probationary
erase_probationary-IsValid c d h v = elim (Option-cases c.probationary_iterator) [
  | inl end ↦ ground arith
  | inr (i, at) ↦
      erase_probationary_at c d i (prev i) at refl (sym (erase_probationary-at c i at) ∙ h) v
]

erase_active_at :
    (c d : Config) (i : ℕ) (m : Outcome ℕ)
    → c.active_iterator ≡ some i
    → prev i ≡ m
    → (m >>= λ j.
        ok (record c { active_servers = erase_at i c.active_servers; active_iterator = some j }))
      ≡ ok d
    → IsValid c
    → IsValid d
unfolding prev
erase_active_at c d zero m at before h v = ground arith
erase_active_at c d (suc i) m at before h v =
    let within : suc i < length c.active_servers =
      subst (λ o. IsIn o c.active_servers) at v.active_in in
    let w : IsValid (record c {
      active_servers = erase_at (suc i) c.active_servers;
      active_iterator = some i;
    }) =
      record {
        sorted = erase_at-IsSorted (suc i) c.active_servers v.sorted;
        active_in = IsIn-erase_at (suc i) i c.active_servers refl within;
        probationary_in = v.probationary_in;
        active = All-erase_at HasAddress (suc i) c.active_servers v.active;
        probationary = v.probationary;
        configured = v.configured;
      } in
    subst IsValid (ground arith) w

pub erase_active-at :
    (c : Config) (i : ℕ)
    → c.active_iterator ≡ some i
    → erase_active c ≡ (
        prev i >>= λ j.
        ok (record c { active_servers = erase_at i c.active_servers; active_iterator = some j }))
unfolding erase_active
erase_active-at c i at = rw at refl

erase_active-IsValid : (c d : Config) → erase_active c ≡ ok d → IsValid c → IsValid d
unfolding erase_active
erase_active-IsValid c d h v = elim (Option-cases c.active_iterator) [
  | inl end ↦ ground arith
  | inr (i, at) ↦ erase_active_at c d i (prev i) at refl (sym (erase_active-at c i at) ∙ h) v
]

removed_probationary :
    (serv : ServerRecord) (c : Config) (o : Option ℕ)
    → IsIn o (remove serv c.probationary_servers)
    → IsValid c
    → IsValid (record c {
      probationary_servers = remove serv c.probationary_servers;
      probationary_iterator = o;
    })
removed_probationary serv c o within v = record {
  sorted = v.sorted;
  active_in = v.active_in;
  probationary_in = within;
  active = v.active;
  probationary = All-remove HasAddress serv c.probationary_servers v.probationary;
  configured = v.configured;
}

pub remove_probationary-IsValid :
    (serv : ServerRecord) (c d : Config) → remove_probationary serv c ≡ ok d → IsValid c → IsValid d
unfolding remove_probationary
remove_probationary-IsValid serv c d h v = elim (Option-cases c.probationary_iterator) [
  | inl end ↦ subst IsValid (ground arith) (removed_probationary serv c none tt v)
  | inr (i, at) ↦ elim (Option-cases (index_after_remove serv i c.probationary_servers)) [
    | inl gone ↦ ground arith
    | inr (j, kept) ↦
        let within : i < length c.probationary_servers =
          subst (λ o. IsIn o c.probationary_servers) at v.probationary_in in
        subst IsValid (ground arith) (
          removed_probationary serv c (some j)
            (IsIn-remove serv i j c.probationary_servers kept within) v)
  ]
]

remove_active-IsValid :
    (serv : ServerRecord) (c d : Config) → remove_active serv c ≡ ok d → IsValid c → IsValid d
unfolding remove_active
remove_active-IsValid serv c d h v = elim (Option-cases (find_index serv c.active_servers)) [
  | inl missing ↦ subst IsValid (ground arith) v
  | inr (j, found) ↦ elim (Bool-cases (is_at j c.active_iterator)) [
    | inl here ↦ ground arith
    | inr elsewhere ↦
        let w : IsValid (record c {
          active_servers = erase_at j c.active_servers;
          active_iterator = index_after_erase j c.active_iterator;
        }) =
          record {
            sorted = erase_at-IsSorted j c.active_servers v.sorted;
            active_in =
                IsIn-erase_other c.active_iterator serv j c.active_servers found elsewhere
                  v.active_in;
            probationary_in = v.probationary_in;
            active = All-erase_at HasAddress j c.active_servers v.active;
            probationary = v.probationary;
            configured = v.configured;
          } in
        subst IsValid (ground arith) w
  ]
]

pub drop_server-IsValid :
    (serv : ServerRecord) (c d : Config) → drop_server serv c ≡ ok d → IsValid c → IsValid d
unfolding drop_server
drop_server-IsValid serv c d h v =
    let counted : IsValid (decrement_count serv.ipv6 c) =
      SameLists-IsValid c (decrement_count serv.ipv6 c) (decrement_count-SameLists serv.ipv6 c) v in
    elim (Bool-cases serv.probationary) [
      | inl trial ↦
          let (at, found, rest) =
            >>=-eq-ok (deref c.probationary_servers c.probationary_iterator) _ (simp trial at h) in
          elim (Bool-cases (server_eq serv at)) [
            | inl same ↦
                erase_probationary-IsValid (decrement_count serv.ipv6 c) d (simp same at rest)
                  counted
            | inr other ↦ remove_probationary-IsValid serv c d (simp other at rest) v
          ]
      | inr settled ↦
          let (at, found, rest) =
            >>=-eq-ok (deref c.active_servers c.active_iterator) _ (simp settled at h) in
          elim (Bool-cases (server_eq serv at)) [
            | inl same ↦
                erase_active-IsValid (decrement_count serv.ipv6 c) d (simp same at rest) counted
            | inr other ↦ remove_active-IsValid serv c d (simp other at rest) v
          ]
    ]
