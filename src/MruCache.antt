-- ===== src/MruCache.antt =====
-- mrucache.h, `MruCache<Key>`: a map from keys to the time they were added, with a lifetime. The keys'
-- `operator==` is a parameter. Each call of the clock is a reading that the caller supplies, in ticks;
-- the mutex makes each operation one step, and the cleaner thread is a step of its own.
pub mod Laws
pub mod Clean
pub mod View
pub mod Spacing
mod Tests
use nrp_reference.Base.{
  ℕ, suc, ◌+◌, ◌*◌, ◌≡◌, Bool, true, false, List, [], ◌∷◌, Option, none, some, ltb, leb,
  if◌then◌else◌,
}

-- Clock ticks in a second (`steady_clock` counts nanoseconds).
abbrev pub ticks_per_second : ℕ
ticks_per_second = 1_000_000_000

pub record MruCache {ℓ} (Key : Type ℓ) : Type ℓ where
  pub entries : List (Key × ℕ)
  pub lifetime_seconds : ℕ
  pub clean_interval_seconds : ℕ
  pub last_clean_time : ℕ

unfoldable pub init {ℓ} : {Key : Type ℓ} → ℕ → ℕ → MruCache Key
init lifetime_seconds now = record {
  entries = [];
  lifetime_seconds = lifetime_seconds;
  clean_interval_seconds = lifetime_seconds;
  last_clean_time = now;
}

abbrev pub lifetime {ℓ} : {Key : Type ℓ} → MruCache Key → ℕ
lifetime c = c.lifetime_seconds * ticks_per_second

module _ {ℓ} {Key : Type ℓ} where
  -- The loop of `Clean`: the `i`th entry is compared with the `i`th reading of the clock.
  unfoldable pub clean_entries : ℕ → (ℕ → ℕ) → ℕ → List (Key × ℕ) → List (Key × ℕ)
  clean_entries life now i [] = []
  clean_entries life now i ((k, t) ∷ rest) =
      let kept = clean_entries life now (suc i) rest in
      if ltb (t + life) (now i) then kept else (k, t) ∷ kept

  -- `Clean`, which always returns `true`.
  unfoldable pub clean : MruCache Key → (ℕ → ℕ) → ℕ → MruCache Key × Bool
  clean c now end = (
    record c { entries = clean_entries (lifetime c) now 0 c.entries; last_clean_time = end },
    true,
  )

  -- `ScheduleCleaning`: whether a cleaner thread is started.
  unfoldable pub schedule_cleaning : MruCache Key → ℕ → Bool
  schedule_cleaning c now =
      leb (c.last_clean_time + c.clean_interval_seconds * ticks_per_second) now

  module _ (beq : Key → Key → Bool) where
    -- `find` of the map.
    unfoldable pub find : Key → List (Key × ℕ) → Option ℕ
    find k [] = none
    find k ((j, t) ∷ rest) = if beq j k then some t else find k rest

    -- Assignment to the value of a key that is there.
    unfoldable pub update : Key → ℕ → List (Key × ℕ) → List (Key × ℕ)
    update k t [] = []
    update k t ((j, s) ∷ rest) = if beq j k then (j, t) ∷ rest else (j, s) ∷ update k t rest

    -- `emplace`: it inserts if the key is not there, and leaves the map alone if it is.
    unfoldable pub emplace : Key → ℕ → List (Key × ℕ) → List (Key × ℕ)
    emplace k t [] = (k, t) ∷ []
    emplace k t ((j, s) ∷ rest) = if beq j k then (j, s) ∷ rest else (j, s) ∷ emplace k t rest

    -- `IsPresentAdd`, with its readings of the clock: at the insertion, at the test for expiry, at the
    -- update and at the scheduling. The last component is whether a cleaner is started.
    unfoldable pub is_present_add : MruCache Key → Key → ℕ → ℕ → ℕ → ℕ → MruCache Key × Bool × Bool
    is_present_add c k insert_time check_time update_time schedule_time = elim (find k c.entries) [
      | none ↦
          let added = record c { entries = emplace k insert_time c.entries } in
          (added, false, schedule_cleaning added schedule_time)
      | some t ↦
          if leb (t + lifetime c) check_time
          then (let renewed = record c { entries = update k update_time c.entries } in
              (renewed, false, schedule_cleaning renewed schedule_time))
          else (c, true, schedule_cleaning c schedule_time)
    ]

    -- `IsPresent`: the answer, and whether a cleaner is started.
    unfoldable pub is_present : MruCache Key → Key → ℕ → ℕ → Bool × Bool
    is_present c k check_time schedule_time = elim (find k c.entries) [
      | none ↦ (false, schedule_cleaning c schedule_time)
      | some t ↦ (
        if leb (t + lifetime c) check_time then false else true,
        schedule_cleaning c schedule_time,
      )
    ]

    -- `Add`.
    unfoldable pub add : MruCache Key → Key → ℕ → MruCache Key
    add c k now = record c { entries = emplace k now c.entries }
