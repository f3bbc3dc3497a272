-- ===== src/MruCache/Clean.antt =====
-- `Clean` forgets only what has expired: no later question is answered otherwise. That rests on the
-- map holding a key once, which every operation keeps.
use nrp_reference.Base.{
  ℕ, suc, ◌+◌, ◌≤◌, ◌≡◌, refl, Bool, true, false, List, [], ◌∷◌, Option, none, some, arith, ltb,
}
use nrp_reference.MruCache.{
  MruCache, lifetime, clean_entries, clean, find, update, emplace, is_present_add, is_present, add,
}
use nrp_reference.MruCache.Laws.{IsPartialEquivalence}

module _ {ℓ} {Key : Type ℓ} (beq : Key → Key → Bool) where
  abbrev pub Unique : List (Key × ℕ) → Type 0
  Unique [] = Unit
  Unique ((j, t) ∷ rest) = (find beq j rest ≡ none) × Unique rest

  module _ (eq : IsPartialEquivalence beq) where
    ne_of_ne : (a b : Key) → beq a b ≡ false → beq b a ≡ false
    ne_of_ne a b h = ground (arith, eq.symmetric b a)

    pub find_congr :
        (a b : Key) (es : List (Key × ℕ)) → beq a b ≡ true → find beq a es ≡ find beq b es
    unfolding find
    find_congr a b [] h = refl
    find_congr a b ((j, t) ∷ es) h =
        ground
          (arith, find_congr a b es h, eq.transitive j a b, eq.transitive j b a, eq.symmetric a b)

    pub find-emplace_ne :
        (k j : Key) (t : ℕ) (es : List (Key × ℕ))
        → beq k j ≡ false
        → find beq j (emplace beq k t es) ≡ find beq j es
    unfolding find emplace
    find-emplace_ne k j t [] h = ground arith
    find-emplace_ne k j t ((i, s) ∷ es) h = ground (arith, find-emplace_ne k j t es)

    find-update-none :
        (k j : Key) (t : ℕ) (es : List (Key × ℕ))
        → find beq j es ≡ none
        → find beq j (update beq k t es) ≡ none
    unfolding find update
    find-update-none k j t [] h = refl
    find-update-none k j t ((i, s) ∷ es) h = ground (arith, find-update-none k j t es)

    emplace-Unique :
        (k : Key) (t : ℕ) (es : List (Key × ℕ)) → Unique es → Unique (emplace beq k t es)
    unfolding emplace find
    emplace-Unique k t [] u = (refl, tt)
    emplace-Unique k t ((j, s) ∷ es) u =
        ground (arith, emplace-Unique k t es u.1, find-emplace_ne k j t es, ne_of_ne j k)

    update-Unique : (k : Key) (t : ℕ) (es : List (Key × ℕ)) → Unique es → Unique (update beq k t es)
    unfolding update
    update-Unique k t [] u = tt
    update-Unique k t ((j, s) ∷ es) u =
        ground (arith, update-Unique k t es u.1, find-update-none k j t es)

    module _ (life : ℕ) (now : ℕ → ℕ) where
      pub find-clean_none :
          (i : ℕ) (k : Key) (es : List (Key × ℕ))
          → find beq k es ≡ none
          → find beq k (clean_entries life now i es) ≡ none
      unfolding find clean_entries
      find-clean_none i k [] h = refl
      find-clean_none i k ((j, t) ∷ es) h = ground (arith, find-clean_none (suc i) k es)

      pub clean-Unique :
          (i : ℕ) (es : List (Key × ℕ)) → Unique es → Unique (clean_entries life now i es)
      unfolding clean_entries
      clean-Unique i [] u = tt
      clean-Unique i ((j, t) ∷ es) u =
          ground (arith, clean-Unique (suc i) es u.1, find-clean_none (suc i) j es)

      abbrev fresh : ℕ → Option ℕ → Bool
      fresh later none = false
      fresh later (some t) = ltb later (t + life)

      fresh-clean :
          (i : ℕ) (k : Key) (later : ℕ) (es : List (Key × ℕ))
          → Unique es
          → ((j : ℕ) → now j ≤ later)
          → fresh later (find beq k (clean_entries life now i es)) ≡ fresh later (find beq k es)
      unfolding find clean_entries
      fresh-clean i k later [] u h = refl
      fresh-clean i k later ((j, t) ∷ es) u h = ground (
        arith,
        h i,
        fresh-clean (suc i) k later es u.1 h,
        find-clean_none (suc i) k es,
        find_congr j k es,
      )

    -- `IsPresentAdd`, `Add` and `Clean` keep the entries' keys apart: no key has two entries.
    pub operations-Unique :
        (c : MruCache Key) (k : Key) (insert_time check_time update_time schedule_time end : ℕ)
        (now : ℕ → ℕ)
        → Unique c.entries
        → Unique (is_present_add beq c k insert_time check_time update_time schedule_time).0.entries
          × Unique (add beq c k insert_time).entries
          × Unique (clean c now end).0.entries
    unfolding is_present_add add clean
    operations-Unique c k i t u s end now h = (
      ground (arith, emplace-Unique k i c.entries h, update-Unique k u c.entries h),
      emplace-Unique k i c.entries h,
      clean-Unique (lifetime c) now 0 c.entries h,
    )

    -- After a cleaning whose clock readings are not later than the question, `IsPresent` answers as it
    -- would have answered without it, if no key has two entries.
    pub is_present-clean :
        (c : MruCache Key) (k : Key) (now : ℕ → ℕ) (end later schedule_time : ℕ)
        → Unique c.entries
        → ((j : ℕ) → now j ≤ later)
        → (is_present beq (clean c now end).0 k later schedule_time).0
          ≡ (is_present beq c k later schedule_time).0
    unfolding is_present clean
    is_present-clean c k now end later s u h =
        ground (arith, fresh-clean (lifetime c) now 0 k later c.entries u h)
