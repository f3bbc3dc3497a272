-- ===== src/MruCache/View.antt =====
-- The cache seen as a function from keys to the time of their entry: what its operations do to that.
use nrp_reference.Base.{
  ℕ, suc, ◌+◌, ◌<◌, ◌≡◌, refl, ◌⊎◌, inl, inr, Bool, true, false, List, [], ◌∷◌, Option, none, some,
  arith, ltb, leb, if◌then◌else◌, Option-cases, Bool-cases,
}
use nrp_reference.MruCache.{
  MruCache, lifetime, clean_entries, find, update, emplace, is_present_add, is_present, add,
}
use nrp_reference.MruCache.Laws.{
  IsPartialEquivalence, find-emplace_self, find-update_self, emplace_present,
}
use nrp_reference.MruCache.Clean.{Unique, find_congr, find-emplace_ne, find-clean_none}

-- What a client of the cache knows: for each key the time of its entry, if it has one.
abbrev pub View {ℓ} : Type ℓ → Type ℓ
View Key = Key → Option ℕ

-- An entry that has not expired.
abbrev pub is_live : ℕ → ℕ → Option ℕ → Bool
is_live life now none = false
is_live life now (some t) = ltb now (t + life)

module _ {ℓ} {Key : Type ℓ} where
  module _ (beq : Key → Key → Bool) where
    abbrev pub view : MruCache Key → View Key
    view c k = find beq k c.entries

    -- One key, and every key equal to it, is given a time.
    abbrev assign : Key → ℕ → View Key → View Key
    assign k t v j = if beq k j then some t else v j

    -- The three operations on views. Asking gives a free key the time of the insertion if it had no
    -- entry, and that of the update if its entry had expired.
    abbrev pub ask : ℕ → Key → ℕ → ℕ → ℕ → View Key → View Key × Bool
    ask life k insert_time check_time update_time v = elim (v k) [
      | none ↦ (assign k insert_time v, false)
      | some t ↦ if leb (t + life) check_time then (assign k update_time v, false) else (v, true)
    ]

    abbrev pub put : Key → ℕ → View Key → View Key
    put k now v = elim (v k) [ none ↦ assign k now v | some t ↦ v ]

    module _ (eq : IsPartialEquivalence beq) where
      find-update_ne :
          (k j : Key) (t : ℕ) (es : List (Key × ℕ))
          → beq k j ≡ false
          → find beq j (update beq k t es) ≡ find beq j es
      unfolding find update
      find-update_ne k j t [] h = refl
      find-update_ne k j t ((i, s) ∷ es) h =
          ground (arith, find-update_ne k j t es, eq.symmetric i k, eq.transitive k i j)

      find-emplace :
          (k j : Key) (t : ℕ) (es : List (Key × ℕ))
          → beq k k ≡ true
          → find beq k es ≡ none
          → find beq j (emplace beq k t es) ≡ (if beq k j then some t else find beq j es)
      find-emplace k j t es r h = elim (Bool-cases (beq k j)) [
        | inl same ↦ ground (
          arith,
          find_congr beq eq k j (emplace beq k t es) same,
          find-emplace_self beq k t es r h,
        )
        | inr other ↦ ground (arith, find-emplace_ne beq eq k j t es other)
      ]

      find-update :
          (k j : Key) (t s : ℕ) (es : List (Key × ℕ))
          → find beq k es ≡ some s
          → find beq j (update beq k t es) ≡ (if beq k j then some t else find beq j es)
      find-update k j t s es h = elim (Bool-cases (beq k j)) [
        | inl same ↦
            ground (
              arith,
              find_congr beq eq k j (update beq k t es) same,
              find-update_self beq k t s es h,
            )
        | inr other ↦ ground (arith, find-update_ne k j t es other)
      ]

      -- `IsPresentAdd`, `Add` and `IsPresent` implement the operations on views: the view after an
      -- operation is, at every key, the view before it as the operation on views changes it, and the
      -- answers are the same. The key that is asked for or added equals itself.
      pub view-is_present_add :
          (c : MruCache Key) (k j : Key) (i t u s : ℕ)
          → beq k k ≡ true
          → let specified = ask (lifetime c) k i t u (view c) in
            (view (is_present_add beq c k i t u s).0 j ≡ specified.0 j)
            × ((is_present_add beq c k i t u s).1 ≡ specified.1)
            × (view (add beq c k i) j ≡ put k i (view c) j)
            × ((is_present beq c k t s).0 ≡ is_live (lifetime c) t (view c k))
      unfolding is_present_add add is_present
      view-is_present_add c k j i t u s r = elim (Option-cases (find beq k c.entries)) [
        | inl missing ↦ (
          ground (arith, find-emplace k j i c.entries),
          ground arith,
          ground (arith, find-emplace k j i c.entries),
          ground arith,
        )
        | inr (old, found) ↦ (
          ground (arith, find-update k j u old c.entries),
          ground arith,
          ground (arith, emplace_present beq k i old c.entries),
          ground arith,
        )
      ]

      -- What became of an entry in a cleaning.
      abbrev pub Cleaned : ℕ → (ℕ → ℕ) → Option ℕ → Option ℕ → Type 0
      Cleaned life now before after =
          (after ≡ before)
          ⊎ ((after ≡ none) × ((t : ℕ) × (j : ℕ) × (before ≡ some t) × (t + life < now j)))

      pub find-clean_entries :
          (life : ℕ) (now : ℕ → ℕ) (i : ℕ) (k : Key) (es : List (Key × ℕ))
          → Unique beq es
          → Cleaned life now (find beq k es) (find beq k (clean_entries life now i es))
      unfolding clean_entries find
      find-clean_entries life now i k [] u = inl refl
      find-clean_entries life now i k ((j, t) ∷ es) u = elim (Bool-cases (ltb (t + life) (now i))) [
        | inl over ↦ elim (Bool-cases (beq j k)) [
          | inl same ↦
              let gone : find beq k es ≡ none = ground (arith, find_congr beq eq j k es same) in
              rw (over, same)
                (inr
                  (find-clean_none beq eq life now (suc i) k es gone, (t, i, refl, ground arith)))
          | inr other ↦ rw (over, other) (find-clean_entries life now (suc i) k es u.1)
        ]
        | inr kept ↦ elim (Bool-cases (beq j k)) [
          | inl same ↦ rw (kept, same) (inl refl)
          | inr other ↦ rw (kept, other) (find-clean_entries life now (suc i) k es u.1)
        ]
      ]
