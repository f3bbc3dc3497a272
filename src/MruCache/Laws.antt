-- ===== src/MruCache/Laws.antt =====
-- What a client of the cache can observe.
use nrp_reference.Base.{
  ℕ, ◌+◌, ◌≤◌, ◌<◌, ◌≡◌, Bool, true, false, List, [], ◌∷◌, none, some, arith, ltb, inl, inr,
  Option-cases,
}
use nrp_reference.MruCache.{
  MruCache, lifetime, find, update, emplace, is_present_add, is_present, add,
}

module _ {ℓ} {Key : Type ℓ} (beq : Key → Key → Bool) where
  -- The keys compare symmetrically and transitively; a key need not equal itself.
  pub record IsPartialEquivalence : Type ℓ where
    pub symmetric : (a b : Key) → beq a b ≡ true → beq b a ≡ true
    pub transitive : (a b c : Key) → beq a b ≡ true → beq b c ≡ true → beq a c ≡ true

  pub find-emplace_self :
      (k : Key) (t : ℕ) (es : List (Key × ℕ))
      → beq k k ≡ true
      → find beq k es ≡ none
      → find beq k (emplace beq k t es) ≡ some t
  unfolding find emplace
  find-emplace_self k t [] r h = ground arith
  find-emplace_self k t ((j, s) ∷ es) r h = ground (arith, find-emplace_self k t es r)

  pub find-update_self :
      (k : Key) (t s : ℕ) (es : List (Key × ℕ))
      → find beq k es ≡ some s
      → find beq k (update beq k t es) ≡ some t
  unfolding find update
  find-update_self k t s [] h = cc
  find-update_self k t s ((j, u) ∷ es) h = ground (arith, find-update_self k t s es)

  pub emplace_present :
      (k : Key) (t s : ℕ) (es : List (Key × ℕ)) → find beq k es ≡ some s → emplace beq k t es ≡ es
  unfolding find emplace
  emplace_present k t s [] h = cc
  emplace_present k t s ((j, u) ∷ es) h = ground (arith, emplace_present k t s es)

  -- What the cache knows of a key at a time: the entry's time, if the entry has not expired.
  abbrev pub live : MruCache Key → Key → ℕ → Bool
  live c k now = elim (find beq k c.entries) [ none ↦ false | some t ↦ ltb now (t + lifetime c) ]

  -- `IsPresent` and `IsPresentAdd` report exactly whether the key has an entry that has not expired.
  is_present-live :
      (c : MruCache Key) (k : Key) (insert_time check_time update_time schedule_time : ℕ)
      → ((is_present beq c k check_time schedule_time).0 ≡ live c k check_time)
        × ((is_present_add beq c k insert_time check_time update_time schedule_time).1
            ≡ live c k check_time)
  unfolding is_present is_present_add
  is_present-live c k i t u s = (ground arith, ground arith)

  -- A key that equals itself and that `IsPresentAdd` lets pass is refused by it for a whole lifetime from
  -- then on, the readings of the clock being in order.
  is_present_add-again :
      (c : MruCache Key) (k : Key) (i t u s i' t' u' s' : ℕ)
      → beq k k ≡ true
      → i ≤ u
      → (is_present_add beq c k i t u s).1 ≡ false
      → t' < i + lifetime c
      → (is_present_add beq (is_present_add beq c k i t u s).0 k i' t' u' s').1 ≡ true
  unfolding is_present_add
  is_present_add-again c k i t u s i' t' u' s' r iu passed soon =
      elim (Option-cases (find beq k c.entries)) [
        | inl e ↦ ground (arith, find-emplace_self k i c.entries)
        | inr (a, e) ↦ ground (arith, find-update_self k u a c.entries)
      ]

  -- `Add` of a key whose entry is still in the map does not renew it: once that entry's lifetime is over the
  -- key is not present, however recently it was added again.
  pub add_expired :
      (c : MruCache Key) (k : Key) (t now later schedule_time : ℕ)
      → find beq k c.entries ≡ some t
      → t + lifetime c ≤ later
      → (is_present beq (add beq c k now) k later schedule_time).0 ≡ false
  unfolding add is_present
  add_expired c k t now later s e h = ground (arith, emplace_present k now t c.entries)

  -- A key that equals itself and has no entry is present after `Add` exactly up to a lifetime from then.
  pub add_new :
      (c : MruCache Key) (k : Key) (now later schedule_time : ℕ)
      → beq k k ≡ true
      → find beq k c.entries ≡ none
      → (is_present beq (add beq c k now) k later schedule_time).0 ≡ ltb later (now + lifetime c)
  unfolding add is_present
  add_new c k now later s r e = ground (arith, find-emplace_self k now c.entries)
