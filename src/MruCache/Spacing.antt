-- ===== src/MruCache/Spacing.antt =====
-- Histories of a cache: the keys that `IsPresentAdd` lets pass are a lifetime apart.
use nrp_reference.Base.{
  ℕ, ◌+◌, ◌≤◌, ◌≡◌, sym, subst, ◌∙◌, ◌⊎◌, inl, inr, Bool, true, false, List, [], ◌∷◌, some, arith,
  Option-cases, Bool-cases, All,
}
use nrp_reference.MruCache.{MruCache, lifetime, clean, find, is_present_add}
use nrp_reference.MruCache.Laws.{IsPartialEquivalence}
use nrp_reference.MruCache.Clean.{Unique, find_congr, clean-Unique, operations-Unique}
use nrp_reference.MruCache.View.{view, view-is_present_add, find-clean_entries}

-- A key that was let pass, with the readings of the clock at the insertion and at the test for expiry.
pub record Pass {ℓ} (Key : Type ℓ) : Type ℓ where
  pub key : Key
  pub asked : ℕ
  pub checked : ℕ

module _ {ℓ} {Key : Type ℓ} (beq : Key → Key → Bool) where
  -- What may happen to a cache up to a time, with the passes so far, the latest first. The readings of an
  -- operation are in order and not before the time at which the one before it ended.
  pub data History (life : ℕ) : MruCache Key → ℕ → List (Pass Key) → Type ℓ where
    begin :
        (c : MruCache Key) (last : ℕ) → c.entries ≡ [] → lifetime c ≡ life → History life c last []
    pass :
        {c : MruCache Key} {last : ℕ} {ps : List (Pass Key)} (k : Key) (i t u s : ℕ)
        → History life c last ps
        → last ≤ i
        → i ≤ t
        → t ≤ u
        → beq k k ≡ true
        → (is_present_add beq c k i t u s).1 ≡ false
        → History life
            (is_present_add beq c k i t u s).0
            u
            (record { key = k; asked = i; checked = t } ∷ ps)
    refuse :
        {c : MruCache Key} {last : ℕ} {ps : List (Pass Key)} (k : Key) (i t u s : ℕ)
        → History life c last ps
        → (is_present_add beq c k i t u s).1 ≡ true
        → History life (is_present_add beq c k i t u s).0 last ps
    tidy :
        {c : MruCache Key} {last : ℕ} {ps : List (Pass Key)} (now : ℕ → ℕ) (end : ℕ)
        → History life c last ps
        → last ≤ end
        → ((j : ℕ) → now j ≤ end)
        → History life (clean c now end).0 end ps
    wait :
        {c : MruCache Key} {last : ℕ} {ps : List (Pass Key)} (later : ℕ)
        → History life c last ps
        → last ≤ later
        → History life c later ps

  -- A later pass is checked a lifetime after an earlier one of an equal key was asked for.
  abbrev pub Spaced : ℕ → List (Pass Key) → Type 0
  Spaced life [] = Unit
  Spaced life (p ∷ ps) =
      All (λ (q : Pass Key). beq q.key p.key ≡ true → q.asked + life ≤ p.checked) ps
      × Spaced life ps

  -- An earlier pass has an entry that is not older, or its lifetime is over.
  abbrev Known : ℕ → ℕ → MruCache Key → Pass Key → Type 0
  Known life last c q =
      ((t : ℕ) × (view beq c q.key ≡ some t) × (q.asked ≤ t)) ⊎ (q.asked + life ≤ last)

  record Inv (life : ℕ) (c : MruCache Key) (last : ℕ) (ps : List (Pass Key)) : Type 0 where
    unique : Unique beq c.entries
    life_of : lifetime c ≡ life
    known : All (λ q. Known life last c q) ps
    spaced : Spaced life ps

  All-map :
      (P Q : Pass Key → Type 0) (ps : List (Pass Key))
      → ((q : Pass Key) → P q → Q q)
      → All P ps
      → All Q ps
  All-map P Q [] f all = tt
  All-map P Q (q ∷ ps) f (p, all) = (f q p, All-map P Q ps f all)

  module _ (eq : IsPartialEquivalence beq) (life : ℕ) where
    -- A key passes only a lifetime after any earlier pass of an equal key.
    Known-spaced :
        (c : MruCache Key) (last : ℕ) (q : Pass Key) (k : Key) (i t u s : ℕ)
        → lifetime c ≡ life
        → last ≤ t
        → (is_present_add beq c k i t u s).1 ≡ false
        → Known life last c q
        → beq q.key k ≡ true
        → q.asked + life ≤ t
    unfolding is_present_add
    Known-spaced c last q k i t u s e le passed (inl (a, found, older)) same =
        let here : find beq k c.entries ≡ some a =
          sym (find_congr beq eq q.key k c.entries same) ∙ found in
        ground arith
    Known-spaced c last q k i t u s e le passed (inr over) same = omega arith

    -- Other keys keep their entries, and the key that passes has one that is not older than the question.
    view_other :
        (c : MruCache Key) (k j : Key) (i t u s : ℕ)
        → beq k k ≡ true
        → beq k j ≡ false
        → view beq (is_present_add beq c k i t u s).0 j ≡ view beq c j
    view_other c k j i t u s r other =
        let v = (view-is_present_add beq eq c k j i t u s r).0 in v ∙ ground arith

    view_passed :
        (c : MruCache Key) (k : Key) (i t u s : ℕ)
        → beq k k ≡ true
        → i ≤ t
        → t ≤ u
        → (is_present_add beq c k i t u s).1 ≡ false
        → (a : ℕ) × (view beq (is_present_add beq c k i t u s).0 k ≡ some a) × (i ≤ a)
    view_passed c k i t u s r it tu passed =
        let laws = view-is_present_add beq eq c k k i t u s r in
        elim (Option-cases (find beq k c.entries)) [
          | inl missing ↦ (i, ground (arith, laws.0), omega arith)
          | inr (a, found) ↦ (u, ground (arith, laws.0, laws.1), omega arith)
        ]

    Known-pass :
        (c : MruCache Key) (last : ℕ) (q : Pass Key) (k : Key) (i t u s : ℕ)
        → lifetime c ≡ life
        → last ≤ i
        → i ≤ t
        → t ≤ u
        → beq k k ≡ true
        → (is_present_add beq c k i t u s).1 ≡ false
        → Known life last c q
        → Known life u (is_present_add beq c k i t u s).0 q
    Known-pass c last q k i t u s e li it tu r passed (inr over) = inr (omega arith)
    Known-pass c last q k i t u s e li it tu r passed (inl (a, found, older)) =
        elim (Bool-cases (beq k q.key)) [
          | inl same ↦ inr (
              omega (
                arith,
                Known-spaced c last q k i t u s e (omega arith) passed (inl (a, found, older))
                    (eq.symmetric k q.key same),
              ))
          | inr other ↦ inl (a, view_other c k q.key i t u s r other ∙ found, older)
        ]

    Known-tidy :
        (c : MruCache Key) (last end : ℕ) (q : Pass Key) (now : ℕ → ℕ)
        → lifetime c ≡ life
        → Unique beq c.entries
        → last ≤ end
        → ((j : ℕ) → now j ≤ end)
        → Known life last c q
        → Known life end (clean c now end).0 q
    unfolding clean
    Known-tidy c last end q now e u le bound (inr over) = inr (omega arith)
    Known-tidy c last end q now e u le bound (inl (a, found, older)) =
        elim (find-clean_entries beq eq (lifetime c) now 0 q.key c.entries u) [
          | inl same ↦ inl (a, same ∙ found, older)
          | inr (gone, (t, j, before, expired)) ↦
              let b = bound j in let at : a ≡ t = cc in inr (omega arith)
        ]

    Known-later :
        (c : MruCache Key) (last later : ℕ) (q : Pass Key)
        → last ≤ later
        → Known life last c q
        → Known life later c q
    Known-later c last later q le (inl known) = inl known
    Known-later c last later q le (inr over) = inr (omega arith)

    same_lifetime :
        (c : MruCache Key) (k : Key) (i t u s : ℕ)
        → lifetime (is_present_add beq c k i t u s).0 ≡ lifetime c
    unfolding is_present_add
    same_lifetime c k i t u s = ground arith

    refuse_unchanged :
        (c : MruCache Key) (k : Key) (i t u s : ℕ)
        → (is_present_add beq c k i t u s).1 ≡ true
        → (is_present_add beq c k i t u s).0 ≡ c
    unfolding is_present_add
    refuse_unchanged c k i t u s held = ground arith

    pass-Inv :
        (c : MruCache Key) (last : ℕ) (ps : List (Pass Key)) (k : Key) (i t u s : ℕ)
        → Inv life c last ps
        → last ≤ i
        → i ≤ t
        → t ≤ u
        → beq k k ≡ true
        → (is_present_add beq c k i t u s).1 ≡ false
        → Inv life
            (is_present_add beq c k i t u s).0
            u
            (record { key = k; asked = i; checked = t } ∷ ps)
    pass-Inv c last ps k i t u s v li it tu r passed = record {
      unique = (operations-Unique beq eq c k i t u s 0 (λ j. 0) v.unique).0;
      life_of = same_lifetime c k i t u s ∙ v.life_of;
      known = (
        inl (view_passed c k i t u s r it tu passed),
        All-map (λ q. Known life last c q) (λ q. Known life u (is_present_add beq c k i t u s).0 q)
            ps (λ q. Known-pass c last q k i t u s v.life_of li it tu r passed) v.known,
      );
      spaced = (
        All-map (λ q. Known life last c q) (λ q. beq q.key k ≡ true → q.asked + life ≤ t) ps
            (λ q. Known-spaced c last q k i t u s v.life_of (omega arith) passed) v.known,
        v.spaced,
      );
    }

    tidy-Inv :
        (c : MruCache Key) (last : ℕ) (ps : List (Pass Key)) (now : ℕ → ℕ) (end : ℕ)
        → Inv life c last ps
        → last ≤ end
        → ((j : ℕ) → now j ≤ end)
        → Inv life (clean c now end).0 end ps
    unfolding clean
    tidy-Inv c last ps now end v le bound = record {
      unique = clean-Unique beq eq (lifetime c) now 0 c.entries v.unique;
      life_of = v.life_of;
      known =
          All-map (λ q. Known life last c q) (λ q. Known life end (clean c now end).0 q) ps
            (λ q. Known-tidy c last end q now v.life_of v.unique le bound) v.known;
      spaced = v.spaced;
    }

    wait-Inv :
        (c : MruCache Key) (last later : ℕ) (ps : List (Pass Key))
        → Inv life c last ps
        → last ≤ later
        → Inv life c later ps
    wait-Inv c last later ps v le = record {
      unique = v.unique;
      life_of = v.life_of;
      known =
          All-map (λ q. Known life last c q) (λ q. Known life later c q) ps
            (λ q. Known-later c last later q le) v.known;
      spaced = v.spaced;
    }

    History-Inv :
        {c : MruCache Key} {last : ℕ} {ps : List (Pass Key)}
        → History life c last ps
        → Inv life c last ps
    History-Inv (begin c last none_yet e) = record {
      unique = rw none_yet tt;
      life_of = e;
      known = tt;
      spaced = tt;
    }
    History-Inv (pass {c = c} {last = last} {ps = ps} k i t u s h li it tu r passed) =
        pass-Inv c last ps k i t u s (History-Inv h) li it tu r passed
    History-Inv (refuse {c = c} {last = last} {ps = ps} k i t u s h held) =
        subst (λ d. Inv life d last ps) (sym (refuse_unchanged c k i t u s held)) (History-Inv h)
    History-Inv (tidy {c = c} {last = last} {ps = ps} now end h le bound) =
        tidy-Inv c last ps now end (History-Inv h) le bound
    History-Inv (wait {c = c} {last = last} {ps = ps} later h le) =
        wait-Inv c last later ps (History-Inv h) le

    -- In every history of a cache, with questions, refusals, cleanings and waiting in any order, a key that
    -- passes is tested at least a lifetime after any earlier pass of an equal key was asked for.
    pub History-Spaced :
        {c : MruCache Key} {last : ℕ} {ps : List (Pass Key)}
        → History life c last ps
        → Spaced life ps
    History-Spaced h = (History-Inv h).spaced
