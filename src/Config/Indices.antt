-- ===== src/Config/Indices.antt =====
-- Where an iterator stands after its list grows or shrinks.
use nrp_reference.Base.{
  ℕ, zero, suc, ◌<◌, ◌≡◌, refl, ap, inl, inr, false, List, [], ◌∷◌, ◌++◌, Option, none, some, arith,
  length, length-append, All, Bool-cases, Option-cases,
}
use nrp_reference.ServerRecord.{ServerRecord, server_lt, server_eq}
use nrp_reference.Config.Lists.{
  erase_at, remove, index_after_remove, find_index, insert_at, index_after_insert,
  index_after_erase,
}
use nrp_reference.Config.Update.{is_at}
use nrp_reference.Config.Valid.{IsIn}

length-insert_at :
    (i : ℕ) (s : ServerRecord) (ss : List ServerRecord)
    → length (insert_at i s ss) ≡ suc (length ss)
unfolding insert_at
length-insert_at zero s ss = refl
length-insert_at (suc i) s [] = refl
length-insert_at (suc i) s (t ∷ ss) = ap suc (length-insert_at i s ss)

pub IsIn-insert_at :
    (o : Option ℕ) (j : ℕ) (s : ServerRecord) (ss : List ServerRecord)
    → IsIn o ss
    → IsIn (index_after_insert j o) (insert_at j s ss)
IsIn-insert_at none j s ss h = tt
IsIn-insert_at (some i) j s ss h = ground (arith, length-insert_at j s ss)

length-erase_at :
    (i : ℕ) (ss : List ServerRecord) → i < length ss → suc (length (erase_at i ss)) ≡ length ss
unfolding erase_at
length-erase_at i [] h = absurd (omega arith)
length-erase_at zero (s ∷ ss) h = refl
length-erase_at (suc i) (s ∷ ss) h = ap suc (length-erase_at i ss (omega arith))

-- The iterator itself goes to the place before the one that is erased.
pub IsIn-erase_at :
    (i j : ℕ) (ss : List ServerRecord) → suc j ≡ i → i < length ss → IsIn (some j) (erase_at i ss)
IsIn-erase_at i j ss e h = omega (arith, length-erase_at i ss h)

find_index-bound :
    (s : ServerRecord) (ss : List ServerRecord) (j : ℕ) → find_index s ss ≡ some j → j < length ss
unfolding find_index
find_index-bound s [] j h = ground arith
find_index-bound s (x ∷ xs) j h = elim (Bool-cases (server_lt x s)) [
  | inl below ↦ elim (Option-cases (find_index s xs)) [
    | inl missing ↦ ground arith
    | inr (i, found) ↦ ground (arith, find_index-bound s xs i found)
  ]
  | inr not_below ↦ ground arith
]

-- An iterator on another element than the one that is erased.
pub IsIn-erase_other :
    (o : Option ℕ) (s : ServerRecord) (j : ℕ) (ss : List ServerRecord)
    → find_index s ss ≡ some j
    → is_at j o ≡ false
    → IsIn o ss
    → IsIn (index_after_erase j o) (erase_at j ss)
IsIn-erase_other none s j ss found other h = tt
IsIn-erase_other (some i) s j ss found other h =
    ground
      (arith, length-erase_at j ss (find_index-bound s ss j found), find_index-bound s ss j found)

pub IsIn-remove :
    (s : ServerRecord) (i j : ℕ) (ss : List ServerRecord)
    → index_after_remove s i ss ≡ some j
    → i < length ss
    → IsIn (some j) (remove s ss)
unfolding index_after_remove remove
IsIn-remove s i j [] e h = absurd (omega arith)
IsIn-remove s zero j (x ∷ xs) e h = ground arith
IsIn-remove s (suc i) j (x ∷ xs) e h = elim (Option-cases (index_after_remove s i xs)) [
  | inl missing ↦ ground arith
  | inr (k, kept) ↦ ground (arith, IsIn-remove s i k xs kept (omega arith))
]

pub All-remove :
    (P : ServerRecord → Type 0) (s : ServerRecord) (ss : List ServerRecord)
    → All P ss
    → All P (remove s ss)
unfolding remove
All-remove P s [] all = tt
All-remove P s (x ∷ xs) (p, all) = elim (Bool-cases (server_eq x s)) [
  | inl same ↦ rw same (All-remove P s xs all)
  | inr other ↦ rw other (p, All-remove P s xs all)
]

pub IsIn-append : (o : Option ℕ) (ss ts : List ServerRecord) → IsIn o ss → IsIn o (ss ++ ts)
IsIn-append none ss ts h = tt
IsIn-append (some i) ss ts h = omega (arith, length-append ss ts)
