-- ===== src/Config/Sorted.antt =====
-- The set of active servers stays in its order, and holds no two equivalent servers.
use nrp_reference.Base.{
  ℕ, zero, suc, ◌≡◌, ◌⊎◌, sym, subst, inl, inr, true, List, [], ◌∷◌, none, some, arith, All,
  Bool-cases, Option-cases,
}
use nrp_reference.ServerRecord.{ServerRecord, server_lt}
use nrp_reference.ServerRecord.Order.{server_lt_trans}
use nrp_reference.Config.State.{Config}
use nrp_reference.Config.Lists.{emplace_index, insert_at, erase_at}
use nrp_reference.Config.Update.{emplace_active, increment_count}

-- In strictly ascending order.
abbrev pub IsSorted : List ServerRecord → Type 0
IsSorted [] = Unit
IsSorted (s ∷ ss) = All (λ t. server_lt s t ≡ true) ss × IsSorted ss

pub All-insert_at :
    (P : ServerRecord → Type 0) (i : ℕ) (s : ServerRecord) (ss : List ServerRecord)
    → P s
    → All P ss
    → All P (insert_at i s ss)
unfolding insert_at
All-insert_at P zero s ss p all = (p, all)
All-insert_at P (suc i) s [] p all = (p, tt)
All-insert_at P (suc i) s (t ∷ ss) p (q, all) = (q, All-insert_at P i s ss p all)

All-below :
    (s t : ServerRecord) (ss : List ServerRecord)
    → server_lt s t ≡ true
    → All (λ u. server_lt t u ≡ true) ss
    → All (λ u. server_lt s u ≡ true) ss
All-below s t [] h all = tt
All-below s t (u ∷ ss) h (k, all) = (server_lt_trans s t u h k, All-below s t ss h all)

-- Where `emplace` finds its place, if it inserts.
abbrev Place : ServerRecord → ServerRecord → List ServerRecord → ℕ → Type 0
Place s t ss i =
    ((server_lt t s ≡ true) × ((j : ℕ) × (emplace_index s ss ≡ some j) × (i ≡ suc j)))
    ⊎ ((server_lt s t ≡ true) × (i ≡ 0))

Place-of :
    (s t : ServerRecord) (ss : List ServerRecord) (i : ℕ)
    → emplace_index s (t ∷ ss) ≡ some i
    → Place s t ss i
unfolding emplace_index
Place-of s t ss i e = elim (Bool-cases (server_lt t s)) [
  | inl h ↦ elim (Option-cases (emplace_index s ss)) [
    | inl missing ↦ ground arith
    | inr (j, found) ↦ inl (h, (j, found, ground arith))
  ]
  | inr h ↦ elim (Bool-cases (server_lt s t)) [
    | inl k ↦ inr (k, ground arith)
    | inr k ↦ ground arith
  ]
]

pub insert_at-IsSorted :
    (s : ServerRecord) (ss : List ServerRecord) (i : ℕ)
    → IsSorted ss
    → emplace_index s ss ≡ some i
    → IsSorted (insert_at i s ss)
unfolding insert_at
insert_at-IsSorted s [] zero sorted e = (tt, tt)
insert_at-IsSorted s [] (suc i) sorted e = (tt, tt)
insert_at-IsSorted s (t ∷ ss) zero (below, sorted) e = elim (Place-of s t ss 0 e) [
  | inl (h, (j, found, k)) ↦ absurd (omega (arith, k))
  | inr (h, k) ↦ ((h, All-below s t ss h below), (below, sorted))
]
insert_at-IsSorted s (t ∷ ss) (suc i) (below, sorted) e = elim (Place-of s t ss (suc i) e) [
  | inl (h, (j, found, k)) ↦
      let same : j ≡ i = omega (arith, k) in
      (
        All-insert_at (λ u. server_lt t u ≡ true) i s ss h below,
        insert_at-IsSorted s ss i sorted (rw (sym same) found),
      )
  | inr (h, k) ↦ absurd (omega (arith, k))
]

emplaced :
    (serv : ServerRecord) (c : Config) (j : ℕ)
    → emplace_index serv c.active_servers ≡ some j
    → (emplace_active serv c).active_servers ≡ insert_at j serv c.active_servers
unfolding emplace_active increment_count
emplaced serv c j found = elim (Bool-cases serv.ipv6) [
  | inl h ↦ ground arith
  | inr h ↦ ground arith
]

not_emplaced :
    (serv : ServerRecord) (c : Config)
    → emplace_index serv c.active_servers ≡ none
    → (emplace_active serv c).active_servers ≡ c.active_servers
unfolding emplace_active
not_emplaced serv c missing = ground arith

-- Inserting a server into the set of active servers keeps it in strictly ascending order.
emplace_active-IsSorted :
    (serv : ServerRecord) (c : Config)
    → IsSorted c.active_servers
    → IsSorted (emplace_active serv c).active_servers
emplace_active-IsSorted serv c sorted = elim (Option-cases (emplace_index serv c.active_servers)) [
  | inl missing ↦ subst IsSorted (sym (not_emplaced serv c missing)) sorted
  | inr (j, found) ↦
      subst IsSorted (sym (emplaced serv c j found))
        (insert_at-IsSorted serv c.active_servers j sorted found)
]

pub All-erase_at :
    (P : ServerRecord → Type 0) (i : ℕ) (ss : List ServerRecord) → All P ss → All P (erase_at i ss)
unfolding erase_at
All-erase_at P i [] all = tt
All-erase_at P zero (s ∷ ss) (p, all) = all
All-erase_at P (suc i) (s ∷ ss) (p, all) = (p, All-erase_at P i ss all)

-- So does erasing one.
pub erase_at-IsSorted : (i : ℕ) (ss : List ServerRecord) → IsSorted ss → IsSorted (erase_at i ss)
unfolding erase_at
erase_at-IsSorted i [] sorted = tt
erase_at-IsSorted zero (s ∷ ss) (below, sorted) = sorted
erase_at-IsSorted (suc i) (s ∷ ss) (below, sorted) =
    (All-erase_at (λ t. server_lt s t ≡ true) i ss below, erase_at-IsSorted i ss sorted)
