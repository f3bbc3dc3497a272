-- ===== src/Config/Promoted.antt =====
-- Where a server goes that `MarkServerSuccessful` takes from probation.
use nrp_reference.Base.{
  ℕ, zero, suc, ◌≡◌, ◌⊎◌, refl, sym, ap, ◌∙◌, subst, inl, inr, Bool, true, false, not, List, [],
  ◌∷◌, ◌++◌, Option, none, some, Outcome, ok, undefined, arith, All, Bool-cases, Option-cases,
}
use nrp_reference.Base.Int.{pos, ◌+ℤ◌}
use nrp_reference.ServerRecord.{ServerRecord, server_lt}
use nrp_reference.ServerRecord.Order.{equivalent, server_lt_trans}
use nrp_reference.Config.State.{Config}
use nrp_reference.Config.Lists.{deref, erase_at, emplace_index, insert_at, index_after_insert}
use nrp_reference.Config.Servers.{in_probationary}
use nrp_reference.Config.Update.{load, emplace_active, increment_count, mark_server_successful}
use nrp_reference.Config.Sorted.{IsSorted, insert_at-IsSorted}
use nrp_reference.Config.Counts.{
  count_of, count_of-inserted, increment_count-active, emplace_active-inserted,
}
use nrp_reference.Config.Promotion.{successful, promoted, mark_server_successful-emplace_active}

-- A server of the same family and address is in the list.
abbrev pub IsKnown : ServerRecord → List ServerRecord → Type 0
IsKnown serv ss =
    (i : ℕ) × (t : ServerRecord) × (deref ss (some i) ≡ ok t) × (equivalent t serv ≡ true)

abbrev pub IsNew : ServerRecord → List ServerRecord → Type 0
IsNew serv = All (λ t. equivalent t serv ≡ false)

-- The second list is the first with the server put in somewhere.
abbrev pub Inserted : ServerRecord → List ServerRecord → List ServerRecord → Type 0
Inserted serv ss ss' =
    (front : List ServerRecord) × (back : List ServerRecord) × (ss ≡ front ++ back)
    × (ss' ≡ front ++ serv ∷ back)

IsKnown-of_emplace_index :
    (s : ServerRecord) (ss : List ServerRecord) → emplace_index s ss ≡ none → IsKnown s ss
unfolding emplace_index deref
IsKnown-of_emplace_index s [] e = ground arith
IsKnown-of_emplace_index s (t ∷ ss) e = elim (Bool-cases (server_lt t s)) [
  | inl below ↦
      let (i, u, found, same) = IsKnown-of_emplace_index s ss (ground arith) in
      (suc i, u, found, same)
  | inr not_below ↦ (0, t, refl, ground arith)
]

equivalent-below : (s t : ServerRecord) → server_lt t s ≡ true → equivalent t s ≡ false
equivalent-below s t h = ground arith

equivalent-above : (s t : ServerRecord) → server_lt s t ≡ true → equivalent t s ≡ false
equivalent-above s t h = ground arith

IsNew-above :
    (s t : ServerRecord) (ss : List ServerRecord)
    → server_lt s t ≡ true
    → All (λ u. server_lt t u ≡ true) ss
    → IsNew s ss
IsNew-above s t [] h all = tt
IsNew-above s t (u ∷ ss) h (k, all) =
    (equivalent-above s u (server_lt_trans s t u h k), IsNew-above s t ss h all)

IsNew-of_emplace_index :
    (s : ServerRecord) (ss : List ServerRecord) (j : ℕ)
    → IsSorted ss
    → emplace_index s ss ≡ some j
    → IsNew s ss
unfolding emplace_index
IsNew-of_emplace_index s [] j sorted e = tt
IsNew-of_emplace_index s (t ∷ ss) j (above, sorted) e = elim (Bool-cases (server_lt t s)) [
  | inl below ↦ elim (Option-cases (emplace_index s ss)) [
    | inl missing ↦ ground arith
    | inr (i, found) ↦ (equivalent-below s t below, IsNew-of_emplace_index s ss i sorted found)
  ]
  | inr not_below ↦ elim (Bool-cases (server_lt s t)) [
    | inl over ↦ (equivalent-above s t over, IsNew-above s t ss over above)
    | inr not_over ↦ ground arith
  ]
]

insert_at-Inserted :
    (j : ℕ) (s : ServerRecord) (ss : List ServerRecord) → Inserted s ss (insert_at j s ss)
unfolding insert_at
insert_at-Inserted zero s ss = ([], ss, refl, refl)
insert_at-Inserted (suc j) s [] = ([], [], refl, refl)
insert_at-Inserted (suc j) s (t ∷ ss) =
    let (front, back, before, after) = insert_at-Inserted j s ss in
    (t ∷ front, back, ap (λ us. t ∷ us) before, ap (λ us. t ∷ us) after)

increment_count-count_of :
    (v6 : Bool) (c : Config)
    → (count_of v6 (increment_count v6 c) ≡ count_of v6 c +ℤ pos 1)
      × (count_of (not v6) (increment_count v6 c) ≡ count_of (not v6) c)
unfolding increment_count
increment_count-count_of true c = (refl, refl)
increment_count-count_of false c = (refl, refl)

-- Among the active servers after it: as before, with its counts, if a server of its family and address is
-- there; and else one more, with the set in its order and one more in the count of its family.
abbrev pub Joins : ServerRecord → Config → Config → Type 0
Joins serv c c' =
    (IsKnown serv c.active_servers
      × (c'.active_servers ≡ c.active_servers)
      × (count_of serv.ipv6 c' ≡ count_of serv.ipv6 c)
      × (count_of (not serv.ipv6) c' ≡ count_of (not serv.ipv6) c))
    ⊎ (IsNew serv c.active_servers
        × Inserted serv c.active_servers c'.active_servers
        × IsSorted c'.active_servers
        × (count_of serv.ipv6 c' ≡ count_of serv.ipv6 c +ℤ pos 1)
        × (count_of (not serv.ipv6) c' ≡ count_of (not serv.ipv6) c))

emplace_active-known :
    (serv : ServerRecord) (c : Config)
    → emplace_index serv c.active_servers ≡ none
    → emplace_active serv c ≡ c
unfolding emplace_active
emplace_active-known serv c missing = rw (emplace_active, missing) refl

emplace_active-Joins :
    (serv : ServerRecord) (c : Config)
    → IsSorted c.active_servers
    → Joins serv c (emplace_active serv c)
emplace_active-Joins serv c sorted = elim (Option-cases (emplace_index serv c.active_servers)) [
  | inl missing ↦
      subst (Joins serv c) (sym (emplace_active-known serv c missing))
        (inl (IsKnown-of_emplace_index serv c.active_servers missing, refl, refl, refl))
  | inr (j, found) ↦
      let d : Config = record c {
        active_servers = insert_at j serv c.active_servers;
        active_iterator = index_after_insert j c.active_iterator;
      } in
      let kept = λ (v6 : Bool). count_of-inserted v6 c d.active_servers d.active_iterator in
      let (one_more, others) = increment_count-count_of serv.ipv6 d in
      let active = increment_count-active serv.ipv6 d in
      subst (Joins serv c) (sym (emplace_active-inserted serv c j found)) (
        inr (
          IsNew-of_emplace_index serv c.active_servers j sorted found,
          subst (Inserted serv c.active_servers) (sym active)
              (insert_at-Inserted j serv c.active_servers),
          subst IsSorted (sym active) (insert_at-IsSorted serv c.active_servers j sorted found),
          one_more ∙ ap (λ n. n +ℤ pos 1) (kept serv.ipv6),
          others ∙ kept (not serv.ipv6),
        ))
]

-- The server leaves its place on probation. There is no place before the first.
abbrev pub Leaves : Config → ServerRecord → ℕ → Outcome Config → Type 0
Leaves c serv zero made = made ≡ undefined
Leaves c serv (suc j) made =
    (c' : Config) × (made ≡ ok c')
    × Joins serv c c'
    × (c'.probationary_servers ≡ erase_at (suc j) c.probationary_servers)
    × (c'.probationary_iterator ≡ some j)

-- The list of servers on probation plays no part in it.
count_of-probationary :
    (v6 : Bool) (d : Config) (ps : List ServerRecord) (at : Option ℕ)
    → count_of v6 (record d { probationary_servers = ps; probationary_iterator = at })
      ≡ count_of v6 d
count_of-probationary true d ps at = refl
count_of-probationary false d ps at = refl

still_Joins :
    (serv : ServerRecord) (c d : Config) (ps : List ServerRecord) (at : Option ℕ)
    → Joins serv c d
    → Joins serv c (record d { probationary_servers = ps; probationary_iterator = at })
still_Joins serv c d ps at (inl (known, active, count, other)) = inl (
  known,
  active,
  count_of-probationary serv.ipv6 d ps at ∙ count,
  count_of-probationary (not serv.ipv6) d ps at ∙ other,
)
still_Joins serv c d ps at (inr (new, inserted, sorted, count, other)) = inr (
  new,
  inserted,
  sorted,
  count_of-probationary serv.ipv6 d ps at ∙ count,
  count_of-probationary (not serv.ipv6) d ps at ∙ other,
)

promoted-Leaves :
    (c : Config) (serv : ServerRecord) (i : ℕ) (made : Outcome Config)
    → IsSorted c.active_servers
    → made ≡ promoted c serv i
    → Leaves c serv i made
promoted-Leaves c serv zero made sorted same = same
promoted-Leaves c serv (suc j) made sorted same = (
  _,
  same,
  still_Joins serv c (emplace_active serv c) _ _ (emplace_active-Joins serv c sorted),
  refl,
  refl,
)

-- A server on probation answers, while the iterator is on it as `GetNextServer` left it and the set of active
-- servers is in strictly ascending order. Its record, with no failures, is put into the set, which stays in its order
-- and has one more in the count of the server's family, unless a server of the same family and address is there: then
-- the set and the counts stay as they were. It is erased from the list, whose iterator goes back by one place; if it
-- is the first of the list, there is no such place and the behaviour is undefined.
pub mark_server_successful-promoted :
    (c : Config) (i : ℕ) (old : ServerRecord) (now : ℕ)
    → IsSorted c.active_servers
    → load c (in_probationary i) ≡ ok old
    → c.probationary_iterator ≡ some i
    → old.probationary ≡ true
    → Leaves c (successful old now) i (mark_server_successful c (in_probationary i) now)
mark_server_successful-promoted c i old now sorted found at trial =
    promoted-Leaves c (successful old now) i (mark_server_successful c (in_probationary i) now)
      sorted (mark_server_successful-emplace_active c i old now found at trial)
