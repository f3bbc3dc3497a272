-- ===== src/Config/Choice.antt =====
-- `GetNextServer`: when there is a server to return, that the reference is to one, and the alternation
-- between the lists.
use nrp_reference.Base.{
  ℕ, zero, suc, ◌+◌, ◌<◌, ◌≡◌, refl, inl, inr, Bool, true, false, List, [], ◌∷◌, Option, none, some,
  Outcome, ok, undefined, out_of_fuel, ◌>>=◌, arith, length, ltb, Bool-cases,
}
use nrp_reference.ServerRecord.{ServerRecord}
use nrp_reference.Config.State.{Config}
use nrp_reference.Config.Lists.{deref}
use nrp_reference.Config.Servers.{
  ServerRef, in_active, in_probationary, in_configured, step_iterator, configured_front,
  choose_server, get_next_server,
}
use nrp_reference.Config.Update.{load}

-- An iterator that was moved points at an element of the list, unless the list is empty.
abbrev pub IsMoved : List ServerRecord → Option ℕ → Type 0
IsMoved ss none = ss ≡ []
IsMoved ss (some i) = i < length ss

pub step_iterator-IsMoved :
    (ss : List ServerRecord) (o : Option ℕ) → IsMoved ss (step_iterator ss o)
unfolding step_iterator
step_iterator-IsMoved [] none = refl
step_iterator-IsMoved (s ∷ ss) none = omega arith
step_iterator-IsMoved [] (some i) = ground arith
step_iterator-IsMoved (s ∷ ss) (some i) = ground arith

pub deref_at :
    (ss : List ServerRecord) (i : ℕ)
    → i < length ss
    → (s : ServerRecord) × (deref ss (some i) ≡ ok s)
unfolding deref
deref_at [] i h = absurd (omega arith)
deref_at (s ∷ ss) zero h = (s, refl)
deref_at (s ∷ ss) (suc i) h = deref_at ss i (omega arith)

-- What a choice must be: one of the elements of the three lists, or undefined if all are empty.
abbrev Chosen :
    List ServerRecord → List ServerRecord → List ServerRecord → Outcome (Bool × ServerRef) → Type 0
Chosen active probationary configured (ok (p, in_active i)) = i < length active
Chosen active probationary configured (ok (p, in_probationary i)) = i < length probationary
Chosen active probationary configured (ok (p, in_configured)) = 0 < length configured
Chosen active probationary configured undefined =
    (active ≡ []) × (probationary ≡ []) × (configured ≡ [])
Chosen active probationary configured out_of_fuel = ⊥

choose_server-Chosen :
    (prev : Bool) (active probationary configured : List ServerRecord) (a p : Option ℕ)
    → IsMoved active a
    → IsMoved probationary p
    → Chosen active probationary configured (choose_server prev a p configured)
unfolding choose_server configured_front
choose_server-Chosen true active probationary configured (some i) p ha hp = ha
choose_server-Chosen true active probationary configured none (some j) ha hp = hp
choose_server-Chosen true active probationary [] none none ha hp = (ha, hp, refl)
choose_server-Chosen true active probationary (s ∷ ss) none none ha hp = omega arith
choose_server-Chosen false active probationary configured a (some j) ha hp = hp
choose_server-Chosen false active probationary configured (some i) none ha hp = ha
choose_server-Chosen false active probationary [] none none ha hp = (ha, hp, refl)
choose_server-Chosen false active probationary (s ∷ ss) none none ha hp = omega arith

-- What `GetNextServer` must return.
abbrev pub NextServer : Config → Outcome (Config × ServerRef) → Type 0
NextServer c (ok (c', ref)) =
    ((s : ServerRecord) × (load c' ref ≡ ok s))
    × (c'.active_servers ≡ c.active_servers)
    × (c'.probationary_servers ≡ c.probationary_servers)
    × (c'.configured_servers ≡ c.configured_servers)
NextServer c undefined =
    (c.active_servers ≡ []) × (c.probationary_servers ≡ []) × (c.configured_servers ≡ [])
NextServer c out_of_fuel = ⊥

NextServer-of_Chosen :
    (c : Config) (a p : Option ℕ) (m : Outcome (Bool × ServerRef))
    → Chosen c.active_servers c.probationary_servers c.configured_servers m
    → NextServer c (
        m >>= λ r. ok (
          record c {
            active_iterator = a;
            probationary_iterator = p;
            prev_returned_probationary = r.0;
          },
          r.1,
        ))
unfolding load
NextServer-of_Chosen c a p (ok (prev, in_active i)) h =
    (deref_at c.active_servers i h, refl, refl, refl)
NextServer-of_Chosen c a p (ok (prev, in_probationary i)) h =
    (deref_at c.probationary_servers i h, refl, refl, refl)
NextServer-of_Chosen c a p (ok (prev, in_configured)) h =
    (deref_at c.configured_servers 0 h, refl, refl, refl)
NextServer-of_Chosen c a p undefined h = h
NextServer-of_Chosen c a p out_of_fuel h = absurd h

-- Wherever the iterators stand, `GetNextServer` returns a reference to an element of one of the three
-- lists and leaves the lists as they were; it reads outside a list only if all three lists are empty.
pub get_next_server-NextServer : (c : Config) → NextServer c (get_next_server c)
unfolding get_next_server
get_next_server-NextServer c =
    let a = step_iterator c.active_servers c.active_iterator in
    let p = step_iterator c.probationary_servers c.probationary_iterator in
    NextServer-of_Chosen c a p (choose_server c.prev_returned_probationary a p c.configured_servers)
      (choose_server-Chosen c.prev_returned_probationary c.active_servers c.probationary_servers
        c.configured_servers a p (step_iterator-IsMoved c.active_servers c.active_iterator)
        (step_iterator-IsMoved c.probationary_servers c.probationary_iterator))

abbrev pub IsFromActive : ServerRef → Type 0
IsFromActive (in_active i) = Unit
IsFromActive _ = ⊥

abbrev pub IsFromProbationary : ServerRef → Type 0
IsFromProbationary (in_probationary i) = Unit
IsFromProbationary _ = ⊥

-- Which list the next call must take from, and what it leaves for the call after it.
abbrev Alternates : Bool → Outcome (Config × ServerRef) → Type 0
Alternates true (ok (c', ref)) = IsFromActive ref × (c'.prev_returned_probationary ≡ false)
Alternates false (ok (c', ref)) = IsFromProbationary ref × (c'.prev_returned_probationary ≡ true)
Alternates prev _ = ⊥

moved_some :
    (s : ServerRecord) (ss : List ServerRecord) (o : Option ℕ)
    → (i : ℕ) × (step_iterator (s ∷ ss) o ≡ some i)
unfolding step_iterator
moved_some s ss none = (0, refl)
moved_some s ss (some i) = elim (Bool-cases (ltb (i + 1) (length (s ∷ ss)))) [
  | inl h ↦ (i + 1, ground arith)
  | inr h ↦ (0, ground arith)
]

-- While neither the active nor the probationary list is empty, calls take from them in turn.
get_next_server-Alternates :
    (c : Config) (a p : ServerRecord) (actives ps : List ServerRecord)
    → c.active_servers ≡ a ∷ actives
    → c.probationary_servers ≡ p ∷ ps
    → Alternates c.prev_returned_probationary (get_next_server c)
unfolding get_next_server choose_server
get_next_server-Alternates c a p actives ps ea ep =
    let (i, ei) = moved_some a actives c.active_iterator in
    let (j, ej) = moved_some p ps c.probationary_iterator in
    elim (Bool-cases c.prev_returned_probationary) [
      | inl h ↦ rw (ea, ep, ei, ej, h) (tt, refl)
      | inr h ↦ rw (ea, ep, ei, ej, h) (tt, refl)
    ]
