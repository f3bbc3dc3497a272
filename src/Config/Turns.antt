-- ===== src/Config/Turns.antt =====
-- `GetNextServer` called again and again while the lists stay as they are: which servers have their turn.
use nrp_reference.Base.{
  ℕ, zero, suc, ◌+◌, ◌-◌, ◌%◌, ◌<◌, ◌≡◌, refl, ap, ◌∙◌, ◌⊎◌, inl, inr, Bool, true, false, List, [],
  Option, none, some, Outcome, ok, ◌>>=◌, arith, length, ltb, leb, Bool-cases, if◌then◌else◌,
}
use nrp_reference.ServerRecord.{ServerRecord}
use nrp_reference.Config.State.{Config}
use nrp_reference.Config.Lists.{next}
use nrp_reference.Config.Servers.{
  ServerRef, in_active, in_probationary, step_iterator, choose_server, get_next_server,
}

-- What the call after `k` others returns.
abbrev pub nth_next : ℕ → Config → Outcome (Config × ServerRef)
nth_next zero c = get_next_server c
nth_next (suc k) c = do (c', ref) ← get_next_server c; nth_next k c'

-- The index after an index, and the one `k` steps on, in a list of `n` elements.
abbrev advance : ℕ → ℕ → ℕ
advance n j = if ltb (j + 1) n then j + 1 else 0

abbrev spot : ℕ → ℕ → ℕ → ℕ
spot n j zero = j
spot n j (suc k) = spot n (advance n j) k

spot_near : (n j d : ℕ) → j + d < n → spot n j d ≡ j + d
spot_near n j zero h = omega arith
spot_near n j (suc d) h = ground (arith, spot_near n (j + 1) d (omega arith))

advance_within : (n j : ℕ) → j + 1 < n → advance n j ≡ j + 1
advance_within n j h = ground arith

advance_last : (n j : ℕ) → j + 1 ≡ n → advance n j ≡ 0
advance_last n j h = ground arith

spot_wrap : (n j d k e : ℕ) → j + suc d ≡ n → k ≡ d + e → spot n j (suc k) ≡ spot n 0 e
spot_wrap n j zero k e h hk =
    let same : k ≡ e = omega arith in rw (advance_last n j (omega arith), same) refl
spot_wrap n j (suc d) zero e h hk = absurd (omega arith)
spot_wrap n j (suc d) (suc k) e h hk =
    rw (advance_within n j (omega arith)) (spot_wrap n (j + 1) d k e (omega arith) (omega arith))

-- The number of steps from one index to another.
distance : (n j i : ℕ) → j < n → i < n → (k : ℕ) × (k < n) × (spot n j k ≡ i)
distance n j i hj hi = elim (Bool-cases (leb j i)) [
  | inl ahead ↦ (i - j, ground arith, ground (arith, spot_near n j (i - j) (ground arith)))
  | inr behind ↦ (
    suc (n - suc j + i),
    ground arith,
    spot_wrap n j (n - suc j) (n - suc j + i) i (omega arith) refl
        ∙ (spot_near n 0 i (omega arith) ∙ omega arith),
  )
]

step_iterator-advance :
    (ss : List ServerRecord) (j : ℕ)
    → 0 < length ss
    → step_iterator ss (some j) ≡ some (advance (length ss) j)
unfolding step_iterator
step_iterator-advance ss j h = ground arith

-- Where the iterator of the active servers stands after the next call.
abbrev first_spot : Config → ℕ
first_spot c = elim c.active_iterator [ none ↦ 0 | some j ↦ advance (length c.active_servers) j ]

step_iterator-first_spot :
    (c : Config)
    → 0 < length c.active_servers
    → step_iterator c.active_servers c.active_iterator ≡ some (first_spot c)
unfolding step_iterator
step_iterator-first_spot c h = ground arith

step_iterator_nil : (o : Option ℕ) → step_iterator [] o ≡ none
unfolding step_iterator
step_iterator_nil o = ground arith

-- A call with no probationary server, and as many of them as one likes.
get_next_server-active :
    (c : Config) (j : ℕ)
    → c.probationary_servers ≡ []
    → step_iterator c.active_servers c.active_iterator ≡ some j
    → get_next_server c
      ≡ ok (
        record c {
          active_iterator = some j;
          probationary_iterator = none;
          prev_returned_probationary = false;
        },
        in_active j,
      )
unfolding get_next_server choose_server
get_next_server-active c j none_there at = elim (Bool-cases c.prev_returned_probationary) [
  | inl last ↦ ground (arith, step_iterator_nil c.probationary_iterator)
  | inr last ↦ ground (arith, step_iterator_nil c.probationary_iterator)
]

nth_next-spot :
    (k : ℕ) (c : Config) (j : ℕ)
    → c.probationary_servers ≡ []
    → 0 < length c.active_servers
    → step_iterator c.active_servers c.active_iterator ≡ some j
    → (c' : Config) × (nth_next k c ≡ ok (c', in_active (spot (length c.active_servers) j k)))
nth_next-spot zero c j none_there some_there at = (_, get_next_server-active c j none_there at)
nth_next-spot (suc k) c j none_there some_there at = rw (get_next_server-active c j none_there at) (
    nth_next-spot k
      (record c {
        active_iterator = some j;
        probationary_iterator = none;
        prev_returned_probationary = false;
      })
      (advance (length c.active_servers) j) none_there some_there
      (step_iterator-advance c.active_servers j some_there))

-- While no server is on probation, each of the `n` active servers is returned by one of the next `n` calls,
-- wherever the iterators stand.
pub nth_next-active :
    (c : Config) (i : ℕ)
    → c.probationary_servers ≡ []
    → i < length c.active_servers
    → (k : ℕ) × (k < length c.active_servers)
      × ((c' : Config) × (nth_next k c ≡ ok (c', in_active i)))
nth_next-active c i none_there h =
    let (k, near, there) = distance (length c.active_servers) (first_spot c) i (ground arith) h in
    let (c', at) =
      nth_next-spot k c (first_spot c) none_there (omega arith)
        (step_iterator-first_spot c (omega arith)) in
    (k, near, (c', at ∙ ap (λ j. ok (c', in_active j)) there))

-- The iterators before the first call, or after one: at an even index exactly when an active server was
-- returned last.
abbrev pub IsInStep : ℕ → Option ℕ → Bool → Type 0
IsInStep n none prev = prev ≡ true
IsInStep n (some j) prev =
    (j < n) × (((j % 2 ≡ 0) × (prev ≡ false)) ⊎ ((j % 2 ≡ 1) × (prev ≡ true)))

abbrev pub IsEven : ServerRef → Type 0
IsEven (in_active i) = i % 2 ≡ 0
IsEven _ = Unit

-- Where an iterator at an index, or none, stands after the next call.
abbrev index_after : ℕ → Option ℕ → ℕ
index_after n none = 0
index_after n (some i) = advance n i

index_after-IsInStep :
    (n : ℕ) (o : Option ℕ) (prev : Bool)
    → n % 2 ≡ 0
    → 0 < n
    → IsInStep n o prev
    → (index_after n o < n)
      × (((index_after n o % 2 ≡ 0) × (prev ≡ true)) ⊎ ((index_after n o % 2 ≡ 1) × (prev ≡ false)))
index_after-IsInStep n none prev even some_there h = ground arith
index_after-IsInStep n (some i) prev even some_there h = ground arith

step_iterator-index_after :
    (ss : List ServerRecord) (o : Option ℕ)
    → 0 < length ss
    → step_iterator ss o ≡ some (index_after (length ss) o)
unfolding step_iterator
step_iterator-index_after ss none h = ground arith
step_iterator-index_after ss (some i) h = ground arith

abbrev pub InTurn : Config → Type 0
InTurn c =
    (length c.active_servers % 2 ≡ 0)
    × (0 < length c.active_servers)
    × (0 < length c.probationary_servers)
    × IsInStep (length c.active_servers) c.active_iterator c.prev_returned_probationary

-- One call, whichever list it takes from.
call-InTurn :
    (c : Config)
    → InTurn c
    → (c' : Config) × (ref : ServerRef) × (get_next_server c ≡ ok (c', ref))
      × InTurn c'
      × IsEven ref
unfolding get_next_server choose_server
call-InTurn c (even, some_active, some_probationary, step) =
    let n = length c.active_servers in
    let j = index_after n c.active_iterator in
    let q = index_after (length c.probationary_servers) c.probationary_iterator in
    let (near, parity) =
      index_after-IsInStep n c.active_iterator c.prev_returned_probationary even some_active step in
    let active = step_iterator-index_after c.active_servers c.active_iterator some_active in
    let probationary =
      step_iterator-index_after c.probationary_servers c.probationary_iterator some_probationary in
    elim parity [
      | inl (even_index, prev) ↦ (
        record c {
          active_iterator = some j;
          probationary_iterator = some q;
          prev_returned_probationary = false;
        },
        in_active j,
        ground (arith, active, probationary, prev),
        (even, some_active, some_probationary, (near, inl (even_index, refl))),
        even_index,
      )
      | inr (odd_index, prev) ↦ (
        record c {
          active_iterator = some j;
          probationary_iterator = some q;
          prev_returned_probationary = true;
        },
        in_probationary q,
        ground (arith, active, probationary, prev),
        (even, some_active, some_probationary, (near, inr (odd_index, refl))),
        tt,
      )
    ]

-- While the number of active servers is even and a server is on probation, from the iterators of a new
-- configuration on, every call returns a server, but never an active one at an odd index: each call moves
-- both iterators, also that of the list that it does not take from.
pub nth_next-starved :
    (k : ℕ) (c : Config)
    → InTurn c
    → (c' : Config) × (ref : ServerRef) × (nth_next k c ≡ ok (c', ref)) × IsEven ref
nth_next-starved zero c h =
    let (c', ref, call, next, even) = call-InTurn c h in (c', ref, call, even)
nth_next-starved (suc k) c h =
    let (c', ref, call, next, even) = call-InTurn c h in rw call (nth_next-starved k c' next)
