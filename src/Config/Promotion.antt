-- ===== src/Config/Promotion.antt =====
-- `MarkServerSuccessful` on a server on probation that `GetNextServer` has just returned.
use nrp_reference.Base.{
  ℕ, zero, suc, ◌≡◌, refl, ap, ◌∙◌, Bool, true, false, List, [], ◌∷◌, Option, none, some, Outcome,
  ok, undefined, ◌>>=◌, arith, set, if◌then◌else◌,
}
use nrp_reference.Base.Memory.{memcmp_refl}
use nrp_reference.ServerRecord.{ServerRecord, server_eq}
use nrp_reference.Config.State.{Config}
use nrp_reference.Config.Lists.{deref, erase_at, prev, emplace_index, insert_at, index_after_insert}
use nrp_reference.Config.Servers.{in_probationary}
use nrp_reference.Config.Update.{
  load, store, emplace_active, increment_count, erase_probationary, remove_probationary,
  mark_server_successful,
}

pub server_eq_refl : (s : ServerRecord) → server_eq s s ≡ true
unfolding server_eq
server_eq_refl s = ground (arith, memcmp_refl 4 s.host, memcmp_refl 16 s.host)

pub deref-set :
    (ss : List ServerRecord) (i : ℕ) (old s : ServerRecord)
    → deref ss (some i) ≡ ok old
    → deref (set ss i s) (some i) ≡ ok s
unfolding deref
deref-set [] i old s h = ground arith
deref-set (t ∷ ss) zero old s h = refl
deref-set (t ∷ ss) (suc i) old s h = deref-set ss i old s h

pub erase_at-set :
    (ss : List ServerRecord) (i : ℕ) (s : ServerRecord) → erase_at i (set ss i s) ≡ erase_at i ss
unfolding erase_at
erase_at-set [] i s = refl
erase_at-set (t ∷ ss) zero s = refl
erase_at-set (t ∷ ss) (suc i) s = ap (λ rest. t ∷ rest) (erase_at-set ss i s)

-- The record of a server that answered for the first time.
abbrev pub successful : ServerRecord → ℕ → ServerRecord
successful old now = record old { failure_count = 0; last_access_time = now; probationary = false }

-- The server goes from its place on probation to the active servers. There is no place before the first.
abbrev pub promoted : Config → ServerRecord → ℕ → Outcome Config
promoted c serv zero = undefined
promoted c serv (suc i) = ok (record (emplace_active serv c) {
  probationary_servers = erase_at (suc i) c.probationary_servers;
  probationary_iterator = some i;
})

-- The counts and the insertion do not look at the list of servers on probation and leave its iterator.
OnProbation : (Config → Config) → Config → List ServerRecord → Type 0
OnProbation f c ps =
    (f (record c { probationary_servers = ps }) ≡ record (f c) { probationary_servers = ps })
    × ((f c).probationary_iterator ≡ c.probationary_iterator)

increment_count-OnProbation :
    (b : Bool) (c : Config) (ps : List ServerRecord) → OnProbation (increment_count b) c ps
unfolding increment_count OnProbation
increment_count-OnProbation true c ps = (refl, refl)
increment_count-OnProbation false c ps = (refl, refl)

placed-OnProbation :
    (serv : ServerRecord) (at : Option ℕ) (c : Config) (ps : List ServerRecord)
    → OnProbation
        (λ d. elim at [
          | none ↦ d
          | some j ↦ increment_count serv.ipv6 (record d {
            active_servers = insert_at j serv d.active_servers;
            active_iterator = index_after_insert j d.active_iterator;
          })
        ])
        c
        ps
unfolding OnProbation
placed-OnProbation serv none c ps = (refl, refl)
placed-OnProbation serv (some j) c ps =
    increment_count-OnProbation serv.ipv6
      (record c {
        active_servers = insert_at j serv c.active_servers;
        active_iterator = index_after_insert j c.active_iterator;
      })
      ps

emplace_active-OnProbation :
    (serv : ServerRecord) (c : Config) (ps : List ServerRecord)
    → OnProbation (emplace_active serv) c ps
unfolding emplace_active OnProbation
emplace_active-OnProbation serv c ps =
    placed-OnProbation serv (emplace_index serv c.active_servers) c ps

pub erase_probationary-at :
    (d : Config) (i : ℕ)
    → d.probationary_iterator ≡ some i
    → erase_probationary d ≡ (
        prev i >>= λ j. ok (record d {
          probationary_servers = erase_at i d.probationary_servers;
          probationary_iterator = some j;
        }))
unfolding erase_probationary
erase_probationary-at d i at = rw at refl

promoted_of :
    (c : Config) (serv : ServerRecord) (i : ℕ)
    → (prev i >>= λ j. ok (record (emplace_active serv c) {
      probationary_servers = erase_at i (set c.probationary_servers i serv);
      probationary_iterator = some j;
    }))
      ≡ promoted c serv i
unfolding prev
promoted_of c serv zero = refl
promoted_of c serv (suc i) =
    ap
      (λ ps. ok (record (emplace_active serv c) {
        probationary_servers = ps;
        probationary_iterator = some i;
      }))
      (erase_at-set c.probationary_servers (suc i) serv)

erase-promoted :
    (c moved : Config) (serv : ServerRecord) (i : ℕ)
    → c.probationary_iterator ≡ some i
    → moved
      ≡ record (emplace_active serv c) { probationary_servers = set c.probationary_servers i serv }
    → erase_probationary moved ≡ promoted c serv i
unfolding OnProbation
erase-promoted c moved serv i at same =
    let kept = (emplace_active-OnProbation serv c c.probationary_servers).1 in
    ap erase_probationary same
    ∙ (erase_probationary-at
          (record (emplace_active serv c) {
            probationary_servers = set c.probationary_servers i serv;
          })
          i (kept ∙ at)
        ∙ promoted_of c serv i)

-- The end of `MarkServerSuccessful`, where the iterator is on the server.
erase_at_iterator :
    (moved : Config) (serv : ServerRecord) (after : Outcome Config)
    → deref moved.probationary_servers moved.probationary_iterator ≡ ok serv
    → (deref moved.probationary_servers moved.probationary_iterator >>= λ at.
        if server_eq serv at then erase_probationary moved else after)
      ≡ erase_probationary moved
erase_at_iterator moved serv after value = rw (value, server_eq_refl serv) refl

-- A server on probation that answers, while the iterator is on it, is emplaced with no failures among the active
-- servers and erased from the list.
pub mark_server_successful-emplace_active :
    (c : Config) (i : ℕ) (old : ServerRecord) (now : ℕ)
    → load c (in_probationary i) ≡ ok old
    → c.probationary_iterator ≡ some i
    → old.probationary ≡ true
    → mark_server_successful c (in_probationary i) now ≡ promoted c (successful old now) i
unfolding mark_server_successful load store OnProbation
mark_server_successful-emplace_active c i old now found at trial =
    let serv = successful old now in
    let ps = set c.probationary_servers i serv in
    let moved = emplace_active serv (record c { probationary_servers = ps }) in
    let (same, kept) = emplace_active-OnProbation serv c ps in
    let value : deref moved.probationary_servers moved.probationary_iterator ≡ ok serv =
      ap (λ (d : Config). deref d.probationary_servers d.probationary_iterator) same
      ∙ (ap (λ o. deref ps o) (kept ∙ at) ∙ deref-set c.probationary_servers i old serv found) in
    rw found (
      simp trial (
        erase_at_iterator moved serv (remove_probationary serv moved) value
        ∙ erase-promoted c moved serv i at same))
