-- ===== src/Config/Valid.antt =====
-- Well-formed configurations, and the operations on one list that keep them so.
use nrp_reference.Base.{
  ℕ, zero, suc, ◌<◌, ◌≡◌, refl, sym, ap, ◌∙◌, subst, true, List, [], ◌∷◌, Option, none, some, ok,
  arith, length, set, All,
}
use nrp_reference.ServerRecord.{ServerRecord, host_size, server_lt}
use nrp_reference.Config.State.{Config}
use nrp_reference.Config.Lists.{deref}
use nrp_reference.Config.Sorted.{IsSorted}

-- The address has the size of its family.
abbrev pub HasAddress : ServerRecord → Type 0
HasAddress s = length s.host ≡ host_size s.ipv6

-- The iterator is at the end or on an element.
abbrev pub IsIn : Option ℕ → List ServerRecord → Type 0
IsIn none ss = Unit
IsIn (some i) ss = i < length ss

-- The set of active servers is in strictly ascending order, both iterators are on an element or at the end,
-- and every address has the size of its family.
pub record IsValid (c : Config) : Type 0 where
  pub sorted : IsSorted c.active_servers
  pub active_in : IsIn c.active_iterator c.active_servers
  pub probationary_in : IsIn c.probationary_iterator c.probationary_servers
  pub active : All HasAddress c.active_servers
  pub probationary : All HasAddress c.probationary_servers
  pub configured : All HasAddress c.configured_servers

length-set : (ss : List ServerRecord) (i : ℕ) (s : ServerRecord) → length (set ss i s) ≡ length ss
length-set [] i s = refl
length-set (t ∷ ss) zero s = refl
length-set (t ∷ ss) (suc i) s = omega (arith, length-set ss i s)

pub IsIn-set :
    (o : Option ℕ) (ss : List ServerRecord) (i : ℕ) (s : ServerRecord)
    → IsIn o ss
    → IsIn o (set ss i s)
IsIn-set none ss i s h = tt
IsIn-set (some j) ss i s h = omega (arith, length-set ss i s)

All-set :
    (P : ServerRecord → Type 0) (ss : List ServerRecord) (i : ℕ) (s : ServerRecord)
    → P s
    → All P ss
    → All P (set ss i s)
All-set P [] i s p all = tt
All-set P (t ∷ ss) zero s p (q, all) = (p, all)
All-set P (t ∷ ss) (suc i) s p (q, all) = (q, All-set P ss i s p all)

pub All-deref :
    (P : ServerRecord → Type 0) (ss : List ServerRecord) (i : ℕ) (s : ServerRecord)
    → deref ss (some i) ≡ ok s
    → All P ss
    → P s
unfolding deref
All-deref P [] i s h all = ground arith
All-deref P (t ∷ ss) zero s h (p, all) = let same : t ≡ s = ground arith in subst P same p
All-deref P (t ∷ ss) (suc i) s h (p, all) = All-deref P ss i s h all

-- A record with the same address stands where the old one stood.
server_lt_right :
    (x s t : ServerRecord) → t.host ≡ s.host → t.ipv6 ≡ s.ipv6 → server_lt x t ≡ server_lt x s
unfolding server_lt
server_lt_right x s t h v = ground arith

server_lt_left :
    (x s t : ServerRecord) → t.host ≡ s.host → t.ipv6 ≡ s.ipv6 → server_lt t x ≡ server_lt s x
unfolding server_lt
server_lt_left x s t h v = ground arith

All-above-set :
    (x : ServerRecord) (ss : List ServerRecord) (i : ℕ) (s t : ServerRecord)
    → deref ss (some i) ≡ ok s
    → t.host ≡ s.host
    → t.ipv6 ≡ s.ipv6
    → All (λ u. server_lt x u ≡ true) ss
    → All (λ u. server_lt x u ≡ true) (set ss i t)
All-above-set x ss i s t found h v all =
    All-set (λ u. server_lt x u ≡ true) ss i t
      (server_lt_right x s t h v ∙ All-deref (λ u. server_lt x u ≡ true) ss i s found all) all

All-above-left :
    (s t : ServerRecord) (ss : List ServerRecord)
    → t.host ≡ s.host
    → t.ipv6 ≡ s.ipv6
    → All (λ u. server_lt s u ≡ true) ss
    → All (λ u. server_lt t u ≡ true) ss
All-above-left s t [] h v all = tt
All-above-left s t (u ∷ ss) h v (p, all) =
    (server_lt_left u s t h v ∙ p, All-above-left s t ss h v all)

pub set-IsSorted :
    (ss : List ServerRecord) (i : ℕ) (s t : ServerRecord)
    → deref ss (some i) ≡ ok s
    → t.host ≡ s.host
    → t.ipv6 ≡ s.ipv6
    → IsSorted ss
    → IsSorted (set ss i t)
unfolding deref
set-IsSorted [] i s t found h v sorted = tt
set-IsSorted (u ∷ ss) zero s t found h v (below, sorted) =
    let same : u ≡ s = ground arith in
    (
      All-above-left u t ss (h ∙ ap ServerRecord.host (sym same))
          (v ∙ ap ServerRecord.ipv6 (sym same)) below,
      sorted,
    )
set-IsSorted (u ∷ ss) (suc i) s t found h v (below, sorted) =
    (All-above-set u ss i s t found h v below, set-IsSorted ss i s t found h v sorted)

pub HasAddress-same :
    (s t : ServerRecord) → t.host ≡ s.host → t.ipv6 ≡ s.ipv6 → HasAddress s → HasAddress t
HasAddress-same s t h v p = ap length h ∙ (p ∙ ap host_size (sym v))

pub All-HasAddress-set :
    (ss : List ServerRecord) (i : ℕ) (s t : ServerRecord)
    → deref ss (some i) ≡ ok s
    → t.host ≡ s.host
    → t.ipv6 ≡ s.ipv6
    → All HasAddress ss
    → All HasAddress (set ss i t)
All-HasAddress-set ss i s t found h v all =
    All-set HasAddress ss i t (HasAddress-same s t h v (All-deref HasAddress ss i s found all)) all
