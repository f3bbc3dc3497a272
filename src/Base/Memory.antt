-- ===== src/Base/Memory.antt =====
-- `memcmp` of the C library, on arrays of bytes. Behind the end of a list stand zeros, so that its laws
-- need no lengths; the program compares whole arrays only.
use Prim.Native.Nat.{compare, Ordering}
use nrp_reference.Base.{
  ℕ, zero, suc, ◌<◌, ◌≡◌, refl, Bool, true, false, List, [], ◌∷◌, arith, get_or, drop,
}

unfoldable pub memcmp : ℕ → List ℕ → List ℕ → Ordering
memcmp zero xs ys = Ordering.eq
memcmp (suc n) xs ys =
    let rest = memcmp n (drop 1 xs) (drop 1 ys) in
    elim (compare (get_or xs 0 0) (get_or ys 0 0)) [
      | Ordering.lt ↦ Ordering.lt
      | Ordering.eq ↦ rest
      | Ordering.gt ↦ Ordering.gt
    ]

-- `memcmp(a, b, n) == 0` and `memcmp(a, b, n) < 0`.
abbrev pub same_bytes : ℕ → List ℕ → List ℕ → Bool
same_bytes n xs ys = elim (memcmp n xs ys) [ Ordering.eq ↦ true | _ ↦ false ]

abbrev pub bytes_below : ℕ → List ℕ → List ℕ → Bool
bytes_below n xs ys = elim (memcmp n xs ys) [ Ordering.lt ↦ true | _ ↦ false ]

pub memcmp_refl : (n : ℕ) (xs : List ℕ) → memcmp n xs xs ≡ Ordering.eq
unfolding memcmp
memcmp_refl zero xs = refl
memcmp_refl (suc n) xs = ground (arith, memcmp_refl n (drop 1 xs))

abbrev pub swap : Ordering → Ordering
swap Ordering.lt = Ordering.gt
swap Ordering.eq = Ordering.eq
swap Ordering.gt = Ordering.lt

pub memcmp_flip : (n : ℕ) (xs ys : List ℕ) → memcmp n ys xs ≡ swap (memcmp n xs ys)
unfolding memcmp
memcmp_flip zero xs ys = refl
memcmp_flip (suc n) xs ys = ground (arith, memcmp_flip n (drop 1 xs) (drop 1 ys))

-- The order of two neighbours decides that of the ends.
abbrev pub Composes : Ordering → Ordering → Ordering → Type 0
Composes Ordering.eq b c = c ≡ b
Composes a Ordering.eq c = c ≡ a
Composes Ordering.lt Ordering.lt c = c ≡ Ordering.lt
Composes Ordering.gt Ordering.gt c = c ≡ Ordering.gt
Composes _ _ c = Unit

pub memcmp_trans :
    (n : ℕ) (xs ys zs : List ℕ) → Composes (memcmp n xs ys) (memcmp n ys zs) (memcmp n xs zs)
unfolding memcmp
memcmp_trans zero xs ys zs = refl
memcmp_trans (suc n) xs ys zs = ground (arith, memcmp_trans n (drop 1 xs) (drop 1 ys) (drop 1 zs))

get_or-drop_one : (i : ℕ) (xs : List ℕ) → get_or (drop 1 xs) i 0 ≡ get_or xs (suc i) 0
get_or-drop_one i [] = refl
get_or-drop_one i (x ∷ xs) = refl

get_or-same :
    (n i : ℕ) (xs ys : List ℕ)
    → memcmp n xs ys ≡ Ordering.eq
    → i < n
    → get_or xs i 0 ≡ get_or ys i 0
unfolding memcmp
get_or-same zero i xs ys h l = absurd (omega arith)
get_or-same (suc n) zero xs ys h l = ground arith
get_or-same (suc n) (suc i) xs ys h l =
    ground
      (arith, get_or-same n i (drop 1 xs) (drop 1 ys), get_or-drop_one i xs, get_or-drop_one i ys)

-- Arrays that compare equal hold the same bytes.
pub get_or-same_bytes :
    (n i : ℕ) (xs ys : List ℕ) → same_bytes n xs ys ≡ true → i < n → get_or xs i 0 ≡ get_or ys i 0
get_or-same_bytes n i xs ys h l = get_or-same n i xs ys (ground arith) l
