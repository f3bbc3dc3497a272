-- ===== src/StdHelpers/Laws.antt =====
-- Equality and hash of socket addresses, as the hash map needs them, and the address family.
use nrp_reference.Base.{
  ℕ, zero, suc, ◌+◌, ◌*◌, ◌≤◌, ◌<◌, ◌≡◌, ◌⊎◌, ◌↔◌, refl, true, false, List, arith, get_or,
  replicate,
}
use nrp_reference.Base.Memory.{
  same_bytes, memcmp_refl, memcmp_flip, memcmp_trans, get_or-same_bytes,
}
use nrp_reference.MruCache.Laws.{IsPartialEquivalence}
use nrp_reference.StdHelpers.{
  SockaddrStorage, af_inet, af_inet6, sin_addr, sin6_addr, sockaddr_eq, hash_words, sockaddr_hash,
  is_address_ip4, word_at,
}

-- `operator==` holds of an address and itself exactly if it is of one of the two address families.
sockaddr_eq_self_iff :
    (s : SockaddrStorage)
    → (sockaddr_eq s s ≡ true) ↔ ((s.ss_family ≡ af_inet) ⊎ (s.ss_family ≡ af_inet6))
unfolding sockaddr_eq
sockaddr_eq_self_iff s = (
  λ h. ground arith,
  λ h. ground (arith, memcmp_refl 4 (sin_addr s), memcmp_refl 16 (sin6_addr s)),
)

pub sockaddr_eq-IsPartialEquivalence : IsPartialEquivalence sockaddr_eq
unfolding sockaddr_eq
sockaddr_eq-IsPartialEquivalence = record {
  symmetric = λ a b h.
      ground (
        arith,
        memcmp_flip 4 (sin_addr a) (sin_addr b),
        memcmp_flip 16 (sin6_addr a) (sin6_addr b),
      );
  transitive = λ a b c h k. ground (
    arith,
    memcmp_trans 4 (sin_addr a) (sin_addr b) (sin_addr c),
    memcmp_trans 16 (sin6_addr a) (sin6_addr b) (sin6_addr c),
  );
}

module _ (hash_uint : ℕ → ℕ) where
  word_at-same :
      (n i : ℕ) (xs ys : List ℕ)
      → same_bytes n xs ys ≡ true
      → i + 3 < n
      → word_at xs i ≡ word_at ys i
  word_at-same n i xs ys h l = ground (
    arith,
    get_or-same_bytes n i xs ys h,
    get_or-same_bytes n (i + 1) xs ys h,
    get_or-same_bytes n (i + 2) xs ys h,
    get_or-same_bytes n (i + 3) xs ys h,
  )

  hash_words-same :
      (n i result : ℕ) (xs ys : List ℕ)
      → same_bytes 16 xs ys ≡ true
      → i + n ≤ 4
      → hash_words hash_uint n i result xs ≡ hash_words hash_uint n i result ys
  unfolding hash_words
  hash_words-same zero i result xs ys h l = refl
  hash_words-same (suc n) i result xs ys h l =
      rw (word_at-same 16 (4 * i) xs ys h (omega arith))
        (hash_words-same n (suc i) _ xs ys h (omega arith))

  -- Equal addresses have equal hashes, whatever the C++ library's hash of a word is.
  pub sockaddr_hash-sockaddr_eq :
      (a b : SockaddrStorage)
      → sockaddr_eq a b ≡ true
      → sockaddr_hash hash_uint a ≡ sockaddr_hash hash_uint b
  unfolding sockaddr_eq sockaddr_hash
  sockaddr_hash-sockaddr_eq a b h = ground (
    arith,
    word_at-same 4 0 (sin_addr a) (sin_addr b),
    hash_words-same 4 0 0 (sin6_addr a) (sin6_addr b),
  )

-- An IPv6 address whose eleventh byte is 255, as in ::ffff:a.b.c.d, the form in which a dual-stack socket
-- reports an IPv4 client, is not taken for IPv4.
is_address_ip4_mapped :
    (ss : SockaddrStorage)
    → ss.ss_family ≡ af_inet6
    → get_or (sin6_addr ss) 10 0 ≡ 255
    → is_address_ip4 ss ≡ false
unfolding is_address_ip4
is_address_ip4_mapped ss f h =
    ground (arith, get_or-same_bytes 12 10 (sin6_addr ss) (replicate 12 0))
