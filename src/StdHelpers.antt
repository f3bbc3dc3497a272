-- ===== src/StdHelpers.antt =====
-- stdhelpers.h: equality, hash and address family of `sockaddr_storage`, the key of the server's cache
-- of recent clients. The C++ library's hash of an `unsigned int` is a parameter.
pub mod Laws
mod Tests
use Prim.Native.Nat.{bit_xor}
use nrp_reference.Base.{
  ℕ, zero, suc, ◌+◌, ◌*◌, ◌%◌, ◌^◌, Bool, true, false, List, [], ◌∷◌, not, get_or, take, drop,
  replicate, ◌==◌, if◌then◌else◌,
}
use nrp_reference.Base.Memory.{same_bytes}

abbrev pub af_inet : ℕ
af_inet = 2

abbrev pub af_inet6 : ℕ
af_inet6 = 10

-- `sa` is what follows `ss_family`: port and address of `sockaddr_in`, or port, flow information and
-- address of `sockaddr_in6`.
pub record SockaddrStorage : Type 0 where
  pub ss_family : ℕ
  pub sa : List ℕ

abbrev pub sin_addr : SockaddrStorage → List ℕ
sin_addr s = take 4 (drop 2 s.sa)

abbrev pub sin6_addr : SockaddrStorage → List ℕ
sin6_addr s = take 16 (drop 6 s.sa)

-- `operator==`. (A reference is never null, so its first test is left out.)
unfoldable pub sockaddr_eq : SockaddrStorage → SockaddrStorage → Bool
sockaddr_eq lhs rhs =
    if not (lhs.ss_family == rhs.ss_family)
    then false
    else if lhs.ss_family == af_inet
    then same_bytes 4 (sin_addr lhs) (sin_addr rhs)
    else if lhs.ss_family == af_inet6
    then same_bytes 16 (sin6_addr lhs) (sin6_addr rhs)
    else false

unfoldable pub sockaddr_ne : SockaddrStorage → SockaddrStorage → Bool
sockaddr_ne lhs rhs = not (sockaddr_eq lhs rhs)

-- A 32-bit word of the address, as a little-endian machine reads it.
abbrev pub word_at : List ℕ → ℕ → ℕ
word_at bytes i =
    get_or bytes i 0
    + get_or bytes (i + 1) 0 * 2 ^ 8
    + get_or bytes (i + 2) 0 * 2 ^ 16
    + get_or bytes (i + 3) 0 * 2 ^ 24

-- `x << i` on `size_t`.
abbrev pub shift_left : ℕ → ℕ → ℕ
shift_left x i = x * 2 ^ i % 2 ^ 64

module _ (hash_uint : ℕ → ℕ) where
  -- The loop over the words of an IPv6 address, `n` words from word `i` on.
  unfoldable pub hash_words : ℕ → ℕ → ℕ → List ℕ → ℕ
  hash_words zero i result bytes = result
  hash_words (suc n) i result bytes =
      hash_words n (suc i) (bit_xor result (shift_left (hash_uint (word_at bytes (4 * i))) i)) bytes

  -- `std::hash<sockaddr_storage>`.
  unfoldable pub sockaddr_hash : SockaddrStorage → ℕ
  sockaddr_hash s =
      if s.ss_family == af_inet
      then hash_uint (word_at (sin_addr s) 0)
      else if s.ss_family == af_inet6
      then hash_words 4 0 0 (sin6_addr s)
      else 0

-- `IsAddressIp4`.
unfoldable pub is_address_ip4 : SockaddrStorage → Bool
is_address_ip4 ss =
    if ss.ss_family == af_inet
    then true
    else if ss.ss_family == af_inet6
    then same_bytes 12 (sin6_addr ss) (replicate 12 0)
    else false
