-- ===== src/ServerRecord/Order.antt =====
-- `operator<` is a strict weak order, as `std::set` demands, and the hash agrees with `operator==`.
use Prim.Native.Nat.{Ordering}
use nrp_reference.Base.{◌∙◌, ◌≡◌, ◌↔◌, ◌⊎◌, Bool, true, false, arith, if◌then◌else◌}
use nrp_reference.Base.Memory.{memcmp, memcmp_refl, memcmp_flip, memcmp_trans}
use nrp_reference.ServerRecord.{ServerRecord, host_size, server_eq, server_lt}

-- Neither is below the other: the same family and the same address.
abbrev pub equivalent : ServerRecord → ServerRecord → Bool
equivalent a b = if server_lt a b then false else if server_lt b a then false else true

server_lt_irrefl : (a : ServerRecord) → server_lt a a ≡ false
unfolding server_lt
server_lt_irrefl a = ground (arith, memcmp_refl 4 a.host, memcmp_refl 16 a.host)

-- `operator<` is asymmetric: of two servers at most one is below the other.
server_lt_asymm : (a b : ServerRecord) → server_lt a b ≡ true → server_lt b a ≡ false
unfolding server_lt
server_lt_asymm a b h = ground (arith, memcmp_flip 4 a.host b.host, memcmp_flip 16 a.host b.host)

-- `operator<` is transitive.
pub server_lt_trans :
    (a b c : ServerRecord) → server_lt a b ≡ true → server_lt b c ≡ true → server_lt a c ≡ true
unfolding server_lt
server_lt_trans a b c h k =
    ground (arith, memcmp_trans 4 a.host b.host c.host, memcmp_trans 16 a.host b.host c.host)

-- Equivalent servers are those that agree on family and address.
equivalent_iff :
    (a b : ServerRecord)
    → (equivalent a b ≡ true)
      ↔ ((a.ipv6 ≡ b.ipv6) × (memcmp (host_size a.ipv6) a.host b.host ≡ Ordering.eq))
unfolding server_lt
equivalent_iff a b = (
  λ h. ground (arith, memcmp_flip 4 a.host b.host, memcmp_flip 16 a.host b.host),
  λ h. ground (arith, memcmp_flip 4 a.host b.host, memcmp_flip 16 a.host b.host),
)

-- That neither of two servers is below the other is transitive, as a strict weak order must have it.
pub equivalent_trans :
    (a b c : ServerRecord) → equivalent a b ≡ true → equivalent b c ≡ true → equivalent a c ≡ true
equivalent_trans a b c h k =
    let (f, e) = (equivalent_iff a b).0 h in
    let (g, d) = (equivalent_iff b c).0 k in
    (equivalent_iff a c).1
      (f ∙ g, ground (arith, memcmp_trans (host_size a.ipv6) a.host b.host c.host))

-- `operator==` holds exactly of two servers of which neither is below the other and whose ports agree.
pub server_eq_iff :
    (a b : ServerRecord) → (server_eq a b ≡ true) ↔ ((equivalent a b ≡ true) × (a.port ≡ b.port))
unfolding server_eq server_lt
server_eq_iff a b = (
  λ h. ground (arith, memcmp_flip 4 a.host b.host, memcmp_flip 16 a.host b.host),
  λ h. ground (arith, memcmp_flip 4 a.host b.host, memcmp_flip 16 a.host b.host),
)

-- `operator<` is a strict weak order, as `std::set` demands: of two servers at most one is below the other, and
-- if one is below the other, any third is above the first or below the second.
pub server_lt-strict_weak_order :
    (a b c : ServerRecord)
    → server_lt a b ≡ true
    → (server_lt b a ≡ false) × ((server_lt a c ≡ true) ⊎ (server_lt c b ≡ true))
server_lt-strict_weak_order a b c h = (
  server_lt_asymm a b h,
  ground (arith, server_lt_trans c a b, server_lt_trans a b c, equivalent_trans a c b),
)
