-- ===== src/Config/Counts.antt =====
-- The counts of active servers, and the list of peers that is copied out of the set.
use nrp_reference.Base.{
  ℕ, zero, suc, ◌+◌, ◌-◌, ◌<◌, ◌≡◌, refl, sym, subst, ◌∙◌, Option, inl, inr, Bool, true, false,
  List, [], ◌∷◌, ◌++◌, some, arith, length, take, if◌then◌else◌, leb, Bool-cases, append-nil,
}
use nrp_reference.Base.Int.{ℤ, pos, negsuc, ◌+ℤ◌}
use nrp_reference.Protocol.Layout.{Bytes}
use nrp_reference.Protocol.MsgType
use nrp_reference.ServerRecord.{ServerRecord, same_flag}
use nrp_reference.Config.State.{Config}
use nrp_reference.Config.Lists.{emplace_index, insert_at, index_after_insert}
use nrp_reference.Config.Servers.{count_family, active_server_count, peer_bytes, copy_servers}
use nrp_reference.Config.Update.{emplace_active, increment_count}

-- The servers of one family, in the order of the set.
abbrev pub family : Bool → List ServerRecord → List ServerRecord
family ipv6 [] = []
family ipv6 (s ∷ ss) = let rest = family ipv6 ss in if same_flag s.ipv6 ipv6 then s ∷ rest else rest

abbrev pub all_peer_bytes : List ServerRecord → Bytes
all_peer_bytes [] = []
all_peer_bytes (s ∷ ss) = peer_bytes s ++ all_peer_bytes ss

-- `ActiveServerCount` counts the servers of the family.
pub count_family-family :
    (ipv6 : Bool) (ss : List ServerRecord) → count_family ipv6 ss ≡ length (family ipv6 ss)
unfolding count_family
count_family-family ipv6 [] = refl
count_family-family ipv6 (s ∷ ss) = ground (arith, count_family-family ipv6 ss)

-- The loop of `GetServerList` copies the addresses of the first servers of the family, in the order of
-- the set, until it has as many as it needs.
pub copy_servers-family :
    (ipv6 : Bool) (actual itr : ℕ) (ss : List ServerRecord)
    → itr < actual
    → copy_servers ipv6 actual itr ss ≡ all_peer_bytes (take (actual - itr) (family ipv6 ss))
unfolding copy_servers
copy_servers-family ipv6 actual itr [] h =
    let e : actual - itr ≡ suc (actual - (itr + 1)) = omega arith in rw e refl
copy_servers-family ipv6 actual itr (s ∷ ss) h =
    let e : actual - itr ≡ suc (actual - (itr + 1)) = omega arith in
    elim (Bool-cases (same_flag s.ipv6 ipv6)) [
      | inl found ↦ elim (Bool-cases (leb actual (itr + 1))) [
        | inl last ↦
            let z : actual - (itr + 1) ≡ 0 = ground arith in
            rw (found, last, e, z, append-nil (peer_bytes s)) refl
        | inr more ↦
            rw (found, more, e, copy_servers-family ipv6 actual (itr + 1) ss (ground arith)) refl
      ]
      | inr other ↦
          let more : leb actual itr ≡ false = ground arith in
          rw (other, more) (copy_servers-family ipv6 actual itr ss h)
    ]

-- The type of message that asks for a family.
abbrev pub peers_type : Bool → ℕ
peers_type true = MsgType.ip6peers
peers_type false = MsgType.ip4peers

abbrev pub count_of : Bool → Config → ℤ
count_of true c = c.count_ip6_servers
count_of false c = c.count_ip4_servers

more_servers :
    (j : ℕ) (s : ServerRecord) (ss : List ServerRecord)
    → 0 < length (family s.ipv6 (insert_at j s ss))
unfolding insert_at
more_servers zero s ss = ground arith
more_servers (suc j) s [] = ground arith
more_servers (suc j) s (t ∷ ss) = ground (arith, more_servers j s ss)

-- Counted up from -1, whatever the set is.
incremented-uncounted :
    (v6 : Bool) (c : Config)
    → count_of v6 c ≡ negsuc 0
    → active_server_count (increment_count v6 c) (peers_type v6) ≡ (increment_count v6 c, pos 0)
unfolding increment_count active_server_count ◌+ℤ◌
incremented-uncounted true c unknown = rw unknown refl
incremented-uncounted false c unknown = rw unknown refl

pub count_of-inserted :
    (v6 : Bool) (c : Config) (ss : List ServerRecord) (at : Option ℕ)
    → count_of v6 (record c { active_servers = ss; active_iterator = at }) ≡ count_of v6 c
count_of-inserted true c ss at = refl
count_of-inserted false c ss at = refl

pub increment_count-active :
    (v6 : Bool) (c : Config) → (increment_count v6 c).active_servers ≡ c.active_servers
unfolding increment_count
increment_count-active true c = refl
increment_count-active false c = refl

-- `emplace` where it finds a place.
pub emplace_active-inserted :
    (serv : ServerRecord) (c : Config) (j : ℕ)
    → emplace_index serv c.active_servers ≡ some j
    → emplace_active serv c
      ≡ increment_count serv.ipv6 (record c {
        active_servers = insert_at j serv c.active_servers;
        active_iterator = index_after_insert j c.active_iterator;
      })
unfolding emplace_active
emplace_active-inserted serv c j found = rw (emplace_active, found) refl

-- While the count of a family is not known, inserting a server of it makes the count zero:
-- `ActiveServerCount` then reports none of the family although the set holds one, and changes nothing, so that
-- it reports the same when it is called again.
pub emplace_active-uncounted :
    (serv : ServerRecord) (c : Config) (j : ℕ)
    → count_of serv.ipv6 c ≡ negsuc 0
    → emplace_index serv c.active_servers ≡ some j
    → let d = emplace_active serv c in
      (active_server_count d (peers_type serv.ipv6) ≡ (d, pos 0))
      × (0 < length (family serv.ipv6 d.active_servers))
emplace_active-uncounted serv c j unknown found =
    let d : Config = record c {
      active_servers = insert_at j serv c.active_servers;
      active_iterator = index_after_insert j c.active_iterator;
    } in
    let there : 0 < length (family serv.ipv6 (increment_count serv.ipv6 d).active_servers) =
      subst (λ ss. 0 < length (family serv.ipv6 ss)) (sym (increment_count-active serv.ipv6 d))
        (more_servers j serv c.active_servers) in
    subst
      (λ (e : Config).
        (active_server_count e (peers_type serv.ipv6) ≡ (e, pos 0))
        × (0 < length (family serv.ipv6 e.active_servers)))
      (sym (emplace_active-inserted serv c j found))
      (
        incremented-uncounted serv.ipv6 d
            (count_of-inserted serv.ipv6 c d.active_servers d.active_iterator ∙ unknown),
        there,
      )
