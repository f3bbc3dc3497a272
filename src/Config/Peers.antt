-- ===== src/Config/Peers.antt =====
-- From the `GetServerList` of one configuration to the `AddServersFromMessage` of another.
use nrp_reference.Base.{
  ℕ, zero, suc, ◌*◌, ◌<◌, ◌≡◌, refl, ap, ◌∙◌, inl, inr, Bool, true, false, List, [], ◌∷◌, ◌++◌,
  append-nil, some, ok, arith, length, length-append, length-take, take, drop, replicate, All, min,
  Bool-cases,
}
use nrp_reference.Base.Int.{pos}
use nrp_reference.Protocol.MsgType
use nrp_reference.Protocol.Layout.{Bytes}
use nrp_reference.ServerRecord.{ServerRecord, host_size, same_flag}
use nrp_reference.Config.State.{Config}
use nrp_reference.Config.Servers.{active_server_count, peer_bytes, copy_servers, get_server_list}
use nrp_reference.Config.Update.{add_peers}
use nrp_reference.Config.References.{peer_length}
use nrp_reference.Config.Counts.{peers_type, family, all_peer_bytes, copy_servers-family}
use nrp_reference.Config.Valid.{HasAddress, IsValid}
use nrp_reference.Config.Heard.{
  IsPeer, length-peer_bytes, hear, newcomers, hear-newcomers, add_peers-all_peer_bytes,
}

length-all_peer_bytes :
    (v6 : Bool) (ss : List ServerRecord)
    → All (IsPeer v6) ss
    → length (all_peer_bytes ss) ≡ length ss * peer_length v6
length-all_peer_bytes v6 [] all = omega arith
length-all_peer_bytes v6 (s ∷ ss) (p, all) = ground (
  arith,
  length-append (peer_bytes s) (all_peer_bytes ss),
  length-peer_bytes v6 s p,
  length-all_peer_bytes v6 ss all,
)

drop-replicate : (n : ℕ) → drop {A = ℕ} n (replicate n 0) ≡ []
drop-replicate zero = refl
drop-replicate (suc n) = drop-replicate n

All-take :
    (P : ServerRecord → Type 0) (n : ℕ) (ss : List ServerRecord) → All P ss → All P (take n ss)
All-take P zero ss all = tt
All-take P (suc n) [] all = tt
All-take P (suc n) (s ∷ ss) (p, all) = (p, All-take P n ss all)

family-IsPeer :
    (v6 : Bool) (ss : List ServerRecord)
    → All HasAddress ss
    → All (λ s. s.port < 65_536) ss
    → All (IsPeer v6) (family v6 ss)
family-IsPeer v6 [] addresses ports = tt
family-IsPeer v6 (s ∷ ss) (a, addresses) (p, ports) = elim (Bool-cases (same_flag s.ipv6 v6)) [
  | inl found ↦
      let e : s.ipv6 ≡ v6 = ground arith in
      rw found ((e, a ∙ ap host_size e, p), family-IsPeer v6 ss addresses ports)
  | inr other ↦ rw other (family-IsPeer v6 ss addresses ports)
]

-- The first `k` servers of a family.
abbrev pub first_peers : Bool → ℕ → Config → List ServerRecord
first_peers v6 k c = take (min (length (family v6 c.active_servers)) k) (family v6 c.active_servers)

length-first_peers :
    (v6 : Bool) (k : ℕ) (c : Config)
    → length (first_peers v6 k c) ≡ min (length (family v6 c.active_servers)) k
length-first_peers v6 k c =
    omega (
      arith,
      length-take (min (length (family v6 c.active_servers)) k) (family v6 c.active_servers),
    )

active_server_count-active :
    (c : Config) (t : ℕ) → (active_server_count c t).0.active_servers ≡ c.active_servers
unfolding active_server_count
active_server_count-active c t = ground arith

get_server_list-copies :
    (v6 : Bool) (k n : ℕ) (c : Config)
    → 0 < k
    → 0 < n
    → (active_server_count c (peers_type v6)).1 ≡ pos n
    → (get_server_list c (peers_type v6) (pos k)).1
      ≡ some (
          copy_servers v6 (min n k) 0 c.active_servers
          ++ drop
              (length (copy_servers v6 (min n k) 0 c.active_servers))
              (replicate (min n k * peer_length v6) 0))
unfolding get_server_list
get_server_list-copies true k n c some_wanted some_there count =
    ground (arith, active_server_count-active c MsgType.ip6peers)
get_server_list-copies false k n c some_wanted some_there count =
    ground (arith, active_server_count-active c MsgType.ip4peers)

-- The list of peers that a server sends out of a well-formed configuration, with ports of 16 bits and a count of
-- the family that is right, is read back by a client, whatever stands behind it: the client puts on probation
-- exactly the servers in the list that it has neither banned nor among its active ones, in the order of the list,
-- each with its address and its port.
pub get_server_list-add_peers :
    (v6 : Bool) (k : ℕ) (server client : Config) (rest : Bytes) (now : ℕ → ℕ)
    → IsValid server
    → All (λ s. s.port < 65_536) server.active_servers
    → 0 < k
    → 0 < length (family v6 server.active_servers)
    → (active_server_count server (peers_type v6)).1
      ≡ pos (length (family v6 server.active_servers))
    → let peers = first_peers v6 k server in
      (bytes : Bytes) × (client' : Config) × ((get_server_list server (peers_type v6) (pos k)).1
        ≡ some bytes)
      × (add_peers (length peers) v6 (bytes ++ rest) now client ≡ ok client')
      × (client'.probationary_servers ≡ client.probationary_servers ++ newcomers client now peers)
get_server_list-add_peers v6 k server client rest now v ports some_wanted some_there count =
    let n = length (family v6 server.active_servers) in
    let peers = first_peers v6 k server in
    let are_peers : All (IsPeer v6) peers =
      All-take (IsPeer v6) (min n k) (family v6 server.active_servers)
        (family-IsPeer v6 server.active_servers v.active ports) in
    let copied : copy_servers v6 (min n k) 0 server.active_servers ≡ all_peer_bytes peers =
      copy_servers-family v6 (min n k) 0 server.active_servers (omega arith)
      ∙ ap (λ (m : ℕ). all_peer_bytes (take m (family v6 server.active_servers))) (omega arith) in
    let size : length (all_peer_bytes peers) ≡ min n k * peer_length v6 =
      length-all_peer_bytes v6 peers are_peers
      ∙ ap (λ (m : ℕ). m * peer_length v6) (length-first_peers v6 k server) in
    (
      all_peer_bytes peers,
      hear client now peers,
      get_server_list-copies v6 k n server some_wanted some_there count
          ∙ ap some (
              rw (copied, size, drop-replicate (min n k * peer_length v6))
                (append-nil (all_peer_bytes peers))),
      add_peers-all_peer_bytes v6 peers rest now client are_peers,
      hear-newcomers client now peers,
    )
