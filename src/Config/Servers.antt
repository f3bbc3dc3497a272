-- ===== src/Config/Servers.antt =====
-- config.cpp: what the server thread reads (`ActiveServerCount`, `GetServerList`), and the choice of
-- the next server by the client thread (`GetNextServer`).
use nrp_reference.Base.{
  ℕ, ◌+◌, ◌*◌, Bool, true, false, ◌||◌, not, List, [], ◌∷◌, ◌++◌, Option, none, some, Outcome, ok,
  undefined, ◌>>=◌, ltb, leb, ◌==◌, if◌then◌else◌, length, take, drop, replicate, min,
}
use nrp_reference.Base.Int.{ℤ, pos, negsuc, pos_part}
use nrp_reference.Protocol.Layout.{Bytes, htons, ip4_peer_size, ip6_peer_size}
use nrp_reference.Protocol.MsgType
use nrp_reference.Protocol.Generate.{is_not_peers}
use nrp_reference.ServerRecord.{ServerRecord, host_size, same_flag}
use nrp_reference.Config.State.{Config}
use nrp_reference.Config.Lists.{begin, next}

-- The loop of `ActiveServerCount`.
unfoldable pub count_family : Bool → List ServerRecord → ℕ
count_family ipv6 [] = 0
count_family ipv6 (rec ∷ rest) = count_family ipv6 rest + (if same_flag rec.ipv6 ipv6 then 1 else 0)

-- `n > -1` and `n > 0`.
abbrev pub is_known : ℤ → Bool
is_known (pos n) = true
is_known (negsuc n) = false

abbrev pub is_positive : ℤ → Bool
is_positive (pos n) = ltb 0 n
is_positive (negsuc n) = false

unfoldable pub active_server_count : Config → ℕ → Config × ℤ
active_server_count c msg_type =
    if is_not_peers msg_type
    then (c, pos 0)
    else if msg_type == MsgType.ip6peers
    then (if is_known c.count_ip6_servers then (c, c.count_ip6_servers) else (
      record c { count_ip6_servers = pos (count_family true c.active_servers) },
      pos (count_family true c.active_servers),
    ))
    else if is_known c.count_ip4_servers
    then (c, c.count_ip4_servers)
    else (
      record c { count_ip4_servers = pos (count_family false c.active_servers) },
      pos (count_family false c.active_servers),
    )

abbrev pub peer_bytes : ServerRecord → Bytes
peer_bytes rec = take (host_size rec.ipv6) rec.host ++ htons rec.port

-- The loop of `GetServerList`: what it copies, with `itr` servers copied before.
unfoldable pub copy_servers : Bool → ℕ → ℕ → List ServerRecord → Bytes
copy_servers ipv6 actual itr [] = []
copy_servers ipv6 actual itr (rec ∷ rest) =
    let found = same_flag rec.ipv6 ipv6 in
    let itr' = if found then itr + 1 else itr in
    let here = if found then peer_bytes rec else [] in
    let others = copy_servers ipv6 actual itr' rest in
    if leb actual itr' then here else here ++ others

-- A new array of `size` zeros, filled from its start.
abbrev pub filled : ℕ → Bytes → Bytes
filled size bytes = bytes ++ drop (length bytes) (replicate size 0)

-- `GetServerList`: `none` for its null pointer; the size that it reports is the array's length.
unfoldable pub get_server_list : Config → ℕ → ℤ → Config × Option Bytes
get_server_list c msg_type count =
    if is_not_peers msg_type || not (is_positive count)
    then (c, none)
    else (let ipv6 = msg_type == MsgType.ip6peers in
        let (c', total) = active_server_count c msg_type in
        let actual = min (pos_part total) (pos_part count) in
        let size = actual * (if ipv6 then ip6_peer_size else ip4_peer_size) in
        if not (is_positive total)
        then (c', none)
        else (c', some (filled size (copy_servers ipv6 actual 0 c'.active_servers))))

-- What `GetNextServer` returns a reference to.
pub data ServerRef : Type 0 where
  in_active : ℕ → ServerRef
  in_probationary : ℕ → ServerRef
  in_configured : ServerRef

-- `(Re-)Initialize or increment iterator`.
unfoldable pub step_iterator : List ServerRecord → Option ℕ → Option ℕ
step_iterator ss none = begin ss
step_iterator ss (some i) = elim (next ss i) [ none ↦ begin ss | some j ↦ some j ]

-- `m_configuredServers.front()`: there is no first element of an empty list.
unfoldable pub configured_front : List ServerRecord → Outcome ServerRef
configured_front [] = undefined
configured_front (s ∷ ss) = ok in_configured

-- The choice between the lists, once the iterators are moved.
unfoldable pub choose_server :
    Bool → Option ℕ → Option ℕ → List ServerRecord → Outcome (Bool × ServerRef)
choose_server true (some i) probationary configured = ok (false, in_active i)
choose_server true none (some j) configured = ok (true, in_probationary j)
choose_server true none none configured = do ref ← configured_front configured; ok (true, ref)
choose_server false active (some j) configured = ok (true, in_probationary j)
choose_server false (some i) none configured = ok (false, in_active i)
choose_server false none none configured = do ref ← configured_front configured; ok (false, ref)

unfoldable pub get_next_server : Config → Outcome (Config × ServerRef)
get_next_server c = do
  let active = step_iterator c.active_servers c.active_iterator
  let probationary = step_iterator c.probationary_servers c.probationary_iterator
  (prev, ref) ← choose_server c.prev_returned_probationary active probationary c.configured_servers
  ok (
    record c {
      active_iterator = active;
      probationary_iterator = probationary;
      prev_returned_probationary = prev;
    },
    ref,
  )
