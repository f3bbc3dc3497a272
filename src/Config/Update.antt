-- ===== src/Config/Update.antt =====
-- config.cpp: how the client thread changes the lists (`IncrementServerFailCount`,
-- `MarkServerSuccessful`, `AddServersFromMessage`). Times are readings of the clock. A comparison with
-- what `m_probationaryIterator` or `m_activeIterator` points at is undefined at `end()`.
use nrp_reference.Base.{
  ℕ, zero, suc, ◌+◌, ◌*◌, Bool, true, false, [], ◌∷◌, ◌++◌, Option, none, some, Outcome, ok,
  undefined, ◌>>=◌, leb, ◌==◌, if◌then◌else◌, set, drop,
}
use nrp_reference.Base.Int.{pos, ◌+ℤ◌, ◌-ℤ◌}
use nrp_reference.MruCache
use nrp_reference.Protocol.Layout.{
  Bytes, read_header, ip4_peer_size, ip6_peer_size, client_max_server_timeout_count,
}
use nrp_reference.Protocol.MsgType
use nrp_reference.Protocol.Generate.{is_not_peers}
use nrp_reference.ServerRecord.{ServerRecord, server_eq, of_peer}
use nrp_reference.Config.State.{Config}
use nrp_reference.Config.Lists.{
  deref, prev, erase_at, remove, index_after_remove, find_index, emplace_index, insert_at,
  index_after_insert, index_after_erase,
}
use nrp_reference.Config.Servers.{ServerRef, in_active, in_probationary, in_configured}

-- Reads and writes through a reference.
unfoldable pub load : Config → ServerRef → Outcome ServerRecord
load c (in_active i) = deref c.active_servers (some i)
load c (in_probationary i) = deref c.probationary_servers (some i)
load c in_configured = deref c.configured_servers (some 0)

unfoldable pub store : Config → ServerRef → ServerRecord → Config
store c (in_active i) s = record c { active_servers = set c.active_servers i s }
store c (in_probationary i) s = record c { probationary_servers = set c.probationary_servers i s }
store c in_configured s = record c { configured_servers = set c.configured_servers 0 s }

-- `retryTime *= 1.25`: the factor is converted to the integer that `chrono::seconds` counts in.
abbrev pub back_off_factor : ℕ
back_off_factor = 1

abbrev pub back_off : ℕ → ℕ
back_off retry_time = retry_time * back_off_factor

-- `m_countIp6Servers -= 1` or `m_countIp4Servers -= 1`, and `+= 1`.
unfoldable pub decrement_count : Bool → Config → Config
decrement_count true c = record c { count_ip6_servers = c.count_ip6_servers -ℤ pos 1 }
decrement_count false c = record c { count_ip4_servers = c.count_ip4_servers -ℤ pos 1 }

unfoldable pub increment_count : Bool → Config → Config
increment_count true c = record c { count_ip6_servers = c.count_ip6_servers +ℤ pos 1 }
increment_count false c = record c { count_ip4_servers = c.count_ip4_servers +ℤ pos 1 }

-- `erase(m_probationaryIterator)`, and back to the element before it.
unfoldable pub erase_probationary : Config → Outcome Config
erase_probationary c = elim c.probationary_iterator [
  | none ↦ undefined
  | some i ↦ do
    j ← prev i
    ok (record c {
      probationary_servers = erase_at i c.probationary_servers;
      probationary_iterator = some j;
    })
]

-- `m_probationaryServers.remove(serv)`. That the iterator's own element goes is excluded where the
-- program calls it; otherwise the iterator would be left without an element.
unfoldable pub remove_probationary : ServerRecord → Config → Outcome Config
remove_probationary serv c = elim c.probationary_iterator [
  | none ↦ ok (record c { probationary_servers = remove serv c.probationary_servers })
  | some i ↦ elim (index_after_remove serv i c.probationary_servers) [
    | none ↦ undefined
    | some j ↦ ok (record c {
      probationary_servers = remove serv c.probationary_servers;
      probationary_iterator = some j;
    })
  ]
]

unfoldable pub erase_active : Config → Outcome Config
erase_active c = elim c.active_iterator [
  | none ↦ undefined
  | some i ↦ do
    j ← prev i
    ok (record c { active_servers = erase_at i c.active_servers; active_iterator = some j })
]

abbrev pub is_at : ℕ → Option ℕ → Bool
is_at j none = false
is_at j (some i) = i == j

-- `m_activeServers.erase(serv)`, by value. The iterator would be left without an element if it were
-- at the one that goes: a server of the same address on another port.
unfoldable pub remove_active : ServerRecord → Config → Outcome Config
remove_active serv c = elim (find_index serv c.active_servers) [
  | none ↦ ok c
  | some j ↦
      if is_at j c.active_iterator
      then undefined
      else ok (record c {
        active_servers = erase_at j c.active_servers;
        active_iterator = index_after_erase j c.active_iterator;
      })
]

-- The removal of a server that failed too often.
unfoldable pub drop_server : ServerRecord → Config → Outcome Config
drop_server serv c =
    if serv.probationary
    then (do
      at ← deref c.probationary_servers c.probationary_iterator
      if server_eq serv at
          then erase_probationary (decrement_count serv.ipv6 c)
          else remove_probationary serv c)
    else (do
      at ← deref c.active_servers c.active_iterator
      if server_eq serv at
          then erase_active (decrement_count serv.ipv6 c)
          else remove_active serv c)

-- `IncrementServerFailCount`, with its clock reading and that of `MruCache::Add`.
unfoldable pub increment_server_fail_count : Config → ServerRef → ℕ → ℕ → Outcome Config
increment_server_fail_count c ref now ban_time = do
  old ← load c ref
  let serv : ServerRecord = record old {
    failure_count = old.failure_count + 1;
    last_access_time = now;
    retry_time = back_off old.retry_time;
  }
  let failed = store c ref serv
  let banned = record failed {
    banned_servers = MruCache.add server_eq failed.banned_servers serv ban_time;
  }
  if leb client_max_server_timeout_count (serv.failure_count + 1)
      then drop_server serv banned
      else ok failed

-- `m_activeServers.emplace(serv)`, with the count if it was inserted.
unfoldable pub emplace_active : ServerRecord → Config → Config
emplace_active serv c = elim (emplace_index serv c.active_servers) [
  | none ↦ c
  | some j ↦ increment_count serv.ipv6 (record c {
    active_servers = insert_at j serv c.active_servers;
    active_iterator = index_after_insert j c.active_iterator;
  })
]

unfoldable pub mark_server_successful : Config → ServerRef → ℕ → Outcome Config
mark_server_successful c ref now = do
  old ← load c ref
  let reset : ServerRecord = record old { failure_count = 0; last_access_time = now }
  let serv : ServerRecord = record reset { probationary = false }
  let moved = emplace_active serv (store c ref serv)
  if old.probationary
      then (do
        at ← deref moved.probationary_servers moved.probationary_iterator
        if server_eq serv at then erase_probationary moved else remove_probationary serv moved)
      else ok (store c ref reset)

-- One peer of the loops in `AddServersFromMessage`. The readings are those of `IsPresent`.
unfoldable pub add_server : Config → ServerRecord → ℕ → ℕ → Config
add_server c peer check_time schedule_time =
    let rec : ServerRecord = record peer { retry_time = c.client_request_interval_seconds } in
    if (MruCache.is_present server_eq c.banned_servers rec check_time schedule_time).0
    then c
    else elim (find_index rec c.active_servers) [
      | some i ↦ c
      | none ↦ record c { probationary_servers = c.probationary_servers ++ (rec ∷ []) }
    ]

-- Both loops: `n` peers are left, of which the first is at the start of the bytes.
unfoldable pub add_peers : ℕ → Bool → Bytes → (ℕ → ℕ) → Config → Outcome Config
add_peers zero is_ipv6 content now c = ok c
add_peers (suc n) is_ipv6 content now c = do
  peer ← of_peer is_ipv6 content
  add_peers n is_ipv6 (drop (if is_ipv6 then ip6_peer_size else ip4_peer_size) content) now
      (add_server c peer (now n) (now n))

unfoldable pub add_servers_from_message : Config → Option Bytes → (ℕ → ℕ) → Outcome (Config × Bool)
add_servers_from_message c none now = ok (c, false)
add_servers_from_message c (some msg) now = do
  hdr ← read_header msg
  let added = add_peers hdr.count (hdr.msg_type == MsgType.ip6peers) hdr.content now c
  if is_not_peers hdr.msg_type then ok (c, false) else (do c' ← added; ok (c', true))
