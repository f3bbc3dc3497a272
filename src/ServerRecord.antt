-- ===== src/ServerRecord.antt =====
-- config.h and config.cpp, `ServerRecord`: what is known of a server, and the two comparisons. The port
-- is the number that its two bytes spell in network order.
pub mod Order
mod Tests
use Prim.Native.Nat.{bit_xor}
use nrp_reference.Base.{
  ℕ, zero, suc, ◌+◌, ◌*◌, ◌/◌, ◌%◌, ◌^◌, ◌≡◌, Bool, true, false, List, [], ◌∷◌, not, get_or, take,
  drop, length, ◌==◌, if◌then◌else◌, Outcome, ok, undefined, ◌>>=◌, leb,
}
use nrp_reference.Base.Memory.{same_bytes, bytes_below}
use nrp_reference.Protocol.Layout.{Bytes, client_min_retry_seconds}

pub record ServerRecord : Type 0 where
  -- The union `host6`/`host4`: 16 or 4 bytes in network order.
  pub host : Bytes
  pub port : ℕ
  pub failure_count : ℕ
  -- In clock ticks.
  pub last_access_time : ℕ
  -- In seconds.
  pub retry_time : ℕ
  pub ipv6 : Bool
  pub probationary : Bool
  pub ip4_peers : Bool
  pub ip6_peers : Bool
  pub signkey : Bool
  pub shuttingdown : Bool

abbrev pub host_size : Bool → ℕ
host_size true = 16
host_size false = 4

-- `ServerRecord(ip, isIPv6, port)`: the address is copied from memory.
unfoldable pub of_address : Bytes → Bool → ℕ → Outcome ServerRecord
of_address ip is_ipv6 port =
    if leb (host_size is_ipv6) (length ip)
    then ok (record {
      host = take (host_size is_ipv6) ip;
      port = port;
      failure_count = 0;
      last_access_time = 0;
      retry_time = client_min_retry_seconds;
      ipv6 = is_ipv6;
      probationary = true;
      ip4_peers = true;
      ip6_peers = true;
      signkey = true;
      shuttingdown = false;
    })
    else undefined

-- `ServerRecord(l, port)`: the address is copied from a list. One that is shorter than an IPv4 address leaves the
-- address and the family as the memory has them: they are arguments here.
unfoldable pub of_initializer_list : Bytes → Bool → Bytes → ℕ → ServerRecord
of_initializer_list memory memory_ipv6 l port =
    let (host, ipv6) =
      if leb 16 (length l)
      then (take 16 l, true)
      else if leb 4 (length l)
      then (take 4 l, false)
      else (memory, memory_ipv6) in
    record {
      host = host;
      port = port;
      failure_count = 0;
      last_access_time = 0;
      retry_time = client_min_retry_seconds;
      ipv6 = ipv6;
      probationary = true;
      ip4_peers = true;
      ip6_peers = true;
      signkey = true;
      shuttingdown = false;
    }

-- `ServerRecord(peer)`, for both kinds of peer: the address, then two bytes of port.
unfoldable pub of_peer : Bool → Bytes → Outcome ServerRecord
of_peer is_ipv6 peer = elim (drop (host_size is_ipv6) peer) [
  | hi ∷ rest ↦ elim rest [ lo ∷ _ ↦ of_address peer is_ipv6 (hi * 256 + lo) | [] ↦ undefined ]
  | [] ↦ undefined
]

abbrev pub same_flag : Bool → Bool → Bool
same_flag true b = b
same_flag false b = not b

-- `operator==`.
unfoldable pub server_eq : ServerRecord → ServerRecord → Bool
server_eq lhs rhs =
    if not (same_flag lhs.ipv6 rhs.ipv6)
    then false
    else if not (lhs.port == rhs.port)
    then false
    else if lhs.ipv6
    then same_bytes 16 lhs.host rhs.host
    else same_bytes 4 lhs.host rhs.host

-- `operator<`: IPv4 before IPv6, then by address; the port does not count.
unfoldable pub server_lt : ServerRecord → ServerRecord → Bool
server_lt lhs rhs =
    if not (same_flag lhs.ipv6 rhs.ipv6)
    then not lhs.ipv6
    else if lhs.ipv6
    then bytes_below 16 lhs.host rhs.host
    else bytes_below 4 lhs.host rhs.host

-- `std::hash<ServerRecord>`, over the library's hash of a byte.
module _ (hash_uchar : ℕ → ℕ) where
  -- `n` bytes from byte `i` on.
  unfoldable pub hash_bytes : ℕ → ℕ → ℕ → Bytes → ℕ
  hash_bytes zero i result bytes = result
  hash_bytes (suc n) i result bytes =
      hash_bytes n (suc i) (bit_xor result (hash_uchar (get_or bytes i 0) * 2 ^ i % 2 ^ 64)) bytes

  unfoldable pub server_hash : ServerRecord → ℕ
  server_hash s = hash_bytes (host_size s.ipv6) 0 0 s.host
