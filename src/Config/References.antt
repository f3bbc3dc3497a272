-- ===== src/Config/References.antt =====
-- References into the lists: which changes leave them pointing at a server.
use nrp_reference.Base.{
  ℕ, zero, suc, ◌+◌, ◌*◌, ◌≤◌, ◌<◌, ◌≡◌, refl, Bool, true, false, List, [], ◌∷◌, some, ok, arith,
  length, length-append, length-drop, set, drop, take, if◌then◌else◌, ◌==◌, leb, Bool-cases, inl,
  inr,
}
use nrp_reference.Protocol.Layout.{
  Bytes, Header, read_header, ip4_peer_size, ip6_peer_size, client_min_retry_seconds,
}
use nrp_reference.Protocol.MsgType
use nrp_reference.Protocol.Generate.{is_not_peers}
use nrp_reference.ServerRecord.{ServerRecord, host_size, of_address, of_peer}
use nrp_reference.Config.State.{Config}
use nrp_reference.Config.Choice.{deref_at}
use nrp_reference.Config.Servers.{ServerRef, in_active, in_probationary, in_configured}
use nrp_reference.Config.Update.{load, store, add_server, add_peers, add_servers_from_message}

-- The reference is to an element.
abbrev pub Points : Config → ServerRef → Type 0
Points c (in_active i) = i < length c.active_servers
Points c (in_probationary i) = i < length c.probationary_servers
Points c in_configured = 0 < length c.configured_servers

pub load_of_Points :
    (c : Config) (ref : ServerRef) → Points c ref → (s : ServerRecord) × (load c ref ≡ ok s)
unfolding load
load_of_Points c (in_active i) h = deref_at c.active_servers i h
load_of_Points c (in_probationary i) h = deref_at c.probationary_servers i h
load_of_Points c in_configured h = deref_at c.configured_servers 0 h

-- No list became shorter.
pub record Keeps (c c' : Config) : Type 0 where
  pub active : length c.active_servers ≤ length c'.active_servers
  pub probationary : length c.probationary_servers ≤ length c'.probationary_servers
  pub configured : length c.configured_servers ≤ length c'.configured_servers

pub Keeps-refl : (c : Config) → Keeps c c
Keeps-refl c = record { active = omega arith; probationary = omega arith; configured = omega arith }

pub Keeps-trans : (a b c : Config) → Keeps a b → Keeps b c → Keeps a c
Keeps-trans a b c h k = record {
  active = omega (arith, h.active, k.active);
  probationary = omega (arith, h.probationary, k.probationary);
  configured = omega (arith, h.configured, k.configured);
}

pub Points-Keeps : (c c' : Config) (ref : ServerRef) → Keeps c c' → Points c ref → Points c' ref
Points-Keeps c c' (in_active i) k h = omega (arith, k.active)
Points-Keeps c c' (in_probationary i) k h = omega (arith, k.probationary)
Points-Keeps c c' in_configured k h = omega (arith, k.configured)

length-set : (ss : List ServerRecord) (i : ℕ) (s : ServerRecord) → length (set ss i s) ≡ length ss
length-set [] i s = refl
length-set (t ∷ ss) zero s = refl
length-set (t ∷ ss) (suc i) s = omega (arith, length-set ss i s)

pub store-Keeps : (c : Config) (ref : ServerRef) (s : ServerRecord) → Keeps c (store c ref s)
unfolding store
store-Keeps c (in_active i) s = record {
  active = omega (arith, length-set c.active_servers i s);
  probationary = omega arith;
  configured = omega arith;
}
store-Keeps c (in_probationary i) s = record {
  active = omega arith;
  probationary = omega (arith, length-set c.probationary_servers i s);
  configured = omega arith;
}
store-Keeps c in_configured s = record {
  active = omega arith;
  probationary = omega arith;
  configured = omega (arith, length-set c.configured_servers 0 s);
}

add_server-Keeps : (c : Config) (peer : ServerRecord) (t u : ℕ) → Keeps c (add_server c peer t u)
unfolding add_server
add_server-Keeps c peer t u = record {
  active = ground arith;
  probationary = ground (
    arith,
    length-append c.probationary_servers
        (record peer { retry_time = c.client_request_interval_seconds } ∷ []),
  );
  configured = ground arith;
}

abbrev pub peer_length : Bool → ℕ
peer_length is_ipv6 = if is_ipv6 then ip6_peer_size else ip4_peer_size

-- The record of a server that was heard of at an address.
abbrev pub addressed : Bytes → Bool → ℕ → ServerRecord
addressed ip is_ipv6 port = record {
  host = take (host_size is_ipv6) ip;
  port = port;
  failure_count = 0;
  last_access_time = 0;
  retry_time = client_min_retry_seconds;
  ipv6 = is_ipv6;
  probationary = true;
  ip4_peers = true;
  ip6_peers = true;
  signkey = true;
  shuttingdown = false;
}

pub of_peer_split :
    (is_ipv6 : Bool) (bs rest : Bytes) (hi lo : ℕ)
    → drop (host_size is_ipv6) bs ≡ hi ∷ lo ∷ rest
    → host_size is_ipv6 ≤ length bs
    → of_peer is_ipv6 bs ≡ ok (addressed bs is_ipv6 (hi * 256 + lo))
unfolding of_peer of_address
of_peer_split is_ipv6 bs rest hi lo e h =
    let enough : leb (host_size is_ipv6) (length bs) ≡ true = ground arith in
    rw (e, of_peer, enough, of_address) refl

two_bytes :
    (bs : Bytes) → 2 ≤ length bs → (hi : ℕ) × (lo : ℕ) × (rest : Bytes) × (bs ≡ hi ∷ lo ∷ rest)
two_bytes [] h = absurd (omega arith)
two_bytes (hi ∷ []) h = absurd (omega arith)
two_bytes (hi ∷ lo ∷ rest) h = (hi, lo, rest, refl)

of_peer_ok :
    (is_ipv6 : Bool) (bs : Bytes)
    → peer_length is_ipv6 ≤ length bs
    → (s : ServerRecord) × (of_peer is_ipv6 bs ≡ ok s)
of_peer_ok is_ipv6 bs h =
    let long : host_size is_ipv6 + 2 ≤ length bs = ground arith in
    let (hi, lo, rest, e) =
      two_bytes (drop (host_size is_ipv6) bs) (omega (arith, length-drop (host_size is_ipv6) bs)) in
    (addressed bs is_ipv6 (hi * 256 + lo), of_peer_split is_ipv6 bs rest hi lo e (omega arith))

add_peers-Keeps :
    (n : ℕ) (is_ipv6 : Bool) (bs : Bytes) (now : ℕ → ℕ) (c : Config)
    → n * peer_length is_ipv6 ≤ length bs
    → (c' : Config) × (add_peers n is_ipv6 bs now c ≡ ok c') × Keeps c c'
unfolding add_peers
add_peers-Keeps zero is_ipv6 bs now c h = (c, refl, Keeps-refl c)
add_peers-Keeps (suc n) is_ipv6 bs now c h =
    let (peer, e) = of_peer_ok is_ipv6 bs (ground arith) in
    let next = add_server c peer (now n) (now n) in
    let (c', done, k) =
      add_peers-Keeps n is_ipv6 (drop (peer_length is_ipv6) bs) now next
        (ground (arith, length-drop (peer_length is_ipv6) bs)) in
    (c', rw e done, Keeps-trans c next c' (add_server-Keeps c peer (now n) (now n)) k)

-- A message of peers with as many bytes as it counts is taken in without a fault.
pub add_servers_from_message-Keeps :
    (c : Config) (msg : Bytes) (hdr : Header) (now : ℕ → ℕ)
    → read_header msg ≡ ok hdr
    → hdr.count * peer_length (hdr.msg_type == MsgType.ip6peers) ≤ length hdr.content
    → (c' : Config) × (added : Bool) × (add_servers_from_message c (some msg) now ≡ ok (c', added))
      × Keeps c c'
unfolding add_servers_from_message
add_servers_from_message-Keeps c msg hdr now r h = elim (Bool-cases (is_not_peers hdr.msg_type)) [
  | inl other ↦ (c, false, rw (r, other) refl, Keeps-refl c)
  | inr peers ↦
      let (c', done, k) =
        add_peers-Keeps hdr.count (hdr.msg_type == MsgType.ip6peers) hdr.content now c h in
      (c', true, rw (r, peers, done) refl, k)
]
