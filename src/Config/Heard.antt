-- ===== src/Config/Heard.antt =====
-- What a client makes of the bytes of peers, as `GetServerList` writes them, in `AddServersFromMessage`.
use nrp_reference.Base.{
  ℕ, ◌+◌, ◌*◌, ◌/◌, ◌%◌, ◌<◌, ◌≤◌, ◌≡◌, refl, sym, ap, ◌∙◌, inl, inr, Bool, true, false, List, [],
  ◌∷◌, ◌++◌, append-nil, append_assoc, none, some, ok, arith, length, length-append, take, take_all,
  take-append, drop, drop-append, All, Bool-cases, Option-cases, if◌then◌else◌,
}
use nrp_reference.MruCache
use nrp_reference.Protocol.Layout.{Bytes, htons, client_min_retry_seconds}
use nrp_reference.ServerRecord.{ServerRecord, host_size, server_eq, of_peer}
use nrp_reference.Config.State.{Config}
use nrp_reference.Config.Lists.{find_index}
use nrp_reference.Config.Servers.{peer_bytes}
use nrp_reference.Config.Update.{add_server, add_peers}
use nrp_reference.Config.References.{addressed, peer_length, of_peer_split}
use nrp_reference.Config.Counts.{all_peer_bytes}

-- What a client makes of a server that it hears of.
abbrev pub heard : ServerRecord → ServerRecord
heard s = record {
  host = s.host;
  port = s.port;
  failure_count = 0;
  last_access_time = 0;
  retry_time = client_min_retry_seconds;
  ipv6 = s.ipv6;
  probationary = true;
  ip4_peers = true;
  ip6_peers = true;
  signkey = true;
  shuttingdown = false;
}

-- A server of a family, with an address of the size of the family and a port of 16 bits.
abbrev pub IsPeer : Bool → ServerRecord → Type 0
IsPeer v6 s = (s.ipv6 ≡ v6) × (length s.host ≡ host_size v6) × (s.port < 65_536)

peer_bytes-IsPeer :
    (v6 : Bool) (s : ServerRecord) → IsPeer v6 s → peer_bytes s ≡ s.host ++ htons s.port
peer_bytes-IsPeer v6 s (e, h, p) =
    let size : length s.host ≤ host_size s.ipv6 = ground arith in
    ap (λ bs. bs ++ htons s.port) (take_all s.host (host_size s.ipv6) size)

pub length-peer_bytes :
    (v6 : Bool) (s : ServerRecord) → IsPeer v6 s → length (peer_bytes s) ≡ peer_length v6
length-peer_bytes v6 s (e, h, p) =
    ap length (peer_bytes-IsPeer v6 s (e, h, p))
    ∙ ground (arith, length-append s.host (htons s.port))

of_peer-addressed :
    (host rest : Bytes) (v6 : Bool) (port : ℕ)
    → length host ≡ host_size v6
    → of_peer v6 ((host ++ htons port) ++ rest)
      ≡ ok (addressed ((host ++ htons port) ++ rest) v6 (port / 256 % 256 * 256 + port % 256))
of_peer-addressed host rest v6 port h =
    of_peer_split v6 ((host ++ htons port) ++ rest) rest (port / 256 % 256) (port % 256)
      (ap (drop (host_size v6)) (append_assoc host (htons port) rest)
        ∙ drop-append host (htons port ++ rest) (host_size v6) (sym h))
      (omega (arith, length-append (host ++ htons port) rest, length-append host (htons port)))

taken_host :
    (host rest : Bytes) (v6 : Bool) (port : ℕ)
    → length host ≡ host_size v6
    → take (host_size v6) ((host ++ htons port) ++ rest) ≡ host
taken_host host rest v6 port h =
    ap (take (host_size v6)) (append_assoc host (htons port) rest)
    ∙ take-append host (htons port ++ rest) (host_size v6) (sym h)

of_peer-peer_bytes :
    (v6 : Bool) (s : ServerRecord) (rest : Bytes)
    → IsPeer v6 s
    → of_peer v6 (peer_bytes s ++ rest) ≡ ok (heard s)
of_peer-peer_bytes v6 s rest (e, h, p) =
    let number : s.port / 256 % 256 * 256 + s.port % 256 ≡ s.port = omega arith in
    rw (peer_bytes-IsPeer v6 s (e, h, p)) (
      of_peer-addressed s.host rest v6 s.port h
      ∙ simp (taken_host s.host rest v6 s.port h, number, e) refl)

-- One peer after the other, the first with the latest reading of the clock.
abbrev pub hear : Config → (ℕ → ℕ) → List ServerRecord → Config
hear c now [] = c
hear c now (s ∷ ss) = hear (add_server c (heard s) (now (length ss)) (now (length ss))) now ss

-- The record of a server that a client puts on probation.
abbrev pub on_probation : ℕ → ServerRecord → ServerRecord
on_probation interval s = record s { retry_time = interval }

-- The servers that are neither banned nor active.
abbrev pub newcomers_to :
    MruCache.MruCache ServerRecord
    → List ServerRecord
    → ℕ
    → (ℕ → ℕ)
    → List ServerRecord
    → List ServerRecord
newcomers_to banned active interval now [] = []
newcomers_to banned active interval now (s ∷ ss) =
    let rest = newcomers_to banned active interval now ss in
    if (MruCache.is_present server_eq banned (on_probation interval (heard s)) (now (length ss))
      (now (length ss))).0
    then rest
    else elim (find_index (on_probation interval (heard s)) active) [
      | some i ↦ rest
      | none ↦ on_probation interval (heard s) ∷ rest
    ]

abbrev pub newcomers : Config → (ℕ → ℕ) → List ServerRecord → List ServerRecord
newcomers c = newcomers_to c.banned_servers c.active_servers c.client_request_interval_seconds

-- Two configurations that differ at most in who is on probation.
record SameKnown (c d : Config) : Type 0 where
  banned : d.banned_servers ≡ c.banned_servers
  active : d.active_servers ≡ c.active_servers
  interval : d.client_request_interval_seconds ≡ c.client_request_interval_seconds

newcomers-SameKnown :
    (c d : Config) (now : ℕ → ℕ) (ss : List ServerRecord)
    → SameKnown c d
    → newcomers d now ss ≡ newcomers c now ss
newcomers-SameKnown c d now ss e = rw (e.banned, e.active, e.interval) refl

add_server-SameKnown :
    (c : Config) (peer : ServerRecord) (t u : ℕ) → SameKnown c (add_server c peer t u)
unfolding add_server
add_server-SameKnown c peer t u = record {
  banned = ground arith;
  active = ground arith;
  interval = ground arith;
}

added_first :
    (c : Config) (s : ServerRecord) (t : ℕ) (rest : List ServerRecord)
    → (add_server c s t t).probationary_servers ++ rest
      ≡ c.probationary_servers
        ++ (let rec : ServerRecord = record s { retry_time = c.client_request_interval_seconds } in
            if (MruCache.is_present server_eq c.banned_servers rec t t).0
            then rest
            else elim (find_index rec c.active_servers) [ some i ↦ rest | none ↦ rec ∷ rest ])
unfolding add_server
added_first c s t rest =
    let rec : ServerRecord = record s { retry_time = c.client_request_interval_seconds } in
    elim (Bool-cases (MruCache.is_present server_eq c.banned_servers rec t t).0) [
      | inl banned ↦ ground arith
      | inr welcome ↦ elim (Option-cases (find_index rec c.active_servers)) [
        | inl new ↦ ground (arith, append_assoc c.probationary_servers (rec ∷ []) rest)
        | inr (i, known) ↦ ground arith
      ]
    ]

-- Who is on probation after a client has heard of some servers: the newcomers come last, in their order.
pub hear-newcomers :
    (c : Config) (now : ℕ → ℕ) (ss : List ServerRecord)
    → (hear c now ss).probationary_servers ≡ c.probationary_servers ++ newcomers c now ss
hear-newcomers c now [] = sym (append-nil c.probationary_servers)
hear-newcomers c now (s ∷ ss) =
    let next = add_server c (heard s) (now (length ss)) (now (length ss)) in
    hear-newcomers next now ss
    ∙ (ap (λ rest. next.probationary_servers ++ rest)
          (newcomers-SameKnown c next now ss
            (add_server-SameKnown c (heard s) (now (length ss)) (now (length ss))))
        ∙ added_first c (heard s) (now (length ss)) (newcomers c now ss))

-- The addresses of servers of a family, spelt one after the other and read again.
pub add_peers-all_peer_bytes :
    (v6 : Bool) (ss : List ServerRecord) (rest : Bytes) (now : ℕ → ℕ) (c : Config)
    → All (IsPeer v6) ss
    → add_peers (length ss) v6 (all_peer_bytes ss ++ rest) now c ≡ ok (hear c now ss)
unfolding add_peers
add_peers-all_peer_bytes v6 [] rest now c all = refl
add_peers-all_peer_bytes v6 (s ∷ ss) rest now c (p, all) =
    let next = add_server c (heard s) (now (length ss)) (now (length ss)) in
    rw
      (
        append_assoc (peer_bytes s) (all_peer_bytes ss) rest,
        of_peer-peer_bytes v6 s (all_peer_bytes ss ++ rest) p,
      )
      (ap (λ content. add_peers (length ss) v6 content now next)
          (drop-append (peer_bytes s) (all_peer_bytes ss ++ rest) (peer_length v6)
            (sym (length-peer_bytes v6 s p)))
        ∙ add_peers-all_peer_bytes v6 ss rest now next all)
