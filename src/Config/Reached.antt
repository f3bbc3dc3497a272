-- ===== src/Config/Reached.antt =====
-- Every sequence of operations on the configuration keeps it well-formed.
use nrp_reference.Base.{
  ℕ, zero, suc, ◌+◌, ◌*◌, ◌≡◌, refl, subst, inl, inr, Bool, [], ◌∷◌, ◌++◌, Option, none, some, ok,
  >>=-eq-ok, arith, length, length-take, drop, All-append, leb, ◌==◌, Bool-cases, Option-cases,
}
use nrp_reference.MruCache
use nrp_reference.Protocol.MsgType
use nrp_reference.Protocol.Generate.{is_not_peers}
use nrp_reference.Protocol.Layout.{Bytes, read_header}
use nrp_reference.ServerRecord.{ServerRecord, server_eq, host_size, of_address, of_peer}
use nrp_reference.Config.State.{Config, init}
use nrp_reference.Config.Lists.{find_index}
use nrp_reference.Config.Update.{add_server, add_peers, add_servers_from_message}
use nrp_reference.Config.Steps.{
  Step, Steps, counted, chosen, failed, succeeded, added, rejected, cleaned, done, then_step,
}
use nrp_reference.Config.Valid.{HasAddress, IsValid}
use nrp_reference.Config.Indices.{IsIn-append}
use nrp_reference.Config.Preserved.{
  active_server_count-IsValid, get_next_server-IsValid, store-IsValid,
  increment_server_fail_count-IsValid, mark_server_successful-IsValid, banned-IsValid,
}

of_address-HasAddress :
    (ip : Bytes) (v6 : Bool) (port : ℕ) (s : ServerRecord)
    → of_address ip v6 port ≡ ok s
    → HasAddress s
unfolding of_address
of_address-HasAddress ip v6 port s h = elim (Bool-cases (leb (host_size v6) (length ip))) [
  | inl enough ↦ ground (arith, length-take (host_size v6) ip)
  | inr short ↦ ground arith
]

of_peer-HasAddress :
    (v6 : Bool) (peer rest : Bytes) (s : ServerRecord)
    → drop (host_size v6) peer ≡ rest
    → of_peer v6 peer ≡ ok s
    → HasAddress s
unfolding of_peer
of_peer-HasAddress v6 peer [] s e h = ground arith
of_peer-HasAddress v6 peer (hi ∷ []) s e h = ground arith
of_peer-HasAddress v6 peer (hi ∷ lo ∷ rest) s e h =
    of_address-HasAddress peer v6 (hi * 256 + lo) s (ground arith)

appended-IsValid :
    (c : Config) (s : ServerRecord)
    → HasAddress s
    → IsValid c
    → IsValid (record c { probationary_servers = c.probationary_servers ++ (s ∷ []) })
appended-IsValid c s address v = record {
  sorted = v.sorted;
  active_in = v.active_in;
  probationary_in =
      IsIn-append c.probationary_iterator c.probationary_servers (s ∷ []) v.probationary_in;
  active = v.active;
  probationary = All-append HasAddress c.probationary_servers (s ∷ []) v.probationary (address, tt);
  configured = v.configured;
}

add_server-IsValid :
    (c : Config) (peer : ServerRecord) (t u : ℕ)
    → HasAddress peer
    → IsValid c
    → IsValid (add_server c peer t u)
unfolding add_server
add_server-IsValid c peer t u address v =
    let rec : ServerRecord = record peer { retry_time = c.client_request_interval_seconds } in
    elim (Bool-cases (MruCache.is_present server_eq c.banned_servers rec t u).0) [
      | inl banned ↦ subst IsValid (ground arith) v
      | inr welcome ↦ elim (Option-cases (find_index rec c.active_servers)) [
        | inl new ↦ subst IsValid (ground arith) (appended-IsValid c rec address v)
        | inr (i, known) ↦ subst IsValid (ground arith) v
      ]
    ]

add_peers-IsValid :
    (n : ℕ) (v6 : Bool) (content : Bytes) (now : ℕ → ℕ) (c d : Config)
    → add_peers n v6 content now c ≡ ok d
    → IsValid c
    → IsValid d
unfolding add_peers
add_peers-IsValid zero v6 content now c d h v = subst IsValid (ground arith) v
add_peers-IsValid (suc n) v6 content now c d h v =
    let (peer, made, rest) = >>=-eq-ok (of_peer v6 content) _ h in
    add_peers-IsValid n v6 _ now (add_server c peer (now n) (now n)) d rest (
      add_server-IsValid c peer (now n) (now n)
        (of_peer-HasAddress v6 content (drop (host_size v6) content) peer refl made) v)

add_servers_from_message-IsValid :
    (c d : Config) (msg : Option Bytes) (now : ℕ → ℕ) (result : Bool)
    → add_servers_from_message c msg now ≡ ok (d, result)
    → IsValid c
    → IsValid d
unfolding add_servers_from_message
add_servers_from_message-IsValid c d none now result h v = subst IsValid (ground arith) v
add_servers_from_message-IsValid c d (some msg) now result h v =
    let (hdr, headed, rest) = >>=-eq-ok (read_header msg) _ h in
    elim (Bool-cases (is_not_peers hdr.msg_type)) [
      | inl other ↦ subst IsValid (ground arith) v
      | inr peers ↦
          let (e, made, end) =
            >>=-eq-ok (add_peers hdr.count (hdr.msg_type == MsgType.ip6peers) hdr.content now c) _
              (simp peers at rest) in
          subst IsValid (ground arith) (
            add_peers-IsValid hdr.count (hdr.msg_type == MsgType.ip6peers) hdr.content now c e made
              v)
    ]

Step-IsValid : {c d : Config} → Step c d → IsValid c → IsValid d
Step-IsValid (counted c t) v = active_server_count-IsValid c t v
Step-IsValid (chosen c d ref h) v = get_next_server-IsValid c d ref h v
Step-IsValid (failed c d ref now ban_time h) v =
    increment_server_fail_count-IsValid c d ref now ban_time h v
Step-IsValid (succeeded c d ref now h) v = mark_server_successful-IsValid c d ref now h v
Step-IsValid (added c d msg now result h) v =
    add_servers_from_message-IsValid c d msg now result h v
Step-IsValid (rejected c ref s t found same) v = store-IsValid c ref s t found same.host same.ipv6 v
Step-IsValid (cleaned c now end) v = banned-IsValid c (MruCache.clean c.banned_servers now end).0 v

-- The configuration that the constructor makes is well-formed.
pub init-IsValid : (four six : Bool) (now : ℕ) → IsValid (init four six now)
unfolding init
init-IsValid four six now = record {
  sorted = tt;
  active_in = tt;
  probationary_in = tt;
  active = tt;
  probationary = tt;
  configured = tt;
}

-- Whatever operations the two threads make on a well-formed configuration, in any order and as long as each
-- returns, the set of active servers stays in strictly ascending order, both iterators stay on an element or at
-- the end, and every address keeps the size of its family.
pub Steps-IsValid : {c d : Config} → Steps c d → IsValid c → IsValid d
Steps-IsValid (done c) v = v
Steps-IsValid (then_step before step) v = Step-IsValid step (Steps-IsValid before v)
