-- ===== src/Server/History.antt =====
-- Histories of a running server: how often it answers one client.
use nrp_reference.Base.{
  ℕ, ◌+◌, ◌≤◌, ◌≡◌, sym, subst, ◌⊎◌, inl, inr, Bool, true, false, List, [], ◌∷◌, Option, none, some,
  Outcome, ok, >>=-eq-ok, arith, if◌then◌else◌, Bool-cases, All,
}
use nrp_reference.MruCache
use nrp_reference.MruCache.{MruCache, lifetime, clean}
use nrp_reference.MruCache.Spacing.{
  Pass, History, begin, pass, refuse, tidy, wait, Spaced, History-Spaced,
}
use nrp_reference.StdHelpers.{SockaddrStorage, sockaddr_eq}
use nrp_reference.StdHelpers.Laws.{sockaddr_eq-IsPartialEquivalence}
use nrp_reference.Protocol.Layout.{Bytes}
use nrp_reference.Protocol.Validate.{validate_request_packet}
use nrp_reference.Config.State.{Config}
use nrp_reference.Server.Responses.{RandomDevice}
use nrp_reference.Server.Parse.{Progress, parse_messages}
use nrp_reference.Server.Loop.{
  NrpdServer, receive_buffer, set_mtu, send_response, answer_request, serve,
}

-- A request that was answered: the client, and the first two readings of the clock in its round.
abbrev pub Answer : Type 0
Answer = Pass SockaddrStorage

-- What may happen to a running server up to a time, with its answers so far, the latest first: a round
-- that sends something or nothing, a run of the cache's cleaner, and changes of the configuration and of
-- the random device by others. The readings of a round are in order and not before the time at which the
-- one before it ended, and a datagram comes from an address of a known family.
pub data ServerHistory (life : ℕ) : NrpdServer → ℕ → List Answer → Type 0 where
  start :
      (server : NrpdServer) (last : ℕ)
      → server.recent_clients.entries ≡ []
      → lifetime server.recent_clients ≡ life
      → ServerHistory life server last []
  answered :
      {server : NrpdServer} {last : ℕ} {as' : List Answer} (fuel : ℕ) (datagram : Bytes)
      (src_addr : SockaddrStorage) (now : ℕ → ℕ) (server' : NrpdServer) (packet : Bytes)
      → ServerHistory life server last as'
      → last ≤ now 0
      → now 0 ≤ now 1
      → now 1 ≤ now 2
      → sockaddr_eq src_addr src_addr ≡ true
      → serve fuel server (some (datagram, src_addr)) now ≡ ok (server', some packet)
      → ServerHistory life server'
          (now 2)
          (record { key = src_addr; asked = now 0; checked = now 1 } ∷ as')
  ignored :
      {server : NrpdServer} {last : ℕ} {as' : List Answer} (fuel : ℕ) (datagram : Bytes)
      (src_addr : SockaddrStorage) (now : ℕ → ℕ) (server' : NrpdServer)
      → ServerHistory life server last as'
      → last ≤ now 0
      → now 0 ≤ now 1
      → now 1 ≤ now 2
      → sockaddr_eq src_addr src_addr ≡ true
      → serve fuel server (some (datagram, src_addr)) now ≡ ok (server', none)
      → ServerHistory life server' (now 2) as'
  cleaned :
      {server : NrpdServer} {last : ℕ} {as' : List Answer} (now : ℕ → ℕ) (end : ℕ)
      → ServerHistory life server last as'
      → last ≤ end
      → ((j : ℕ) → now j ≤ end)
      → ServerHistory life
          (record server { recent_clients = (clean server.recent_clients now end).0 })
          end
          as'
  changed :
      {server : NrpdServer} {last : ℕ} {as' : List Answer} (config : Config) (device : RandomDevice)
      → ServerHistory life server last as'
      → ServerHistory life (record server { config = config; device = device }) last as'

send_response-recent_clients :
    (server server' : NrpdServer) (buffer : Bytes) (s : Progress) (r : Option Bytes)
    → send_response server buffer s ≡ ok (server', r)
    → server'.recent_clients ≡ server.recent_clients
unfolding send_response
send_response-recent_clients server server' buffer s r h = ground arith

parsed-recent_clients :
    (server server' : NrpdServer) (buffer : Bytes) (r : Option Bytes) (parsed : Option Progress)
    → ◌≡◌ {A = Outcome (NrpdServer × Option Bytes)}
        (elim parsed [ none ↦ ok (server, none) | some s ↦ send_response server buffer s ])
        (ok (server', r))
    → server'.recent_clients ≡ server.recent_clients
parsed-recent_clients server server' buffer r none h = ground arith
parsed-recent_clients server server' buffer r (some s) h =
    send_response-recent_clients server server' buffer s r h

answer_request-recent_clients :
    (fuel : ℕ) (server server' : NrpdServer) (buffer : Bytes) (r : Option Bytes)
    → answer_request fuel server buffer ≡ ok (server', r)
    → server'.recent_clients ≡ server.recent_clients
unfolding answer_request
answer_request-recent_clients fuel server server' buffer r h =
    let (parsed, made, rest) =
      >>=-eq-ok (parse_messages fuel server.mtu server.config server.device (some buffer)) _ h in
    parsed-recent_clients server server' buffer r parsed rest

-- The verdict of the cache in a round, and the cache after it.
module _ (server : NrpdServer) (src_addr : SockaddrStorage) (now : ℕ → ℕ) where
  abbrev pub asked : MruCache SockaddrStorage × Bool × Bool
  asked =
      MruCache.is_present_add sockaddr_eq server.recent_clients src_addr (now 0) (now 1) (now 2)
        (now 3)

  -- How a round ends for the cache.
  abbrev pub Verdict : MruCache SockaddrStorage → Option Bytes → Type 0
  Verdict clients r =
      ((clients ≡ server.recent_clients) × (r ≡ none))
      ⊎ ((asked.1 ≡ true) × (clients ≡ asked.0) × (r ≡ none))
      ⊎ ((asked.1 ≡ false) × (clients ≡ asked.0))

  after_validation :
      (fuel : ℕ) (buffer : Bytes) (server' : NrpdServer) (r : Option Bytes) (valid : Bool)
      → (if valid
          then (if asked.1
              then ok (record server { recent_clients = asked.0 }, none)
              else answer_request fuel
                  (set_mtu (record server { recent_clients = asked.0 }) src_addr)
                  buffer)
          else ok (server, none))
        ≡ ok (server', r)
      → Verdict server'.recent_clients r
  after_validation fuel buffer server' r false h = inl (ground arith, ground arith)
  after_validation fuel buffer server' r true h = elim (Bool-cases asked.1) [
    | inl held ↦ inr (inl (held, ground arith, ground arith))
    | inr passed ↦ inr (
        inr (
          passed,
          answer_request-recent_clients fuel
              (set_mtu (record server { recent_clients = asked.0 }) src_addr) server' buffer r
              (rw passed at h),
        ))
  ]

  pub serve-Verdict :
      (fuel : ℕ) (datagram : Bytes) (server' : NrpdServer) (r : Option Bytes)
      → serve fuel server (some (datagram, src_addr)) now ≡ ok (server', r)
      → Verdict server'.recent_clients r
  unfolding serve
  serve-Verdict fuel datagram server' r h =
      let (valid, checked, rest) =
        >>=-eq-ok (validate_request_packet fuel (some (receive_buffer datagram))) _ h in
      after_validation fuel (receive_buffer datagram) server' r valid rest

-- A list with some elements left out.
data Within : List Answer → List Answer → Type 0 where
  none_left : Within [] []
  keep : {xs ys : List Answer} (a : Answer) → Within xs ys → Within (a ∷ xs) (a ∷ ys)
  skip : {xs ys : List Answer} (a : Answer) → Within xs ys → Within xs (a ∷ ys)

All-Within : (P : Answer → Type 0) {xs ys : List Answer} → Within xs ys → All P ys → All P xs
All-Within P none_left all = tt
All-Within P (keep a w) (p, all) = (p, All-Within P w all)
All-Within P (skip a w) (p, all) = All-Within P w all

Spaced-Within :
    (life : ℕ) {xs ys : List Answer}
    → Within xs ys
    → Spaced sockaddr_eq life ys
    → Spaced sockaddr_eq life xs
Spaced-Within life none_left all = tt
Spaced-Within life (keep a w) (p, all) = (
  All-Within (λ q. sockaddr_eq q.key a.key ≡ true → q.asked + life ≤ a.checked) w p,
  Spaced-Within life w all,
)
Spaced-Within life (skip a w) (p, all) = Spaced-Within life w all

-- The answers are among the passes of a history of the cache.
abbrev Simulated : ℕ → NrpdServer → ℕ → List Answer → Type 0
Simulated life server last answers =
    (ps : List Answer) × History sockaddr_eq life server.recent_clients last ps × Within answers ps

module _ (life : ℕ) (server : NrpdServer) (last : ℕ) (answers : List Answer)
    (src_addr : SockaddrStorage) (now : ℕ → ℕ) where
  abbrev given_answer : Answer
  given_answer = record { key = src_addr; asked = now 0; checked = now 1 }

  held-History :
      (clients : MruCache SockaddrStorage) (ps : List Answer)
      → History sockaddr_eq life server.recent_clients last ps
      → last ≤ now 2
      → (asked server src_addr now).1 ≡ true
      → clients ≡ (asked server src_addr now).0
      → History sockaddr_eq life clients (now 2) ps
  held-History clients ps h late held same =
      subst (λ d. History sockaddr_eq life d (now 2) ps) (sym same)
        (wait (now 2) (refuse src_addr (now 0) (now 1) (now 2) (now 3) h held) late)

  passed-History :
      (clients : MruCache SockaddrStorage) (ps : List Answer)
      → History sockaddr_eq life server.recent_clients last ps
      → last ≤ now 0
      → now 0 ≤ now 1
      → now 1 ≤ now 2
      → sockaddr_eq src_addr src_addr ≡ true
      → (asked server src_addr now).1 ≡ false
      → clients ≡ (asked server src_addr now).0
      → History sockaddr_eq life clients (now 2) (given_answer ∷ ps)
  passed-History clients ps h a b c self passed same =
      subst (λ d. History sockaddr_eq life d (now 2) (given_answer ∷ ps)) (sym same)
        (pass src_addr (now 0) (now 1) (now 2) (now 3) h a b c self passed)

  ignored-Simulated :
      (server' : NrpdServer) (r : Option Bytes)
      → Simulated life server last answers
      → last ≤ now 0
      → now 0 ≤ now 1
      → now 1 ≤ now 2
      → sockaddr_eq src_addr src_addr ≡ true
      → Verdict server src_addr now server'.recent_clients r
      → Simulated life server' (now 2) answers
  ignored-Simulated server' r (ps, h, w) a b c self (inl (same, quiet)) = (
    ps,
    subst (λ d. History sockaddr_eq life d (now 2) ps) (sym same) (wait (now 2) h (omega arith)),
    w,
  )
  ignored-Simulated server' r (ps, h, w) a b c self (inr (inl (held, same, quiet))) =
      (ps, held-History server'.recent_clients ps h (omega arith) held same, w)
  ignored-Simulated server' r (ps, h, w) a b c self (inr (inr (passed, same))) = (
    given_answer ∷ ps,
    passed-History server'.recent_clients ps h a b c self passed same,
    skip given_answer w,
  )

  answered-Simulated :
      (server' : NrpdServer) (packet : Bytes)
      → Simulated life server last answers
      → last ≤ now 0
      → now 0 ≤ now 1
      → now 1 ≤ now 2
      → sockaddr_eq src_addr src_addr ≡ true
      → Verdict server src_addr now server'.recent_clients (some packet)
      → Simulated life server' (now 2) (given_answer ∷ answers)
  answered-Simulated server' packet (ps, h, w) a b c self (inl (same, quiet)) = ground arith
  answered-Simulated server' packet (ps, h, w) a b c self (inr (inl (held, same, quiet))) =
      ground arith
  answered-Simulated server' packet (ps, h, w) a b c self (inr (inr (passed, same))) = (
    given_answer ∷ ps,
    passed-History server'.recent_clients ps h a b c self passed same,
    keep given_answer w,
  )

ServerHistory-Simulated :
    (life : ℕ) {server : NrpdServer} {last : ℕ} {answers : List Answer}
    → ServerHistory life server last answers
    → Simulated life server last answers
ServerHistory-Simulated life (start server last none_yet e) =
    ([], begin server.recent_clients last none_yet e, none_left)
ServerHistory-Simulated life
      (answered {server = server} {last = last} {as' = before} fuel datagram src_addr now server'
        packet h a b c self made) =
    answered-Simulated life server last before src_addr now server' packet
      (ServerHistory-Simulated life h) a b c self
      (serve-Verdict server src_addr now fuel datagram server' (some packet) made)
ServerHistory-Simulated life
      (ignored {server = server} {last = last} {as' = before} fuel datagram src_addr now server' h a
        b c self made) =
    ignored-Simulated life server last before src_addr now server' none
      (ServerHistory-Simulated life h) a b c self
      (serve-Verdict server src_addr now fuel datagram server' none made)
ServerHistory-Simulated life (cleaned now end h late bound) =
    let (ps, h', w) = ServerHistory-Simulated life h in (ps, tidy now end h' late bound, w)
ServerHistory-Simulated life (changed config device h) = ServerHistory-Simulated life h

-- In every history of a server that starts with an empty cache, whose rounds, runs of the cleaner and changes
-- of the configuration come in any order, with clock readings that do not go back and datagrams from
-- addresses of known families, a client that is answered twice is tested for the second answer at least the
-- lifetime of the cache after it was looked up for the first.
pub ServerHistory-Spaced :
    {life : ℕ} {server : NrpdServer} {last : ℕ} {answers : List Answer}
    → ServerHistory life server last answers
    → Spaced sockaddr_eq life answers
ServerHistory-Spaced {life} h =
    let (ps, h', w) = ServerHistory-Simulated life h in
    Spaced-Within life w (History-Spaced sockaddr_eq sockaddr_eq-IsPartialEquivalence life h')
