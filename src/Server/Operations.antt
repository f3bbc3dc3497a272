-- ===== src/Server/Operations.antt =====
-- A round of the server's loop changes the configuration by operations of `NrpdConfig` only.
use nrp_reference.Base.{
  ℕ, zero, suc, ◌≡◌, refl, sym, subst, ◌⊎◌, inl, inr, ◌&&◌, ◌||◌, Option, none, some, Outcome, ok,
  >>=-eq-ok, arith, length, ltb, leb, ◌==◌, replicate, Bool-cases, if◌then◌else◌,
}
use nrp_reference.Base.Int.{ℤ, pos}
use nrp_reference.MruCache
use nrp_reference.StdHelpers.{SockaddrStorage, sockaddr_eq}
use nrp_reference.Protocol.MsgType
use nrp_reference.Protocol.Layout.{
  Bytes, Header, Pointer, read_header, next_message, end_of_packet, packet_header_size,
  ip4_peer_size, ip6_peer_size, reject_size,
}
use nrp_reference.Protocol.Validate.{validate_request_packet}
use nrp_reference.Protocol.Generate.{generate_response_peers_message, to_byte}
use nrp_reference.Config.State.{Config, enable_peers_response}
use nrp_reference.Config.Servers.{active_server_count, get_server_list, is_positive}
use nrp_reference.Config.Steps.{Steps, counted, done, one-Step, Steps-append}
use nrp_reference.Server.Sizes.{calculate_message_size, to_u32}
use nrp_reference.Server.Responses.{
  RandomDevice, peers_wanted, send_peers, generate_peers_response, generate_entropy_response,
}
use nrp_reference.Server.Parse.{
  Progress, remaining, append, answer, answer_messages, add_rejections, reject_message,
  parse_messages,
}
use nrp_reference.Server.Loop.{
  NrpdServer, receive_buffer, set_mtu, send_response, answer_request, serve,
}

counted_once : (c : Config) (t : ℕ) → Steps c (active_server_count c t).0
counted_once c t = one-Step (counted c t)

get_server_list-counted :
    (c : Config) (t : ℕ) (n : ℤ)
    → ((get_server_list c t n).0 ≡ c) ⊎ ((get_server_list c t n).0 ≡ (active_server_count c t).0)
unfolding get_server_list
get_server_list-counted c t n = ground arith

get_server_list-Steps : (c : Config) (t : ℕ) (n : ℤ) → Steps c (get_server_list c t n).0
get_server_list-Steps c t n = elim (get_server_list-counted c t n) [
  | inl same ↦ subst (λ d. Steps c d) (sym same) (done c)
  | inr recounted ↦ subst (λ d. Steps c d) (sym recounted) (counted_once c t)
]

send_peers-Steps :
    (c d : Config) (t size n k : ℕ) (message : Option Bytes)
    → send_peers c t (size, n) ≡ ok (d, message, k)
    → Steps c d
unfolding send_peers
send_peers-Steps c d t size n k message h = elim (Bool-cases (size == 0)) [
  | inl nothing ↦ subst (λ e. Steps c e) (ground arith) (done c)
  | inr something ↦
      let (made, written, end) =
        >>=-eq-ok
          (generate_response_peers_message t (to_byte n) (get_server_list c t (pos n)).1 size
            (some (replicate size 0)))
          _ (simp something at h) in
      subst (λ e. Steps c e) (ground arith) (get_server_list-Steps c t (pos n))
]

generate_peers_response-Steps :
    (c d : Config) (t count k : ℕ) (available : ℤ) (message : Option Bytes)
    → generate_peers_response c t count available ≡ ok (d, message, k)
    → Steps c d
unfolding generate_peers_response
generate_peers_response-Steps c d t count k available message h =
    let wanted = peers_wanted (active_server_count c t).1 count in
    let size = if t == MsgType.ip6peers then ip6_peer_size else ip4_peer_size in
    elim (Bool-cases (wanted == 0)) [
      | inl nobody ↦ subst (λ e. Steps c e) (ground arith) (counted_once c t)
      | inr somebody ↦
          let fit = calculate_message_size (to_u32 available) size wanted in
          Steps-append (counted_once c t) (
            send_peers-Steps (active_server_count c t).0 d t fit.0 fit.1 k message
              (simp somebody at h))
    ]

append-config :
    (message : Option Bytes) (size : ℕ) (s : Progress) → (append message size s).config ≡ s.config
append-config none size s = refl
append-config (some m) size s = refl

answer-Steps : (msg : Header) (s s' : Progress) → answer msg s ≡ ok s' → Steps s.config s'.config
unfolding answer
answer-Steps msg s s' h =
    elim (Bool-cases (msg.msg_type == MsgType.ip4peers || msg.msg_type == MsgType.ip6peers)) [
      | inl peers ↦ elim (Bool-cases (enable_peers_response s.config msg.msg_type)) [
        | inl enabled ↦
            let ((d, message, k), made, end) =
              >>=-eq-ok (generate_peers_response s.config msg.msg_type msg.count (remaining s)) _
                (simp (peers, enabled) at h) in
            subst (λ e. Steps s.config e)
              (ground (arith, append-config message k (record s { config = d })))
              (generate_peers_response-Steps s.config d msg.msg_type msg.count k (remaining s)
                message made)
        | inr disabled ↦ subst (λ e. Steps s.config e) (ground arith) (done s.config)
      ]
      | inr no_peers ↦ elim (Bool-cases (msg.msg_type == MsgType.entropy)) [
        | inl entropy ↦
            let ((device, message, k), made, end) =
              >>=-eq-ok (generate_entropy_response s.config s.device msg.count (remaining s)) _
                (simp (no_peers, entropy) at h) in
            subst (λ e. Steps s.config e)
              (ground (arith, append-config message k (record s { device = device })))
              (done s.config)
        | inr unknown ↦ subst (λ e. Steps s.config e) (ground arith) (done s.config)
      ]
    ]

answer_messages-Steps :
    (fuel end : ℕ) (p : Pointer) (s s' : Progress)
    → answer_messages fuel end p s ≡ ok s'
    → Steps s.config s'.config
unfolding answer_messages
answer_messages-Steps zero end p s s' h = cc
answer_messages-Steps (suc fuel) end p s s' h =
    elim (Bool-cases (ltb p.at end && is_positive (remaining s))) [
      | inl more ↦
          let (msg, headed, h₁) =
            >>=-eq-ok (read_header p.bytes) _ (rw (answer_messages, more) at h) in
          let (t, answered, h₂) = >>=-eq-ok (answer msg s) _ h₁ in
          let (q, moved, h₃) = >>=-eq-ok (next_message p) _ h₂ in
          Steps-append (answer-Steps msg s t answered) (answer_messages-Steps fuel end q t s' h₃)
      | inr over ↦ subst (λ e. Steps s.config e) (ground arith) (done s.config)
    ]

add_rejections-config : (s s' : Progress) → add_rejections s ≡ ok s' → s'.config ≡ s.config
unfolding add_rejections
add_rejections-config s s' h =
    let fit = calculate_message_size (to_u32 s.bytes_remaining) reject_size (length s.rejections) in
    elim (Bool-cases (length s.rejections == 0)) [
      | inl empty ↦ ground arith
      | inr some_rejected ↦ elim (Bool-cases (fit.0 == 0)) [
        | inl full ↦ ground arith
        | inr room ↦
            let (message, made, end) =
              >>=-eq-ok (reject_message fit.1 fit.0 s.rejections) _
                (simp (some_rejected, room) at h) in
            ground arith
      ]
    ]

-- What `ParseMessages` leaves: the configuration that it got, where it fails.
config_after : Config → Option Progress → Config
config_after c none = c
config_after c (some s) = s.config

parse_messages-Steps :
    (fuel mtu : ℕ) (c : Config) (device : RandomDevice) (buffer : Option Bytes)
    (r : Option Progress)
    → parse_messages fuel mtu c device buffer ≡ ok r
    → Steps c (config_after c r)
unfolding parse_messages config_after
parse_messages-Steps fuel mtu c device none r h =
    let same : none ≡ r = ground arith in subst (λ o. Steps c (config_after c o)) same (done c)
parse_messages-Steps fuel mtu c device (some buffer) r h =
    elim (Bool-cases (leb mtu packet_header_size)) [
      | inl tiny ↦
          let same : none ≡ r = ground arith in
          subst (λ o. Steps c (config_after c o)) same (done c)
      | inr room ↦
          let (pkt, headed, h₁) = >>=-eq-ok (read_header buffer) _ (simp room at h) in
          let (s, answered, h₂) = >>=-eq-ok (answer_messages fuel (end_of_packet pkt) _ _) _ h₁ in
          let (s', ended, h₃) = >>=-eq-ok (add_rejections s) _ h₂ in
          let same : some s' ≡ r = ground arith in
          subst (λ o. Steps c (config_after c o)) same
            (subst (λ e. Steps c e) (sym (add_rejections-config s s' ended))
              (answer_messages-Steps fuel (end_of_packet pkt) _ _ s answered))
    ]

send_response-config :
    (server server' : NrpdServer) (buffer : Bytes) (s : Progress) (r : Option Bytes)
    → send_response server buffer s ≡ ok (server', r)
    → server'.config ≡ s.config
unfolding send_response
send_response-config server server' buffer s r h = ground arith

parsed-Steps :
    (server server' : NrpdServer) (buffer : Bytes) (r : Option Bytes) (parsed : Option Progress)
    → ◌≡◌ {A = Outcome (NrpdServer × Option Bytes)}
        (elim parsed [ none ↦ ok (server, none) | some s ↦ send_response server buffer s ])
        (ok (server', r))
    → Steps server.config (config_after server.config parsed)
    → Steps server.config server'.config
unfolding config_after
parsed-Steps server server' buffer r none h steps =
    subst (λ e. Steps server.config e) (ground arith) steps
parsed-Steps server server' buffer r (some s) h steps =
    subst (λ e. Steps server.config e) (sym (send_response-config server server' buffer s r h))
      steps

answer_request-Steps :
    (fuel : ℕ) (server server' : NrpdServer) (buffer : Bytes) (r : Option Bytes)
    → answer_request fuel server buffer ≡ ok (server', r)
    → Steps server.config server'.config
unfolding answer_request
answer_request-Steps fuel server server' buffer r h =
    let (parsed, made, rest) =
      >>=-eq-ok (parse_messages fuel server.mtu server.config server.device (some buffer)) _ h in
    parsed-Steps server server' buffer r parsed rest
      (parse_messages-Steps fuel server.mtu server.config server.device (some buffer) parsed made)

-- A round of the server that returns changes the configuration by operations of `NrpdConfig` only.
pub serve-Steps :
    (fuel : ℕ) (server server' : NrpdServer) (received : Option (Bytes × SockaddrStorage))
    (now : ℕ → ℕ) (r : Option Bytes)
    → serve fuel server received now ≡ ok (server', r)
    → Steps server.config server'.config
unfolding serve
serve-Steps fuel server server' none now r h =
    subst (λ e. Steps server.config e) (ground arith) (done server.config)
serve-Steps fuel server server' (some (datagram, src_addr)) now r h =
    let (valid, checked, rest) =
      >>=-eq-ok (validate_request_packet fuel (some (receive_buffer datagram))) _ h in
    let (clients, present, schedule) =
      MruCache.is_present_add sockaddr_eq server.recent_clients src_addr (now 0) (now 1) (now 2)
        (now 3) in
    elim (Bool-cases valid) [
      | inr invalid ↦ subst (λ e. Steps server.config e) (ground arith) (done server.config)
      | inl sound ↦ elim (Bool-cases present) [
        | inl held ↦ subst (λ e. Steps server.config e) (ground arith) (done server.config)
        | inr passed ↦
            answer_request-Steps fuel
              (set_mtu (record server { recent_clients = clients }) src_addr) server'
              (receive_buffer datagram) r (simp (sound, passed) at rest)
      ]
    ]
