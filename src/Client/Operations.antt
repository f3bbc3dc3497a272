-- ===== src/Client/Operations.antt =====
-- A round of the client's loop changes the configuration by operations of `NrpdConfig` only.
use nrp_reference.Base.{
  ℕ, zero, suc, ◌+◌, ◌*◌, ◌≡◌, refl, sym, subst, inl, inr, Bool, true, false, ◌++◌, Option, none,
  some, ok, >>=-eq-ok, arith, length, take, drop, ltb, leb, ◌==◌, Bool-cases,
}
use nrp_reference.MruCache.{ticks_per_second}
use nrp_reference.Protocol.MsgType
use nrp_reference.Protocol.Layout.{
  Bytes, Header, Pointer, read_header, next_message, max_response_message_size,
}
use nrp_reference.Protocol.Validate.{validate_response_packet}
use nrp_reference.ServerRecord.{ServerRecord}
use nrp_reference.Config.Servers.{ServerRef, get_next_server}
use nrp_reference.Config.Update.{
  load, add_servers_from_message, increment_server_fail_count, mark_server_successful,
}
use nrp_reference.Config.Steps.{
  Steps, chosen, failed, succeeded, added, rejected, done, one-Step, Steps-append,
}
use nrp_reference.Client.Request.{construct_request}
use nrp_reference.Client.Entropy.{scramble_entropy, consume_entropy}
use nrp_reference.Client.Rejects.{parse_reject_message}
use nrp_reference.Client.Parse.{
  Client, consume, take_entropy, take_peers, take_rejections, take_message, take_messages,
  parse_response,
}
use nrp_reference.Client.Loop.{
  Received, Surroundings, Round, add_time_entropy, punish, take_reply, contact, client_round,
}
use nrp_reference.Client.SameServer.{parse_reject_message-SameServer}

-- The configuration before and after for a client.
abbrev ClientSteps : Client → Client → Type 0
ClientSteps client client' = Steps client.config client'.config

consume-config :
    (written : Option Bytes) (client : Client) → (consume written client).config ≡ client.config
consume-config none client = refl
consume-config (some bytes) client = refl

take_entropy-config :
    (accepts : Bytes → Bool) (stack : Bytes) (msg : Header) (p p' : Pointer)
    (client client' : Client)
    → take_entropy accepts stack msg p client ≡ ok (client', p')
    → client'.config ≡ client.config
unfolding take_entropy
take_entropy-config accepts stack msg p p' client client' h =
    let ((device, content, scrambled), made, h₁) =
      >>=-eq-ok (scramble_entropy client.device stack msg.count msg.content) _ h in
    let ((written, success), used, h₂) =
      >>=-eq-ok (consume_entropy accepts msg.count content) _ h₁ in
    ground (arith, consume-config written (record client { device = device }))

take_peers-Steps :
    (enabled : Bool) (now : ℕ → ℕ) (p p' : Pointer) (client client' : Client)
    → take_peers enabled now p client ≡ ok (client', p')
    → ClientSteps client client'
unfolding take_peers
take_peers-Steps false now p p' client client' h =
    subst (λ e. Steps client.config e) (ground arith) (done client.config)
take_peers-Steps true now p p' client client' h =
    let ((config, result), made, end) =
      >>=-eq-ok (add_servers_from_message client.config (some p.bytes) now) _ h in
    subst (λ e. Steps client.config e) (ground arith)
      (one-Step (added client.config config (some p.bytes) now result made))

take_rejections-Steps :
    (ref : ServerRef) (p p' : Pointer) (client client' : Client)
    → take_rejections ref p client ≡ ok (client', p')
    → ClientSteps client client'
unfolding take_rejections
take_rejections-Steps ref p p' client client' h =
    let (s, found, h₁) = >>=-eq-ok (load client.config ref) _ h in
    let ((t, result), parsed, end) = >>=-eq-ok (parse_reject_message s (some p.bytes)) _ h₁ in
    subst (λ e. Steps client.config e) (ground arith)
      (one-Step (
        rejected client.config ref s t found
          (parse_reject_message-SameServer s t (some p.bytes) result parsed)))

module _ (accepts : Bytes → Bool) (stack : Bytes) (now : ℕ → ℕ) (ref : ServerRef) where
  take_message-Steps :
      (msg : Header) (p p' : Pointer) (client client' : Client)
      → take_message accepts stack now ref msg p client ≡ ok (client', p')
      → ClientSteps client client'
  unfolding take_message
  take_message-Steps msg p p' client client' h =
      elim (Bool-cases (msg.msg_type == MsgType.entropy)) [
        | inl entropy ↦
            subst (λ e. Steps client.config e)
              (sym (take_entropy-config accepts stack msg p p' client client' (simp entropy at h)))
              (done client.config)
        | inr no_entropy ↦ elim (Bool-cases (msg.msg_type == MsgType.ip4peers)) [
          | inl four ↦
              take_peers-Steps client.config.client_enable_ip4 now p p' client client'
                (simp (no_entropy, four) at h)
          | inr no_four ↦ elim (Bool-cases (msg.msg_type == MsgType.ip6peers)) [
            | inl six ↦
                take_peers-Steps client.config.client_enable_ip6 now p p' client client'
                  (simp (no_entropy, no_four, six) at h)
            | inr no_six ↦ elim (Bool-cases (msg.msg_type == MsgType.reject)) [
              | inl reject ↦
                  take_rejections-Steps ref p p' client client'
                    (simp (no_entropy, no_four, no_six, reject) at h)
              | inr other ↦ subst (λ e. Steps client.config e) (ground arith) (done client.config)
            ]
          ]
        ]
      ]

  take_messages-Steps :
      (left limit : ℕ) (p : Pointer) (client client' : Client)
      → take_messages accepts stack now ref left limit p client ≡ ok client'
      → ClientSteps client client'
  unfolding take_messages
  take_messages-Steps zero limit p client client' h =
      subst (λ e. Steps client.config e) (ground arith) (done client.config)
  take_messages-Steps (suc left) limit p client client' h = elim (Bool-cases (ltb p.at limit)) [
    | inl more ↦
        let (msg, headed, h₁) = >>=-eq-ok (read_header p.bytes) _ (rw (take_messages, more) at h) in
        let ((next, p'), taken, h₂) =
          >>=-eq-ok (take_message accepts stack now ref msg p client) _ h₁ in
        let (q, moved, h₃) = >>=-eq-ok (next_message p') _ h₂ in
        Steps-append (take_message-Steps msg p p' client next taken)
          (take_messages-Steps left limit q next client' h₃)
    | inr over ↦ subst (λ e. Steps client.config e) (ground arith) (done client.config)
  ]

  parse_response-Steps :
      (buf_size : ℕ) (buffer : Bytes) (client client' : Client) (r : Bool)
      → parse_response accepts stack now ref buf_size buffer client ≡ ok (client', r)
      → ClientSteps client client'
  unfolding parse_response
  parse_response-Steps buf_size buffer client client' r h =
      let (pkt, headed, h₁) = >>=-eq-ok (read_header buffer) _ h in
      let (next, taken, h₂) =
        >>=-eq-ok (take_messages accepts stack now ref pkt.count _ _ client) _ h₁ in
      subst (λ e. Steps client.config e) (ground arith)
        (take_messages-Steps pkt.count _ _ client next taken)

  punish-Steps :
      (world : Surroundings) (client client' : Client)
      → punish world ref client ≡ ok client'
      → ClientSteps client client'
  unfolding punish
  punish-Steps world client client' h =
      let (config, failing, end) =
        >>=-eq-ok (increment_server_fail_count client.config ref world.fail_time world.ban_time) _
          h in
      subst (λ e. Steps client.config e) (ground arith)
        (one-Step (failed client.config config ref world.fail_time world.ban_time failing))

  add_time_entropy-config :
      (world : Surroundings) (client : Client)
      → (add_time_entropy world client).config ≡ client.config
  unfolding add_time_entropy
  add_time_entropy-config world client = ground arith

  take_reply-Steps :
      (fuel : ℕ) (world : Surroundings) (buffer : Bytes) (received : Received)
      (client client' : Client)
      → take_reply fuel accepts stack now world ref buffer received client ≡ ok client'
      → ClientSteps client client'
  unfolding take_reply
  take_reply-Steps fuel world buffer Received.failed client client' h =
      subst (λ e. Steps client.config e) (ground arith) (done client.config)
  take_reply-Steps fuel world buffer Received.timed_out client client' h =
      punish-Steps world client client' h
  take_reply-Steps fuel world buffer (Received.datagram bytes) client client' h =
      let received = take max_response_message_size bytes in
      let filled = received ++ drop (length received) buffer in
      let (valid, checked, h₁) = >>=-eq-ok (validate_response_packet fuel (some filled)) _ h in
      elim (Bool-cases valid) [
        | inl sound ↦
            let ((parsed, success), done_with, h₂) =
              >>=-eq-ok
                (parse_response accepts stack now ref max_response_message_size filled client) _
                (simp sound at h₁) in
            let (config, marked, end) =
              >>=-eq-ok (mark_server_successful parsed.config ref world.success_time) _ h₂ in
            subst (λ e. Steps client.config e)
              (ground (arith, add_time_entropy-config world (record parsed { config = config })))
              (Steps-append
                (parse_response-Steps max_response_message_size filled client parsed success
                  done_with)
                (one-Step (succeeded parsed.config config ref world.success_time marked)))
        | inr invalid ↦ punish-Steps world client client' (simp invalid at h₁)
      ]

module _ (fuel : ℕ) (accepts : Bytes → Bool) (stack : Bytes) (now : ℕ → ℕ)
    (world : Surroundings) where
  sent-Steps :
      (ref : ServerRef) (server : ServerRecord) (buffer : Bytes) (client : Client) (round : Round)
      (made : Option (Bytes × ℕ))
      → construct_request client.config server max_response_message_size buffer ≡ ok made
      → contact fuel accepts stack now world ref server buffer client ≡ ok round
      → ClientSteps client round.client
  unfolding contact
  sent-Steps ref server buffer client round none e h =
      subst (λ c. Steps client.config c) (ground arith) (done client.config)
  sent-Steps ref server buffer client round (some (request, size)) e h =
      elim (Bool-cases world.connects) [
        | inl connected ↦ elim (Bool-cases world.sends) [
          | inl sent ↦
              let (client', replied, end) =
                >>=-eq-ok
                  (take_reply fuel accepts stack now world ref request world.receives client) _
                  (simp (e, connected, sent) at h) in
              subst (λ c. Steps client.config c) (ground arith)
                (take_reply-Steps accepts stack now ref fuel world request world.receives client
                  client' replied)
          | inr unsent ↦ subst (λ c. Steps client.config c) (ground arith) (done client.config)
        ]
        | inr unconnected ↦ subst (λ c. Steps client.config c) (ground arith) (done client.config)
      ]

  contact-Steps :
      (ref : ServerRef) (server : ServerRecord) (buffer : Bytes) (client : Client) (round : Round)
      → contact fuel accepts stack now world ref server buffer client ≡ ok round
      → ClientSteps client round.client
  unfolding contact
  contact-Steps ref server buffer client round h =
      let (made, constructed, rest) =
        >>=-eq-ok (construct_request client.config server max_response_message_size buffer) _ h in
      sent-Steps ref server buffer client round made constructed h

  -- A round of the client that returns changes the configuration by operations of `NrpdConfig` only.
  pub client_round-Steps :
      (buffer : Bytes) (client : Client) (round : Round)
      → client_round fuel accepts stack now world buffer client ≡ ok round
      → ClientSteps client round.client
  unfolding client_round
  client_round-Steps buffer client round h =
      let ((config, ref), next, h₁) = >>=-eq-ok (get_next_server client.config) _ h in
      let (server, loaded, h₂) = >>=-eq-ok (load config ref) _ h₁ in
      let first = one-Step (chosen client.config config ref next) in
      elim (Bool-cases
        (leb world.now (server.last_access_time + server.retry_time * ticks_per_second))) [
          | inl early ↦ subst (λ c. Steps client.config c) (ground arith) first
          | inr due ↦ Steps-append first (
              contact-Steps ref server buffer (record client { config = config }) round
                (simp due at h₂))
        ]
