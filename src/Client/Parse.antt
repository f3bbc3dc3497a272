-- ===== src/Client/Parse.antt =====
-- client.cpp: `ParseResponse`.
use nrp_reference.Base.{
  ℕ, zero, suc, Bool, true, false, List, ◌∷◌, ◌++◌, Option, none, some, Outcome, ok, ◌>>=◌, ltb,
  ◌==◌, if◌then◌else◌, take,
}
use nrp_reference.Protocol.MsgType
use nrp_reference.Protocol.Layout.{
  Bytes, Header, Pointer, read_header, next_message, end_of_packet, packet_header_size,
  message_header_size,
}
use nrp_reference.Config.State.{Config}
use nrp_reference.Config.Servers.{ServerRef}
use nrp_reference.Config.Update.{load, store, add_servers_from_message}
use nrp_reference.Server.Responses.{RandomDevice}
use nrp_reference.Client.Entropy.{scramble_entropy, consume_entropy}
use nrp_reference.Config.Accessors.{enable_client_ip4, enable_client_ip6}
use nrp_reference.Client.Rejects.{parse_reject_message}

-- What the client works on: the configuration, what the random device still has to give, and what was
-- written to it, the latest first.
pub record Client : Type 0 where
  pub config : Config
  pub device : RandomDevice
  pub consumed : List Bytes

abbrev pub consume : Option Bytes → Client → Client
consume none client = client
consume (some bytes) client = record client { consumed = bytes ∷ client.consumed }

-- `case entropy`: the content is changed in place.
unfoldable pub take_entropy :
    (Bytes → Bool) → Bytes → Header → Pointer → Client → Outcome (Client × Pointer)
take_entropy accepts stack msg p client = do
  (device, content, scrambled) ← scramble_entropy client.device stack msg.count msg.content
  (written, success) ← consume_entropy accepts msg.count content
  ok (
    consume written (record client { device = device }),
    record p { bytes = take message_header_size p.bytes ++ content },
  )

-- `AddServersFromMessage`, if the client has the family enabled.
unfoldable pub take_peers : Bool → (ℕ → ℕ) → Pointer → Client → Outcome (Client × Pointer)
take_peers false now p client = ok (client, p)
take_peers true now p client = do
  (config, added) ← add_servers_from_message client.config (some p.bytes) now
  ok (record client { config = config }, p)

-- `ParseRejectMessage`, through the reference to the server's record.
unfoldable pub take_rejections : ServerRef → Pointer → Client → Outcome (Client × Pointer)
take_rejections ref p client = do
  server ← load client.config ref
  (server', parsed) ← parse_reject_message server (some p.bytes)
  ok (record client { config = store client.config ref server' }, p)

-- The `switch`. `now` gives the readings of the clock while peers are added.
unfoldable pub take_message :
    (Bytes → Bool)
    → Bytes
    → (ℕ → ℕ)
    → ServerRef
    → Header
    → Pointer
    → Client
    → Outcome (Client × Pointer)
take_message accepts stack now ref msg p client =
    if msg.msg_type == MsgType.entropy
    then take_entropy accepts stack msg p client
    else if msg.msg_type == MsgType.ip4peers
    then take_peers (enable_client_ip4 client.config) now p client
    else if msg.msg_type == MsgType.ip6peers
    then take_peers (enable_client_ip6 client.config) now p client
    else if msg.msg_type == MsgType.reject
    then take_rejections ref p client
    else ok (client, p)

-- The loop: `left` is `msgCount` of the packet less that of the loop, and `limit` the smaller of the
-- buffer's size and the end of the packet.
unfoldable pub take_messages :
    (Bytes → Bool) → Bytes → (ℕ → ℕ) → ServerRef → ℕ → ℕ → Pointer → Client → Outcome Client
take_messages accepts stack now ref zero limit p client = ok client
take_messages accepts stack now ref (suc left) limit p client = elim (ltb p.at limit) [
  | false ↦ ok client
  | true ↦ do
    msg ← read_header p.bytes
    (client', p') ← take_message accepts stack now ref msg p client
    q ← next_message p'
    take_messages accepts stack now ref left limit q client'
]

-- `ParseResponse`, which always returns `true`.
unfoldable pub parse_response :
    (Bytes → Bool) → Bytes → (ℕ → ℕ) → ServerRef → ℕ → Bytes → Client → Outcome (Client × Bool)
parse_response accepts stack now ref buf_size buffer client = do
  pkt ← read_header buffer
  let limit = if ltb buf_size (end_of_packet pkt) then buf_size else end_of_packet pkt
  client' ←
      take_messages accepts stack now ref pkt.count limit
        (record { at = packet_header_size; bytes = pkt.content }) client
  ok (client', true)
