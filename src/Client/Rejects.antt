-- ===== src/Client/Rejects.antt =====
-- client.cpp: `ParseRejectMessage`.
use nrp_reference.Base.{
  ℕ, zero, suc, ◌∷◌, Bool, true, false, Option, none, some, Outcome, ok, undefined, ◌>>=◌, ◌==◌,
  if◌then◌else◌,
}
use nrp_reference.Protocol.MsgType
use nrp_reference.Protocol.RejectReason
use nrp_reference.Protocol.Layout.{Bytes, read_header}
use nrp_reference.ServerRecord.{ServerRecord}
use nrp_reference.Config.Update.{back_off}

-- The inner `switch`: the server does not support a type of message.
unfoldable pub disable : ℕ → ServerRecord → ServerRecord
disable msg_type server =
    if msg_type == MsgType.ip4peers
    then record server { ip4_peers = false }
    else if msg_type == MsgType.ip6peers
    then record server { ip6_peers = false }
    else if msg_type == MsgType.signkey
    then record server { signkey = false }
    else server

-- The outer `switch`.
unfoldable pub apply_rejection : ℕ → ℕ → ServerRecord → ServerRecord
apply_rejection msg_type reason server =
    if reason == RejectReason.busy
    then record server { retry_time = back_off server.retry_time }
    else if reason == RejectReason.shuttingdown
    then record server { shuttingdown = true }
    else if reason == RejectReason.unsupported
    then disable msg_type server
    else server

-- The loop: `n` rejections are left, of which the first is at the start of the bytes.
unfoldable pub apply_rejections : ℕ → Bytes → ServerRecord → Outcome ServerRecord
apply_rejections zero rej server = ok server
apply_rejections (suc n) (msg_type ∷ reason ∷ rest) server =
    apply_rejections n rest (apply_rejection msg_type reason server)
apply_rejections (suc n) _ server = undefined

-- `ParseRejectMessage`: the server's record after the call, and the result.
unfoldable pub parse_reject_message : ServerRecord → Option Bytes → Outcome (ServerRecord × Bool)
parse_reject_message server none = ok (server, false)
parse_reject_message server (some msg) = do
  hdr ← read_header msg
  server' ← apply_rejections hdr.count hdr.content server
  ok (server', true)
