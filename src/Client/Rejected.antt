-- ===== src/Client/Rejected.antt =====
-- What the rejections of a server change.
use nrp_reference.Base.{
  ℕ, zero, suc, ◌<◌, ◌≡◌, refl, sym, [], ◌∷◌, ◌++◌, Bool, true, false, ◌&&◌, ◌||◌, not, some, ok,
  ◌==◌, arith,
}
use nrp_reference.Protocol.MsgType
use nrp_reference.Protocol.RejectReason
use nrp_reference.Protocol.Layout.{Bytes}
use nrp_reference.Protocol.Packet.{Message, message_size, encode_message, Rejections}
use nrp_reference.Protocol.Complete.{read_header-encode}
use nrp_reference.ServerRecord.{ServerRecord}
use nrp_reference.Client.Rejects.{disable, apply_rejection, apply_rejections, parse_reject_message}

-- Whether some rejection says that the server does not support the type.
abbrev pub is_refused : ℕ → Bytes → Bool
is_refused t (msg_type ∷ reason ∷ rest) =
    ((msg_type == t) && (reason == RejectReason.unsupported)) || is_refused t rest
is_refused t _ = false

abbrev pub is_leaving : Bytes → Bool
is_leaving (msg_type ∷ reason ∷ rest) = (reason == RejectReason.shuttingdown) || is_leaving rest
is_leaving _ = false

-- The record after rejections, in terms of the rejections as a whole.
abbrev pub after_rejections : Bytes → ServerRecord → ServerRecord
after_rejections content server = record server {
  ip4_peers = server.ip4_peers && not (is_refused MsgType.ip4peers content);
  ip6_peers = server.ip6_peers && not (is_refused MsgType.ip6peers content);
  signkey = server.signkey && not (is_refused MsgType.signkey content);
  shuttingdown = server.shuttingdown || is_leaving content;
}

after_rejections-step :
    (t r : ℕ) (content : Bytes) (server : ServerRecord)
    → after_rejections content (apply_rejection t r server)
      ≡ after_rejections (t ∷ r ∷ content) server
unfolding apply_rejection disable
after_rejections-step t r content server = ground arith

apply_rejections-after :
    (n : ℕ) (content rest : Bytes) (server : ServerRecord)
    → Rejections n content
    → apply_rejections n (content ++ rest) server ≡ ok (after_rejections content server)
unfolding apply_rejections
apply_rejections-after zero [] rest server good = ground arith
apply_rejections-after zero (t ∷ content) rest server good = absurd good
apply_rejections-after (suc n) [] rest server good = absurd good
apply_rejections-after (suc n) (t ∷ []) rest server good = absurd good
apply_rejections-after (suc n) (t ∷ r ∷ content) rest server (q, good) =
    rw (sym (after_rejections-step t r content server))
      (apply_rejections-after n content rest (apply_rejection t r server) good)

-- A well-formed reject message is read in full and without a fault. The server's peers and signing-key
-- flags are cleared exactly if some rejection in it calls them unsupported, the shutting-down flag is set
-- exactly if some rejection gives that reason, and nothing else changes, `retryTime` neither.
pub parse_reject_message-after_rejections :
    (server : ServerRecord) (m : Message) (rest : Bytes)
    → message_size m < 65507
    → Rejections m.count m.content
    → parse_reject_message server (some (encode_message m ++ rest))
      ≡ ok (after_rejections m.content server, true)
unfolding parse_reject_message
parse_reject_message-after_rejections server m rest small good =
    rw
      (
        read_header-encode m rest (omega arith),
        apply_rejections-after m.count m.content rest server good,
      )
      refl
