-- ===== src/Protocol/Validate.antt =====
-- protocol.cpp: the validators. A null pointer is `none`. The loop over the messages of a packet runs
-- on fuel; `Protocol.Termination` says how much is enough, and for which packets there is none.
use nrp_reference.Protocol.MsgType
use nrp_reference.Protocol.RejectReason
use nrp_reference.Base.{
  ℕ, zero, suc, ◌+◌, ◌-◌, ◌*◌, ◌%◌, ◌^◌, Bool, true, false, ◌&&◌, ◌||◌, not, ◌∷◌, Option, none,
  some, Outcome, ok, undefined, out_of_fuel, ◌>>=◌, ltb, leb, ◌==◌, if◌then◌else◌,
}
use nrp_reference.Protocol.Layout.{
  Bytes, Header, Pointer, read_header, next_message, end_of_packet, message_header_size,
  reject_size, packet_header_size, ip4_peer_size, ip6_peer_size, max_request_message_size,
  max_response_message_size, max_reject_message_size,
}

-- `ntohs(hdr->length) - sizeof(*hdr)`, in the 64 bits of `size_t`.
abbrev pub content_size : Header → ℕ
content_size hdr = (hdr.length + 2 ^ 64 - message_header_size) % 2 ^ 64

unfoldable pub validate_message_size : Header → ℕ → Bool
validate_message_size hdr msg_size = content_size hdr == hdr.count * msg_size

-- One rejection of the loop in `ValidateRejectMessage`.
unfoldable pub validate_rejection : ℕ → ℕ → Bool
validate_rejection msg_type reason =
    not (
      leb MsgType.max msg_type
      || ltb msg_type MsgType.request_msg_min
      || msg_type == MsgType.entropy)
    && not (leb RejectReason.max reason)

unfoldable pub validate_rejections : ℕ → Bytes → Outcome Bool
validate_rejections zero content = ok true
validate_rejections (suc n) (msg_type ∷ reason ∷ rest) =
    let others = validate_rejections n rest in
    if validate_rejection msg_type reason then others else ok false
validate_rejections (suc n) _ = undefined

-- `ValidateRejectMessage`, behind its test for a null pointer.
unfoldable pub validate_reject_header : Header → Outcome Bool
validate_reject_header hdr =
    if ltb max_reject_message_size hdr.length
    then ok false
    else if not (hdr.msg_type == MsgType.reject)
    then ok false
    else if hdr.count == 0
    then ok false
    else if not (content_size hdr % reject_size == 0)
    then ok false
    else validate_rejections hdr.count hdr.content

unfoldable pub validate_reject_message : Option Bytes → Outcome Bool
validate_reject_message none = ok false
validate_reject_message (some p) = do hdr ← read_header p; validate_reject_header hdr

-- The `switch` of `ValidateMessageHeader`: that the size and the count agree.
unfoldable pub validate_content : Header → Bool → Outcome Bool
validate_content hdr is_request =
    if hdr.msg_type == MsgType.reject
    then (if is_request
        then ok false
        else if not (validate_message_size hdr reject_size)
        then ok false
        else validate_reject_header hdr)
    else if hdr.msg_type == MsgType.ip4peers
    then ok (validate_message_size hdr (if is_request then 0 else ip4_peer_size))
    else if hdr.msg_type == MsgType.entropy
    then ok (validate_message_size hdr (if is_request then 0 else 1))
    else if hdr.msg_type == MsgType.ip6peers
    then ok (validate_message_size hdr (if is_request then 0 else ip6_peer_size))
    else ok is_request

-- `ValidateMessageHeader`, behind its test for a null pointer.
unfoldable pub validate_header : Header → Bool → Outcome Bool
validate_header hdr is_request =
    if leb max_response_message_size hdr.length
    then ok false
    else if ltb hdr.msg_type
        (if is_request then MsgType.request_msg_min else MsgType.response_msg_min)
    then ok false
    else if leb MsgType.max hdr.msg_type && not is_request
    then ok false
    else validate_content hdr is_request

unfoldable pub validate_message_header : Option Bytes → Bool → Outcome Bool
validate_message_header none is_request = ok false
validate_message_header (some p) is_request = do hdr ← read_header p; validate_header hdr is_request

-- The loop of `ValidatePacket`: `none` is its `return false`, otherwise the pointer and the count
-- with which it ends.
unfoldable pub validate_messages : ℕ → Bool → ℕ → Pointer → ℕ → Outcome (Option (Pointer × ℕ))
validate_messages zero is_request end p count = out_of_fuel
validate_messages (suc fuel) is_request end p count = elim (ltb p.at end) [
  | false ↦ ok (some (p, count))
  | true ↦ do
    good ← validate_message_header (some p.bytes) is_request
    elim good [
      | false ↦ ok none
      | true ↦ do q ← next_message p; validate_messages fuel is_request end q (count + 1)
    ]
]

-- The two tests behind that loop.
abbrev pub validate_totals : Header → Option (Pointer × ℕ) → Bool
validate_totals pkt none = false
validate_totals pkt (some (p, count)) =
    if not (pkt.count == count) then false else if ltb (end_of_packet pkt) p.at then false else true

unfoldable pub validate_packet_header : ℕ → Header → Bool → Outcome Bool
validate_packet_header fuel pkt is_request =
    if ltb (if is_request then max_request_message_size else max_response_message_size) pkt.length
    then ok false
    else if not (pkt.msg_type == (if is_request then MsgType.request else MsgType.response))
    then ok false
    else if pkt.count == 0
    then ok false
    else (do
      end ←
          validate_messages fuel is_request (end_of_packet pkt)
            (record { at = packet_header_size; bytes = pkt.content }) 0
      ok (validate_totals pkt end))

unfoldable pub validate_packet : ℕ → Option Bytes → Bool → Outcome Bool
validate_packet fuel none is_request = ok false
validate_packet fuel (some buffer) is_request = do
  pkt ← read_header buffer
  validate_packet_header fuel pkt is_request

abbrev pub validate_request_packet : ℕ → Option Bytes → Outcome Bool
validate_request_packet fuel pkt = validate_packet fuel pkt true

abbrev pub validate_response_packet : ℕ → Option Bytes → Outcome Bool
validate_response_packet fuel pkt = validate_packet fuel pkt false
