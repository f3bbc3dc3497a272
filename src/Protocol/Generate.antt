-- ===== src/Protocol/Generate.antt =====
-- protocol.cpp: the generators. A generator takes the bytes from its destination pointer to the end of
-- the array (`none` for a null pointer). It returns `none` for its `nullptr`, or the bytes that it
-- wrote at the pointer with what lies behind them, which is where the pointer that it returns points.
use nrp_reference.Protocol.MsgType
use nrp_reference.Protocol.RejectReason
use nrp_reference.Base.{
  ℕ, ◌+◌, ◌*◌, ◌%◌, Bool, ◌&&◌, not, [], ◌∷◌, ◌++◌, Option, none, some, Outcome, ok, undefined,
  ◌>>=◌, ltb, leb, ◌==◌, if◌then◌else◌, length, take, drop,
}
use nrp_reference.Protocol.Layout.{
  Bytes, header_bytes, message_header_size, reject_size, ip4_peer_size, ip6_peer_size,
  max_request_message_size, max_response_message_size,
}

pub record Written : Type 0 where
  pub written : Bytes
  pub next : Bytes

-- A store of bytes at a pointer: outside the array it is undefined.
unfoldable pub write : Bytes → Bytes → Outcome Written
write bytes dst =
    if leb (length bytes) (length dst)
    then ok (record { written = bytes; next = drop (length bytes) dst })
    else undefined

-- The bytes that `memcpy` reads.
unfoldable pub read_bytes : ℕ → Bytes → Outcome Bytes
read_bytes n src = if leb n (length src) then ok (take n src) else undefined

abbrev pub to_byte : ℕ → ℕ
to_byte n = n % 256

-- A header, then a copy of `size` bytes of the source behind it.
unfoldable pub write_message : ℕ → ℕ → ℕ → Bytes → Bytes → Outcome (Option Written)
write_message msg_type count size src dst = do
  hdr ← write (header_bytes (message_header_size + size) msg_type count) dst
  content ← read_bytes size src
  body ← write content hdr.next
  ok (some (record { written = hdr.written ++ body.written; next = body.next }))

unfoldable pub generate_request_entropy_message : ℕ → Option Bytes → Outcome (Option Written)
generate_request_entropy_message requested none = ok none
generate_request_entropy_message requested (some dst) = do
  hdr ← write (header_bytes message_header_size MsgType.entropy requested) dst
  ok (some hdr)

unfoldable pub generate_response_entropy_message :
    ℕ → Option Bytes → ℕ → Option Bytes → Outcome (Option Written)
generate_response_entropy_message len none buffer_size buffer = ok none
generate_response_entropy_message len (some entropy) buffer_size none = ok none
generate_response_entropy_message len (some entropy) buffer_size (some dst) =
    if len == 0
    then ok none
    else if ltb buffer_size (message_header_size + len)
    then ok none
    else write_message MsgType.entropy len len entropy dst

-- `ipType != ip4peers && ipType != ip6peers`.
abbrev pub is_not_peers : ℕ → Bool
is_not_peers ip_type = not (ip_type == MsgType.ip4peers) && not (ip_type == MsgType.ip6peers)

unfoldable pub generate_request_peers_message : ℕ → ℕ → Option Bytes → Outcome (Option Written)
generate_request_peers_message ip_type count none = ok none
generate_request_peers_message ip_type count (some dst) =
    if is_not_peers ip_type
    then ok none
    else (do hdr ← write (header_bytes message_header_size ip_type count) dst; ok (some hdr))

abbrev pub peer_size : ℕ → ℕ
peer_size ip_type = if ip_type == MsgType.ip4peers then ip4_peer_size else ip6_peer_size

unfoldable pub generate_response_peers_message :
    ℕ → ℕ → Option Bytes → ℕ → Option Bytes → Outcome (Option Written)
generate_response_peers_message ip_type count peers buffer_size none = ok none
generate_response_peers_message ip_type count none buffer_size (some dst) = ok none
generate_response_peers_message ip_type count (some peers) buffer_size (some dst) =
    if is_not_peers ip_type
    then ok none
    else if count == 0
    then ok none
    else if ltb buffer_size (message_header_size + count * peer_size ip_type)
    then ok none
    else write_message ip_type count (count * peer_size ip_type) peers dst

unfoldable pub generate_reject_header : ℕ → Option Bytes → Outcome (Option Written)
generate_reject_header count none = ok none
generate_reject_header count (some dst) = do
  hdr ← write (header_bytes (message_header_size + reject_size * count) MsgType.reject count) dst
  ok (some hdr)

unfoldable pub generate_reject_message : ℕ → ℕ → Option Bytes → Outcome (Option Written)
generate_reject_message reason msg_type none = ok none
generate_reject_message reason msg_type (some dst) =
    if leb RejectReason.max reason
    then ok none
    else (do rej ← write (to_byte msg_type ∷ to_byte reason ∷ []) dst; ok (some rej))

unfoldable pub generate_packet_header : ℕ → ℕ → ℕ → Option Bytes → Outcome (Option Written)
generate_packet_header len msg_type count none = ok none
generate_packet_header len msg_type count (some dst) =
    if not (msg_type == MsgType.request) && not (msg_type == MsgType.response)
    then ok none
    else if ltb
        (if msg_type == MsgType.request
          then max_request_message_size
          else max_response_message_size)
        len
    then ok none
    else if count == 0
    then ok none
    else (do hdr ← write (header_bytes len msg_type count) dst; ok (some hdr))
