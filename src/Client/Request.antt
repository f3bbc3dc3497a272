-- ===== src/Client/Request.antt =====
-- client.cpp: `ConstructRequest`.
use nrp_reference.Base.{
  ℕ, ◌+◌, ◌*◌, Bool, true, false, ◌&&◌, [], ◌++◌, Option, none, some, Outcome, ok, ◌>>=◌, ltb,
  if◌then◌else◌, length, drop,
}
use nrp_reference.Protocol.MsgType
use nrp_reference.Protocol.Layout.{Bytes, packet_header_size, message_header_size}
use nrp_reference.Protocol.Generate.{
  Written, to_byte, generate_request_entropy_message, generate_request_peers_message,
  generate_packet_header,
}
use nrp_reference.ServerRecord.{ServerRecord}
use nrp_reference.Config.Accessors.{default_entropy_bytes, enable_client_ip4, enable_client_ip6}
use nrp_reference.Config.State.{Config}

-- The variables of the function: what is written behind the packet's header, where `msg` points,
-- `msgCount` and `msgSize`.
pub record Draft : Type 0 where
  pub body : Bytes
  pub msg : Option Bytes
  pub msg_count : ℕ
  pub msg_size : ℕ

-- `msg = Generate…; msgCount++; msgSize += sizeof(Nrp_Header_Message)`.
abbrev pub add_message : Draft → Option Written → Draft
add_message d none = record d {
  msg = none;
  msg_count = d.msg_count + 1;
  msg_size = d.msg_size + message_header_size;
}
add_message d (some w) = record {
  body = d.body ++ w.written;
  msg = some w.next;
  msg_count = d.msg_count + 1;
  msg_size = d.msg_size + message_header_size;
}

-- A request for peers, if the server and the client have the family enabled.
unfoldable pub request_peers : Bool → ℕ → Draft → Outcome Draft
request_peers false msg_type d = ok d
request_peers true msg_type d = do
  made ← generate_request_peers_message msg_type 0 d.msg
  ok (add_message d made)

abbrev pub one_if : Bool → ℕ
one_if b = if b then 1 else 0

abbrev pub server_msg_support_count : ServerRecord → ℕ
server_msg_support_count server =
    2 + one_if server.signkey + one_if server.ip4_peers + one_if server.ip6_peers

-- The messages, behind the packet's header.
unfoldable pub request_messages : Config → ServerRecord → Bytes → Outcome Draft
request_messages c server messages = do
  made ← generate_request_entropy_message (to_byte (default_entropy_bytes c)) (some messages)
  let empty : Draft = record {
    body = [];
    msg = some messages;
    msg_count = 0;
    msg_size = packet_header_size;
  }
  d4 ←
      request_peers (server.ip4_peers && (enable_client_ip4 c)) MsgType.ip4peers
        (add_message empty made)
  request_peers (server.ip6_peers && (enable_client_ip6 c)) MsgType.ip6peers d4

-- `ConstructRequest`: `none` for its `return false`, or the buffer and `outPktSize`.
unfoldable pub construct_request : Config → ServerRecord → ℕ → Bytes → Outcome (Option (Bytes × ℕ))
construct_request c server buf_size buffer =
    if ltb buf_size (message_header_size * server_msg_support_count server) then ok none else (do
      d ← request_messages c server (drop packet_header_size buffer)
      made ← generate_packet_header d.msg_size MsgType.request (to_byte d.msg_count) (some buffer)
      elim made [
        | none ↦ ok none
        | some hdr ↦ ok (some (hdr.written ++ d.body ++ drop (length d.body) hdr.next, d.msg_size))
      ])
