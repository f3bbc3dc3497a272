-- ===== src/Server/Loop.antt =====
-- server.cpp: one round of `NrpdServer::ServerLoop`, from a datagram that arrived to the one that is sent.
use nrp_reference.Base.{
  ℕ, ◌+◌, ◌-◌, List, [], ◌∷◌, ◌++◌, Option, none, some, Outcome, ok, undefined, ◌>>=◌, ltb,
  if◌then◌else◌, length, take, drop, replicate,
}
use nrp_reference.MruCache
use nrp_reference.MruCache.{MruCache}
use nrp_reference.StdHelpers.{SockaddrStorage, sockaddr_eq, is_address_ip4}
use nrp_reference.Protocol.Layout.{
  Bytes, read_header, packet_header_size, max_request_message_size, max_response_message_size,
  max_ip4_packet_size, max_ip6_packet_size,
}
use nrp_reference.Protocol.MsgType
use nrp_reference.Protocol.Validate.{validate_request_packet}
use nrp_reference.Protocol.Generate.{write, read_bytes, to_byte, generate_packet_header}
use nrp_reference.Config.State.{Config}
use nrp_reference.Server.Responses.{RandomDevice}
use nrp_reference.Server.Parse.{Progress, parse_messages}

pub data ServerState : Type 0 where
  notinitialized initialized running stopping destroying : ServerState

-- `NrpdServer`, without the two file descriptors. The configuration is shared with the client; the
-- device is what the random device still has to give.
pub record NrpdServer : Type 0 where
  pub state : ServerState
  pub recent_clients : MruCache SockaddrStorage
  pub config : Config
  pub device : RandomDevice
  pub mtu : ℕ

-- The start of `ServerLoop`: `none` where it returns `EXIT_FAILURE`.
unfoldable pub start_loop : NrpdServer → Option NrpdServer
start_loop server = elim server.state [
  | notinitialized ↦ none
  | initialized ↦ some (record server { state = running })
  | running ↦ none
  | stopping ↦ none
  | destroying ↦ none
]

-- The array after `memset` and `recvfrom`, which writes at most `MAX_REQUEST_MESSAGE_SIZE` bytes.
unfoldable pub receive_buffer : Bytes → Bytes
receive_buffer datagram =
    let received = take max_request_message_size datagram in
    received ++ replicate (max_response_message_size - length received) 0

-- The loop that copies the messages to where `msg` points: the bytes that it writes, one message after
-- the other. `NextMessage` reads the length that was just copied.
unfoldable pub copy_messages : List Bytes → Bytes → Outcome Bytes
copy_messages [] dst = ok []
copy_messages (message ∷ rest) dst = do
  hdr ← read_header message
  content ← read_bytes hdr.length message
  w ← write content dst
  others ← copy_messages rest w.next
  ok (w.written ++ others)

-- The array after the header and the messages are written over the request. A null pointer from
-- `GeneratePacketHeader` leaves the array as it was if there is nothing to copy to it.
unfoldable pub fill_response : ℕ → List Bytes → Bytes → Outcome Bytes
fill_response message_length msgs buffer = do
  made ←
      generate_packet_header message_length MsgType.response (to_byte (length msgs)) (some buffer)
  elim made [
    | none ↦ elim msgs [ [] ↦ ok buffer | message ∷ rest ↦ undefined ]
    | some hdr ↦ do
      body ← copy_messages msgs hdr.next
      ok (hdr.written ++ body ++ drop (length body) hdr.next)
  ]

-- The `assert`, the response, and what `sendto` is given.
unfoldable pub send_response : NrpdServer → Bytes → Progress → Outcome (NrpdServer × Option Bytes)
send_response server buffer parsed =
    let message_length = parsed.out_message_length + packet_header_size in
    let answered = record server { config = parsed.config; device = parsed.device } in
    if ltb server.mtu message_length then undefined else (do
      response ← fill_response message_length parsed.msgs buffer
      sent ← read_bytes message_length response
      ok (answered, some sent))

-- `Set the "MTU"`.
abbrev pub set_mtu : NrpdServer → SockaddrStorage → NrpdServer
set_mtu server src_addr = record server {
  mtu = if is_address_ip4 src_addr then max_ip4_packet_size else max_ip6_packet_size;
}

-- The answer to a request that passed validation, from a client that is not banned. A failure of
-- `ParseMessages` keeps its changes of the configuration, but it fails before it makes any.
unfoldable pub answer_request : ℕ → NrpdServer → Bytes → Outcome (NrpdServer × Option Bytes)
answer_request fuel server buffer = do
  parsed ← parse_messages fuel server.mtu server.config server.device (some buffer)
  elim parsed [ none ↦ ok (server, none) | some s ↦ send_response server buffer s ]

-- One round of the loop, for a datagram and where it came from, or `none` for an error of `recvfrom`.
-- The result is what is sent, if anything. `now` gives the readings of the clock by `IsPresentAdd`.
unfoldable pub serve :
    ℕ
    → NrpdServer
    → Option (Bytes × SockaddrStorage)
    → (ℕ → ℕ)
    → Outcome (NrpdServer × Option Bytes)
serve fuel server none now = ok (server, none)
serve fuel server (some (datagram, src_addr)) now = do
  let buffer = receive_buffer datagram
  valid ← validate_request_packet fuel (some buffer)
  let (clients, present, schedule) =
      MruCache.is_present_add sockaddr_eq server.recent_clients src_addr (now 0) (now 1) (now 2)
        (now 3)
  if valid
      then (if present
          then ok (record server { recent_clients = clients }, none)
          else answer_request fuel (set_mtu (record server { recent_clients = clients }) src_addr)
              buffer)
      else ok (server, none)
