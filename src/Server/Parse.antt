-- ===== src/Server/Parse.antt =====
-- server.cpp: `ParseMessages`, which answers the messages of a request one by one.
use nrp_reference.Base.{
  ℕ, zero, suc, ◌+◌, ◌-◌, ◌*◌, true, false, ◌&&◌, ◌||◌, List, [], ◌∷◌, ◌++◌, Option, none, some,
  Outcome, ok, undefined, out_of_fuel, ◌>>=◌, ltb, leb, ◌==◌, if◌then◌else◌, length, replicate,
}
use nrp_reference.Base.Int.{ℤ, pos, ◌-ℤ◌}
use nrp_reference.Protocol.Layout.{
  Bytes, Header, Pointer, read_header, next_message, end_of_packet, packet_header_size, reject_size,
}
use nrp_reference.Protocol.MsgType
use nrp_reference.Protocol.RejectReason
use nrp_reference.Protocol.Generate.{to_byte, generate_reject_header, generate_reject_message}
use nrp_reference.Config.State.{Config, enable_peers_response}
use nrp_reference.Config.Servers.{is_positive}
use nrp_reference.Server.Sizes.{to_u32, calculate_message_size, calculate_remaining_bytes}
use nrp_reference.Server.Responses.{
  RandomDevice, generate_peers_response, generate_entropy_response,
}

-- `Nrp_Message_Reject`.
pub record Reject : Type 0 where
  pub msg_type : ℕ
  pub reason : ℕ

-- The variables of the loop, with the configuration and the random device.
pub record Progress : Type 0 where
  pub config : Config
  pub device : RandomDevice
  pub bytes_remaining : ℤ
  pub out_message_length : ℕ
  pub msgs : List Bytes
  pub rejections : List Reject

abbrev pub remaining : Progress → ℤ
remaining s = calculate_remaining_bytes s.bytes_remaining (length s.rejections)

-- `rejections.push_back({currentMsg->msgType, unsupported})`.
abbrev pub reject : ℕ → Progress → Progress
reject msg_type s = record s {
  rejections =
      s.rejections ++ (record { msg_type = msg_type; reason = RejectReason.unsupported } ∷ []);
}

-- `if(tempMsgBuffer != nullptr)`.
abbrev pub append : Option Bytes → ℕ → Progress → Progress
append none response_size s = s
append (some message) response_size s = record s {
  msgs = s.msgs ++ (message ∷ []);
  bytes_remaining = s.bytes_remaining -ℤ pos response_size;
  out_message_length = s.out_message_length + response_size;
}

-- The `switch` of the loop, and the test behind it.
unfoldable pub answer : Header → Progress → Outcome Progress
answer msg s =
    if msg.msg_type == MsgType.ip4peers || msg.msg_type == MsgType.ip6peers
    then (if enable_peers_response s.config msg.msg_type
        then (do
          (config, message, size) ←
              generate_peers_response s.config msg.msg_type msg.count (remaining s)
          ok (append message size (record s { config = config })))
        else ok (reject msg.msg_type s))
    else if msg.msg_type == MsgType.entropy
    then (do
      (device, message, size) ← generate_entropy_response s.config s.device msg.count (remaining s)
      ok (append message size (record s { device = device })))
    else ok (reject msg.msg_type s)

-- The loop, on fuel.
unfoldable pub answer_messages : ℕ → ℕ → Pointer → Progress → Outcome Progress
answer_messages zero end p s = out_of_fuel
answer_messages (suc fuel) end p s = elim (ltb p.at end && is_positive (remaining s)) [
  | false ↦ ok s
  | true ↦ do
    msg ← read_header p.bytes
    s' ← answer msg s
    q ← next_message p
    answer_messages fuel end q s'
]

-- The loop that writes the rejections: `left` is what is left of the message, in bytes. Had the
-- generator returned a null pointer, it would go on returning that, and nothing more would be written.
unfoldable pub write_rejections : ℕ → List Reject → Bytes → Outcome Bytes
write_rejections left [] dst = ok []
write_rejections left (rej ∷ rest) dst = elim (ltb 0 left) [
  | false ↦ ok []
  | true ↦ do
    made ← generate_reject_message rej.reason rej.msg_type (some dst)
    elim made [
      | none ↦ ok []
      | some w ↦ do
        others ← write_rejections (left - reject_size) rest w.next
        ok (w.written ++ others)
    ]
]

-- The message with the rejections, in a new array of `response_size` zeros.
unfoldable pub reject_message : ℕ → ℕ → List Reject → Outcome Bytes
reject_message msg_count response_size rejections = do
  made ← generate_reject_header (to_byte msg_count) (some (replicate response_size 0))
  elim made [
    | none ↦ undefined
    | some hdr ↦ do
      body ← write_rejections (msg_count * reject_size) rejections hdr.next
      ok (hdr.written ++ body)
  ]

-- What follows the loop: the rejections go first.
unfoldable pub add_rejections : Progress → Outcome Progress
add_rejections s =
    let (response_size, msg_count) =
      calculate_message_size (to_u32 s.bytes_remaining) reject_size (length s.rejections) in
    if length s.rejections == 0 then ok s else if response_size == 0 then ok s else (do
      message ← reject_message msg_count response_size s.rejections
      ok (record s {
        msgs = message ∷ s.msgs;
        out_message_length = s.out_message_length + response_size;
      }))

-- `ParseMessages`: `none` for its `return false`.
unfoldable pub parse_messages :
    ℕ → ℕ → Config → RandomDevice → Option Bytes → Outcome (Option Progress)
parse_messages fuel mtu config device none = ok none
parse_messages fuel mtu config device (some buffer) =
    if leb mtu packet_header_size then ok none else (do
      pkt ← read_header buffer
      s ←
          answer_messages fuel (end_of_packet pkt)
            (record { at = packet_header_size; bytes = pkt.content })
            (record {
              config = config;
              device = device;
              bytes_remaining = pos (mtu - packet_header_size);
              out_message_length = 0;
              msgs = [];
              rejections = [];
            })
      s' ← add_rejections s
      ok (some s'))
