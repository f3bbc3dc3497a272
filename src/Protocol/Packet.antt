-- ===== src/Protocol/Packet.antt =====
-- The wire format described apart from the code: messages and packets as values, with their bytes,
-- and which messages a request or a response may hold.
use nrp_reference.Protocol.MsgType
use nrp_reference.Base.{
  ℕ, zero, suc, ◌+◌, ◌*◌, ◌≤◌, ◌<◌, ◌≡◌, ◌≢◌, ◌⊎◌, Bool, true, false, List, [], ◌∷◌, ◌++◌, length,
  All,
}
use nrp_reference.Protocol.Layout.{Bytes, header_bytes}

pub record Message : Type 0 where
  pub msg_type : ℕ
  pub count : ℕ
  pub content : Bytes

abbrev pub message_size : Message → ℕ
message_size m = 4 + length m.content

abbrev pub encode_message : Message → Bytes
encode_message m = header_bytes (message_size m) m.msg_type m.count ++ m.content

abbrev pub encode_messages : List Message → Bytes
encode_messages [] = []
encode_messages (m ∷ ms) = encode_message m ++ encode_messages ms

abbrev pub messages_size : List Message → ℕ
messages_size [] = 0
messages_size (m ∷ ms) = message_size m + messages_size ms

abbrev pub encode_packet : ℕ → List Message → Bytes
encode_packet msg_type ms =
    header_bytes (4 + messages_size ms) msg_type (length ms) ++ encode_messages ms

-- A message type that may be rejected, and a reason.
abbrev pub IsRejection : ℕ → ℕ → Type 0
IsRejection msg_type reason =
    (MsgType.request_msg_min ≤ msg_type)
    × (msg_type < MsgType.max)
    × (msg_type ≢ MsgType.entropy)
    × (reason < 4)

-- Exactly `n` rejections, of two bytes each.
abbrev pub Rejections : ℕ → Bytes → Type 0
Rejections zero [] = Unit
Rejections zero (t ∷ rest) = ⊥
Rejections (suc n) (t ∷ r ∷ rest) = IsRejection t r × Rejections n rest
Rejections (suc n) _ = ⊥

-- What a message of a response holds: peers, entropy or rejections, as many as it counts.
abbrev pub IsResponseBody : Message → Type 0
IsResponseBody m =
    ((m.msg_type ≡ MsgType.ip4peers) × (length m.content ≡ m.count * 6))
    ⊎ ((m.msg_type ≡ MsgType.entropy) × (length m.content ≡ m.count))
    ⊎ ((m.msg_type ≡ MsgType.ip6peers) × (length m.content ≡ m.count * 18))
    ⊎ ((m.msg_type ≡ MsgType.reject) × (0 < m.count) × Rejections m.count m.content)

-- What a message of a request holds: nothing, or anything under a type that servers may reject.
abbrev pub IsRequestBody : Message → Type 0
IsRequestBody m =
    ((MsgType.ip4peers ≤ m.msg_type) × (m.msg_type ≤ MsgType.ip6peers) × (m.content ≡ []))
    ⊎ (MsgType.ip6peers < m.msg_type)

abbrev pub IsBody : Bool → Message → Type 0
IsBody true m = IsRequestBody m
IsBody false m = IsResponseBody m

pub record IsMessage (is_request : Bool) (m : Message) : Type 0 where
  pub body : IsBody is_request m
  pub count_byte : m.count < 256
  pub size : message_size m < 65507

pub record IsPacket (is_request : Bool) (ms : List Message) : Type 0 where
  pub messages : All (IsMessage is_request) ms
  pub some_message : 0 < length ms
  pub count_byte : length ms < 256
  pub size : 4 + messages_size ms ≤ 65507

abbrev pub packet_type : Bool → ℕ
packet_type true = MsgType.request
packet_type false = MsgType.response
