-- ===== src/Protocol/Layout.antt =====
-- protocol.h: sizes and headers, as bytes; and the pointer arithmetic of protocol.cpp. A byte is a
-- number below 256. A pointer into a packet is its offset from the packet's start with the bytes of
-- the array from there on, so that a read past the array's end shows: it is undefined.
use nrp_reference.Base.{
  ℕ, ◌+◌, ◌*◌, ◌/◌, ◌%◌, List, [], ◌∷◌, ◌++◌, Outcome, ok, undefined, ◌>>=◌, drop,
}

abbrev pub Bytes : Type 0
Bytes = List ℕ

-- `sizeof` of the packed structures.
abbrev pub packet_header_size : ℕ
packet_header_size = 4

abbrev pub message_header_size : ℕ
message_header_size = 4

abbrev pub reject_size : ℕ
reject_size = 2

abbrev pub ip4_peer_size : ℕ
ip4_peer_size = 6

abbrev pub ip6_peer_size : ℕ
ip6_peer_size = 18

abbrev pub max_byte : ℕ
max_byte = 255

abbrev pub max_request_message_size : ℕ
max_request_message_size = 65507

abbrev pub max_response_message_size : ℕ
max_response_message_size = 65507

abbrev pub max_reject_message_size : ℕ
max_reject_message_size = message_header_size + max_byte * reject_size

abbrev pub default_entropy_size : ℕ
default_entropy_size = 8

abbrev pub max_entropy_size : ℕ
max_entropy_size = 512

abbrev pub client_min_retry_seconds : ℕ
client_min_retry_seconds = 60

abbrev pub client_response_timeout_seconds : ℕ
client_response_timeout_seconds = 30

abbrev pub client_max_server_timeout_count : ℕ
client_max_server_timeout_count = 5

abbrev pub max_ip6_packet_size : ℕ
max_ip6_packet_size = 1236

abbrev pub max_ip4_packet_size : ℕ
max_ip4_packet_size = 532

-- A header, of a packet or of a message, with the bytes that follow it. `length` is the number that
-- `ntohs` makes of the two bytes in network order; the third field is `msgCount` or `countOrSize`.
pub record Header : Type 0 where
  pub length : ℕ
  pub msg_type : ℕ
  pub count : ℕ
  pub content : Bytes

-- A header that crosses the end of its array is an access outside the array.
unfoldable pub read_header : Bytes → Outcome Header
read_header (b0 ∷ b1 ∷ t ∷ c ∷ rest) =
    ok (record { length = b0 * 256 + b1; msg_type = t; count = c; content = rest })
read_header _ = undefined

abbrev pub htons : ℕ → Bytes
htons n = n / 256 % 256 ∷ n % 256 ∷ []

abbrev pub header_bytes : ℕ → ℕ → ℕ → Bytes
header_bytes len msg_type count = htons len ++ msg_type ∷ count ∷ []

pub record Pointer : Type 0 where
  pub at : ℕ
  pub bytes : Bytes

-- `NextMessage(msg, count)`.
abbrev pub advance : Pointer → ℕ → Pointer
advance p n = record { at = p.at + n; bytes = drop n p.bytes }

-- `NextMessage(msg)`: on by the length that the message's header states.
unfoldable pub next_message : Pointer → Outcome Pointer
next_message p = do hdr ← read_header p.bytes; ok (advance p hdr.length)

-- `EndOfPacket`, as an offset from the packet's start.
abbrev pub end_of_packet : Header → ℕ
end_of_packet pkt = pkt.length
