-- ===== src/Protocol/Generated.antt =====
-- What the generators write is the encoding of a message or of a packet's header.
use nrp_reference.Protocol.MsgType
use nrp_reference.Base.{
  ℕ, ◌+◌, ◌*◌, ◌≤◌, ◌<◌, ◌≡◌, ◌⊎◌, inl, inr, false, some, ok, arith, length, take, drop,
  length-take, length-drop, drop-add,
}
use nrp_reference.Protocol.Layout.{Bytes, header_bytes}
use nrp_reference.Protocol.Generate.{
  Written, write, read_bytes, write_message, peer_size, generate_response_entropy_message,
  generate_response_peers_message,
}
use nrp_reference.Protocol.Packet.{Message, message_size, encode_message, IsMessage}

pub write_room :
    (bytes dst : Bytes) (n : ℕ)
    → length bytes ≡ n
    → n ≤ length dst
    → write bytes dst ≡ ok (record { written = bytes; next = drop n dst })
unfolding write
write_room bytes dst n e h = ground arith

pub read_bytes_room : (n : ℕ) (src : Bytes) → n ≤ length src → read_bytes n src ≡ ok (take n src)
unfolding read_bytes
read_bytes_room n src h = ground arith

-- A message of the given type and count, with the first bytes of the source.
abbrev pub copied : ℕ → ℕ → ℕ → Bytes → Message
copied msg_type count size src = record {
  msg_type = msg_type;
  count = count;
  content = take size src;
}

abbrev pub written_message : Message → Bytes → Written
written_message m dst = record { written = encode_message m; next = drop (message_size m) dst }

pub length-take_le : (n : ℕ) (xs : Bytes) → n ≤ length xs → length (take n xs) ≡ n
length-take_le n xs h = omega (arith, length-take n xs)

pub write_message-encode :
    (msg_type count size : ℕ) (src dst : Bytes)
    → size ≤ length src
    → 4 + size ≤ length dst
    → write_message msg_type count size src dst
      ≡ ok (some (written_message (copied msg_type count size src) dst))
unfolding write_message
write_message-encode msg_type count size src dst h room = ground (
  arith,
  read_bytes_room size src h,
  length-take_le size src h,
  length-drop 4 dst,
  drop-add 4 size dst,
  write_room (header_bytes (4 + size) msg_type count) dst 4,
  write_room (take size src) (drop 4 dst) size,
)

-- `GenerateResponsePeersMessage`, for a type of peers, a count above zero, as many bytes of peers and a
-- buffer of the stated size that has room for them, writes the encoding of the message with those peers.
pub generate_response_peers_message-encode :
    (ip_type count buffer_size : ℕ) (peers dst : Bytes)
    → (ip_type ≡ MsgType.ip4peers) ⊎ (ip_type ≡ MsgType.ip6peers)
    → 0 < count
    → 4 + count * peer_size ip_type ≤ buffer_size
    → count * peer_size ip_type ≤ length peers
    → buffer_size ≤ length dst
    → generate_response_peers_message ip_type count (some peers) buffer_size (some dst)
      ≡ ok (some (written_message (copied ip_type count (count * peer_size ip_type) peers) dst))
unfolding generate_response_peers_message
generate_response_peers_message-encode ip_type count buffer_size peers dst (inl t) c room have
      fits =
    ground (arith, write_message-encode ip_type count (count * peer_size ip_type) peers dst have)
generate_response_peers_message-encode ip_type count buffer_size peers dst (inr t) c room have
      fits =
    ground (arith, write_message-encode ip_type count (count * peer_size ip_type) peers dst have)

-- `GenerateResponseEntropyMessage`, for a length above zero, as many bytes of entropy and a buffer of the
-- stated size that has room for them, writes the encoding of the message with that entropy.
pub generate_response_entropy_message-encode :
    (len buffer_size : ℕ) (entropy dst : Bytes)
    → 0 < len
    → 4 + len ≤ buffer_size
    → len ≤ length entropy
    → buffer_size ≤ length dst
    → generate_response_entropy_message len (some entropy) buffer_size (some dst)
      ≡ ok (some (written_message (copied MsgType.entropy len len entropy) dst))
unfolding generate_response_entropy_message
generate_response_entropy_message-encode len buffer_size entropy dst c room have fits =
    ground (arith, write_message-encode MsgType.entropy len len entropy dst have)

-- What the two generators copy makes a well-formed message of a response.
pub copied_peers-IsMessage :
    (ip_type count : ℕ) (peers : Bytes)
    → (ip_type ≡ MsgType.ip4peers) ⊎ (ip_type ≡ MsgType.ip6peers)
    → count < 256
    → count * peer_size ip_type ≤ length peers
    → IsMessage false (copied ip_type count (count * peer_size ip_type) peers)
copied_peers-IsMessage ip_type count peers t c have = record {
  body = ground (arith, length-take_le (count * peer_size ip_type) peers have);
  count_byte = c;
  size = ground (arith, length-take_le (count * peer_size ip_type) peers have);
}

pub copied-entropy-IsMessage :
    (len : ℕ) (bytes : Bytes)
    → len < 256
    → len ≤ length bytes
    → IsMessage false (copied MsgType.entropy len len bytes)
copied-entropy-IsMessage len bytes c have = record {
  body = ground (arith, length-take_le len bytes have);
  count_byte = c;
  size = omega (arith, length-take_le len bytes have);
}
