-- ===== src/Server/Responses.antt =====
-- server.cpp: `GeneratePeersResponse` and `GenerateEntropyResponse`. The random device is the list of
-- what its next reads return: `none` for an error, or the bytes that it has, of which a read takes as
-- many as it asks for at most.
use nrp_reference.Base.{
  ℕ, ◌+◌, ◌-◌, List, [], ◌∷◌, Option, none, some, Outcome, ok, ◌>>=◌, ltb, ◌==◌, if◌then◌else◌,
  length, take, replicate, min,
}
use nrp_reference.Base.Int.{ℤ, pos, pos_part}
use nrp_reference.Protocol.Layout.{Bytes, message_header_size, ip4_peer_size, ip6_peer_size}
use nrp_reference.Protocol.MsgType
use nrp_reference.Protocol.Generate.{
  Written, to_byte, generate_response_peers_message, generate_response_entropy_message,
}
use nrp_reference.Config.State.{Config}
use nrp_reference.Config.Servers.{active_server_count, get_server_list}
use nrp_reference.Config.Accessors.{default_entropy_bytes}
use nrp_reference.Server.Sizes.{to_u32, calculate_message_size}

-- The buffer that a generator filled: what it wrote, and what it left of the zeros.
abbrev pub buffer_of : Option Written → Option Bytes
buffer_of none = none
buffer_of (some w) = some w.written

-- The end of `GeneratePeersResponse`, for the size of the response and the number of peers in it.
unfoldable pub send_peers : Config → ℕ → ℕ × ℕ → Outcome (Config × Option Bytes × ℕ)
send_peers c msg_type (response_size, count) =
    let (c', list) = get_server_list c msg_type (pos count) in
    if response_size == 0 then ok (c, none, 0) else (do
      made ←
          generate_response_peers_message msg_type (to_byte count) list response_size
            (some (replicate response_size 0))
      ok (c', buffer_of made, response_size))

abbrev pub peers_wanted : ℤ → ℕ → ℕ
peers_wanted total msg_count =
    if msg_count == 0 then pos_part total else min (pos_part total) msg_count

-- `GeneratePeersResponse`: the configuration with its counts, the message and `outResponseSize`.
unfoldable pub generate_peers_response : Config → ℕ → ℕ → ℤ → Outcome (Config × Option Bytes × ℕ)
generate_peers_response c msg_type msg_count available_bytes =
    let size = if msg_type == MsgType.ip6peers then ip6_peer_size else ip4_peer_size in
    let (c', total) = active_server_count c msg_type in
    let wanted = peers_wanted total msg_count in
    if wanted == 0
    then ok (c', none, 0)
    else send_peers c' msg_type (calculate_message_size (to_u32 available_bytes) size wanted)

-- `read` of the random device.
abbrev pub RandomDevice : Type 0
RandomDevice = List (Option Bytes)

abbrev pub read_random : RandomDevice → ℕ → Option Bytes × RandomDevice
read_random [] n = (none, [])
read_random (none ∷ rest) n = (none, rest)
read_random (some bytes ∷ rest) n = (some (take n bytes), rest)

-- The end of `GenerateEntropyResponse`, after the read: `data` is an array of `data_size` zeros that
-- the read has filled from its start.
unfoldable pub entropy_message : Option Bytes → ℕ → ℕ → Outcome (Option Bytes × ℕ)
entropy_message none data_size actual_size = ok (none, 0)
entropy_message (some bytes) data_size actual_size =
    let read_size = length bytes in
    let message_size =
      if ltb read_size data_size then message_header_size + read_size else actual_size in
    if read_size == 0 then ok (none, 0) else (do
      made ←
          generate_response_entropy_message (to_byte read_size) (some bytes) message_size
            (some (replicate message_size 0))
      ok (elim made [ none ↦ (none, 0) | some w ↦ (some w.written, message_size) ]))

-- `GenerateEntropyResponse`: the device after the call, the message and `outResponseSize`.
unfoldable pub generate_entropy_response :
    Config → RandomDevice → ℕ → ℤ → Outcome (RandomDevice × Option Bytes × ℕ)
generate_entropy_response c device requested bytes_remaining =
    let wanted = if requested == 0 then (default_entropy_bytes c) else requested in
    let (actual_size, count) = calculate_message_size (to_u32 bytes_remaining) 1 wanted in
    let (bytes, device') = read_random device (actual_size - message_header_size) in
    if actual_size == 0 then ok (device, none, 0) else (do
      (message, size) ← entropy_message bytes (actual_size - message_header_size) actual_size
      ok (device', message, size))
