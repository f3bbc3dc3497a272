-- ===== src/Server/Answers.antt =====
-- Every message that `GeneratePeersResponse` and `GenerateEntropyResponse` return is well-formed and
-- fits into the space that they were given, and neither leaves an array.
use nrp_reference.Base.{
  ℕ, ◌+◌, ◌-◌, ◌*◌, ◌%◌, ◌^◌, ◌≤◌, ◌<◌, ◌≡◌, ◌⊎◌, refl, sym, ◌∙◌, subst, inl, inr, ap, true, false,
  [], ◌∷◌, Option, none, some, Outcome, ok, undefined, out_of_fuel, arith, length, drop, replicate,
  length-replicate, length-append, length-drop, length-take, ltb, ◌==◌, if◌then◌else◌, if_cases,
  min, ◌>>=◌,
}
use nrp_reference.Base.Int.{ℤ, pos, pos_part}
use nrp_reference.Protocol.Layout.{Bytes, ip4_peer_size, ip6_peer_size, message_header_size}
use nrp_reference.Protocol.MsgType
use nrp_reference.Protocol.Packet.{Message, message_size, encode_message, IsMessage}
use nrp_reference.Protocol.Generate.{Written, to_byte, peer_size, generate_response_peers_message}
use nrp_reference.Protocol.Generated.{
  copied, written_message, length-take_le, generate_response_peers_message-encode,
  generate_response_entropy_message-encode, copied_peers-IsMessage, copied-entropy-IsMessage,
}
use nrp_reference.Config.State.{Config}
use nrp_reference.Config.Servers.{active_server_count, get_server_list, copy_servers, filled}
use nrp_reference.Server.Sizes.{to_u32, calculate_message_size, calculate_message_size_lem}
use nrp_reference.Server.Responses.{
  buffer_of, send_peers, peers_wanted, generate_peers_response, RandomDevice, read_random,
  entropy_message, generate_entropy_response,
}

-- Nothing, or the bytes of a well-formed message whose size is the one reported and fits.
abbrev pub IsAnswer : ℕ → Option Bytes → ℕ → Type 0
IsAnswer room none size = Unit
IsAnswer room (some bytes) size =
    (m : Message) × IsMessage false m
    × (bytes ≡ encode_message m)
    × (size ≡ message_size m)
    × (size ≤ room)
    × (5 ≤ size)

abbrev pub IsPeers : ℕ → Type 0
IsPeers t = (t ≡ MsgType.ip4peers) ⊎ (t ≡ MsgType.ip6peers)

-- The two functions agree on the number of servers, and change nothing else that matters here.
active_server_count_again :
    (c : Config) (t : ℕ)
    → active_server_count (active_server_count c t).0 t ≡ active_server_count c t
unfolding active_server_count
active_server_count_again c t = ground arith

active_server_count_keeps :
    (c : Config) (t : ℕ) → (active_server_count c t).0.default_entropy ≡ c.default_entropy
unfolding active_server_count
active_server_count_keeps c t = ground arith

get_server_list_keeps :
    (c : Config) (t : ℕ) (n : ℤ) → (get_server_list c t n).0.default_entropy ≡ c.default_entropy
unfolding get_server_list
get_server_list_keeps c t n = ground (arith, active_server_count_keeps c t)

length-filled : (size : ℕ) (bytes : Bytes) → size ≤ length (filled size bytes)
length-filled size bytes = omega (
  arith,
  length-append bytes (drop (length bytes) (replicate size 0)),
  length-drop (length bytes) (replicate {A = ℕ} size 0),
  length-replicate {A = ℕ} size 0,
)

-- An array that is returned has room for as many peers as were asked for and exist.
length-get_server_list :
    (c : Config) (t n : ℕ) (list : Bytes)
    → IsPeers t
    → (get_server_list c t (pos n)).1 ≡ some list
    → n ≤ pos_part (active_server_count c t).1
    → n * peer_size t ≤ length list
unfolding get_server_list
length-get_server_list c t n list (inl e) h l =
    let actual = min (pos_part (active_server_count c t).1) n in
    let servers = (active_server_count c t).0.active_servers in
    ground (arith, length-filled (actual * 6) (copy_servers false actual 0 servers))
length-get_server_list c t n list (inr e) h l =
    let actual = min (pos_part (active_server_count c t).1) n in
    let servers = (active_server_count c t).0.active_servers in
    ground (arith, length-filled (actual * 18) (copy_servers true actual 0 servers))

-- What the two functions return, as a predicate of the outcome: an answer, the entropy size as before.
abbrev pub PeersAnswer : ℕ → ℕ → Outcome (Config × Option Bytes × ℕ) → Type 0
PeersAnswer room d (ok (c, message, size)) = IsAnswer room message size × (c.default_entropy ≡ d)
PeersAnswer room d _ = ⊥

module _ (t count size room : ℕ) (p : IsPeers t) (c : 0 < count)
    (e : size ≡ 4 + peer_size t * count) (f : size ≤ room) (r : room < 1300) where
  count-lt : count < 217
  count-lt = ground arith

  generate_peers-made :
      (list : Option Bytes)
      → ((bytes : Bytes) → list ≡ some bytes → count * peer_size t ≤ length bytes)
      → (made : Option Written) × (generate_response_peers_message t
            (to_byte count)
            list
            size
            (some (replicate size 0))
          ≡ ok made)
        × IsAnswer room (buffer_of made) size
  unfolding generate_response_peers_message
  generate_peers-made none have = (none, refl, tt)
  generate_peers-made (some bytes) have =
      let m : Message = copied t count (count * peer_size t) bytes in
      let long = have bytes refl in
      let byte : to_byte count ≡ count = omega (arith, count-lt) in
      let same : size ≡ message_size m =
        omega (arith, length-take_le (count * peer_size t) bytes long) in
      (
        some (written_message m (replicate size 0)),
        rw byte (
            generate_response_peers_message-encode t count size bytes (replicate size 0) p c
              (omega arith) long (omega (arith, length-replicate {A = ℕ} size 0))),
        (
          m,
          copied_peers-IsMessage t count bytes p (omega (arith, count-lt)) long,
          refl,
          same,
          f,
          ground arith,
        ),
      )

-- What `CalculateMessageSize` hands on: nothing, or a size with the number of peers that fit.
abbrev Fits : ℕ → ℕ → ℕ → ℕ × ℕ → Type 0
Fits t room limit (size, count) =
    (size ≡ 0) ⊎ ((0 < count) × (size ≡ 4 + peer_size t * count) × (size ≤ room) × (count ≤ limit))

calculate_message_size-Fits :
    (t room wanted limit : ℕ)
    → IsPeers t
    → room < 1300
    → 0 < wanted
    → wanted ≤ limit
    → Fits t room limit (
        calculate_message_size
          (to_u32 (pos room))
          (if t == MsgType.ip6peers then ip6_peer_size else ip4_peer_size)
          wanted)
calculate_message_size-Fits t room wanted limit (inl e) r w l =
    ground (arith, calculate_message_size_lem (room % 2 ^ 32) 6 wanted)
calculate_message_size-Fits t room wanted limit (inr e) r w l =
    ground (arith, calculate_message_size_lem (room % 2 ^ 32) 18 wanted)

peers_wanted-le : (total : ℤ) (asked : ℕ) → peers_wanted total asked ≤ pos_part total
peers_wanted-le total asked = ground arith

send_peers-PeersAnswer :
    (c : Config) (t room size count : ℕ)
    → IsPeers t
    → Fits t room (pos_part (active_server_count c t).1) (size, count)
    → room < 1300
    → PeersAnswer room c.default_entropy (send_peers c t (size, count))
unfolding send_peers
send_peers-PeersAnswer c t room size count p (inl e) r = rw e (tt, refl)
send_peers-PeersAnswer c t room size count p (inr (more, e, f, l)) r =
    let (c', list) = get_server_list c t (pos count) in
    let (made, done, answer) =
      generate_peers-made t count size room p more e f r (get_server_list c t (pos count)).1
        (λ bytes h. length-get_server_list c t count bytes p h l) in
    if_cases (PeersAnswer room c.default_entropy) (size == 0) _ _ (λ h. (tt, refl))
      (λ h. rw done (answer, get_server_list_keeps c t (pos count)))

-- `GeneratePeersResponse`, for a type of peers and a space of 1 to 1299 bytes, ends without a fault. It
-- makes nothing, or the bytes of a well-formed message that fits, with the size it reports; and it leaves
-- the size of default entropy requests as it was.
pub generate_peers_response-PeersAnswer :
    (c : Config) (t asked room : ℕ)
    → IsPeers t
    → 0 < room
    → room < 1300
    → PeersAnswer room c.default_entropy (generate_peers_response c t asked (pos room))
unfolding generate_peers_response
generate_peers_response-PeersAnswer c t asked room p more small =
    let again = active_server_count_again c t in
    let keeps = active_server_count_keeps c t in
    let total = (active_server_count c t).1 in
    let limit = peers_wanted-le total asked in
    if_cases (PeersAnswer room c.default_entropy) (peers_wanted total asked == 0) _ _
      (λ h. (tt, keeps))
      (λ h.
        let size = if t == MsgType.ip6peers then ip6_peer_size else ip4_peer_size in
        let r = calculate_message_size (to_u32 (pos room)) size (peers_wanted total asked) in
        let fits =
          calculate_message_size-Fits t room (peers_wanted total asked) (pos_part total) p small
            (ground arith) limit in
        let counted = ap (λ (r : Config × ℤ). pos_part r.1) again in
        subst (λ d. PeersAnswer room d (send_peers (active_server_count c t).0 t r)) keeps
          (send_peers-PeersAnswer (active_server_count c t).0 t room r.0 r.1 p
            (subst (λ l. Fits t room l r) (sym counted) fits) small))

-- What `GenerateEntropyResponse` returns.
abbrev pub EntropyAnswer : ℕ → Outcome (RandomDevice × Option Bytes × ℕ) → Type 0
EntropyAnswer room (ok (device, message, size)) = IsAnswer room message size
EntropyAnswer room _ = ⊥

abbrev MessageAnswer : ℕ → Outcome (Option Bytes × ℕ) → Type 0
MessageAnswer room (ok (message, size)) = IsAnswer room message size
MessageAnswer room _ = ⊥

-- The message for what was read, which may be less than was asked for.
entropy_message-MessageAnswer :
    (bytes : Option Bytes) (data_size actual_size room : ℕ)
    → ((bs : Bytes) → bytes ≡ some bs → length bs ≤ data_size)
    → actual_size ≡ 4 + data_size
    → actual_size ≤ room
    → data_size < 256
    → MessageAnswer room (entropy_message bytes data_size actual_size)
unfolding entropy_message
entropy_message-MessageAnswer none data_size actual_size room le e f d = tt
entropy_message-MessageAnswer (some bytes) data_size actual_size room le e f d =
    if_cases (MessageAnswer room) (length bytes == 0) _ _ (λ h. tt)
      (λ h.
        let n = length bytes in
        let short = le bytes refl in
        let m : Message = copied MsgType.entropy n n bytes in
        let size : (if ltb n data_size then message_header_size + n else actual_size) ≡ 4 + n =
          ground arith in
        let byte : to_byte n ≡ n = omega arith in
        let same : 4 + n ≡ message_size m = omega (arith, length-take_le n bytes (omega arith)) in
        rw
          (
            size,
            byte,
            generate_response_entropy_message-encode n (4 + n) bytes (replicate (4 + n) 0)
                (ground arith) (omega arith) (omega arith)
                (omega (arith, length-replicate {A = ℕ} (4 + n) 0)),
          )
          (
            m,
            copied-entropy-IsMessage n bytes (omega arith) (omega arith),
            refl,
            size ∙ same,
            rw size (omega arith),
            rw size (ground arith),
          ))

read_random-le :
    (device : RandomDevice) (n : ℕ) (bs : Bytes)
    → (read_random device n).0 ≡ some bs
    → length bs ≤ n
read_random-le [] n bs h = cc
read_random-le (none ∷ rest) n bs h = cc
read_random-le (some bytes ∷ rest) n bs h = ground (arith, length-take n bytes)

EntropyAnswer-bind :
    (room : ℕ) (device : RandomDevice) (m : Outcome (Option Bytes × ℕ))
    → MessageAnswer room m
    → EntropyAnswer room (m >>= λ r. ok (device, r.0, r.1))
EntropyAnswer-bind room device (ok (message, size)) h = h
EntropyAnswer-bind room device undefined h = h
EntropyAnswer-bind room device out_of_fuel h = h

-- `GenerateEntropyResponse`, for a space of less than 1300 bytes and sizes below 256, requested and by
-- default, ends without a fault. It makes nothing, or the bytes of a well-formed message that fits, with
-- the size it reports, whatever the random device gives.
pub generate_entropy_response-EntropyAnswer :
    (c : Config) (device : RandomDevice) (asked room : ℕ)
    → asked < 256
    → c.default_entropy < 256
    → room < 1300
    → EntropyAnswer room (generate_entropy_response c device asked (pos room))
unfolding generate_entropy_response
generate_entropy_response-EntropyAnswer c device asked room a d r =
    let wanted = if asked == 0 then c.default_entropy else asked in
    let sized = calculate_message_size (to_u32 (pos room)) 1 wanted in
    let law = calculate_message_size_lem (room % 2 ^ 32) 1 wanted (omega arith) in
    let n = sized.0 - 4 in
    if_cases (EntropyAnswer room) (sized.0 == 0) _ _ (λ h. tt)
      (λ h.
        EntropyAnswer-bind room (read_random device n).1
          (entropy_message (read_random device n).0 n sized.0)
          (entropy_message-MessageAnswer (read_random device n).0 n sized.0 room
            (read_random-le device n) (ground arith) (ground arith) (ground arith)))
