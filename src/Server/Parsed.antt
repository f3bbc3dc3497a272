-- ===== src/Server/Parsed.antt =====
-- `ParseMessages` as a whole, on a request that passed validation.
use nrp_reference.Base.{
  ℕ, ◌+◌, ◌-◌, ◌*◌, ◌≤◌, ◌<◌, ◌≡◌, refl, ap, true, false, List, [], ◌∷◌, some, Outcome, ok,
  undefined, out_of_fuel, ◌>>=◌, arith, length, All, map, if_cases, ◌==◌,
}
use nrp_reference.Base.Int.{pos}
use nrp_reference.Protocol.Layout.{Bytes, Header}
use nrp_reference.Protocol.Packet.{Message, message_size, messages_size, encode_message, IsMessage}
use nrp_reference.Protocol.Sound.{IsByte, read_header_bytes}
use nrp_reference.Protocol.Walk.{TypesBelow}
use nrp_reference.Protocol.Accept.{Accepted}
use nrp_reference.Config.State.{Config}
use nrp_reference.Server.Sizes.{to_u32, calculate_message_size, calculate_message_size_lem}
use nrp_reference.Server.Responses.{RandomDevice}
use nrp_reference.Server.Parse.{Progress, reject_message, add_rejections, parse_messages}
use nrp_reference.Server.Progress.{Inv, Finishes, answer_messages-Finishes}
use nrp_reference.Server.Replies.{
  IsReply, accepted, rejected, rejection_message, reject_message-encode, rejection_size,
}

-- What `ParseMessages` hands to the server's loop.
pub record Parsed (bound mtu : ℕ) (s : Progress) : Type 0 where
  pub sent : List Message
  pub msgs : s.msgs ≡ map encode_message sent
  pub replies : All (IsReply bound) sent
  pub total : s.out_message_length ≡ messages_size sent
  pub fits : 4 + s.out_message_length ≤ mtu
  pub few : length sent < 256

IsReply-All : (bound : ℕ) (ms : List Message) → All (IsMessage false) ms → All (IsReply bound) ms
IsReply-All bound [] all = tt
IsReply-All bound (m ∷ ms) all = (accepted all.0, IsReply-All bound ms all.1)

-- Each message takes five bytes, so that not many fit.
length-le-messages_size :
    (ms : List Message) → All (λ m. 5 ≤ message_size m) ms → length ms * 5 ≤ messages_size ms
length-le-messages_size [] all = omega arith
length-le-messages_size (m ∷ ms) all = omega (arith, length-le-messages_size ms all.1, all.0)

abbrev Parses : ℕ → ℕ → Outcome Progress → Type 0
Parses bound mtu (ok s) = Parsed bound mtu s
Parses bound mtu _ = ⊥

module _ (bound mtu n : ℕ) (s : Progress) (v : Inv bound (mtu - 4) n s) (b : bound ≤ 256)
    (lo : 4 < mtu) (hi : mtu ≤ 1236) (few : n < 256) where
  without_rejections : Parsed bound mtu s
  without_rejections = record {
    sent = v.sent;
    msgs = v.msgs;
    replies = IsReply-All bound v.sent v.messages;
    total = v.total;
    fits = omega (arith, v.accounted);
    few = omega (arith, length-le-messages_size v.sent v.filled, v.total, v.accounted);
  }

  with_rejections :
      (size k : ℕ)
      → 0 < k
      → k ≤ length s.rejections
      → size ≡ 4 + 2 * k
      → size ≤ v.left
      → Parses bound mtu (
          reject_message k size s.rejections >>= λ message.
          ok (record s {
            msgs = message ∷ s.msgs;
            out_message_length = s.out_message_length + size;
          }))
  with_rejections size k more le e room =
      rw
        (
          reject_message-encode bound k size s.rejections v.refused b more
              (omega (arith, v.rejected)) le e,
          Parses,
        )
        (record {
          sent = rejection_message k s.rejections ∷ v.sent;
          msgs = ap (◌∷◌ (encode_message (rejection_message k s.rejections))) v.msgs;
          replies = (
            rejected k s.rejections v.refused more (omega (arith, v.rejected)) le refl,
            IsReply-All bound v.sent v.messages,
          );
          total = omega (arith, v.total, rejection_size k s.rejections le);
          fits = omega (arith, v.accounted);
          few = omega (arith, length-le-messages_size v.sent v.filled, v.total, v.accounted);
        })

  add_rejections-Parses : Parses bound mtu (add_rejections s)
  unfolding add_rejections
  add_rejections-Parses =
      let P = Parses bound mtu in
      let sized = calculate_message_size (to_u32 s.bytes_remaining) 2 (length s.rejections) in
      let law =
        calculate_message_size_lem (to_u32 s.bytes_remaining) 2 (length s.rejections)
          (omega arith) in
      let left : to_u32 s.bytes_remaining ≡ v.left =
        rw v.remaining_bytes (omega (arith, v.accounted)) in
      if_cases P (length s.rejections == 0) (ok s) _ (λ h. without_rejections)
        (λ h.
          if_cases P (sized.0 == 0) (ok s) _ (λ z. without_rejections)
            (λ z.
              with_rejections sized.0 sized.1 (ground arith) (ground arith) (ground arith)
                (ground arith)))

Parses-bind :
    (bound mtu n : ℕ) (m : Outcome Progress)
    → Finishes bound (mtu - 4) n m
    → bound ≤ 256
    → 4 < mtu
    → mtu ≤ 1236
    → n < 256
    → Parses bound mtu (m >>= add_rejections)
Parses-bind bound mtu n (ok s) (k, le, v) b lo hi few =
    add_rejections-Parses bound mtu k s v b lo hi (omega arith)
Parses-bind bound mtu n undefined h b lo hi few = absurd h
Parses-bind bound mtu n out_of_fuel h b lo hi few = absurd h

Parses-ok :
    (bound mtu : ℕ) (m : Outcome Progress)
    → Parses bound mtu m
    → (s : Progress) × (m ≡ ok s) × Parsed bound mtu s
Parses-ok bound mtu (ok s) v = (s, refl, v)
Parses-ok bound mtu undefined v = absurd v
Parses-ok bound mtu out_of_fuel v = absurd v

start-Inv :
    (bound mtu : ℕ) (config : Config) (device : RandomDevice)
    → config.default_entropy < 256
    → Inv bound (mtu - 4) 0 (record {
      config = config;
      device = device;
      bytes_remaining = pos (mtu - 4);
      out_message_length = 0;
      msgs = [];
      rejections = [];
    })
start-Inv bound mtu config device d = record {
  sent = [];
  left = mtu - 4;
  msgs = refl;
  messages = tt;
  filled = tt;
  total = refl;
  remaining_bytes = refl;
  accounted = omega arith;
  refused = tt;
  rejected = omega arith;
  entropy_size = d;
}

-- A request of bytes that passed validation, with message types below a bound of 256 at most, is parsed
-- within the fuel of its validation and without a fault, for a packet space of 5 to 1236 bytes: every
-- message of the reply is well-formed or holds rejections of types below the bound, there are at most 255
-- of them, and together with the packet's header they fit into the packet's space.
pub parse_messages-Parsed :
    (bound fuel mtu : ℕ) (config : Config) (device : RandomDevice) (buffer : Bytes) (pkt : Header)
    → (a : Accepted true fuel buffer pkt)
    → TypesBelow bound true pkt.length pkt.count
        (record { at = 4; bytes = pkt.content })
        a.end
        a.walk
    → bound ≤ 256
    → All IsByte buffer
    → config.default_entropy < 256
    → 4 < mtu
    → mtu ≤ 1236
    → (s : Progress) × (parse_messages fuel mtu config device (some buffer) ≡ ok (some s))
      × Parsed bound mtu s
unfolding parse_messages
parse_messages-Parsed bound fuel mtu config device buffer pkt a types b bytes d lo hi =
    let (spelt, len, count_byte, content) = read_header_bytes buffer pkt a.header bytes in
    let loop =
      answer_messages-Finishes bound pkt.length (mtu - 4) pkt.count fuel 0 pkt.count
        (record { at = 4; bytes = pkt.content }) a.end _ (omega arith) a.within_fuel a.walk types
        content (omega arith) (start-Inv bound mtu config device d) in
    let (s, e, v) =
      Parses-ok bound mtu _ (Parses-bind bound mtu pkt.count _ loop b lo hi count_byte) in
    (s, ground (arith, a.header, e), v)
