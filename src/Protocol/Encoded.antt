-- ===== src/Protocol/Encoded.antt =====
-- The walk of `ValidatePacket` over a well-formed packet.
use nrp_reference.Base.{
  ℕ, suc, ◌≤◌, ◌+◌, ◌<◌, ◌≡◌, refl, Bool, List, [], ◌∷◌, ◌++◌, length, All, append_assoc, arith,
  drop, ok, subst, sym, ap,
}
use nrp_reference.Protocol.Layout.{Bytes, Header, Pointer, read_header}
use nrp_reference.Protocol.Packet.{
  Message, message_size, encode_message, encode_messages, messages_size, encode_packet, IsMessage,
  IsPacket, packet_type,
}
use nrp_reference.Protocol.Complete.{
  header_of, read_header-encode, validate_header-encode, drop-encode,
}
use nrp_reference.Protocol.Walk.{Walk, TypesBelow}
use nrp_reference.Protocol.Accept.{Accepted}

abbrev pub TypedWalk : ℕ → Bool → ℕ → ℕ → Pointer → Pointer → Type 0
TypedWalk bound is_request end n p q =
    (w : Walk is_request end n p q) × TypesBelow bound is_request end n p q w

walk-encode :
    (bound : ℕ) (is_request : Bool) (ms : List Message) (rest : Bytes) (end at : ℕ)
    → All (IsMessage is_request) ms
    → All (λ (m : Message). m.msg_type < bound) ms
    → at + messages_size ms ≡ end
    → TypedWalk bound is_request end
        (length ms)
        (record { at = at; bytes = encode_messages ms ++ rest })
        (record { at = end; bytes = rest })
walk-encode bound is_request [] rest end at v t e =
    ((omega arith, ap (λ i. record { at = i; bytes = rest }) (omega arith)), tt)
walk-encode bound is_request (m ∷ ms) rest end at (v, vs) (t, ts) e =
    let after = encode_messages ms ++ rest in
    let assoc = append_assoc (encode_message m) (encode_messages ms) rest in
    let (w, types) =
      walk-encode bound is_request ms rest end (at + message_size m) vs ts (omega arith) in
    let next : TypedWalk bound is_request end (length ms)
        (record {
          at = at + message_size m;
          bytes = drop (message_size m) (encode_message m ++ after);
        })
        (record { at = end; bytes = rest }) =
      subst
        (λ bs.
          TypedWalk bound is_request end (length ms)
            (record { at = at + message_size m; bytes = bs }) (record { at = end; bytes = rest }))
        (sym (drop-encode m after)) (w, types) in
    subst
      (λ bs.
        TypedWalk bound is_request end (suc (length ms)) (record { at = at; bytes = bs })
          (record { at = end; bytes = rest }))
      (sym assoc)
      (
        (
          omega arith,
          (
            header_of m after,
            read_header-encode m after (omega (arith, v.size)),
            validate_header-encode is_request m after v,
            next.0,
          ),
        ),
        (t, next.1),
      )

-- The header of the packet, with what stands behind it.
abbrev pub packet_header : Bool → List Message → Bytes → Header
packet_header is_request ms rest = record {
  length = 4 + messages_size ms;
  msg_type = packet_type is_request;
  count = length ms;
  content = encode_messages ms ++ rest;
}

pub read_header-packet :
    (is_request : Bool) (ms : List Message) (rest : Bytes)
    → 4 + messages_size ms ≤ 65507
    → length ms < 256
    → read_header (encode_packet (packet_type is_request) ms ++ rest)
      ≡ ok (packet_header is_request ms rest)
unfolding read_header
read_header-packet is_request ms rest size count = ground arith

abbrev pub AcceptedBelow : ℕ → Bool → ℕ → Bytes → Header → Type 0
AcceptedBelow bound is_request fuel buffer pkt =
    (a : Accepted is_request fuel buffer pkt) × TypesBelow bound is_request pkt.length pkt.count
      (record { at = 4; bytes = pkt.content }) a.end a.walk

pub Accepted-encode_packet :
    (bound : ℕ) (is_request : Bool) (ms : List Message) (rest : Bytes) (fuel : ℕ)
    → IsPacket is_request ms
    → All (λ (m : Message). m.msg_type < bound) ms
    → length ms < fuel
    → AcceptedBelow bound is_request fuel
        (encode_packet (packet_type is_request) ms ++ rest)
        (packet_header is_request ms rest)
unfolding read_header
Accepted-encode_packet bound is_request ms rest fuel v t f =
    let (w, types) =
      walk-encode bound is_request ms rest (4 + messages_size ms) 4 v.messages t refl in
    (
      record {
        header = read_header-packet is_request ms rest v.size v.count_byte;
        small = v.size;
        kind = refl;
        some_message = v.some_message;
        end = record { at = 4 + messages_size ms; bytes = rest };
        walk = w;
        exact = refl;
        within_fuel = f;
      },
      types,
    )
