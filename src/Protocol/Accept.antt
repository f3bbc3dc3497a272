-- ===== src/Protocol/Accept.antt =====
-- What it means that `ValidatePacket` returned `true`.
use nrp_reference.Base.{
  ℕ, ◌≤◌, ◌<◌, ◌≡◌, Bool, true, false, Option, none, some, Outcome, ok, undefined, out_of_fuel,
  ◌>>=◌, arith, >>=-eq-ok, subst,
}
use nrp_reference.Protocol.Layout.{Bytes, Header, Pointer, read_header, packet_header_size}
use nrp_reference.Protocol.Validate.{
  validate_totals, validate_messages, validate_packet, validate_packet_header,
}
use nrp_reference.Protocol.Packet.{packet_type}
use nrp_reference.Protocol.Walk.{Walk, Walk-end, walk_of_validate, validate_of_Walk}

-- `ValidatePacket` returned `true`: then its header passed, and the loop walked to the packet's end.
pub record Accepted (is_request : Bool) (fuel : ℕ) (buffer : Bytes) (pkt : Header) : Type 0 where
  pub header : read_header buffer ≡ ok pkt
  pub small : pkt.length ≤ 65507
  pub kind : pkt.msg_type ≡ packet_type is_request
  pub some_message : 0 < pkt.count
  pub end : Pointer
  pub walk : Walk is_request pkt.length pkt.count (record { at = 4; bytes = pkt.content }) end
  pub exact : end.at ≡ pkt.length
  pub within_fuel : pkt.count < fuel

-- How the loop ended, if the tests behind it passed.
abbrev LoopEnd : Header → Outcome (Option (Pointer × ℕ)) → Type 0
LoopEnd pkt m = (q : Pointer) × (m ≡ ok (some (q, pkt.count))) × (q.at ≤ pkt.length)

totals_true :
    (pkt : Header) (m : Outcome (Option (Pointer × ℕ)))
    → (m >>= λ e. ok (validate_totals pkt e)) ≡ ok true
    → LoopEnd pkt m
totals_true pkt (ok none) h = cc
totals_true pkt (ok (some (q, n))) h = (q, ground arith, ground arith)
totals_true pkt undefined h = cc
totals_true pkt out_of_fuel h = cc

abbrev start : Header → Pointer
start pkt = record { at = packet_header_size; bytes = pkt.content }

accepted_header :
    (is_request : Bool) (fuel : ℕ) (pkt : Header)
    → validate_packet_header fuel pkt is_request ≡ ok true
    → (pkt.length ≤ 65507)
      × (pkt.msg_type ≡ packet_type is_request)
      × (0 < pkt.count)
      × LoopEnd pkt (validate_messages fuel is_request pkt.length (start pkt) 0)
unfolding validate_packet_header
accepted_header true fuel pkt h = (
  ground arith,
  ground arith,
  ground arith,
  totals_true pkt (validate_messages fuel true pkt.length (start pkt) 0) (ground arith),
)
accepted_header false fuel pkt h = (
  ground arith,
  ground arith,
  ground arith,
  totals_true pkt (validate_messages fuel false pkt.length (start pkt) 0) (ground arith),
)

-- Exactly then.
pub Accepted-of_true :
    (is_request : Bool) (fuel : ℕ) (buffer : Bytes)
    → validate_packet fuel (some buffer) is_request ≡ ok true
    → (pkt : Header) × Accepted is_request fuel buffer pkt
unfolding validate_packet
Accepted-of_true is_request fuel buffer h =
    let (pkt, r, v) =
      >>=-eq-ok (read_header buffer) (λ pkt. validate_packet_header fuel pkt is_request) h in
    let (small, kind, more, (q, loop, le)) = accepted_header is_request fuel pkt v in
    let (n, w, sum, f) =
      walk_of_validate is_request pkt.length fuel (record { at = 4; bytes = pkt.content }) 0 q
        pkt.count loop in
    let e : n ≡ pkt.count = omega arith in
    (
      pkt,
      record {
        header = r;
        small = small;
        kind = kind;
        some_message = more;
        end = q;
        walk =
            subst (λ k. Walk is_request pkt.length k (record { at = 4; bytes = pkt.content }) q) e
              w;
        exact = omega (arith, Walk-end is_request pkt.length n _ q w);
        within_fuel = omega arith;
      },
    )

pub true_of_Accepted :
    (is_request : Bool) (fuel : ℕ) (buffer : Bytes) (pkt : Header)
    → Accepted is_request fuel buffer pkt
    → validate_packet fuel (some buffer) is_request ≡ ok true
unfolding validate_packet validate_packet_header
true_of_Accepted true fuel buffer pkt a = ground (
  arith,
  validate_of_Walk true pkt.length fuel (record { at = 4; bytes = pkt.content }) 0 a.end pkt.count
      a.walk,
)
true_of_Accepted false fuel buffer pkt a = ground (
  arith,
  validate_of_Walk false pkt.length fuel (record { at = 4; bytes = pkt.content }) 0 a.end pkt.count
      a.walk,
)
