-- ===== src/Protocol/Tests.antt =====
-- Concrete packets, and the theorems on the validators and generators at them.
use nrp_reference.Base.{
  ℕ, zero, suc, ◌≡◌, ◌≢◌, refl, inl, inr, true, false, List, [], ◌∷◌, ◌++◌, some, ok, undefined,
  out_of_fuel, arith, length, replicate, length-replicate, All, All-append,
}
use nrp_reference.Protocol.Layout.{Bytes, Header, read_header}
use nrp_reference.Protocol.Packet.{Message, encode_packet, IsPacket}
use nrp_reference.Protocol.Validate.{validate_packet}
use nrp_reference.Protocol.Complete.{validate_packet-encode_packet}
use nrp_reference.Protocol.Unique.{Reading, validate_packet-Reading}
use nrp_reference.Protocol.Sound.{IsByte, All-are_bytes}
use nrp_reference.Protocol.Termination.{
  Stuck, validate_response_packet-ends, validate_request_packet-Stuck,
  validate_request_packet-spins,
}
use nrp_reference.Protocol.Bounds.{validate_packet-defined, validate_request_packet-overrun}

-- Three bytes of entropy and the address of one peer.
abbrev entropy_reply : Message
entropy_reply = record { msg_type = 5; count = 3; content = 9 ∷ 8 ∷ 7 ∷ [] }

abbrev peers_reply : Message
peers_reply = record { msg_type = 4; count = 1; content = 10 ∷ 0 ∷ 0 ∷ 1 ∷ 31 ∷ 144 ∷ [] }

abbrev replies : List Message
replies = entropy_reply ∷ peers_reply ∷ []

replies-IsPacket : IsPacket false replies
replies-IsPacket = record {
  messages = (
    record { body = inr (inl (refl, refl)); count_byte = omega arith; size = omega arith },
    (record { body = inl (refl, refl); count_byte = omega arith; size = omega arith }, tt),
  );
  some_message = omega arith;
  count_byte = omega arith;
  size = omega arith;
}

validate_packet-encode_packet_example :
    validate_packet 3 (some (encode_packet 2 replies ++ 1 ∷ [])) false ≡ ok true
validate_packet-encode_packet_example =
    validate_packet-encode_packet false replies (1 ∷ []) 3 replies-IsPacket (omega arith)

-- A receive buffer's worth of zeros.
unfoldable zeros : ℕ → Bytes
zeros n = replicate n 0

length-zeros : (n : ℕ) → length (zeros n) ≡ n
unfolding zeros
length-zeros n = length-replicate n 0

zeros-IsByte : (n : ℕ) → All IsByte (zeros n)
unfolding zeros
zeros-IsByte zero = tt
zeros-IsByte (suc n) = (omega arith, zeros-IsByte n)

bytes_of_entropy : All IsByte (encode_packet 2 (entropy_reply ∷ []))
bytes_of_entropy = All-are_bytes (encode_packet 2 (entropy_reply ∷ [])) refl

abbrev entropy_buffer : Bytes
entropy_buffer = encode_packet 2 (entropy_reply ∷ []) ++ zeros 65496

entropy_buffer-IsByte : All IsByte entropy_buffer
entropy_buffer-IsByte =
    All-append IsByte (encode_packet 2 (entropy_reply ∷ [])) (zeros 65496) bytes_of_entropy
      (zeros-IsByte 65496)

entropy_buffer_valid : validate_packet 2 (some entropy_buffer) false ≡ ok true
entropy_buffer_valid =
    validate_packet-encode_packet false (entropy_reply ∷ []) (zeros 65496) 2
      (record {
        messages = (replies-IsPacket.messages.0, tt);
        some_message = omega arith;
        count_byte = omega arith;
        size = omega arith;
      })
      (omega arith)

validate_packet-Reading_example : Reading entropy_buffer × IsProp (Reading entropy_buffer)
validate_packet-Reading_example =
    validate_packet-Reading 2 entropy_buffer entropy_buffer_valid entropy_buffer-IsByte
      (omega (arith, length-zeros 65496))

validate_response_packet-ends_example :
    validate_packet 16377 (some entropy_buffer) false ≢ out_of_fuel
validate_response_packet-ends_example =
    validate_response_packet-ends 16377 entropy_buffer entropy_buffer-IsByte (omega arith)

-- A request whose only message has an unknown type and the length zero.
abbrev stuck_packet : Bytes
stuck_packet = 0 ∷ 8 ∷ 1 ∷ 1 ∷ 0 ∷ 0 ∷ 9 ∷ 0 ∷ []

stuck_packet-IsByte : All IsByte stuck_packet
stuck_packet-IsByte = All-are_bytes stuck_packet refl

abbrev stuck_message : Header
stuck_message = record { length = 0; msg_type = 9; count = 0; content = [] }

abbrev stuck_header : Header
stuck_header = record { length = 8; msg_type = 1; count = 1; content = 0 ∷ 0 ∷ 9 ∷ 0 ∷ [] }

stuck_header_read : read_header stuck_packet ≡ ok stuck_header
unfolding read_header
stuck_header_read = refl

stuck_message_read : read_header stuck_header.content ≡ ok stuck_message
unfolding read_header
stuck_message_read = refl

validate_request_packet-spins_example :
    validate_packet 70_000 (some stuck_packet) true ≡ out_of_fuel
validate_request_packet-spins_example =
    validate_request_packet-spins 70_000 stuck_packet stuck_header stuck_message stuck_header_read
      (omega arith) (omega arith) refl (omega arith) stuck_message_read refl (omega arith)

-- The loop over that packet uses up its fuel: the same run, for use below.
stuck_packet_spins : validate_packet 70_000 (some stuck_packet) true ≡ out_of_fuel
stuck_packet_spins =
    validate_request_packet-spins 70_000 stuck_packet stuck_header stuck_message stuck_header_read
      (omega arith) (omega arith) refl (omega arith) stuck_message_read refl (omega arith)

validate_request_packet-Stuck_example : Stuck stuck_packet
validate_request_packet-Stuck_example =
    validate_request_packet-Stuck 70_000 stuck_packet stuck_packet-IsByte (omega arith)
      stuck_packet_spins

abbrev padded_header : Header
padded_header = record {
  length = 8;
  msg_type = 1;
  count = 1;
  content = 0 ∷ 0 ∷ 9 ∷ 0 ∷ 0 ∷ 0 ∷ 0 ∷ [];
}

padded_read : read_header (stuck_packet ++ 0 ∷ 0 ∷ 0 ∷ []) ≡ ok padded_header
unfolding read_header
padded_read = refl

validate_packet-defined_example :
    validate_packet 3 (some (stuck_packet ++ 0 ∷ 0 ∷ 0 ∷ [])) true ≢ undefined
validate_packet-defined_example =
    validate_packet-defined true 3 (stuck_packet ++ 0 ∷ 0 ∷ 0 ∷ []) padded_header
      (All-append IsByte stuck_packet (0 ∷ 0 ∷ 0 ∷ []) stuck_packet-IsByte
        (All-are_bytes (0 ∷ 0 ∷ 0 ∷ []) refl))
      padded_read (omega arith)

-- A request that fills the buffer, with a first message that ends three bytes before its end.
abbrev long_content : Bytes
long_content = 255 ∷ 220 ∷ 9 ∷ 0 ∷ zeros 65499

abbrev long_packet : Bytes
long_packet = 255 ∷ 227 ∷ 1 ∷ 1 ∷ long_content

long_packet_read :
    read_header long_packet
    ≡ ok (record { length = 65507; msg_type = 1; count = 1; content = long_content })
unfolding read_header
long_packet_read = refl

long_content_read :
    read_header long_content
    ≡ ok (record { length = 65500; msg_type = 9; count = 0; content = zeros 65499 })
unfolding read_header
long_content_read = refl

validate_request_packet-overrun_example : validate_packet 2 (some long_packet) true ≡ undefined
validate_request_packet-overrun_example =
    validate_request_packet-overrun 0 long_packet
      (record { length = 65507; msg_type = 1; count = 1; content = long_content })
      (record { length = 65500; msg_type = 9; count = 0; content = zeros 65499 }) long_packet_read
      (omega (arith, length-zeros 65499)) refl refl (omega arith) long_content_read (omega arith)
      (omega arith) (omega arith)
      (All-append IsByte (255 ∷ 227 ∷ 1 ∷ 1 ∷ 255 ∷ 220 ∷ 9 ∷ 0 ∷ []) (zeros 65499)
        (All-are_bytes (255 ∷ 227 ∷ 1 ∷ 1 ∷ 255 ∷ 220 ∷ 9 ∷ 0 ∷ []) refl) (zeros-IsByte 65499))

abbrev one_peer : Bytes
one_peer = 10 ∷ 0 ∷ 0 ∷ 1 ∷ 31 ∷ 144 ∷ []
