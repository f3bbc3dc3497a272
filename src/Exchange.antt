-- ===== src/Exchange.antt =====
-- client.cpp and server.cpp together: a client's request, the server's round, and the client's reading of
-- the answer.
mod Tests
use nrp_reference.Base.{
  ℕ, zero, suc, ◌+◌, ◌*◌, ◌≤◌, ◌<◌, ◌≡◌, ◌⊎◌, refl, sym, inl, inr, Bool, true, false, ◌&&◌, List,
  [], ◌∷◌, ◌++◌, Option, none, some, Outcome, ok, undefined, out_of_fuel, arith, length, take,
  take-append, All,
}
use nrp_reference.StdHelpers.{SockaddrStorage}
use nrp_reference.ServerRecord.{ServerRecord}
use nrp_reference.Protocol.MsgType
use nrp_reference.Protocol.Layout.{Bytes}
use nrp_reference.Protocol.Packet.{Message, messages_size, encode_messages, encode_packet, IsPacket}
use nrp_reference.Protocol.Validate.{validate_packet}
use nrp_reference.Protocol.Complete.{validate_packet-encode_packet}
use nrp_reference.Config.State.{Config}
use nrp_reference.Config.Servers.{ServerRef}
use nrp_reference.Config.References.{Points}
use nrp_reference.Server.Loop.{NrpdServer, serve}
use nrp_reference.Server.Response.{length-encode_messages}
use nrp_reference.Server.Serve.{IsBytes, Answered, present, serve-Answered}
use nrp_reference.Client.Request.{construct_request, server_msg_support_count}
use nrp_reference.Client.Requested.{requested, wanted, requested-IsPacket, construct_request-encode}
use nrp_reference.Client.Parse.{Client, parse_response}
use nrp_reference.Client.Parsed.{parse_response-AddsAll}

wanted-IsBytes : (n : ℕ) (four six : Bool) → n < 256 → All IsBytes (wanted n four six)
wanted-IsBytes n true true h = omega arith
wanted-IsBytes n true false h = omega arith
wanted-IsBytes n false true h = omega arith
wanted-IsBytes n false false h = omega arith

wanted-known :
    (n : ℕ) (four six : Bool) → All (λ (m : Message). m.msg_type < MsgType.max) (wanted n four six)
wanted-known n true true = omega arith
wanted-known n true false = omega arith
wanted-known n false true = omega arith
wanted-known n false false = omega arith

few_wanted : (n : ℕ) (four six : Bool) → length (wanted n four six) < 4
few_wanted n true true = omega arith
few_wanted n true false = omega arith
few_wanted n false true = omega arith
few_wanted n false false = omega arith

module _ (accepts : Bytes → Bool) (stack : Bytes) (clock : ℕ → ℕ) (ref : ServerRef)
    (client : Client) (rest : Bytes) where
  -- How the exchange ends for the client, with `rest` behind the answer in its buffer: the answer passes
  -- validation and is parsed without a fault, or it is the start of the request.
  abbrev pub Completes : Bytes → Outcome (NrpdServer × Option Bytes) → Type 0
  Completes request (ok (server, some packet)) =
      ((validate_packet 256 (some (packet ++ rest)) false ≡ ok true)
        × ((client' : Client) × (parse_response accepts stack clock ref 65507 (packet ++ rest)
                client
              ≡ ok (client', true))))
      ⊎ (packet ≡ take 4 request)
  Completes request _ = ⊥

  Completes-of_Answered :
      (request : Bytes) (m : Outcome (NrpdServer × Option Bytes))
      → Points client.config ref
      → Answered request m
      → Completes request m
  Completes-of_Answered request (ok (server, some packet)) points (inl (ms, v, e)) =
      let (client', parsed, k, adds) =
        parse_response-AddsAll accepts stack clock ref ms rest 65507 client v v.size points in
      inl (
        rw e (validate_packet-encode_packet false ms rest 256 v v.count_byte),
        (client', rw e parsed),
      )
  Completes-of_Answered request (ok (server, some packet)) points (inr e) = inr e
  Completes-of_Answered request (ok (server, none)) points h = absurd h
  Completes-of_Answered request undefined points h = absurd h
  Completes-of_Answered request out_of_fuel points h = absurd h

  -- A request that the client constructs for a server, sent to a server that lets the client pass, both
  -- with a default entropy size below 256, is served without a fault. What the server sends passes the
  -- client's validation, whatever stands behind it in the client's buffer, and the client parses it
  -- without a fault; or it is the first four bytes of the request.
  pub construct_request-serve :
      (fuel : ℕ) (server : NrpdServer) (record_of : ServerRecord) (buffer : Bytes)
      (src_addr : SockaddrStorage) (now : ℕ → ℕ)
      → client.config.default_entropy < 256
      → server.config.default_entropy < 256
      → 65507 ≤ length buffer
      → 3 < fuel
      → present server src_addr now ≡ false
      → Points client.config ref
      → (request : Bytes) × (size : ℕ) × (construct_request client.config record_of 65507 buffer
          ≡ ok (some (request, size)))
        × Completes request (serve fuel server (some (take size request, src_addr)) now)
  construct_request-serve fuel server record_of buffer src_addr now d e room f fresh points =
      let c = client.config in
      let four = record_of.ip4_peers && c.client_enable_ip4 in
      let six = record_of.ip6_peers && c.client_enable_ip6 in
      let ms = wanted c.default_entropy four six in
      let (tail, made) = construct_request-encode c record_of 65507 buffer d (ground arith) room in
      let packet = encode_packet MsgType.request ms in
      let cut : take (4 + messages_size ms) (packet ++ tail) ≡ packet =
        take-append packet tail (4 + messages_size ms) (omega (arith, length-encode_messages ms)) in
      let answered =
        serve-Answered fuel server ms src_addr now (requested-IsPacket c record_of d)
          (wanted-known c.default_entropy four six) (wanted-IsBytes c.default_entropy four six d)
          (omega (arith, few_wanted c.default_entropy four six)) e fresh in
      (
        packet ++ tail,
        4 + messages_size ms,
        made,
        rw cut (
            Completes-of_Answered packet (serve fuel server (some (packet, src_addr)) now) points
              answered),
      )
