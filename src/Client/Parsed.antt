-- ===== src/Client/Parsed.antt =====
-- `ParseResponse` as a whole, on a well-formed response.
use nrp_reference.Base.{
  ℕ, suc, ◌+◌, ◌≤◌, ◌<◌, ◌≡◌, refl, Bool, true, false, List, [], ◌∷◌, ◌++◌, ok, arith, ltb, length,
  append_assoc, All, ◌∙◌, ap,
}
use nrp_reference.Protocol.MsgType
use nrp_reference.Protocol.Layout.{Bytes, Header, Pointer, read_header, next_message}
use nrp_reference.Protocol.Packet.{
  Message, message_size, messages_size, encode_message, encode_messages, encode_packet, IsMessage,
  IsPacket,
}
use nrp_reference.Protocol.Complete.{header_of, read_header-encode}
use nrp_reference.Protocol.Encoded.{read_header-packet}
use nrp_reference.Config.Servers.{ServerRef}
use nrp_reference.Config.References.{Points, Keeps, Keeps-refl, Keeps-trans, Points-Keeps}
use nrp_reference.Client.Parse.{Client, take_message, take_messages, parse_response}
use nrp_reference.Client.Taken.{Adds, take_message-Taken}

-- What the messages of a response add to the random device, one after the other.
abbrev pub AddsAll : List Message → List Bytes → List Bytes → Type 0
AddsAll [] before after = after ≡ before
AddsAll (m ∷ ms) before after = (mid : List Bytes) × Adds m before mid × AddsAll ms mid after

module _ (accepts : Bytes → Bool) (stack : Bytes) (now : ℕ → ℕ) (ref : ServerRef) where
  take_messages_step :
      (n end : ℕ) (p p' q : Pointer) (hdr : Header) (client client' : Client)
      → p.at < end
      → read_header p.bytes ≡ ok hdr
      → take_message accepts stack now ref hdr p client ≡ ok (client', p')
      → next_message p' ≡ ok q
      → take_messages accepts stack now ref (suc n) end p client
        ≡ take_messages accepts stack now ref n end q client'
  unfolding take_messages
  take_messages_step n end p p' q hdr client client' lt r done next =
      let more : ltb p.at end ≡ true = ground arith in rw (take_messages, more, r, done, next) refl

  take_messages-AddsAll :
      (ms : List Message) (rest : Bytes) (at end : ℕ) (client : Client)
      → All (IsMessage false) ms
      → at + messages_size ms ≤ end
      → Points client.config ref
      → (client' : Client) × (take_messages accepts stack now ref
            (length ms)
            end
            (record { at = at; bytes = encode_messages ms ++ rest })
            client
          ≡ ok client')
        × Keeps client.config client'.config
        × AddsAll ms client.consumed client'.consumed
  unfolding take_messages
  take_messages-AddsAll [] rest at end client v e points =
      (client, refl, Keeps-refl client.config, refl)
  take_messages-AddsAll (m ∷ ms) rest at end client (v, vs) e points =
      let after = encode_messages ms ++ rest in
      let (mid, p, done, taken) =
        take_message-Taken accepts stack now ref at m after client v points in
      let (client', finished, k, adds) =
        take_messages-AddsAll ms rest (at + message_size m) end mid vs (omega arith)
          (Points-Keeps client.config mid.config ref taken.keeps points) in
      let same = append_assoc (encode_message m) (encode_messages ms) rest in
      (
        client',
        ap
              (λ bs.
                take_messages accepts stack now ref (suc (length ms)) end
                  (record { at = at; bytes = bs }) client)
              same
            ∙ take_messages_step (length ms) end
                (record { at = at; bytes = encode_message m ++ after }) p
                (record { at = at + message_size m; bytes = after }) (header_of m after) client mid
                (omega arith) (read_header-encode m after (omega (arith, v.size))) done taken.next
            ∙ finished,
        Keeps-trans client.config mid.config client'.config taken.keeps k,
        (mid.consumed, taken.adds, adds),
      )

  -- `ParseResponse` on a well-formed response, whatever stands behind it in the buffer and whatever the
  -- random device does, with a reference to one of the servers: it ends without a fault, it makes none of
  -- the three lists shorter, and it writes one piece to the random device for each entropy message, of the
  -- length that the message counts and in their order, and nothing else.
  pub parse_response-AddsAll :
      (ms : List Message) (rest : Bytes) (buf_size : ℕ) (client : Client)
      → IsPacket false ms
      → 4 + messages_size ms ≤ buf_size
      → Points client.config ref
      → (client' : Client) × (parse_response accepts stack now ref buf_size
            (encode_packet MsgType.response ms ++ rest)
            client
          ≡ ok (client', true))
        × Keeps client.config client'.config
        × AddsAll ms client.consumed client'.consumed
  unfolding parse_response
  parse_response-AddsAll ms rest buf_size client v room points =
      let (client', done, k, adds) =
        take_messages-AddsAll ms rest 4 (4 + messages_size ms) client v.messages (omega arith)
          points in
      let whole : ltb buf_size (4 + messages_size ms) ≡ false = ground arith in
      (
        client',
        rw (read_header-packet false ms rest v.size v.count_byte, whole, done) refl,
        k,
        adds,
      )
