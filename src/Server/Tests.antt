-- ===== src/Server/Tests.antt =====
-- A request for entropy and peers at a server that knows one peer, and the theorems on the server there.
use nrp_reference.Base.{
  ℕ, zero, suc, ◌+◌, ◌-◌, ◌*◌, ◌≤◌, ◌<◌, ◌≡◌, ◌⊎◌, refl, inl, inr, Bool, true, false, ltb, ◌&&◌,
  List, [], ◌∷◌, ◌++◌, Option, none, some, Outcome, ok, undefined, out_of_fuel, arith, length, All,
}
use nrp_reference.Base.Int.{pos}
use nrp_reference.MruCache
use nrp_reference.StdHelpers.{SockaddrStorage, sockaddr_eq}
use nrp_reference.Protocol.Layout.{Bytes}
use nrp_reference.Protocol.Packet.{Message, IsPacket}
use nrp_reference.Protocol.Sound.{IsByte, All-are_bytes}
use nrp_reference.Protocol.Encoded.{packet_header, Accepted-encode_packet}
use nrp_reference.Config.State.{Config}
use nrp_reference.ServerRecord.{ServerRecord}
use nrp_reference.Server.Sizes.{calculate_message_size, calculate_message_size_lem}
use nrp_reference.Server.Responses.{RandomDevice, generate_peers_response}
use nrp_reference.Server.Answers.{PeersAnswer, generate_peers_response-PeersAnswer}
use nrp_reference.Server.Parse.{Progress, parse_messages}
use nrp_reference.Server.Parsed.{Parsed, parse_messages-Parsed}
use nrp_reference.Server.Loop.{NrpdServer, running, serve}
use nrp_reference.Server.Serve.{Answered, present, request_packet, serve-Answered}
use nrp_reference.Server.History.{
  Verdict, ServerHistory, start, answered, changed, serve-Verdict, ServerHistory-Spaced,
}
use nrp_reference.MruCache.Spacing.{Spaced}

abbrev peer : ServerRecord
peer = record {
  host = 10 ∷ 0 ∷ 0 ∷ 7 ∷ [];
  port = 8080;
  failure_count = 0;
  last_access_time = 0;
  retry_time = 60;
  ipv6 = false;
  probationary = false;
  ip4_peers = true;
  ip6_peers = true;
  signkey = true;
  shuttingdown = false;
}

abbrev config : Config
config = record {
  port = 8080;
  enable_server = true;
  enable_client = true;
  banned_servers = record {
    entries = [];
    lifetime_seconds = 60;
    clean_interval_seconds = 60;
    last_clean_time = 0;
  };
  configured_servers = [];
  active_servers = peer ∷ [];
  probationary_servers = [];
  active_iterator = none;
  probationary_iterator = none;
  count_ip6_servers = pos 0;
  count_ip4_servers = pos 1;
  prev_returned_probationary = true;
  enable_ip4_peers = true;
  enable_ip6_peers = true;
  client_enable_ip4 = true;
  client_enable_ip6 = true;
  server_enable_ip4 = true;
  server_enable_ip6 = true;
  client_request_interval_seconds = 60;
  client_receive_timeout = 30;
  default_entropy = 8;
}

abbrev device : RandomDevice
device = some (1 ∷ 2 ∷ 3 ∷ 4 ∷ 5 ∷ 6 ∷ 7 ∷ 8 ∷ 9 ∷ []) ∷ []

abbrev client_address : SockaddrStorage
client_address = record { ss_family = 2; sa = 31 ∷ 144 ∷ 10 ∷ 0 ∷ 0 ∷ 1 ∷ [] }

abbrev server : NrpdServer
server = record {
  state = running;
  recent_clients = record {
    entries = [];
    lifetime_seconds = 60;
    clean_interval_seconds = 60;
    last_clean_time = 0;
  };
  config = config;
  device = device;
  mtu = 532;
}

abbrev clock : ℕ → ℕ
clock i = 10

abbrev asked : List Message
asked =
    record { msg_type = 5; count = 0; content = [] }
    ∷ record { msg_type = 4; count = 0; content = [] }
    ∷ []

asked-IsPacket : IsPacket true asked
asked-IsPacket = record {
  messages = (
    record {
      body = inl (omega arith, omega arith, refl);
      count_byte = omega arith;
      size = omega arith;
    },
    (
      record {
        body = inl (omega arith, omega arith, refl);
        count_byte = omega arith;
        size = omega arith;
      },
      tt,
    ),
  );
  some_message = omega arith;
  count_byte = omega arith;
  size = omega arith;
}

fresh : present server client_address clock ≡ false
unfolding MruCache.is_present_add MruCache.find
fresh = refl

serve-Answered_example :
    Answered
      (request_packet asked)
      (serve 3 server (some (request_packet asked, client_address)) clock)
serve-Answered_example =
    serve-Answered 3 server asked client_address clock asked-IsPacket
      (omega arith, (omega arith, tt))
      ((omega arith, omega arith, tt), ((omega arith, omega arith, tt), tt)) (omega arith)
      (omega arith) fresh

abbrev request_bytes : Bytes
request_bytes = request_packet asked ++ []

request_bytes-IsByte : All IsByte request_bytes
request_bytes-IsByte = All-are_bytes request_bytes refl

parse_messages-Parsed_example :
    (s : Progress) × (parse_messages 3 532 config device (some request_bytes) ≡ ok (some s))
    × Parsed 256 532 s
parse_messages-Parsed_example =
    parse_messages-Parsed 256 3 532 config device request_bytes (packet_header true asked [])
      (Accepted-encode_packet 256 true asked [] 3 asked-IsPacket (omega arith, (omega arith, tt))
        (omega arith)).0
      (Accepted-encode_packet 256 true asked [] 3 asked-IsPacket (omega arith, (omega arith, tt))
        (omega arith)).1
      (omega arith) request_bytes-IsByte (omega arith) (omega arith) (omega arith)

calculate_message_size_lem_example :
    let r = calculate_message_size 20 6 5 in
    (r.0 ≤ 20)
    × (((r.0 ≡ 0) × (r.1 ≡ 5) × ((20 < 4) ⊎ ((0 < 5) × (20 < 4 + 6))))
        ⊎ ((r.0 ≡ 4 + 6 * r.1) × ((r.1 ≡ 5) ⊎ ((0 < r.1) × (r.1 < 5) × (20 < 4 + 6 * (r.1 + 1))))))
calculate_message_size_lem_example = calculate_message_size_lem 20 6 5 (omega arith)

generate_peers_response-PeersAnswer_example :
    PeersAnswer 500 8 (generate_peers_response config 4 0 (pos 500))
generate_peers_response-PeersAnswer_example =
    generate_peers_response-PeersAnswer config 4 0 500 (inl refl) (omega arith) (omega arith)

-- A minute later.
abbrev later : ℕ → ℕ
later i = 70_000_000_000

sent :
    (request : Bytes) (m : Outcome (NrpdServer × Option Bytes))
    → Answered request m
    → (server' : NrpdServer) × (packet : Bytes) × (m ≡ ok (server', some packet))
sent request (ok (server', some packet)) h = (server', packet, refl)
sent request (ok (server', none)) h = absurd h
sent request undefined h = absurd h
sent request out_of_fuel h = absurd h

-- The request is answered by a server that lets the client pass.
asked-Answered :
    (s : NrpdServer) (now : ℕ → ℕ)
    → s.config.default_entropy < 256
    → present s client_address now ≡ false
    → (s' : NrpdServer) × (packet : Bytes) × (serve 3 s
          (some (request_packet asked, client_address))
          now
        ≡ ok (s', some packet))
asked-Answered s now small free =
    sent (request_packet asked) (serve 3 s (some (request_packet asked, client_address)) now) (
      serve-Answered 3 s asked client_address now asked-IsPacket (omega arith, (omega arith, tt))
        ((omega arith, omega arith, tt), ((omega arith, omega arith, tt), tt)) (omega arith) small
        free)

abbrev first_answer :
    (s' : NrpdServer) × (packet : Bytes) × (serve 3 server
        (some (request_packet asked, client_address))
        clock
      ≡ ok (s', some packet))
first_answer = asked-Answered server clock (omega arith) fresh

remembered :
    (server' : NrpdServer) (packet : Bytes)
    → Verdict server client_address clock server'.recent_clients (some packet)
    → server'.recent_clients ≡ record server.recent_clients { entries = (client_address, 10) ∷ [] }
unfolding MruCache.is_present_add MruCache.find MruCache.emplace
remembered server' packet (inl (same, quiet)) = cc
remembered server' packet (inr (inl (held, same, quiet))) = cc
remembered server' packet (inr (inr (passed, same))) = same

-- The same server with what it had for the first answer.
abbrev refilled : NrpdServer → NrpdServer
refilled s = record s { config = config; device = device }

free_later :
    (s : NrpdServer)
    → s.recent_clients ≡ record server.recent_clients { entries = (client_address, 10) ∷ [] }
    → present (refilled s) client_address later ≡ false
unfolding MruCache.is_present_add MruCache.find sockaddr_eq nrp_reference.Base.Memory.memcmp
free_later s same = rw same refl

itself : sockaddr_eq client_address client_address ≡ true
unfolding sockaddr_eq nrp_reference.Base.Memory.memcmp
itself = refl

twice :
    (first : (s' : NrpdServer) × (packet : Bytes) × (serve 3 server
          (some (request_packet asked, client_address))
          clock
        ≡ ok (s', some packet)))
    → (s' : NrpdServer) × ServerHistory 60_000_000_000 s' 70_000_000_000 (
        record { key = client_address; asked = 70_000_000_000; checked = 70_000_000_000 }
        ∷ record { key = client_address; asked = 10; checked = 10 }
        ∷ [])
twice (s₁, packet₁, made₁) =
    let same = remembered s₁ packet₁ (
      serve-Verdict server client_address clock 3 (request_packet asked) s₁ (some packet₁) made₁) in
    let (s₂, packet₂, made₂) =
      asked-Answered (refilled s₁) later (omega arith) (free_later s₁ same) in
    (
      s₂,
      answered 3 (request_packet asked) client_address later s₂ packet₂
          (changed config device (
            answered 3 (request_packet asked) client_address clock s₁ packet₁
              (start server 0 refl refl) (omega arith) (omega arith) (omega arith) itself made₁))
          (omega arith) (omega arith) (omega arith) itself made₂,
    )

ServerHistory-Spaced_example : Spaced sockaddr_eq 60_000_000_000 (
    record { key = client_address; asked = 70_000_000_000; checked = 70_000_000_000 }
    ∷ record { key = client_address; asked = 10; checked = 10 }
    ∷ [])
ServerHistory-Spaced_example = ServerHistory-Spaced (twice first_answer).1
