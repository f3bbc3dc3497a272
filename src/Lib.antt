-- ===== src/Lib.antt =====
-- The network randomness protocol (NRP) reference implementation: a server that answers requests for
-- entropy and for the addresses of other servers, and a client that asks servers in turn, mixes the entropy
-- into the system's and keeps lists of servers.
--
-- Parts, with the files of the repository that they model:
-- - Protocol (protocol.h, protocol.cpp): message types, limits and header layout (MsgType, RejectReason,
--   Layout), the validators (Validate: `validate_packet` is `ValidatePacket`, and so on) and the generators
--   (Generate). Packet holds the independent description of well-formed packets: a list of messages and its
--   bytes. Complete, Sound, Unique, Termination, Bounds and Generated relate the two; Walk, Accept and Encoded
--   are the steps between.
-- - MruCache (mrucache.h): `MruCache<Key>`; the server's rate limit and the client's ban list.
-- - StdHelpers (stdhelpers.h): equality, hash and family of socket addresses, the keys of the rate limit.
-- - ServerRecord (config.h, config.cpp): the record of a server, its comparisons and its hash.
-- - Config (config.h, config.cpp): `NrpdConfig`, the state shared by client and server (State), its plain
--   accessors (Accessors), the containers it is made of (Lists), what is read from it (Servers) and how it
--   changes (Update).
-- - Server (server.h, server.cpp): sizes (Sizes), peers and entropy responses (Responses), `ParseMessages`
--   (Parse) and one round of `ServerLoop` (Loop).
-- - Client (client.h, client.cpp): `ConstructRequest` (Request), `ScrambleEntropy` and `ConsumeEntropy`
--   (Entropy), `ParseRejectMessage` (Rejects), `ParseResponse` (Parse) and one round of `ClientLoop` (Loop).
-- - Startup (main.cpp, server.cpp, client.cpp): `main` (Main), `InitializeServer` and `~NrpdServer` (Server),
--   `InitializeClient`, `~NrpdClient` and the choice of a descriptor (Client), over system calls whose answers
--   are a parameter. ServerInitialized, ClientInitialized and Started are about what they leave.
-- - Daemon: the program from `main` on: rounds of the server and of the client and runs of the cleaners, in any
--   order, on the configuration that they share.
-- - Exchange: a request of the client, the server's round on it and the client's parse of the answer.
-- - MruCache/View is the cache as a function from keys to times and MruCache/Spacing its histories;
--   Server/History the histories of a server, whose steps are rounds, cleanings and changes of the
--   configuration; Config/References the references that the client keeps into the lists; Config/Turns calls
--   of `GetNextServer` in a row; Config/Promotion and Config/Promoted are about the promotion of a server that it returned,
--   Config/Tries and Config/Failures about its failures, Config/Dropped about dropping it, Config/Banned about
--   the ban that follows, and Config/Heard and Config/Peers about the list of peers from one configuration to
--   another;
-- - Config/Steps is the operations of `NrpdConfig` as steps of a state, Config/Valid its well-formedness, and
--   Config/Indices, Config/Erased, Config/Preserved and Config/Reached what the steps do to it.
--   Server/Operations and Client/Operations take a round apart into such steps (Client/SameServer the part in
--   `ParseRejectMessage`), and Startup/Keeps and Startup/Kept follow the configuration through `main`;
--   Client/Taken and Client/Parsed the messages of a response one by one, Client/Round a round of the
--   client in which it gets one, and Client/Failed the rounds in which it gets none.
-- - Base: lists, integers, `memcmp` and the outcomes of code, which the parts share.
-- The server's loop calls the validators, the cache and `ParseMessages`, which reads the configuration; the
-- client's loop chooses a server in the configuration, sends a request, validates the response and hands the
-- peers in it to the configuration.
--
-- Conventions. A pointer is the bytes from it to the end of its array, so that a read or write outside the
-- array is the outcome `undefined`, as is the use of an iterator at the end of its container. The loops over
-- the messages of a packet take fuel: a response never needs more than 16,377 rounds and a well-formed packet
-- one more than its messages; a request may need more than any fuel, and then the outcome is `out_of_fuel`.
-- Every reading of a clock, everything that the random device gives, and what the network does are
-- arguments. The mutexes make each operation of the cache and of the lists one step. A byte is a number below
-- 256; `int` values that the code keeps in their range are numbers, the counts of servers are integers, and
-- conversions to `unsigned char`, `unsigned int` and `size_t` are written out. The machine is little-endian
-- where the code reads words of addresses.
-- A system call is a step of an explicit sequence of calls; descriptors that were never assigned are `none`.
-- The loop of `ParseResponse` counts the messages down, as the code does, and needs no fuel.
--
-- What a round of the client leaves in its buffer, where `ScrambleEntropy` works in place, is not kept: the next
-- round takes any buffer. In Daemon a round is one step; Config/Steps allows the operations of the two threads in any order.
--
-- Not modelled: log.cpp, which writes to the standard output; the parts of main.cpp under `if(false)`; failures
-- of memory allocation; the constructor of `NrpdConfig` from a path, which sets two fields and is never called;
-- the structures in protocol.h of messages on certificates and keys, which no code uses; and what happens inside
-- an operation of the configuration while the other thread reads it without the mutex.
pub mod Base
pub mod Protocol
pub mod MruCache
pub mod ServerRecord
pub mod StdHelpers
pub mod Config
pub mod Server
pub mod Client
pub mod Exchange
pub mod Daemon
pub mod Startup
