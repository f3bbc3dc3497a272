-- ===== src/Startup.antt =====
-- Starting and stopping the daemon: main.cpp, and the initialisation and destruction of the server
-- (server.cpp) and of the client (client.cpp). The operating system is a parameter: what it answers to a
-- system call, given the calls before it. A descriptor that was never assigned has no value.
pub mod Server
pub mod Client
pub mod Main
pub mod Attempts
pub mod ServerInitialized
pub mod ClientInitialized
pub mod Started
pub mod Keeps
pub mod Kept
mod Tests
use nrp_reference.Base.{
  ℕ, zero, suc, ◌+◌, ◌*◌, ◌/◌, ◌%◌, Bool, true, false, List, ◌∷◌, Option, none, some, Outcome, ok,
  undefined, ◌>>=◌, if◌then◌else◌,
}
use nrp_reference.Base.Int.{ℤ, pos, negsuc}

-- The address given to `bind`: the family and the port in network order, with the host left zero.
pub record Address : Type 0 where
  pub family : ℕ
  pub port : ℕ

-- The calls of the program, each with what it passes.
pub data Call : Type 0 where
  -- `socket`, for a family, of datagrams over UDP.
  open_socket : ℕ → Call
  -- `setsockopt` of `SO_RCVTIMEO`, in seconds.
  set_receive_timeout : ℤ → ℕ → Call
  -- `setsockopt` of `IPV6_V6ONLY`.
  set_v6only : ℤ → ℕ → Call
  -- `bind`, with the size of the address.
  bind_socket : ℤ → Address → ℕ → Call
  -- `open` of `/dev/urandom`, for writing too or not.
  open_device : Bool → Call
  close_file : ℤ → Call

-- The answer of a call and the `errno` after it, given the calls before it, the latest first.
abbrev pub System : Type 0
System = List Call → Call → ℤ × ℕ

abbrev pub is_negative : ℤ → Bool
is_negative (pos n) = false
is_negative (negsuc n) = true

abbrev pub is_nonzero : ℤ → Bool
is_nonzero (pos zero) = false
is_nonzero (pos (suc n)) = true
is_nonzero (negsuc n) = true

abbrev pub is_positive : ℤ → Bool
is_positive (pos zero) = false
is_positive (pos (suc n)) = true
is_positive (negsuc n) = false

-- The bytes of a 16-bit number swapped, as on a little-endian machine.
abbrev pub htons : ℕ → ℕ
htons port = port % 256 * 256 + port / 256 % 256

abbrev pub sockaddr_in_size : ℕ
sockaddr_in_size = 16

abbrev pub sockaddr_in6_size : ℕ
sockaddr_in6_size = 28

-- A part of an initialisation of an object: the object and the calls after it, and the error with which
-- it returned early, if it did.
abbrev pub Setup {ℓ} : Type ℓ → Type ℓ
Setup Object = Object → List Call → Outcome (Object × List Call × Option ℕ)

-- One part, and then another unless the first returned.
infixr 20 ◌followed_by◌
abbrev pub ◌followed_by◌ {ℓ} : {Object : Type ℓ} → Setup Object → Setup Object → Setup Object
(first followed_by second) object calls = do
  (object', calls', error) ← first object calls
  elim error [ none ↦ second object' calls' | some code ↦ ok (object', calls', some code) ]

-- A call whose answer is kept, and that returns `errno` if the answer is a failure.
abbrev pub attempt {ℓ} :
    {Object : Type ℓ}
    → System
    → (ℤ → Bool)
    → Call
    → (ℤ → Object)
    → List Call
    → Outcome (Object × List Call × Option ℕ)
attempt os fails call keep calls =
    let (answer, errno) = os calls call in
    ok (keep answer, call ∷ calls, if fails answer then some errno else none)

-- The value of a descriptor, which the code reads whether or not it was assigned.
abbrev pub read_descriptor : Option ℤ → Outcome ℤ
read_descriptor none = undefined
read_descriptor (some fd) = ok fd

-- `close` in a destructor, if the descriptor is positive.
unfoldable pub close_descriptor : Option ℤ → List Call → Outcome (List Call)
close_descriptor descriptor calls = do
  fd ← read_descriptor descriptor
  if is_positive fd then ok (close_file fd ∷ calls) else ok calls
