-- ===== src/Client/Entropy.antt =====
-- client.cpp: `ScrambleEntropy` and `ConsumeEntropy`. A read of the random device fills the array
-- `secret` from its start; behind what was read, the array holds what the stack held.
use nrp_reference.Base.{
  ℕ, suc, ◌+◌, ◌*◌, ◌/◌, ◌%◌, ◌^◌, Bool, true, false, [], ◌∷◌, ◌++◌, Option, none, some, Outcome,
  ok, ◌>>=◌, ltb, ◌==◌, if◌then◌else◌, length, drop, get_or,
}
use nrp_reference.Protocol.Layout.{Bytes, max_entropy_size}
use nrp_reference.Protocol.Generate.{read_bytes}
use nrp_reference.Server.Responses.{RandomDevice, read_random}

-- `(secret[idx / 8] >> (idx % 8)) & 0x1`.
abbrev pub secret_bit : Bytes → ℕ → ℕ
secret_bit secret idx = get_or secret (idx / 8) 0 / 2 ^ (idx % 8) % 2

-- The loop, from `idx` on.
unfoldable pub zero_out : Bytes → ℕ → Bytes → Bytes
zero_out secret idx [] = []
zero_out secret idx (byte ∷ rest) = byte * secret_bit secret idx ∷ zero_out secret (suc idx) rest

-- `ceil(bufSize / 8.0f)`.
abbrev pub secret_size : ℕ → ℕ
secret_size buf_size = (buf_size + 7) / 8

-- The end of `ScrambleEntropy`, after the read: the entropy as it is left, and the result.
unfoldable pub scramble_with : Option Bytes → Bytes → ℕ → Bytes → Outcome (Bytes × Bool)
scramble_with none stack buf_size entropy = ok (entropy, false)
scramble_with (some bytes) stack buf_size entropy =
    let secret = bytes ++ drop (length bytes) stack in
    if length bytes == 0 then ok (entropy, false) else (do
      received ← read_bytes buf_size entropy
      ok (zero_out secret 0 received ++ drop buf_size entropy, true))

-- `ScrambleEntropy`: the device after the call, the bytes at the pointer, and the result.
unfoldable pub scramble_entropy :
    RandomDevice → Bytes → ℕ → Bytes → Outcome (RandomDevice × Bytes × Bool)
scramble_entropy device stack buf_size entropy =
    let (bytes, device') = read_random device (secret_size buf_size) in
    if ltb max_entropy_size buf_size then ok (device, entropy, false) else (do
      (scrambled, success) ← scramble_with bytes stack buf_size entropy
      ok (device', scrambled, success))

-- `ConsumeEntropy`: what is written to the random device, if anything, and the result. `accepts` says
-- whether the device takes at least one of the bytes.
unfoldable pub consume_entropy : (Bytes → Bool) → ℕ → Bytes → Outcome (Option Bytes × Bool)
consume_entropy accepts buf_size entropy =
    if ltb max_entropy_size buf_size
    then ok (none, false)
    else (do bytes ← read_bytes buf_size entropy; ok (some bytes, accepts bytes))
