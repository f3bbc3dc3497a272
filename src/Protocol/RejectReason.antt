-- ===== src/Protocol/RejectReason.antt =====
-- protocol.h, `nrpd_reject_reason`: the reason bytes of a reject message.
use nrp_reference.Base.{ℕ}

abbrev pub unspecified : ℕ
unspecified = 0

abbrev pub busy : ℕ
busy = 1

abbrev pub shuttingdown : ℕ
shuttingdown = 2

abbrev pub unsupported : ℕ
unsupported = 3

abbrev pub max : ℕ
max = 4
