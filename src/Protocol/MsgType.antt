-- ===== src/Protocol/MsgType.antt =====
-- protocol.h, `nrpd_msg_type`: the message type bytes.
use nrp_reference.Base.{ℕ}

abbrev pub request : ℕ
request = 1

abbrev pub response : ℕ
response = 2

abbrev pub response_msg_min : ℕ
response_msg_min = 3

abbrev pub reject : ℕ
reject = 3

abbrev pub request_msg_min : ℕ
request_msg_min = 4

abbrev pub ip4peers : ℕ
ip4peers = 4

abbrev pub entropy : ℕ
entropy = 5

abbrev pub ip6peers : ℕ
ip6peers = 6

abbrev pub certchain : ℕ
certchain = 7

abbrev pub signkey : ℕ
signkey = 8

abbrev pub encryptionkey : ℕ
encryptionkey = 9

abbrev pub secureentropy : ℕ
secureentropy = 10

abbrev pub max : ℕ
max = 11
