-- ===== src/Protocol.antt =====
-- protocol.h and protocol.cpp: the wire format, the validators and the message generators.
pub mod MsgType
pub mod RejectReason
pub mod Layout
pub mod Validate
pub mod Generate
pub mod Packet
pub mod Complete
pub mod Walk
pub mod Accept
pub mod Sound
pub mod Unique
pub mod Termination
pub mod Bounds
pub mod Generated
pub mod Encoded
mod Tests
