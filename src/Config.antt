-- ===== src/Config.antt =====
-- config.h and config.cpp, `NrpdConfig`: the settings and the server lists that the client and the
-- server threads share.
pub mod State
pub mod Accessors
pub mod Lists
pub mod Servers
pub mod Update
pub mod Choice
pub mod Turns
pub mod Sorted
pub mod Counts
pub mod Failures
pub mod Tries
pub mod Banned
pub mod Dropped
pub mod Promotion
pub mod Promoted
pub mod References
pub mod Steps
pub mod Valid
pub mod Indices
pub mod Erased
pub mod Preserved
pub mod Reached
pub mod Heard
pub mod Peers
mod Tests
