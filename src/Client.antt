-- ===== src/Client.antt =====
-- client.h and client.cpp, `NrpdClient`: requests, and what is done with the answers.
pub mod Request
pub mod Requested
pub mod Entropy
pub mod Scramble
pub mod Rejects
pub mod Rejected
pub mod Parse
pub mod Loop
pub mod Taken
pub mod Parsed
pub mod Round
pub mod Failed
pub mod SameServer
pub mod Operations
mod Tests
