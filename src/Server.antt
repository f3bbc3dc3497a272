-- ===== src/Server.antt =====
-- server.h and server.cpp, `NrpdServer`: the answers to requests.
pub mod Sizes
pub mod Responses
pub mod Parse
pub mod Answers
pub mod Progress
pub mod Replies
pub mod Parsed
pub mod Loop
pub mod Response
pub mod Serve
pub mod History
pub mod Operations
mod Tests
