-- ===== src/Server.antt =====
-- The server: server/src/server.cpp, started and running. One thread runs all of it but the
-- heartbeat check, which only adds to the pending disconnects.
pub mod Connection
pub mod State
pub mod Send
pub mod Login
pub mod Chat
pub mod Files
pub mod Disconnect
pub mod Dispatch
pub mod Invariant
pub mod Start
pub mod Run
