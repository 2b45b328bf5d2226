-- ===== src/Protocol/Server.antt =====
-- The packers and parsers of server/src/protocol.cpp.
pub mod Pack
pub mod Parse
