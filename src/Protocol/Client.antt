-- ===== src/Protocol/Client.antt =====
-- The packers and parsers of client/network/protocol.cpp that the server has no copy of. Its
-- `packChatMessage`, `packFileOffer`, `packFileOfferResponse`, `parseChatMessage`, `parseFileOffer`,
-- `parseFileOfferResponse` and `validateHeader` are the server's, line by line.
pub mod Pack
pub mod Parse
