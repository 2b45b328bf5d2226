-- ===== src/Wire.antt =====
-- Bytes on the wire: byte order, character arrays and the packed structs of
-- server/include/common/message.h (the client declares the same ones in client/network/protocol.h).
pub mod Endian
pub mod Text
pub mod Word
pub mod Message
