-- ===== src/Protocol.antt =====
-- `ProtocolParser` on both sides: server/src/protocol.cpp and client/network/protocol.cpp. This
-- file has what the two share: the constants, the header that every packer writes, and
-- `validateHeader`.
pub mod Frames
pub mod Server
pub mod Client
pub mod RoundTrip
use qt_linux_im_project.Base.{
  ℕ, ◌*◌, ◌%◌, ◌^◌, Bool, true, false, ◌++◌, Bytes, ◌==◌, ltb, not, if◌then◌else◌,
}
use qt_linux_im_project.Wire.Message.{MessageHeader, MessageType, message_code}
use qt_linux_im_project.Wire.Message.Header.{put_header}

abbrev pub magic_number : ℕ
magic_number = 0x12345678

abbrev pub protocol_version : ℕ
protocol_version = 0x0001

-- The three tests of `validateHeader`, in their order.
unfoldable pub validate_header : MessageHeader → Bool
validate_header h =
    if not (h.magic == magic_number)
    then false
    else if not (h.version == protocol_version)
    then false
    else if ltb (1024 * 1024) h.body_length
    then false
    else true

-- The header that a packer fills in for a body of `len` bytes; `bodyLength` and `sequence` are
-- `uint32_t`.
unfoldable pub header_of : ℕ → ℕ → ℕ → MessageHeader
header_of msg_type len sequence = record {
  magic = magic_number;
  version = protocol_version;
  msg_type = msg_type % 2 ^ 16;
  body_length = len % 2 ^ 32;
  sequence = sequence % 2 ^ 32;
}

-- The buffer of a packer: the header, then the body.
unfoldable pub packet : MessageHeader → Bytes → Bytes
packet h body = put_header h ++ body

unfoldable pub pack_header : MessageType → ℕ → ℕ → Bytes
unfolding header_of message_code
pack_header t len sequence = put_header (header_of (message_code t) len sequence)
