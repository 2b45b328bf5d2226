-- ===== src/Protocol/RoundTrip.antt =====
-- What one side packs, the other side takes out of its buffer and parses back.
pub mod Login
pub mod Chat
pub mod Files
pub mod UserList
pub mod Packets
use qt_linux_im_project.Base.{
  ℕ, ◌*◌, ◌%◌, ◌^◌, ◌≤◌, ◌<◌, ◌≡◌, refl, sym, ◌++◌, Bytes, length, arith, append_assoc,
}
use qt_linux_im_project.Wire.Message.{MessageType, message_code}
use qt_linux_im_project.Wire.Message.Header.{put_header, IsHeader}
use qt_linux_im_project.Protocol.{header_of, pack_header, packet, validate_header}
use qt_linux_im_project.Protocol.Frames.{frame, next_frame}
use qt_linux_im_project.Protocol.Frames.Stream.{IsFrame, next_frame-packet}

-- The header that a packer writes is one that `validateHeader` accepts, up to a body of 1 MiB.
pub header_of-IsFrame :
    (msg_type sequence : ℕ) (body : Bytes)
    → length body ≤ 1024 * 1024
    → IsFrame (header_of msg_type (length body) sequence, body)
unfolding header_of validate_header
header_of-IsFrame msg_type sequence body h = record {
  header = omega arith;
  valid = ground arith;
  body_size = omega arith;
}

-- The receiver takes the packed message off the front of its buffer, whatever stands behind it.
pub next_frame-pack_header :
    (t : MessageType) (sequence len : ℕ) (body rest : Bytes)
    → length body ≡ len
    → len ≤ 1024 * 1024
    → next_frame ((pack_header t len sequence ++ body) ++ rest)
      ≡ frame (header_of (message_code t) len sequence) body rest
unfolding pack_header
next_frame-pack_header t sequence len body rest e h = rw (← e) (
    unfold packet in
    next_frame-packet (header_of (message_code t) (length body) sequence) body rest
      (header_of-IsFrame (message_code t) sequence body (rw e h)))
