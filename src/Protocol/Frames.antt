-- ===== src/Protocol/Frames.antt =====
-- `ProtocolParser::parseData` and `removeClient` of server/src/protocol.cpp: the receive buffer
-- of each descriptor and the loop that cuts it into messages.
pub mod Progress
pub mod Chunks
pub mod Stream
use qt_linux_im_project.Base.{
  ℕ, zero, suc, ◌+◌, ◌<◌, [], ◌++◌, Bytes, Option, none, some, ltb, if◌then◌else◌, length, take,
  drop,
}
use qt_linux_im_project.Base.FdMap.{FdMap, lookup, insert, erase}
use qt_linux_im_project.Wire.Message.{MessageHeader, size_of_header}
use qt_linux_im_project.Wire.Message.Header.{get_header}
use qt_linux_im_project.Protocol.{validate_header}

-- What one round of the loop finds at the front of the buffer: too few bytes for a header or for
-- the body, a header that is refused, or a message with its body and the bytes behind it.
pub data Next : Type 0 where
  wait refused : Next
  frame : MessageHeader → Bytes → Bytes → Next

unfoldable pub next_frame : Bytes → Next
next_frame buffer =
    if ltb (length buffer) size_of_header
    then wait
    else let header = get_header buffer in
      let total_len = size_of_header + header.body_length in
      if validate_header header
      then if ltb (length buffer) total_len
        then wait
        else frame header (take header.body_length (drop size_of_header buffer))
            (drop total_len buffer)
      else refused

module _ {ℓ} {S : Type ℓ} (callback : MessageHeader → Bytes → S → S) where
  -- The `while` loop on the buffer and the state of the callback, with fuel.
  unfoldable pub parse_loop : ℕ → Bytes → S → Bytes × S
  parse_loop zero buffer s = (buffer, s)
  parse_loop (suc fuel) buffer s = elim (next_frame buffer) [
    | wait ↦ (buffer, s)
    | refused ↦ ([], s)
    | frame header body rest ↦ parse_loop fuel rest (callback header body s)
  ]

  -- The loop with fuel for every byte of the buffer: each round but the last takes 16 at least.
  unfoldable pub parse_buffer : Bytes → S → Bytes × S
  parse_buffer buffer s = parse_loop (length buffer) buffer s

abbrev pub or_empty : Option Bytes → Bytes
or_empty none = []
or_empty (some b) = b

-- `recvBuffers_[fd]`: a missing entry is an empty buffer.
unfoldable pub buffer_of : ℕ → FdMap Bytes → Bytes
buffer_of fd buffers = or_empty (lookup fd buffers)

module _ {ℓ} {S : Type ℓ} (callback : ℕ → MessageHeader → Bytes → S → S) where
  unfoldable pub parse_data : ℕ → Bytes → FdMap Bytes × S → FdMap Bytes × S
  parse_data fd bytes (buffers, s) =
      let (rest, s') = parse_buffer (callback fd) (buffer_of fd buffers ++ bytes) s in
      (insert fd rest buffers, s')

-- `removeClient`.
unfoldable pub remove_client : ℕ → FdMap Bytes → FdMap Bytes
remove_client fd buffers = erase fd buffers
