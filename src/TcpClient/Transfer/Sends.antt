-- ===== src/TcpClient/Transfer/Sends.antt =====
-- What `startFileSend` writes to the socket.
use qt_linux_im_project.Base.{
  ℕ, ◌+◌, ◌*◌, ◌%◌, ◌^◌, ◌≤◌, ◌≡◌, sym, true, false, List, [], ◌∷◌, ◌++◌, Bytes, some, is_empty,
  length, append-nil, append_assoc, arith, All,
}
use qt_linux_im_project.Base.NameMap.{find}
use qt_linux_im_project.Wire.Message.{MessageHeader, message_code, msg_file_data}
use qt_linux_im_project.Protocol.{header_of, packet}
use qt_linux_im_project.Protocol.Frames.Stream.{IsFrame, stream}
use qt_linux_im_project.Protocol.Client.Pack.{pack_file_data}
use qt_linux_im_project.Protocol.RoundTrip.{header_of-IsFrame}
use qt_linux_im_project.Protocol.RoundTrip.Packets.{
  file_data_body, length-file_data_body, pack_header-packet,
}
use qt_linux_im_project.TcpClient.{
  Disk, Client, FileSendSession, is_connected, send_data, send_next, file_call, opened_read,
}
use qt_linux_im_project.TcpClient.Transfer.{send_chunk, send_chunks, start_file_send}

abbrev pub next_number : ℕ → ℕ
next_number sequence = (sequence + 1) % 2 ^ 32

-- The packets of the chunks, from an offset and a number on.
abbrev pub data_messages : Bytes → ℕ → ℕ → List Bytes → List (MessageHeader × Bytes)
data_messages file_id sent sequence [] = []
data_messages file_id sent sequence (chunk ∷ chunks) =
    (
      header_of (message_code msg_file_data) (length (file_data_body file_id sent chunk))
          (next_number sequence),
      file_data_body file_id sent chunk,
    )
    ∷ data_messages file_id ((sent + length chunk) % 2 ^ 64) (next_number sequence) chunks

-- What one `read` returns before the end of the file.
pub record IsPart (chunk : Bytes) : Type 0 where
  pub filled : is_empty chunk ≡ false
  pub bounded : length chunk ≤ 16 * 1024

pub data_messages-IsFrame :
    (file_id : Bytes) (sent sequence : ℕ) (chunks : List Bytes)
    → All IsPart chunks
    → All IsFrame (data_messages file_id sent sequence chunks)
data_messages-IsFrame file_id sent sequence [] v = tt
data_messages-IsFrame file_id sent sequence (chunk ∷ chunks) (v, vs) = (
  header_of-IsFrame (message_code msg_file_data) (next_number sequence)
      (file_data_body file_id sent chunk)
      (omega (arith, length-file_data_body file_id sent chunk, v.bounded)),
  data_messages-IsFrame file_id ((sent + length chunk) % 2 ^ 64) (next_number sequence) chunks vs,
)

pack_file_data-packet :
    (sequence : ℕ) (file_id : Bytes) (sent : ℕ) (chunk : Bytes)
    → pack_file_data sequence file_id sent chunk
      ≡ packet
          (header_of
            (message_code msg_file_data)
            (length (file_data_body file_id sent chunk))
            sequence)
          (file_data_body file_id sent chunk)
unfolding pack_file_data
pack_file_data-packet sequence file_id sent chunk =
    pack_header-packet msg_file_data sequence _ (file_data_body file_id sent chunk)
      (length-file_data_body file_id sent chunk)

-- A chunk on a socket that is connected.
send_chunk-sends :
    (file_id : Bytes) (file_size sent : ℕ) (chunk : Bytes) (c : Client)
    → is_connected c ≡ true
    → ((send_chunk file_id file_size sent chunk c).written
        ≡ c.written ++ pack_file_data (next_number c.sequence) file_id sent chunk)
      × ((send_chunk file_id file_size sent chunk c).sequence ≡ next_number c.sequence)
      × (is_connected (send_chunk file_id file_size sent chunk c) ≡ true)
unfolding send_chunk send_next send_data is_connected
send_chunk-sends file_id file_size sent chunk c h = ground arith

pub send_chunks-sends :
    (file_id path : Bytes) (file_size sent : ℕ) (chunks : List Bytes) (c : Client)
    → is_connected c ≡ true
    → All IsPart chunks
    → (send_chunks file_id path file_size sent chunks c).written
      ≡ c.written ++ stream (data_messages file_id sent c.sequence chunks)
unfolding send_chunks
send_chunks-sends file_id path file_size sent [] c h v = sym (append-nil c.written)
send_chunks-sends file_id path file_size sent (chunk ∷ chunks) c h (v, vs) =
    let one = send_chunk-sends file_id file_size sent chunk c h in
    let later =
      send_chunks-sends file_id path file_size ((sent + length chunk) % 2 ^ 64) chunks
        (send_chunk file_id file_size sent chunk c) one.2 vs in
    rw
      (
        v.filled,
        later,
        one.0,
        one.1,
        pack_file_data-packet (next_number c.sequence) file_id sent chunk,
      )
      (append_assoc c.written _ _)

-- The transfer of a session that has not started, from a file that opens.
pub start_file_send-sends :
    (disk : Disk) (file_id : Bytes) (session : FileSendSession) (chunks : List Bytes) (c : Client)
    → is_connected c ≡ true
    → find file_id c.send_sessions ≡ some session
    → session.started ≡ false
    → disk.open_read session.file_path ≡ some chunks
    → All IsPart chunks
    → (start_file_send disk file_id c).written
      ≡ c.written ++ stream (data_messages file_id 0 c.sequence chunks)
unfolding start_file_send is_connected
start_file_send-sends disk file_id session chunks c h f n o v =
    rw (f, start_file_send, n, o)
      (send_chunks-sends file_id session.file_path session.file_size 0 chunks
        (file_call (opened_read session.file_path) c) h v)
