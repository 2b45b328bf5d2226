-- ===== src/TcpClient/Transfer/Arrives.antt =====
-- A file from the disk of one client to the disk of another.
use qt_linux_im_project.Base.{
  ℕ, ◌+◌, ◌*◌, ◌%◌, ◌^◌, ◌≤◌, ◌<◌, ◌≡◌, refl, sym, ap, ◌∙◌, true, false, List, [], ◌∷◌, ◌++◌, Bytes,
  some, is_empty, length, arith, All,
}
use qt_linux_im_project.Base.NameMap.{find}
use qt_linux_im_project.Wire.Text.{no_nul}
use qt_linux_im_project.Wire.Text.Fields.{c_str-c_field_fits}
use qt_linux_im_project.Wire.Message.{message_code, msg_file_data, message_type}
use qt_linux_im_project.Protocol.{header_of}
use qt_linux_im_project.Protocol.Frames.Chunks.{join}
use qt_linux_im_project.Protocol.Frames.Stream.{stream, deliver}
use qt_linux_im_project.Protocol.Client.Pack.{file_data_header_of}
use qt_linux_im_project.Protocol.RoundTrip.Files.{parse_file_data-put}
use qt_linux_im_project.Protocol.RoundTrip.Packets.{file_data_body}
use qt_linux_im_project.TcpClient.{
  Qt, Disk, Client, TcpClient, FileSendSession, is_connected, text_field,
}
use qt_linux_im_project.TcpClient.Transfer.{handle_file_data, start_file_send}
use qt_linux_im_project.TcpClient.Transfer.Sends.{
  IsPart, next_number, data_messages, data_messages-IsFrame, start_file_send-sends,
}
use qt_linux_im_project.TcpClient.Transfer.Saves.{
  total, TakesAll, Receiving, Saved, handle_chunks, handle_chunks-Saved,
}
use qt_linux_im_project.TcpClient.Receive.{process_message, process_typed, on_file_data}
use qt_linux_im_project.TcpClient.Receive.Pieces.{read_pieces, read_pieces-stream}

-- A file id that fits its field and that `fromUtf8` leaves as it is.
pub record IsFileId (qt : Qt) (file_id : Bytes) : Type 0 where
  pub no_zero : no_nul file_id ≡ true
  pub fits : length file_id < 37
  pub text : qt.from_utf8 file_id ≡ file_id

on_file_data-handles :
    (qt : Qt) (disk : Disk) (file_id : Bytes) (sent : ℕ) (chunk : Bytes) (c : Client)
    → IsFileId qt file_id
    → length chunk ≤ 16 * 1024
    → sent < 2 ^ 64
    → on_file_data qt disk (file_data_body file_id sent chunk) c
      ≡ handle_file_data disk file_id sent chunk c
unfolding on_file_data
on_file_data-handles qt disk file_id sent chunk c v h l =
    let offset : (file_data_header_of file_id sent (length chunk)).offset ≡ sent =
      unfold file_data_header_of in omega arith in
    let id : text_field qt (file_data_header_of file_id sent (length chunk)).file_id ≡ file_id =
      unfold file_data_header_of in
      ap qt.from_utf8 (c_str-c_field_fits 37 file_id v.no_zero v.fits) ∙ v.text in
    rw (parse_file_data-put file_id sent chunk (omega arith), on_file_data, offset, id)

process_message-handles :
    (qt : Qt) (disk : Disk) (file_id : Bytes) (sent sequence : ℕ) (chunk : Bytes) (c : Client)
    → IsFileId qt file_id
    → length chunk ≤ 16 * 1024
    → sent < 2 ^ 64
    → process_message qt disk
        (header_of
          (message_code msg_file_data)
          (length (file_data_body file_id sent chunk))
          sequence)
        (file_data_body file_id sent chunk)
        c
      ≡ handle_file_data disk file_id sent chunk c
unfolding process_message process_typed header_of message_code message_type
process_message-handles qt disk file_id sent sequence chunk c v h l =
    on_file_data-handles qt disk file_id sent chunk c v h l

deliver-handles :
    (qt : Qt) (disk : Disk) (file_id : Bytes) (sent sequence : ℕ) (chunks : List Bytes) (c : Client)
    → IsFileId qt file_id
    → All IsPart chunks
    → sent + total chunks < 2 ^ 64
    → deliver (process_message qt disk) (data_messages file_id sent sequence chunks) c
      ≡ handle_chunks disk file_id sent chunks c
unfolding handle_chunks
deliver-handles qt disk file_id sent sequence [] c v p l = refl
deliver-handles qt disk file_id sent sequence (chunk ∷ chunks) c v (p, ps) l =
    let whole : (sent + length chunk) % 2 ^ 64 ≡ sent + length chunk = omega arith in
    ap
      (deliver (process_message qt disk)
        (data_messages file_id ((sent + length chunk) % 2 ^ 64) (next_number sequence) chunks))
      (process_message-handles qt disk file_id sent (next_number sequence) chunk c v p.bounded
        (omega arith))
    ∙ rw whole (
        deliver-handles qt disk file_id (sent + length chunk) (next_number sequence) chunks _ v ps
          (omega arith))

parts-filled : (chunks : List Bytes) → All IsPart chunks → All (λ x. is_empty x ≡ false) chunks
parts-filled [] v = tt
parts-filled (chunk ∷ chunks) (p, ps) = (p.filled, parts-filled chunks ps)

append_cancel : (xs ys zs : Bytes) → xs ++ ys ≡ xs ++ zs → ys ≡ zs
append_cancel [] ys zs e = e
append_cancel (x ∷ xs) ys zs e = append_cancel xs ys zs (cc)

-- A file that is not empty and that `startFileSend` reads in parts of at most 16 KiB, with the
-- receiver's session of the same id at the beginning of an open file that takes all bytes: whatever
-- pieces the packets reach the receiver in, it writes the parts to its file, each once and in
-- order, flushes and closes it, tells each progress and then the success, and ends the session.
pub file_transfer_arrives :
    (qt : Qt) (here there : Disk) (file_id path : Bytes) (sender : Client) (receiver : TcpClient)
    (session : FileSendSession) (chunk : Bytes) (chunks ds : List Bytes)
    → IsFileId qt file_id
    → is_connected sender ≡ true
    → find file_id sender.send_sessions ≡ some session
    → session.started ≡ false
    → here.open_read session.file_path ≡ some (chunk ∷ chunks)
    → All IsPart (chunk ∷ chunks)
    → total (chunk ∷ chunks) < 2 ^ 64
    → (start_file_send here file_id sender).written ≡ sender.written ++ join ds
    → receiver.recv_buffer ≡ []
    → TakesAll there path
    → Receiving file_id path (total (chunk ∷ chunks)) 0 receiver.members
    → Saved file_id path
        (total (chunk ∷ chunks))
        0
        (chunk ∷ chunks)
        receiver.members
        (read_pieces qt there ds receiver).members
file_transfer_arrives qt here there file_id path sender receiver session chunk chunks ds v k f n o p
      l w e a r =
    let ms = data_messages file_id 0 sender.sequence (chunk ∷ chunks) in
    let sent = start_file_send-sends here file_id session (chunk ∷ chunks) sender k f n o p in
    let same : join ds ≡ stream ms =
      append_cancel sender.written (join ds) (stream ms) (sym w ∙ sent) in
    let read =
      read_pieces-stream qt there ds ms receiver e same
        (data_messages-IsFrame file_id 0 sender.sequence (chunk ∷ chunks) p) in
    rw
      (
        read.1,
        deliver-handles qt there file_id 0 sender.sequence (chunk ∷ chunks) receiver.members v p
            (omega arith),
      )
      (handle_chunks-Saved there file_id path (total (chunk ∷ chunks)) 0 chunk chunks
        receiver.members a r (parts-filled (chunk ∷ chunks) p) l (omega arith))
