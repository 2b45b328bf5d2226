-- ===== src/TcpClient/Transfer.antt =====
-- `startFileSend`, `handleFileData`, `buildDownloadPath` and `clearFileSessions`.
pub mod Sends
pub mod Saves
pub mod Arrives
pub mod Paths
pub mod Early
use qt_linux_im_project.Base.{
  ℕ, zero, suc, ◌+◌, ◌*◌, ◌%◌, ◌^◌, true, false, not, ◌||◌, ◌&&◌, ◌==◌, ltb, leb, Bool, Bytes, List,
  [], ◌∷◌, Option, none, some, if◌then◌else◌, codes, is_empty, length,
}
use qt_linux_im_project.Base.NameMap.{NameMap, find, put, remove}
use qt_linux_im_project.Protocol.Client.Pack.{pack_file_data}
use qt_linux_im_project.TcpClient.{
  Qt, Disk, Client, OpenFile, FileSendSession, FileReceiveSession, emit, file_call, send_next,
  file_transfer_completed, file_transfer_progress, made_path, opened_read, flushed, closed_file,
  sought, wrote,
}

-- `QByteArray chunk = session.file->read(kFileChunkSize)`.
abbrev pub file_chunk_size : ℕ
file_chunk_size = 16 * 1024

abbrev pub drop_send_session : Bytes → Client → Client
drop_send_session file_id c = record c { send_sessions = remove file_id c.send_sessions }

-- One chunk: the packet, the count and the progress.
unfoldable pub send_chunk : Bytes → ℕ → ℕ → Bytes → Client → Client
unfolding send_next
send_chunk file_id file_size bytes_sent chunk c =
    emit (file_transfer_progress file_id ((bytes_sent + length chunk) % 2 ^ 64) file_size false)
      (send_next (λ sequence. pack_file_data sequence file_id bytes_sent chunk) c)

-- The loop `while (!session.file->atEnd())` with what is left to read, and what follows it. The
-- session is not read again before it is removed.
unfoldable pub send_chunks : Bytes → Bytes → ℕ → ℕ → List Bytes → Client → Client
unfolding send_chunk
send_chunks file_id path file_size bytes_sent [] c = drop_send_session file_id (
    emit (file_transfer_completed file_id false true (codes "Sent"))
      (file_call (closed_file path) c))
send_chunks file_id path file_size bytes_sent (chunk ∷ chunks) c =
    let sent =
      send_chunks file_id path file_size ((bytes_sent + length chunk) % 2 ^ 64) chunks
        (send_chunk file_id file_size bytes_sent chunk c) in
    if is_empty chunk && not (is_empty chunks)
    then drop_send_session file_id (
        file_call (closed_file path)
          (emit (file_transfer_completed file_id false false (codes "Read error")) c))
    else sent

unfoldable pub start_file_send : Disk → Bytes → Client → Client
unfolding send_chunks
start_file_send disk file_id c = elim (find file_id c.send_sessions) [
  | none ↦ c
  | some session ↦
      (if session.started then c else elim (disk.open_read session.file_path) [
        | none ↦
            drop_send_session file_id
              (emit (file_transfer_completed file_id false false (codes "Cannot open file")) c)
        | some chunks ↦
            send_chunks file_id session.file_path session.file_size 0 chunks
              (file_call (opened_read session.file_path) c)
      ])
]

abbrev pub is_open_file : Option OpenFile → Bool
is_open_file none = false
is_open_file (some file) = file.is_open

abbrev pub drop_recv_session : Bytes → Client → Client
drop_recv_session file_id c = record c { recv_sessions = remove file_id c.recv_sessions }

-- The ways in which a chunk ends the transfer with an error.
unfoldable pub fail_receive : Bytes → FileReceiveSession → Bytes → Client → Client
fail_receive file_id session text c = drop_recv_session file_id (
    file_call (closed_file session.save_path)
      (emit (file_transfer_completed file_id true false text) c))

-- From the progress on.
unfoldable pub finish_chunk : Bytes → FileReceiveSession → Client → Client
finish_chunk file_id session c =
    let stored = record c { recv_sessions = put file_id session c.recv_sessions } in
    let told =
      emit (file_transfer_progress file_id session.bytes_received session.file_size true) stored in
    if ltb 0 session.file_size && leb session.file_size session.bytes_received
    then drop_recv_session file_id (
        emit (file_transfer_completed file_id true true session.save_path)
          (file_call (closed_file session.save_path) (file_call (flushed session.save_path) told)))
    else told

-- The write at the session's position.
unfoldable pub write_chunk : Disk → Bytes → FileReceiveSession → Bytes → Client → Client
unfolding finish_chunk fail_receive
write_chunk disk file_id session payload c =
    if is_empty payload
    then finish_chunk file_id session c
    else elim (disk.write session.save_path session.bytes_received payload) [
      | none ↦ fail_receive file_id session (codes "Write failed") c
      | some n ↦
          finish_chunk file_id
            (record session { bytes_received = (session.bytes_received + n) % 2 ^ 64 })
            (file_call (wrote session.save_path payload n) c)
    ]

-- The part before the write: a chunk at another offset moves the position.
unfoldable pub receive_chunk : Disk → Bytes → FileReceiveSession → ℕ → Bytes → Client → Client
unfolding write_chunk fail_receive
receive_chunk disk file_id session offset payload c =
    if offset == session.bytes_received
    then write_chunk disk file_id session payload c
    else if disk.seek session.save_path offset
    then write_chunk disk file_id (record session { bytes_received = offset }) payload
        (file_call (sought session.save_path offset) c)
    else fail_receive file_id session (codes "Seek failed") c

unfoldable pub handle_file_data : Disk → Bytes → ℕ → Bytes → Client → Client
unfolding receive_chunk
handle_file_data disk file_id offset payload c = elim (find file_id c.recv_sessions) [
  | none ↦ c
  | some session ↦
      (if not (is_open_file session.file)
        then drop_recv_session file_id
            (emit (file_transfer_completed file_id true false (codes "File not open")) c)
        else receive_chunk disk file_id session offset payload c)
]

abbrev pub base_dir : Disk → Bytes
base_dir disk =
    if is_empty disk.download_location then disk.current_downloads else disk.download_location

-- `dir.mkpath(".")` where the directory is missing.
unfoldable pub make_download_dir : Disk → Client → Client
make_download_dir disk c =
    if disk.exists (base_dir disk) then c else file_call (made_path (base_dir disk)) c

-- The candidate with a number.
unfoldable pub numbered : Qt → Disk → Bytes → ℕ → Bytes
numbered qt disk file_name index = qt.file_path (base_dir disk) (
    if is_empty (qt.suffix file_name)
    then qt.arg (qt.arg (codes "%1_%2") (qt.base_name file_name)) (qt.number index)
    else qt.arg (qt.arg (qt.arg (codes "%1_%2.%3") (qt.base_name file_name)) (qt.number index))
        (qt.suffix file_name))

-- The loop over the numbers. It has no bound in the code; here it ends at the number behind the
-- count of the names that are taken.
unfoldable pub find_free : Qt → Disk → Bytes → ℕ → ℕ → Bytes
unfolding numbered
find_free qt disk file_name zero index = numbered qt disk file_name index
find_free qt disk file_name (suc left) index =
    let later = find_free qt disk file_name left (index + 1) in
    if disk.exists (numbered qt disk file_name index)
    then later
    else numbered qt disk file_name index

unfoldable pub build_download_path : Qt → Disk → Bytes → Bytes
unfolding find_free
build_download_path qt disk file_name =
    if disk.exists (qt.file_path (base_dir disk) file_name)
    then find_free qt disk file_name disk.taken 1
    else qt.file_path (base_dir disk) file_name

unfoldable pub close_send_files : NameMap FileSendSession → Client → Client
close_send_files [] c = c
close_send_files ((file_id, session) ∷ sessions) c =
    close_send_files sessions
      (if is_open_file session.file then file_call (closed_file session.file_path) c else c)

unfoldable pub close_recv_files : NameMap FileReceiveSession → Client → Client
close_recv_files [] c = c
close_recv_files ((file_id, session) ∷ sessions) c =
    close_recv_files sessions
      (if is_open_file session.file then file_call (closed_file session.save_path) c else c)

unfoldable pub clear_file_sessions : Client → Client
unfolding close_send_files close_recv_files
clear_file_sessions c =
    record (close_recv_files c.recv_sessions (close_send_files c.send_sessions c)) {
      send_sessions = [];
      recv_sessions = [];
      pending_offers = [];
    }
