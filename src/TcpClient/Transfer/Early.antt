-- ===== src/TcpClient/Transfer/Early.antt =====
-- A transfer that ends before its bytes have come.
use qt_linux_im_project.Base.{
  ℕ, ◌≤◌, ◌<◌, ◌≡◌, ◌≢◌, refl, true, false, [], ◌∷◌, ◌++◌, Bytes, some, arith, append_assoc, ◌==◌,
}
use qt_linux_im_project.Base.NameMap.{find}
use qt_linux_im_project.TcpClient.{
  Disk, Client, FileReceiveSession, file_call, flushed, closed_file, sought, file_transfer_progress,
  file_transfer_completed,
}
use qt_linux_im_project.TcpClient.Transfer.Saves.{finish_chunk-ends}
use qt_linux_im_project.TcpClient.Transfer.{
  handle_file_data, receive_chunk, write_chunk, finish_chunk, is_open_file,
}

seeks :
    (disk : Disk) (file_id : Bytes) (session : FileReceiveSession) (offset : ℕ) (c : Client)
    → find file_id c.recv_sessions ≡ some session
    → is_open_file session.file ≡ true
    → offset ≢ session.bytes_received
    → disk.seek session.save_path offset ≡ true
    → handle_file_data disk file_id offset [] c
      ≡ finish_chunk file_id
          (record session { bytes_received = offset })
          (file_call (sought session.save_path offset) c)
unfolding handle_file_data receive_chunk write_chunk
seeks disk file_id session offset c f o n s =
    let differs : (offset == session.bytes_received) ≡ false = ground arith in
    rw (f, handle_file_data, o, differs, s) refl

-- A chunk without bytes, at an offset behind the end of a file that is being received: the transfer
-- is reported as complete and successful, although the calls on the file are a seek, a flush and a
-- close, and no write.
pub handle_file_data-early :
    (disk : Disk) (file_id : Bytes) (session : FileReceiveSession) (offset : ℕ) (c : Client)
    → find file_id c.recv_sessions ≡ some session
    → is_open_file session.file ≡ true
    → 0 < session.file_size
    → session.file_size ≤ offset
    → offset ≢ session.bytes_received
    → disk.seek session.save_path offset ≡ true
    → ((handle_file_data disk file_id offset [] c).signals
        ≡ c.signals
          ++ (file_transfer_progress file_id offset session.file_size true
              ∷ file_transfer_completed file_id true true session.save_path
              ∷ []))
      × ((handle_file_data disk file_id offset [] c).file_calls
          ≡ c.file_calls
            ++ (sought session.save_path offset
                ∷ flushed session.save_path
                ∷ closed_file session.save_path
                ∷ []))
handle_file_data-early disk file_id session offset c f o z h n s =
    let moved : FileReceiveSession = record session { bytes_received = offset } in
    rw
      (
        seeks disk file_id session offset c f o n s,
        finish_chunk-ends file_id moved (file_call (sought session.save_path offset) c) z h,
      )
      (simp append_assoc refl, simp append_assoc refl)
