-- ===== src/TcpClient/Transfer/Saves.antt =====
-- What the receiver of a file writes, chunk after chunk.
use qt_linux_im_project.Base.{
  ℕ, ◌+◌, ◌%◌, ◌^◌, ◌≤◌, ◌<◌, ◌≡◌, refl, true, false, ◌&&◌, List, [], ◌∷◌, ◌++◌, Bytes, some, none,
  is_empty, length, append_assoc, arith, All, ltb, leb, bytes_eq_refl, ==-refl,
}
use qt_linux_im_project.Base.NameMap.{find, put, find-put, find-remove_same}
use qt_linux_im_project.TcpClient.{
  Disk, Client, FileReceiveSession, Signal, FileCall, emit, file_call, wrote, flushed, closed_file,
  file_transfer_progress, file_transfer_completed,
}
use qt_linux_im_project.TcpClient.Transfer.{
  is_open_file, handle_file_data, receive_chunk, write_chunk, finish_chunk, drop_recv_session,
}

-- The bytes of all chunks.
abbrev pub total : List Bytes → ℕ
total [] = 0
total (chunk ∷ chunks) = length chunk + total chunks

-- The file takes whatever is written to it.
abbrev pub TakesAll : Disk → Bytes → Type 0
TakesAll disk path =
    (position : ℕ) (bytes : Bytes) → disk.write path position bytes ≡ some (length bytes)

-- The calls on the file, and the signals, for the chunks from a position on and the end.
abbrev pub save_calls : Bytes → List Bytes → List FileCall
save_calls path [] = flushed path ∷ closed_file path ∷ []
save_calls path (chunk ∷ chunks) = wrote path chunk (length chunk) ∷ save_calls path chunks

abbrev pub save_signals : Bytes → Bytes → ℕ → ℕ → List Bytes → List Signal
save_signals file_id path size received [] = file_transfer_completed file_id true true path ∷ []
save_signals file_id path size received (chunk ∷ chunks) =
    file_transfer_progress file_id (received + length chunk) size true
    ∷ save_signals file_id path size (received + length chunk) chunks

-- The session's transfer is at this position, and its file is open.
pub record Receiving (file_id path : Bytes) (size received : ℕ) (c : Client) : Type 0 where
  pub session : FileReceiveSession
  pub found : find file_id c.recv_sessions ≡ some session
  pub same_path : session.save_path ≡ path
  pub same_size : session.file_size ≡ size
  pub position : session.bytes_received ≡ received
  pub open_file : is_open_file session.file ≡ true

-- A chunk at the session's position that does not reach the end.
pub record Continues (file_id path : Bytes) (size received : ℕ) (chunk : Bytes) (c t : Client)
    : Type 0 where
  pub receiving : Receiving file_id path size (received + length chunk) t
  pub file_calls : t.file_calls ≡ c.file_calls ++ (wrote path chunk (length chunk) ∷ [])
  pub signals :
      t.signals
      ≡ c.signals ++ (file_transfer_progress file_id (received + length chunk) size true ∷ [])

write_chunk-stores :
    (disk : Disk) (file_id : Bytes) (session : FileReceiveSession) (chunk : Bytes) (c : Client)
    → is_empty chunk ≡ false
    → disk.write session.save_path session.bytes_received chunk ≡ some (length chunk)
    → session.bytes_received + length chunk < 2 ^ 64
    → write_chunk disk file_id session chunk c
      ≡ finish_chunk file_id
          (record session { bytes_received = session.bytes_received + length chunk })
          (file_call (wrote session.save_path chunk (length chunk)) c)
unfolding write_chunk
write_chunk-stores disk file_id session chunk c f w b =
    let fits : (session.bytes_received + length chunk) % 2 ^ 64
        ≡ session.bytes_received + length chunk =
      omega arith in
    rw (f, write_chunk, w, fits)

handle_file_data-stores :
    (disk : Disk) (file_id : Bytes) (received : ℕ) (chunk : Bytes) (c : Client)
    → (session : FileReceiveSession) → find file_id c.recv_sessions ≡ some session
    → is_open_file session.file ≡ true
    → received ≡ session.bytes_received
    → is_empty chunk ≡ false
    → TakesAll disk session.save_path
    → session.bytes_received + length chunk < 2 ^ 64
    → handle_file_data disk file_id received chunk c
      ≡ finish_chunk file_id
          (record session { bytes_received = session.bytes_received + length chunk })
          (file_call (wrote session.save_path chunk (length chunk)) c)
unfolding handle_file_data receive_chunk
handle_file_data-stores disk file_id received chunk c session e o p f w b =
    rw (e, handle_file_data, o, p, ==-refl session.bytes_received)
      (write_chunk-stores disk file_id session chunk c f (w session.bytes_received chunk) b)

-- The progress, with the session stored.
abbrev told : Bytes → FileReceiveSession → Client → Client
told file_id session c =
    emit (file_transfer_progress file_id session.bytes_received session.file_size true)
      (record c { recv_sessions = put file_id session c.recv_sessions })

finish_chunk-goes :
    (file_id : Bytes) (session : FileReceiveSession) (c : Client)
    → session.bytes_received < session.file_size
    → finish_chunk file_id session c ≡ told file_id session c
unfolding finish_chunk
finish_chunk-goes file_id session c h =
    let test : (ltb 0 session.file_size && leb session.file_size session.bytes_received) ≡ false =
      ground arith in
    rw test

pub finish_chunk-ends :
    (file_id : Bytes) (session : FileReceiveSession) (c : Client)
    → 0 < session.file_size
    → session.file_size ≤ session.bytes_received
    → finish_chunk file_id session c
      ≡ drop_recv_session file_id (
          emit (file_transfer_completed file_id true true session.save_path) (
            file_call
              (closed_file session.save_path)
              (file_call (flushed session.save_path) (told file_id session c))))
unfolding finish_chunk
finish_chunk-ends file_id session c h k =
    let test : (ltb 0 session.file_size && leb session.file_size session.bytes_received) ≡ true =
      ground arith in
    rw test

put-Receiving :
    (file_id : Bytes) (session : FileReceiveSession) (c : Client)
    → is_open_file session.file ≡ true
    → Receiving file_id session.save_path session.file_size session.bytes_received
        (told file_id session c)
put-Receiving file_id session c o = record {
  session = session;
  found = rw (find-put file_id file_id session c.recv_sessions, bytes_eq_refl file_id);
  same_path = refl;
  same_size = refl;
  position = refl;
  open_file = o;
}

chunk-Continues :
    (disk : Disk) (file_id : Bytes) (chunk : Bytes) (c : Client) (session : FileReceiveSession)
    → find file_id c.recv_sessions ≡ some session
    → is_open_file session.file ≡ true
    → TakesAll disk session.save_path
    → is_empty chunk ≡ false
    → session.file_size < 2 ^ 64
    → session.bytes_received + length chunk < session.file_size
    → Continues file_id session.save_path session.file_size session.bytes_received chunk c
        (handle_file_data disk file_id session.bytes_received chunk c)
chunk-Continues disk file_id chunk c session e o w f b l =
    let moved = record session { bytes_received = session.bytes_received + length chunk } in
    let after = file_call (wrote session.save_path chunk (length chunk)) c in
    rw
      (
        handle_file_data-stores disk file_id session.bytes_received chunk c session e o refl f w
            (omega arith),
        finish_chunk-goes file_id moved after l,
      )
      (record {
        receiving = put-Receiving file_id moved after o;
        file_calls = refl;
        signals = refl;
      })

-- The last chunk.
pub record Ends (file_id path : Bytes) (size received : ℕ) (chunk : Bytes) (c t : Client)
    : Type 0 where
  pub gone : find file_id t.recv_sessions ≡ none
  pub file_calls :
      t.file_calls
      ≡ c.file_calls ++ (wrote path chunk (length chunk) ∷ (flushed path ∷ (closed_file path ∷ [])))
  pub signals :
      t.signals
      ≡ c.signals
        ++ (file_transfer_progress file_id (received + length chunk) size true
            ∷ (file_transfer_completed file_id true true path ∷ []))

chunk-Ends :
    (disk : Disk) (file_id : Bytes) (chunk : Bytes) (c : Client) (session : FileReceiveSession)
    → find file_id c.recv_sessions ≡ some session
    → is_open_file session.file ≡ true
    → TakesAll disk session.save_path
    → is_empty chunk ≡ false
    → session.file_size < 2 ^ 64
    → 0 < session.file_size
    → session.bytes_received + length chunk ≡ session.file_size
    → Ends file_id session.save_path session.file_size session.bytes_received chunk c
        (handle_file_data disk file_id session.bytes_received chunk c)
chunk-Ends disk file_id chunk c session e o w f b z l =
    let moved = record session { bytes_received = session.bytes_received + length chunk } in
    let after = file_call (wrote session.save_path chunk (length chunk)) c in
    rw
      (
        handle_file_data-stores disk file_id session.bytes_received chunk c session e o refl f w
            (omega arith),
        finish_chunk-ends file_id moved after z (omega arith),
      )
      (record {
        gone = find-remove_same file_id (put file_id moved c.recv_sessions);
        file_calls = simp append_assoc refl;
        signals = simp append_assoc refl;
      })

-- The transfer is over: all chunks are in the file, in order, the file is flushed and closed, and
-- the session is gone.
pub record Saved (file_id path : Bytes) (size received : ℕ) (chunks : List Bytes) (c t : Client)
    : Type 0 where
  pub gone : find file_id t.recv_sessions ≡ none
  pub file_calls : t.file_calls ≡ c.file_calls ++ save_calls path chunks
  pub signals : t.signals ≡ c.signals ++ save_signals file_id path size received chunks

Ends-Saved :
    (file_id path : Bytes) (size received : ℕ) (chunk : Bytes) (c t : Client)
    → Ends file_id path size received chunk c t
    → Saved file_id path size received (chunk ∷ []) c t
Ends-Saved file_id path size received chunk c t v = record {
  gone = v.gone;
  file_calls = v.file_calls;
  signals = v.signals;
}

Continues-Saved :
    (file_id path : Bytes) (size received : ℕ) (chunk : Bytes) (chunks : List Bytes)
    (c t u : Client)
    → Continues file_id path size received chunk c t
    → Saved file_id path size (received + length chunk) chunks t u
    → Saved file_id path size received (chunk ∷ chunks) c u
Continues-Saved file_id path size received chunk chunks c t u a b = record {
  gone = b.gone;
  file_calls = rw (b.file_calls, a.file_calls) (append_assoc c.file_calls _ _);
  signals = rw (b.signals, a.signals) (append_assoc c.signals _ _);
}

-- One call for each chunk, each at the end of those before it.
unfoldable pub handle_chunks : Disk → Bytes → ℕ → List Bytes → Client → Client
unfolding handle_file_data
handle_chunks disk file_id received [] c = c
handle_chunks disk file_id received (chunk ∷ chunks) c =
    handle_chunks disk file_id (received + length chunk) chunks
      (handle_file_data disk file_id received chunk c)

nonempty_length : (xs : Bytes) → is_empty xs ≡ false → 0 < length xs
nonempty_length [] h = cc
nonempty_length (x ∷ xs) h = omega arith

pub handle_chunks-Saved :
    (disk : Disk) (file_id path : Bytes) (size received : ℕ) (chunk : Bytes) (chunks : List Bytes)
    (c : Client)
    → TakesAll disk path
    → Receiving file_id path size received c
    → All (λ x. is_empty x ≡ false) (chunk ∷ chunks)
    → size < 2 ^ 64
    → received + total (chunk ∷ chunks) ≡ size
    → Saved file_id path size received
        (chunk ∷ chunks)
        c
        (handle_chunks disk file_id received (chunk ∷ chunks) c)
unfolding handle_chunks
handle_chunks-Saved disk file_id path size received chunk [] c w r (f, fs) b l =
    Ends-Saved file_id path size received chunk c _ (
      rw (r.same_path, r.same_size, r.position) at
        (chunk-Ends disk file_id chunk c r.session r.found r.open_file (rw r.same_path w) f
          (omega (arith, r.same_size)) (omega (arith, r.same_size, nonempty_length chunk f))
          (omega (arith, r.same_size, r.position))))
handle_chunks-Saved disk file_id path size received chunk (next ∷ chunks) c w r (f, fs) b l =
    let step : Continues file_id path size received chunk c
        (handle_file_data disk file_id received chunk c) =
      rw (r.same_path, r.same_size, r.position) at
        (chunk-Continues disk file_id chunk c r.session r.found r.open_file (rw r.same_path w) f
          (omega (arith, r.same_size))
          (omega (arith, r.same_size, r.position, nonempty_length next fs.0))) in
    Continues-Saved file_id path size received chunk (next ∷ chunks) c
      (handle_file_data disk file_id received chunk c)
      (handle_chunks disk file_id (received + length chunk) (next ∷ chunks)
        (handle_file_data disk file_id received chunk c))
      step
      (handle_chunks-Saved disk file_id path size (received + length chunk) next chunks _ w
        step.receiving fs b (omega arith))
