-- ===== src/TcpClient/Talks.antt =====
-- Every operation of the client writes whole valid packets, or nothing.
pub mod Session
use qt_linux_im_project.Base.{
  ℕ, suc, ◌+◌, ◌*◌, ◌%◌, ◌^◌, ◌≤◌, ◌≡◌, refl, sym, ap, ◌∙◌, Bool, true, false, not, ◌&&◌, ◌||◌,
  ◌==◌, List, [], ◌∷◌, ◌++◌, Bytes, Option, none, some, if◌then◌else◌, is_empty, length, append-nil,
  append_assoc, arith, All, inl, inr, Bool-cases, Option-cases, codes,
}
use qt_linux_im_project.Base.NameMap.{NameMap, find}
use qt_linux_im_project.Wire.Message.{MessageHeader, MessageType, ChatScope}
use qt_linux_im_project.Protocol.{packet}
use qt_linux_im_project.Protocol.Frames.Stream.{IsFrame, stream}
use qt_linux_im_project.Protocol.RoundTrip.Packets.{
  IsPacket, heartbeat_request-IsPacket, logout_request-IsPacket, user_list_request-IsPacket,
  login_request-IsPacket, chat_message-IsPacket, file_offer-IsPacket, file_offer_response-IsPacket,
  file_data-IsPacket,
}
use qt_linux_im_project.TcpClient.{
  Qt, Disk, Client, FileSendSession, FileReceiveSession, is_connected, send_data, send_next,
  advance_sequence, file_call, sought,
}
use qt_linux_im_project.TcpClient.Transfer.{
  send_chunk, send_chunks, start_file_send, handle_file_data, close_send_files, close_recv_files,
  clear_file_sessions, receive_chunk, write_chunk, finish_chunk, fail_receive, make_download_dir,
}

-- What `t` has written is what `c` had, and valid packets behind it.
pub record Talks (c t : Client) : Type 0 where
  pub messages : List (MessageHeader × Bytes)
  pub grows : t.written ≡ c.written ++ stream messages
  pub frames : All IsFrame messages

pub stream-append :
    (ms ns : List (MessageHeader × Bytes)) → stream (ms ++ ns) ≡ stream ms ++ stream ns
stream-append [] ns = refl
stream-append ((h, body) ∷ ms) ns =
    rw (stream-append ms ns) (sym (append_assoc (packet h body) (stream ms) (stream ns)))

pub All-append {ℓ κ} :
    {A : Type ℓ} (P : A → Type κ) (xs ys : List A) → All P xs → All P ys → All P (xs ++ ys)
All-append P [] ys p q = q
All-append P (x ∷ xs) ys (p, ps) q = (p, All-append P xs ys ps q)

-- Nothing is written.
pub quiet-Talks : {c t : Client} → t.written ≡ c.written → Talks c t
quiet-Talks {c} e = record { messages = []; grows = e ∙ sym (append-nil c.written); frames = tt }

pub Talks-refl : (c : Client) → Talks c c
Talks-refl c = quiet-Talks refl

pub Talks-trans : {c t u : Client} → Talks c t → Talks t u → Talks c u
Talks-trans {c} a b = record {
  messages = a.messages ++ b.messages;
  grows =
      rw (stream-append a.messages b.messages, b.grows, a.grows)
        (append_assoc c.written (stream a.messages) (stream b.messages));
  frames = All-append IsFrame a.messages b.messages a.frames b.frames;
}

-- A quiet change before or behind.
pub Talks-then : {c t u : Client} → Talks c t → u.written ≡ t.written → Talks c u
Talks-then a e = Talks-trans a (quiet-Talks e)

pub Talks-after : {c t u : Client} → t.written ≡ c.written → Talks t u → Talks c u
Talks-after e a = Talks-trans (quiet-Talks e) a

pub if-Talks : {c s t : Client} (b : Bool) → Talks c s → Talks c t → Talks c (if b then s else t)
if-Talks true x y = x
if-Talks false x y = y

pub option-Talks {ℓ} :
    {A : Type ℓ} {c t : Client} {f : A → Client} (o : Option A)
    → Talks c t
    → ((a : A) → Talks c (f a))
    → Talks c (elim o [ none ↦ t | some a ↦ f a ])
option-Talks none x y = x
option-Talks (some a) x y = y a

send_data-Talks : (b : Bytes) (c : Client) → IsPacket b → Talks c (send_data b c)
unfolding send_data
send_data-Talks b c p =
    if-Talks (is_connected c)
      (record {
        messages = p.message ∷ [];
        grows = ap (λ x. c.written ++ x) (p.same ∙ sym (append-nil _));
        frames = (p.frame, tt);
      })
      (Talks-refl c)

pub send_next-Talks :
    (pack : ℕ → Bytes) (c : Client)
    → ((sequence : ℕ) → IsPacket (pack sequence))
    → Talks c (send_next pack c)
unfolding send_next
send_next-Talks pack c p =
    Talks-after refl (send_data-Talks _ (advance_sequence c) (p (advance_sequence c).sequence))

abbrev pub IsChunk : Bytes → Type 0
IsChunk chunk = length chunk ≤ 16 * 1024

-- `read` returns at most as many bytes as it is asked for.
abbrev pub ReadsInParts : Disk → Type 0
ReadsInParts disk =
    (path : Bytes) (chunks : List Bytes) → disk.open_read path ≡ some chunks → All IsChunk chunks

send_chunk-Talks :
    (file_id : Bytes) (file_size sent : ℕ) (chunk : Bytes) (c : Client)
    → IsChunk chunk
    → Talks c (send_chunk file_id file_size sent chunk c)
unfolding send_chunk
send_chunk-Talks file_id file_size sent chunk c h =
    Talks-then (send_next-Talks _ c (λ sequence. file_data-IsPacket sequence file_id sent chunk h))
      refl

send_chunks-Talks :
    (file_id path : Bytes) (file_size sent : ℕ) (chunks : List Bytes) (c : Client)
    → All IsChunk chunks
    → Talks c (send_chunks file_id path file_size sent chunks c)
unfolding send_chunks
send_chunks-Talks file_id path file_size sent [] c h = quiet-Talks refl
send_chunks-Talks file_id path file_size sent (chunk ∷ chunks) c (h, hs) =
    if-Talks (is_empty chunk && not (is_empty chunks)) (quiet-Talks refl) (
      Talks-trans (send_chunk-Talks file_id file_size sent chunk c h) (
        send_chunks-Talks file_id path file_size ((sent + length chunk) % 2 ^ 64) chunks
          (send_chunk file_id file_size sent chunk c) hs))

begin_send-Talks :
    (disk : Disk) (file_id : Bytes) (session : FileSendSession) (c : Client)
    → ReadsInParts disk
    → (o : Option (List Bytes)) → disk.open_read session.file_path ≡ o
    → {f : List Bytes → Client} {t : Client} → Talks c t
    → ((chunks : List Bytes) → All IsChunk chunks → Talks c (f chunks))
    → Talks c (elim o [ none ↦ t | some chunks ↦ f chunks ])
begin_send-Talks disk file_id session c r none e x y = x
begin_send-Talks disk file_id session c r (some chunks) e x y =
    y chunks (r session.file_path chunks e)

pub start_file_send-Talks :
    (disk : Disk) (file_id : Bytes) (c : Client)
    → ReadsInParts disk
    → Talks c (start_file_send disk file_id c)
unfolding start_file_send
start_file_send-Talks disk file_id c r =
    option-Talks (find file_id c.send_sessions) (Talks-refl c) (λ session.
      if-Talks session.started (Talks-refl c) (
        begin_send-Talks disk file_id session c r _ refl (quiet-Talks refl) (λ chunks h.
          Talks-after refl
            (send_chunks-Talks file_id session.file_path session.file_size 0 chunks _ h))))

finish_chunk-written :
    (file_id : Bytes) (session : FileReceiveSession) (c : Client)
    → (finish_chunk file_id session c).written ≡ c.written
unfolding finish_chunk
finish_chunk-written file_id session c = ground arith

write_chunk-written :
    (disk : Disk) (file_id : Bytes) (session : FileReceiveSession) (payload : Bytes) (c : Client)
    → (write_chunk disk file_id session payload c).written ≡ c.written
unfolding write_chunk fail_receive
write_chunk-written disk file_id session payload c =
    ground (arith, finish_chunk-written file_id session c)

receive_chunk-written :
    (disk : Disk) (file_id : Bytes) (session : FileReceiveSession) (offset : ℕ) (payload : Bytes)
    (c : Client)
    → (receive_chunk disk file_id session offset payload c).written ≡ c.written
unfolding receive_chunk fail_receive
receive_chunk-written disk file_id session offset payload c = ground (
  arith,
  write_chunk-written disk file_id session payload c,
  write_chunk-written disk file_id (record session { bytes_received = offset }) payload
      (file_call (sought session.save_path offset) c),
)

pub handle_file_data-written :
    (disk : Disk) (file_id : Bytes) (offset : ℕ) (payload : Bytes) (c : Client)
    → (handle_file_data disk file_id offset payload c).written ≡ c.written
unfolding handle_file_data
handle_file_data-written disk file_id offset payload c =
    elim (Option-cases (find file_id c.recv_sessions)) [
      | inl e ↦ ground arith
      | inr (session, e) ↦
          ground (arith, receive_chunk-written disk file_id session offset payload c)
    ]

close_send_files-written :
    (m : NameMap FileSendSession) (c : Client) → (close_send_files m c).written ≡ c.written
unfolding close_send_files
close_send_files-written [] c = refl
close_send_files-written ((k, v) ∷ m) c = close_send_files-written m _ ∙ ground arith

close_recv_files-written :
    (m : NameMap FileReceiveSession) (c : Client) → (close_recv_files m c).written ≡ c.written
unfolding close_recv_files
close_recv_files-written [] c = refl
close_recv_files-written ((k, v) ∷ m) c = close_recv_files-written m _ ∙ ground arith

pub clear_file_sessions-written : (c : Client) → (clear_file_sessions c).written ≡ c.written
unfolding clear_file_sessions
clear_file_sessions-written c =
    close_recv_files-written c.recv_sessions _ ∙ close_send_files-written c.send_sessions c
