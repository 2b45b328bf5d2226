-- ===== src/Server/Files/Sessions/Relay.antt =====
-- `handleFileData`: the ends of a session, and the packet that goes from one to the other.
use qt_linux_im_project.Base.{
  ℕ, ◌≡◌, ◌≢◌, ◌++◌, none, true, false, Option, length, ap, ◌⊎◌, Bytes, some, is_empty, arith,
  Option-cases, Bool-cases, inl, inr,
}
use qt_linux_im_project.Base.NameMap.{find}
use qt_linux_im_project.Wire.Message.{MessageHeader}
use qt_linux_im_project.Wire.Message.Header.{put_header}
use qt_linux_im_project.Protocol.{header_of, validate_header, packet}
use qt_linux_im_project.Protocol.Frames.Stream.{IsFrame}
use qt_linux_im_project.Protocol.Server.Pack.{pack_raw_message}
use qt_linux_im_project.Server.State.{FileSession, Server}
use qt_linux_im_project.Server.Files.{is_fd, relay_target}

-- The two ends of a session, in either order.
abbrev pub Ends : FileSession → ℕ → ℕ → Type 0
Ends session a b =
    ((session.sender_fd ≡ some a) × (session.receiver_fd ≡ some b))
    ⊎ ((session.receiver_fd ≡ some a) × (session.sender_fd ≡ some b))

is_fd-some : (o : Option ℕ) (fd : ℕ) → is_fd o fd ≡ true → o ≡ some fd
is_fd-some none fd e = cc
is_fd-some (some a) fd e = ground arith

is_fd-other : (o : Option ℕ) (fd : ℕ) → is_fd o fd ≡ false → o ≢ some fd
is_fd-other none fd e q = cc
is_fd-other (some a) fd e q = ground arith

-- Why a packet from `fd` is not relayed: it has no file id, there is no session with that id, `fd`
-- is at neither end of the session, or the session has nobody at the other end.
pub data Dropped (fd : ℕ) (file_id : Bytes) (s : Server) : Type 0 where
  no_file_id : is_empty file_id ≡ true → Dropped fd file_id s
  no_session : find file_id s.file_sessions ≡ none → Dropped fd file_id s
  stranger :
      (session : FileSession)
      → find file_id s.file_sessions ≡ some session
      → session.sender_fd ≢ some fd
      → session.receiver_fd ≢ some fd
      → Dropped fd file_id s
  no_receiver :
      (session : FileSession)
      → find file_id s.file_sessions ≡ some session
      → session.sender_fd ≡ some fd
      → session.receiver_fd ≡ none
      → Dropped fd file_id s
  no_sender :
      (session : FileSession)
      → find file_id s.file_sessions ≡ some session
      → session.receiver_fd ≡ some fd
      → session.sender_fd ≡ none
      → Dropped fd file_id s

pub relay_target-Ends :
    (fd target : ℕ) (session : FileSession)
    → relay_target fd session ≡ some target
    → Ends session fd target
unfolding relay_target
relay_target-Ends fd target session e = elim (Option-cases session.sender_fd) [
  | inl n ↦ elim (Option-cases session.receiver_fd) [
    | inl n2 ↦ ground arith
    | inr (b, r) ↦ ground arith
  ]
  | inr (a, q) ↦ elim (Option-cases session.receiver_fd) [
    | inl n2 ↦ ground arith
    | inr (b, r) ↦ ground arith
  ]
]

pub relay_target-Dropped :
    (fd : ℕ) (file_id : Bytes) (s : Server) (session : FileSession)
    → find file_id s.file_sessions ≡ some session
    → relay_target fd session ≡ none
    → Dropped fd file_id s
unfolding relay_target
relay_target-Dropped fd file_id s session f e = elim (Bool-cases (is_fd session.sender_fd fd)) [
  | inl end ↦ no_receiver session f (is_fd-some session.sender_fd fd end) (ground arith)
  | inr away ↦ elim (Bool-cases (is_fd session.receiver_fd fd)) [
    | inl end ↦ no_sender session f (is_fd-some session.receiver_fd fd end) (ground arith)
    | inr out ↦
        stranger session f (is_fd-other session.sender_fd fd away)
          (is_fd-other session.receiver_fd fd out)
  ]
]

-- A packet that came with a header that is valid for its body is written again as it came.
pub pack_raw_message-packet :
    (h : MessageHeader) (body : Bytes)
    → IsFrame (h, body)
    → pack_raw_message h.msg_type h.sequence body ≡ packet h body
unfolding pack_raw_message packet header_of validate_header
pack_raw_message-packet h body v = ap (λ x. put_header x ++ body) same_header
  where
    same_header : header_of h.msg_type (length body) h.sequence ≡ h
    same_header = ground (
      arith, v.valid, v.body_size, v.header.type_fits, v.header.sequence_fits, v.header.length_fits,
    )
