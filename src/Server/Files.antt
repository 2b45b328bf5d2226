-- ===== src/Server/Files.antt =====
-- `handleFileOffer`, `handleFileOfferResponse`, `handleFileData`, `extractFileId` and
-- `cleanupFileSessionsForFd` of server/src/server.cpp.
pub mod Sessions
use qt_linux_im_project.Base.{
  ℕ, Bool, true, false, not, ◌&&◌, ◌||◌, [], ◌∷◌, ◌++◌, Bytes, Option, none, some, if◌then◌else◌,
  is_empty, ltb, ◌==◌, codes, length, take,
}
use qt_linux_im_project.Base.NameMap.{find, put, remove, remove_if}
use qt_linux_im_project.Wire.Text.{text_of, c_str, terminate}
use qt_linux_im_project.Wire.Message.{
  MessageHeader, FileOffer, FileOfferResponse, FileOfferResult, file_offer_accept,
  file_offer_decline, file_offer_busy, offer_code,
}
use qt_linux_im_project.Clients.{ClientInfo, get_fd_by_client_id}
use qt_linux_im_project.Protocol.Server.Pack.{
  pack_file_offer, pack_file_offer_response, pack_raw_message,
}
use qt_linux_im_project.Protocol.Server.Parse.{parse_file_offer, parse_file_offer_response}
use qt_linux_im_project.Server.State.{FileSession, Server}
use qt_linux_im_project.Server.Send.{send_to}
use qt_linux_im_project.Server.Chat.{online_client}

-- A descriptor compared with one that may be -1.
abbrev pub is_fd : Option ℕ → ℕ → Bool
is_fd none fd = false
is_fd (some a) fd = a == fd

abbrev pub is_unset : Option ℕ → Bool
is_unset none = true
is_unset (some a) = false

unfoldable pub reply_offer : ℕ → ℕ → Bytes → FileOfferResult → Bytes → Server → Server
reply_offer fd sequence file_id result text s =
    send_to fd (pack_file_offer_response sequence file_id (offer_code result) text) s

-- `fileSessions_[fileId] = FileSession{clientFd, targetFd};`
unfoldable pub open_session : Bytes → ℕ → ℕ → Server → Server
open_session file_id sender receiver s = record s {
  file_sessions =
      put file_id (record { sender_fd = some sender; receiver_fd = some receiver }) s.file_sessions;
}

-- With a target that is online. The loop over all clients behind `if (targetFd >= 0)` is never
-- reached: an empty target and one that is offline have returned before.
unfoldable pub forward_offer : ℕ → ℕ → ClientInfo → FileOffer → ℕ → Server → Server
unfolding open_session
forward_offer fd sequence sender offer target_fd s =
    let file_id = text_of 37 offer.file_id in
    open_session file_id fd target_fd (
      send_to target_fd
        (pack_file_offer sequence file_id (text_of 256 offer.file_name) offer.file_size
          sender.client_id sender.nickname (text_of 32 offer.to_id))
        s)

unfoldable pub accept_offer : ℕ → ℕ → ClientInfo → FileOffer → Server → Server
unfolding forward_offer reply_offer
accept_offer fd sequence sender offer s =
    let file_id = text_of 37 offer.file_id in
    let to_id = text_of 32 offer.to_id in
    if is_empty file_id
    then reply_offer fd sequence [] file_offer_decline (codes "Invalid file id") s
    else if is_empty to_id
    then reply_offer fd sequence file_id file_offer_decline (codes "Target required") s
    else elim (get_fd_by_client_id to_id s.clients) [
      | none ↦ reply_offer fd sequence file_id file_offer_busy (codes "Target offline") s
      | some target_fd ↦ forward_offer fd sequence sender offer target_fd s
    ]

unfoldable pub handle_file_offer : ℕ → MessageHeader → Bytes → Server → Server
unfolding accept_offer
handle_file_offer fd header body s = elim (parse_file_offer body) [
  | none ↦ s
  | some offer ↦ elim (online_client fd s.clients) [
    | none ↦ s
    | some sender ↦ accept_offer fd header.sequence sender offer s
  ]
]

unfoldable pub accepts : FileOfferResponse → Bool
unfolding offer_code
accepts rsp = rsp.result == offer_code file_offer_accept

abbrev pub join_session : ℕ → FileSession → FileSession
join_session fd session = record session { receiver_fd = some fd }

-- The session's part of an answer, under the lock: the sessions, and the session as it is used
-- afterwards, or `none` where the handler returns.
unfoldable pub update_session :
    ℕ → Bytes → FileOfferResponse → FileSession → Server → Server × Option FileSession
update_session fd file_id rsp session s =
    if not (is_unset session.receiver_fd) && not (is_fd session.receiver_fd fd)
    then (s, none)
    else if is_unset session.receiver_fd && accepts rsp
    then (
      record s { file_sessions = put file_id (join_session fd session) s.file_sessions },
      some (join_session fd session),
    )
    else if not (accepts rsp) && (is_unset session.receiver_fd || is_fd session.receiver_fd fd)
    then (record s { file_sessions = remove file_id s.file_sessions }, some session)
    else (s, some session)

unfoldable pub notify_sender : ℕ → Bytes → FileOfferResponse → Server × Option FileSession → Server
notify_sender sequence file_id rsp (s, none) = s
notify_sender sequence file_id rsp (s, some session) = elim session.sender_fd [
  | none ↦ s
  | some sender ↦
      send_to sender (pack_file_offer_response sequence file_id rsp.result (c_str rsp.message)) s
]

unfoldable pub answer_offer : ℕ → ℕ → Bytes → FileOfferResponse → Server → Server
unfolding update_session notify_sender
answer_offer fd sequence file_id rsp s =
    if is_empty file_id then s else elim (find file_id s.file_sessions) [
      | none ↦ s
      | some session ↦ notify_sender sequence file_id rsp (update_session fd file_id rsp session s)
    ]

unfoldable pub handle_file_offer_response : ℕ → MessageHeader → Bytes → Server → Server
unfolding answer_offer
handle_file_offer_response fd header body s = elim (parse_file_offer_response body) [
  | none ↦ s
  | some rsp ↦ answer_offer fd header.sequence (text_of 37 rsp.file_id) rsp s
]

abbrev pub file_id_size : ℕ
file_id_size = 37

unfoldable pub extract_file_id : Bytes → Bytes
extract_file_id body =
    if ltb (length body) file_id_size
    then []
    else text_of file_id_size (terminate file_id_size (take file_id_size body))

-- The other end of the session, for one of its two ends.
unfoldable pub relay_target : ℕ → FileSession → Option ℕ
relay_target fd session =
    if is_fd session.sender_fd fd
    then session.receiver_fd
    else if is_fd session.receiver_fd fd
    then session.sender_fd
    else none

unfoldable pub handle_file_data : ℕ → MessageHeader → Bytes → Server → Server
unfolding relay_target
handle_file_data fd header body s =
    if is_empty (extract_file_id body)
    then s
    else elim (find (extract_file_id body) s.file_sessions) [
      | none ↦ s
      | some session ↦ elim (relay_target fd session) [
        | none ↦ s
        | some target_fd ↦
            send_to target_fd (pack_raw_message header.msg_type header.sequence body) s
      ]
    ]

abbrev pub involves : ℕ → FileSession → Bool
involves fd session = is_fd session.sender_fd fd || is_fd session.receiver_fd fd

unfoldable pub cleanup_file_sessions_for_fd : ℕ → Server → Server
cleanup_file_sessions_for_fd fd s = record s {
  file_sessions = remove_if (involves fd) s.file_sessions;
}
