-- ===== src/TcpClient/Receive.antt =====
-- `processMessage` and `onReadyRead`.
pub mod Pieces
pub mod Shows
use qt_linux_im_project.Base.{
  ℕ, true, false, ◌==◌, Bool, Bytes, Option, none, some, if◌then◌else◌, codes, ◌++◌,
}
use qt_linux_im_project.Base.NameMap.{find, put}
use qt_linux_im_project.Wire.Message.{
  MessageHeader, MessageType, LoginResponse, ChatMessage, UserInfo, FileOffer, FileOfferResponse,
  FileDataHeader, login_code, login_success, scope_code, chat_private, offer_code,
  file_offer_accept, message_type, msg_login_rsp, msg_chat_msg, msg_user_list_rsp, msg_file_offer,
  msg_file_offer_rsp, msg_file_data,
}
use qt_linux_im_project.Protocol.Frames.{parse_buffer}
use qt_linux_im_project.Protocol.Server.Parse.{
  parse_chat_message, parse_file_offer, parse_file_offer_response,
}
use qt_linux_im_project.Protocol.Client.Parse.{
  parse_login_response, parse_user_list_response, parse_file_data,
}
use qt_linux_im_project.TcpClient.{
  Qt, Disk, Client, TcpClient, PendingOffer, text_field, emit, login_response,
  chat_message_received, user_list_updated, file_offer_received, file_offer_response_received,
  file_transfer_completed,
}
use qt_linux_im_project.TcpClient.Transfer.{start_file_send, handle_file_data, drop_send_session}

unfoldable pub on_login_response : Qt → Bytes → Client → Client
unfolding login_code
on_login_response qt body c = elim (parse_login_response body) [
  | none ↦ emit (login_response false (codes "Failed to parse response")) c
  | some rsp ↦
      emit (login_response (rsp.result == login_code login_success) (text_field qt rsp.message)) c
]

unfoldable pub on_chat_message : Qt → Bytes → Client → Client
unfolding scope_code
on_chat_message qt body c = elim (parse_chat_message body) [
  | none ↦ c
  | some msg ↦
      emit
        (chat_message_received (text_field qt msg.from_id) (text_field qt msg.from_nick)
          (text_field qt msg.message) (msg.chat_type == scope_code chat_private)
          (text_field qt msg.to_id) msg.timestamp)
        c
]

unfoldable pub on_user_list : Bytes → Client → Client
on_user_list body c = elim (parse_user_list_response body) [
  | none ↦ c
  | some users ↦ emit user_list_updated (record c { user_list = users })
]

abbrev pub pending_of : Qt → FileOffer → PendingOffer
pending_of qt offer = record {
  file_id = text_field qt offer.file_id;
  file_name = text_field qt offer.file_name;
  file_size = offer.file_size;
  from_id = text_field qt offer.from_id;
  from_nick = text_field qt offer.from_nick;
}

unfoldable pub on_file_offer : Qt → Bytes → Client → Client
on_file_offer qt body c = elim (parse_file_offer body) [
  | none ↦ c
  | some offer ↦
      let pending = pending_of qt offer in
      emit
        (file_offer_received pending.file_id pending.file_name pending.file_size pending.from_id
          pending.from_nick)
        (record c { pending_offers = put pending.file_id pending c.pending_offers })
]

-- What an answer other than an acceptance does.
unfoldable pub refuse_send : Bytes → Bytes → Client → Client
refuse_send file_id message c = elim (find file_id c.send_sessions) [
  | none ↦ c
  | some session ↦
      drop_send_session file_id (emit (file_transfer_completed file_id false false message) c)
]

unfoldable pub on_file_offer_response : Qt → Disk → Bytes → Client → Client
unfolding start_file_send refuse_send offer_code
on_file_offer_response qt disk body c = elim (parse_file_offer_response body) [
  | none ↦ c
  | some rsp ↦
      let file_id = text_field qt rsp.file_id in
      let message = text_field qt rsp.message in
      let told = emit (file_offer_response_received file_id rsp.result message) c in
      if rsp.result == offer_code file_offer_accept
      then start_file_send disk file_id told
      else refuse_send file_id message told
]

unfoldable pub on_file_data : Qt → Disk → Bytes → Client → Client
unfolding handle_file_data
on_file_data qt disk body c = elim (parse_file_data body) [
  | none ↦ c
  | some (header, payload) ↦
      handle_file_data disk (text_field qt header.file_id) header.offset payload c
]

-- The `switch`; a heartbeat's answer and the remaining types change nothing.
unfoldable pub process_typed : Qt → Disk → Option MessageType → Bytes → Client → Client
unfolding on_login_response on_chat_message on_user_list on_file_offer on_file_offer_response
    on_file_data
process_typed qt disk (some msg_login_rsp) body c = on_login_response qt body c
process_typed qt disk (some msg_chat_msg) body c = on_chat_message qt body c
process_typed qt disk (some msg_user_list_rsp) body c = on_user_list body c
process_typed qt disk (some msg_file_offer) body c = on_file_offer qt body c
process_typed qt disk (some msg_file_offer_rsp) body c = on_file_offer_response qt disk body c
process_typed qt disk (some msg_file_data) body c = on_file_data qt disk body c
process_typed qt disk other body c = c

unfoldable pub process_message : Qt → Disk → MessageHeader → Bytes → Client → Client
unfolding process_typed
process_message qt disk header body c = process_typed qt disk (message_type header.msg_type) body c

-- `newData` behind the buffer, and the loop. It is the server's `parseData` loop, line by line: the
-- message is processed before it is removed, and processing does not look at the buffer.
unfoldable pub on_ready_read : Qt → Disk → Bytes → TcpClient → TcpClient
unfolding process_message
on_ready_read qt disk new_bytes t =
    let (rest, members) =
      parse_buffer (process_message qt disk) (t.recv_buffer ++ new_bytes) t.members in
    record { recv_buffer = rest; members = members }
