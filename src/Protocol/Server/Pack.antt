-- ===== src/Protocol/Server/Pack.antt =====
-- The packers of server/src/protocol.cpp. Each buffer is the header and then the struct.
use qt_linux_im_project.Base.{ℕ, ◌+◌, ◌*◌, ◌%◌, ◌^◌, List, [], ◌∷◌, ◌++◌, Bytes, length}
use qt_linux_im_project.Wire.Text.{c_field}
use qt_linux_im_project.Wire.Word.{put_u32}
use qt_linux_im_project.Wire.Message.{
  msg_heartbeat_rsp, msg_login_rsp, msg_chat_msg, msg_user_list_rsp, msg_file_offer,
  msg_file_offer_rsp, LoginResponse, ChatMessage, UserInfo, FileOffer, FileOfferResponse, ChatScope,
  scope_code, size_of_login_response, size_of_chat_message, size_of_user_info, size_of_file_offer,
  size_of_file_offer_response,
}
use qt_linux_im_project.Wire.Message.Header.{put_header}
use qt_linux_im_project.Wire.Message.Login.{put_login_response, put_user_info}
use qt_linux_im_project.Wire.Message.Chat.{put_chat_message}
use qt_linux_im_project.Wire.Message.File.{put_file_offer, put_file_offer_response}
use qt_linux_im_project.Protocol.{header_of, pack_header}

unfoldable pub pack_heartbeat_response : ℕ → Bytes
pack_heartbeat_response sequence = pack_header msg_heartbeat_rsp 0 sequence

unfoldable pub login_response_of : ℕ → Bytes → LoginResponse
login_response_of result message = record {
  result = result % 2 ^ 32;
  message = c_field 128 message;
}

unfoldable pub pack_login_response : ℕ → ℕ → Bytes → Bytes
unfolding login_response_of
pack_login_response sequence result message =
    pack_header msg_login_rsp size_of_login_response sequence
    ++ put_login_response (login_response_of result message)

-- The struct that `packChatMessage` fills, over a cleared `ChatMessage`.
unfoldable pub chat_message_of : ChatScope → Bytes → Bytes → Bytes → Bytes → ℕ → ChatMessage
chat_message_of scope from_id from_nick to_id message timestamp = record {
  chat_type = scope_code scope;
  from_id = c_field 32 from_id;
  from_nick = c_field 64 from_nick;
  to_id = c_field 32 to_id;
  timestamp = timestamp % 2 ^ 64;
  message = c_field 256 message;
}

unfoldable pub pack_chat_message : ℕ → ChatScope → Bytes → Bytes → Bytes → Bytes → ℕ → Bytes
unfolding chat_message_of
pack_chat_message sequence scope from_id from_nick to_id message timestamp =
    pack_header msg_chat_msg size_of_chat_message sequence
    ++ put_chat_message (chat_message_of scope from_id from_nick to_id message timestamp)

-- The loop that copies the `UserInfo` structs one behind the other.
unfoldable pub put_users : List UserInfo → Bytes
put_users [] = []
put_users (user ∷ users) = put_user_info user ++ put_users users

unfoldable pub pack_user_list_response : ℕ → List UserInfo → Bytes
unfolding put_users
pack_user_list_response sequence users =
    pack_header msg_user_list_rsp (4 + length users * size_of_user_info) sequence
    ++ (put_u32 (length users % 2 ^ 32) ++ put_users users)

unfoldable pub file_offer_of : Bytes → Bytes → ℕ → Bytes → Bytes → Bytes → FileOffer
file_offer_of file_id file_name file_size from_id from_nick to_id = record {
  file_id = c_field 37 file_id;
  from_id = c_field 32 from_id;
  from_nick = c_field 64 from_nick;
  to_id = c_field 32 to_id;
  file_size = file_size % 2 ^ 64;
  file_name = c_field 256 file_name;
}

unfoldable pub pack_file_offer : ℕ → Bytes → Bytes → ℕ → Bytes → Bytes → Bytes → Bytes
unfolding file_offer_of
pack_file_offer sequence file_id file_name file_size from_id from_nick to_id =
    pack_header msg_file_offer size_of_file_offer sequence
    ++ put_file_offer (file_offer_of file_id file_name file_size from_id from_nick to_id)

unfoldable pub file_offer_response_of : Bytes → ℕ → Bytes → FileOfferResponse
file_offer_response_of file_id result message = record {
  file_id = c_field 37 file_id;
  result = result % 2 ^ 32;
  message = c_field 64 message;
}

unfoldable pub pack_file_offer_response : ℕ → Bytes → ℕ → Bytes → Bytes
unfolding file_offer_response_of
pack_file_offer_response sequence file_id result message =
    pack_header msg_file_offer_rsp size_of_file_offer_response sequence
    ++ put_file_offer_response (file_offer_response_of file_id result message)

-- The body is never a null pointer where the source calls it.
unfoldable pub pack_raw_message : ℕ → ℕ → Bytes → Bytes
pack_raw_message msg_type sequence body =
    put_header (header_of msg_type (length body) sequence) ++ body
