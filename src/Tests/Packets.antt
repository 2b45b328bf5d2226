-- ===== src/Tests/Packets.antt =====
-- Packets of one side that the other side reads.
use qt_linux_im_project.Base.{
  ℕ, ◌≡◌, ◌≤◌, refl, List, [], ◌∷◌, ◌++◌, Bytes, some, codes, length, arith, All,
}
use qt_linux_im_project.Wire.Text.{text_of, c_field}
use qt_linux_im_project.Wire.Message.{
  LoginRequest, ChatMessage, UserInfo, chat_private, scope_code, message_code, msg_login_req,
  msg_chat_msg, msg_user_list_rsp,
}
use qt_linux_im_project.Protocol.{header_of}
use qt_linux_im_project.Protocol.Frames.{next_frame, frame}
use qt_linux_im_project.Protocol.Server.Pack.{pack_chat_message, pack_user_list_response}
use qt_linux_im_project.Protocol.Server.Parse.{parse_login_request, parse_chat_message}
use qt_linux_im_project.Protocol.Client.Pack.{pack_login_request}
use qt_linux_im_project.Protocol.Client.Parse.{
  parse_login_response, parse_user_list_response, parse_file_data,
}
use qt_linux_im_project.Protocol.RoundTrip.Login.{login_request_arrives}
use qt_linux_im_project.Protocol.RoundTrip.Chat.{chat_message_arrives}
use qt_linux_im_project.Protocol.RoundTrip.UserList.{user_list_arrives, IsUser}

-- The next packet has begun.
abbrev rest : Bytes
rest = 77 ∷ 67 ∷ []

login_request_arrives_example :
    (req : LoginRequest) × (body : Bytes) × (next_frame
        (pack_login_request 1 (codes "a") (codes "Alice") ++ rest)
      ≡ frame (header_of (message_code msg_login_req) 96 1) body rest)
    × (parse_login_request body ≡ some req)
    × (text_of 32 req.client_id ≡ codes "a")
    × (text_of 64 req.nickname ≡ codes "Alice")
login_request_arrives_example =
    login_request_arrives 1 (codes "a") (codes "Alice") rest refl (omega arith) refl (omega arith)

chat_message_arrives_example :
    (r : ChatMessage) × (body : Bytes) × (next_frame (
        pack_chat_message 2 chat_private (codes "a") (codes "Alice") (codes "b") (codes "hi") 1700
        ++ rest)
      ≡ frame (header_of (message_code msg_chat_msg) 393 2) body rest)
    × (parse_chat_message body ≡ some r)
    × (r.chat_type ≡ scope_code chat_private)
    × (text_of 32 r.from_id ≡ codes "a")
    × (text_of 64 r.from_nick ≡ codes "Alice")
    × (text_of 32 r.to_id ≡ codes "b")
    × (r.timestamp ≡ 1700)
    × (text_of 256 r.message ≡ codes "hi")
chat_message_arrives_example =
    chat_message_arrives 2 chat_private (codes "a") (codes "Alice") (codes "b") (codes "hi") 1700
      rest refl (omega arith) refl (omega arith) refl (omega arith) refl (omega arith) (omega arith)

abbrev one_user : List UserInfo
one_user = record { client_id = c_field 32 (codes "a"); nickname = c_field 64 (codes "Alice") } ∷ []

one_user-All : All IsUser one_user
unfolding c_field qt_linux_im_project.Wire.Text.strncpy
    qt_linux_im_project.Protocol.Client.Parse.terminate_user_info
    qt_linux_im_project.Wire.Text.terminate qt_linux_im_project.Base.take
one_user-All = (
  record { shape = record { client_id_size = refl; nickname_size = refl }; terminated = refl },
  tt,
)

user_list_arrives_example :
    (body : Bytes) × (next_frame (pack_user_list_response 6 one_user ++ rest)
      ≡ frame (header_of (message_code msg_user_list_rsp) 100 6) body rest)
    × (parse_user_list_response body ≡ some one_user)
user_list_arrives_example = user_list_arrives 6 one_user rest one_user-All (omega arith)
