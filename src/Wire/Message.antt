-- ===== src/Wire/Message.antt =====
-- server/include/common/message.h: the packed structs, their sizes and the enumerations. A
-- `char` array is the list of its characters; numbers are in host order.
pub mod Header
pub mod Login
pub mod Chat
pub mod File
use qt_linux_im_project.Base.{◌≡◌, refl, ℕ, Bytes, Option, none, some, ◌==◌, if◌then◌else◌}

pub record MessageHeader : Type 0 where
  pub magic : ℕ
  pub version : ℕ
  pub msg_type : ℕ
  pub body_length : ℕ
  pub sequence : ℕ

pub record LoginRequest : Type 0 where
  pub client_id : Bytes
  pub nickname : Bytes

pub record LoginResponse : Type 0 where
  pub result : ℕ
  pub message : Bytes

pub record ChatMessage : Type 0 where
  pub chat_type : ℕ
  pub from_id : Bytes
  pub from_nick : Bytes
  pub to_id : Bytes
  pub timestamp : ℕ
  pub message : Bytes

pub record UserInfo : Type 0 where
  pub client_id : Bytes
  pub nickname : Bytes

pub record FileOffer : Type 0 where
  pub file_id : Bytes
  pub from_id : Bytes
  pub from_nick : Bytes
  pub to_id : Bytes
  pub file_size : ℕ
  pub file_name : Bytes

pub record FileOfferResponse : Type 0 where
  pub file_id : Bytes
  pub result : ℕ
  pub message : Bytes

pub record FileDataHeader : Type 0 where
  pub file_id : Bytes
  pub offset : ℕ
  pub chunk_size : ℕ

-- `sizeof` of each struct under `#pragma pack(push, 1)`.
abbrev pub size_of_header : ℕ
size_of_header = 16

abbrev pub size_of_login_request : ℕ
size_of_login_request = 96

abbrev pub size_of_login_response : ℕ
size_of_login_response = 132

abbrev pub size_of_chat_message : ℕ
size_of_chat_message = 393

abbrev pub size_of_user_info : ℕ
size_of_user_info = 96

abbrev pub size_of_file_offer : ℕ
size_of_file_offer = 429

abbrev pub size_of_file_offer_response : ℕ
size_of_file_offer_response = 105

abbrev pub size_of_file_data_header : ℕ
size_of_file_data_header = 49

pub data MessageType : Type 0 where
  msg_heartbeat_req : MessageType
  msg_heartbeat_rsp : MessageType
  msg_login_req : MessageType
  msg_login_rsp : MessageType
  msg_logout_req : MessageType
  msg_chat_msg : MessageType
  msg_user_list_req : MessageType
  msg_user_list_rsp : MessageType
  msg_file_offer : MessageType
  msg_file_offer_rsp : MessageType
  msg_file_data : MessageType
  msg_file_data_ack : MessageType

unfoldable pub message_code : MessageType → ℕ
message_code msg_heartbeat_req = 0x0001
message_code msg_heartbeat_rsp = 0x0002
message_code msg_login_req = 0x0101
message_code msg_login_rsp = 0x0102
message_code msg_logout_req = 0x0103
message_code msg_chat_msg = 0x0201
message_code msg_user_list_req = 0x0202
message_code msg_user_list_rsp = 0x0203
message_code msg_file_offer = 0x0301
message_code msg_file_offer_rsp = 0x0302
message_code msg_file_data = 0x0303
message_code msg_file_data_ack = 0x0304

-- The enumerator that a 16-bit type field stands for, as `switch (header.msgType)` reads it;
-- `none` is the `default` case.
unfoldable pub message_type : ℕ → Option MessageType
message_type t =
    if t == 0x0001
    then some msg_heartbeat_req
    else if t == 0x0002
    then some msg_heartbeat_rsp
    else if t == 0x0101
    then some msg_login_req
    else if t == 0x0102
    then some msg_login_rsp
    else if t == 0x0103
    then some msg_logout_req
    else if t == 0x0201
    then some msg_chat_msg
    else if t == 0x0202
    then some msg_user_list_req
    else if t == 0x0203
    then some msg_user_list_rsp
    else if t == 0x0301
    then some msg_file_offer
    else if t == 0x0302
    then some msg_file_offer_rsp
    else if t == 0x0303
    then some msg_file_data
    else if t == 0x0304
    then some msg_file_data_ack
    else none

pub data LoginResult : Type 0 where
  login_success : LoginResult
  login_invalid_param : LoginResult
  login_server_full : LoginResult
  login_already_online : LoginResult
  login_nickname_taken : LoginResult

unfoldable pub login_code : LoginResult → ℕ
login_code login_success = 0
login_code login_invalid_param = 1
login_code login_server_full = 2
login_code login_already_online = 3
login_code login_nickname_taken = 4

pub data ChatScope : Type 0 where
  chat_group : ChatScope
  chat_private : ChatScope

unfoldable pub scope_code : ChatScope → ℕ
scope_code chat_group = 0
scope_code chat_private = 1

pub data FileOfferResult : Type 0 where
  file_offer_accept : FileOfferResult
  file_offer_decline : FileOfferResult
  file_offer_busy : FileOfferResult

unfoldable pub offer_code : FileOfferResult → ℕ
offer_code file_offer_accept = 0
offer_code file_offer_decline = 1
offer_code file_offer_busy = 2

pub message_type-message_code : (t : MessageType) → message_type (message_code t) ≡ some t
unfolding message_type message_code
message_type-message_code msg_heartbeat_req = refl
message_type-message_code msg_heartbeat_rsp = refl
message_type-message_code msg_login_req = refl
message_type-message_code msg_login_rsp = refl
message_type-message_code msg_logout_req = refl
message_type-message_code msg_chat_msg = refl
message_type-message_code msg_user_list_req = refl
message_type-message_code msg_user_list_rsp = refl
message_type-message_code msg_file_offer = refl
message_type-message_code msg_file_offer_rsp = refl
message_type-message_code msg_file_data = refl
message_type-message_code msg_file_data_ack = refl
