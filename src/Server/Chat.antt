-- ===== src/Server/Chat.antt =====
-- `handleChatMessage` and `handleUserListRequest` of server/src/server.cpp.
pub mod Routing
pub mod Delivery
use qt_linux_im_project.Base.{
  ℕ, Bool, true, false, not, Bytes, Option, none, some, if◌then◌else◌, is_empty, ◌==◌,
}
use qt_linux_im_project.Wire.Text.{text_of}
use qt_linux_im_project.Wire.Message.{
  MessageHeader, ChatMessage, ChatScope, chat_group, chat_private, scope_code,
}
use qt_linux_im_project.Clients.{
  ClientInfo, Clients, get_client_info, get_online_clients, get_fd_by_client_id,
}
use qt_linux_im_project.Protocol.Server.Pack.{pack_chat_message}
use qt_linux_im_project.Protocol.Server.Parse.{parse_chat_message}
use qt_linux_im_project.Server.State.{Server, Clock}
use qt_linux_im_project.Server.Send.{send_to, send_others, send_user_list}

abbrev online_only : ClientInfo → Option ClientInfo
online_only info = if info.is_online then some info else none

-- `getClientInfo(fd, sender) && sender.isOnline`: the sender, if it has logged in.
unfoldable pub online_client : ℕ → Clients → Option ClientInfo
unfolding get_client_info
online_client fd clients = elim (get_client_info fd clients) [
  | none ↦ none
  | some info ↦ online_only info
]

unfoldable pub scope_of : ChatMessage → ChatScope
unfolding scope_code
scope_of msg = if msg.chat_type == scope_code chat_private then chat_private else chat_group

-- The packet that is passed on: the sender's own id and nickname, and the server's time where
-- the message has none.
unfoldable pub chat_packet : ℕ → ClientInfo → ChatMessage → Clock → Bytes
unfolding scope_of
chat_packet sequence sender msg clock =
    pack_chat_message sequence (scope_of msg) sender.client_id sender.nickname
      (text_of 32 msg.to_id) (text_of 256 msg.message)
      (if msg.timestamp == 0 then clock.epoch_seconds else msg.timestamp)

unfoldable pub route_chat : ℕ → ChatScope → Bytes → Bytes → Server → Server
route_chat fd chat_group to_id packet s = send_others fd (get_online_clients s.clients) packet s
route_chat fd chat_private to_id packet s =
    if is_empty to_id then s else elim (get_fd_by_client_id to_id s.clients) [
      | none ↦ s
      | some target_fd ↦ send_to target_fd packet s
    ]

unfoldable pub handle_chat_message : ℕ → MessageHeader → Bytes → Clock → Server → Server
unfolding online_client chat_packet route_chat scope_of
handle_chat_message fd header body clock s = elim (parse_chat_message body) [
  | none ↦ s
  | some msg ↦ elim (online_client fd s.clients) [
    | none ↦ s
    | some sender ↦
        route_chat fd (scope_of msg) (text_of 32 msg.to_id)
          (chat_packet header.sequence sender msg clock) s
  ]
]

unfoldable pub handle_user_list_request : ℕ → MessageHeader → Server → Server
unfolding online_client
handle_user_list_request fd header s = elim (online_client fd s.clients) [
  | none ↦ s
  | some info ↦ send_user_list fd header.sequence s
]
