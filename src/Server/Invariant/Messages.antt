-- ===== src/Server/Invariant/Messages.antt =====
-- Every message of every client keeps the invariant.
use qt_linux_im_project.Base.{
  ℕ, ◌<◌, ◌≡◌, refl, false, not, Bytes, Option, none, some, ◌==◌, arith, All, is_empty, length,
}
use qt_linux_im_project.Base.FdMap.{modify, lookup-modify, modify-All}
use qt_linux_im_project.Wire.Text.{text_of}
use qt_linux_im_project.Wire.Message.{
  MessageHeader, LoginResult, login_success, login_invalid_param, login_server_full,
  login_already_online, login_nickname_taken, message_type, MessageType, msg_heartbeat_req,
  msg_heartbeat_rsp, msg_login_rsp, msg_user_list_rsp, msg_login_req, msg_logout_req, msg_chat_msg,
  msg_user_list_req, msg_file_offer, msg_file_offer_rsp, msg_file_data, msg_file_data_ack,
}
use qt_linux_im_project.Clients.{
  IsOwn, ClientInfo, Clients, has_client, update_heartbeat, touch, set_client_identity, identify,
  any_online, id_of, nick_of, is_client_id_online, is_nickname_online, get_online_count,
}
use qt_linux_im_project.Clients.Unique.{
  max_online_clients, update_heartbeat-IsTable, set_client_identity-IsTable,
}
use qt_linux_im_project.Protocol.Server.Parse.{parse_login_request}
use qt_linux_im_project.Server.State.{Server, Clock, queue_disconnect}
use qt_linux_im_project.Server.Send.Effect.{same, one_more, broadcast-Sends, send_to-Sends}
use qt_linux_im_project.Server.Login.{
  handle_heartbeat, check_login, finish_login, handle_login, handle_logout,
}
use qt_linux_im_project.Server.Chat.Routing.{
  handle_chat_message-Sends, handle_user_list_request-Sends,
}
use qt_linux_im_project.Server.Dispatch.{handle_typed, handle_message}
use qt_linux_im_project.Server.Invariant.Files.{
  handle_file_offer-IsServer, handle_file_offer_response-IsServer, handle_file_data-IsServer,
}
use qt_linux_im_project.Server.Invariant.{
  IsServer, Sends-IsServer, clients-IsServer, sessions-IsServer, if_both, option_both,
}

has_client-modify :
    (fd j : ℕ) (f : ClientInfo → ClientInfo) (m : Clients)
    → has_client j (modify fd f m) ≡ has_client j m
unfolding has_client
has_client-modify fd j f m = ground (arith, lookup-modify fd j f m)

touched :
    (s : Server) (fd now : ℕ)
    → IsServer s
    → IsServer (record s { clients = update_heartbeat fd now s.clients })
touched s fd now v =
    clients-IsServer s (update_heartbeat fd now s.clients) v
      (update_heartbeat-IsTable fd now s.clients v.table)
      (unfold update_heartbeat in modify-All IsOwn fd (touch now) s.clients (λ j i e. e) v.own)
      (λ j. unfold update_heartbeat in has_client-modify fd j (touch now) s.clients)

handle_heartbeat-IsServer :
    (fd : ℕ) (h : MessageHeader) (body : Bytes) (clock : Clock) (s : Server)
    → IsServer s
    → IsServer (handle_heartbeat fd h body clock s)
unfolding handle_heartbeat
handle_heartbeat-IsServer fd h body clock s v =
    if_both IsServer (not (length body == 0)) v
      (Sends-IsServer (one_more fd _ same) (touched s fd clock.steady v))

-- A login that passes the tests names nobody else who is online, while there is room.
pub check_login-success :
    (fd : ℕ) (id nick : Bytes) (m : Clients)
    → check_login fd id nick m ≡ login_success
    → (any_online id_of id fd m ≡ false)
      × (any_online nick_of nick fd m ≡ false)
      × (get_online_count m < max_online_clients)
      × (is_empty id ≡ false)
      × (is_empty nick ≡ false)
unfolding check_login is_client_id_online is_nickname_online
check_login-success fd id nick m e = ground arith

identified :
    (s : Server) (fd : ℕ) (id nick : Bytes)
    → any_online id_of id fd s.clients ≡ false
    → any_online nick_of nick fd s.clients ≡ false
    → get_online_count s.clients < max_online_clients
    → IsServer s
    → IsServer (record s { clients = (set_client_identity fd id nick s.clients).1 })
identified s fd id nick h k r v =
    clients-IsServer s _ v (set_client_identity-IsTable fd id nick s.clients h k r v.table) own fds
  where
    own : All IsOwn (set_client_identity fd id nick s.clients).1
    own =
        unfold set_client_identity in
        ground (arith, v.own, modify-All IsOwn fd (identify id nick) s.clients)

    fds :
        (j : ℕ) → has_client j (set_client_identity fd id nick s.clients).1 ≡ has_client j s.clients
    fds j =
        unfold set_client_identity in
        ground (arith, has_client-modify fd j (identify id nick) s.clients)

finish_login-IsServer :
    (r : LoginResult) (fd sequence : ℕ) (id nick : Bytes) (s : Server)
    → (r ≡ login_success
        → (any_online id_of id fd s.clients ≡ false)
          × (any_online nick_of nick fd s.clients ≡ false)
          × (get_online_count s.clients < max_online_clients))
    → IsServer s
    → IsServer (finish_login fd sequence id nick r s)
unfolding finish_login
finish_login-IsServer login_success fd sequence id nick s h v =
    if_both IsServer (set_client_identity fd id nick s.clients).0
      (Sends-IsServer (broadcast-Sends _ (send_to-Sends fd _ _))
        (identified s fd id nick (h refl).0 (h refl).1 (h refl).2 v))
      (Sends-IsServer (send_to-Sends fd _ s) v)
finish_login-IsServer login_invalid_param fd sequence id nick s h v =
    Sends-IsServer (send_to-Sends fd _ s) v
finish_login-IsServer login_server_full fd sequence id nick s h v =
    Sends-IsServer (send_to-Sends fd _ s) v
finish_login-IsServer login_already_online fd sequence id nick s h v =
    Sends-IsServer (send_to-Sends fd _ s) v
finish_login-IsServer login_nickname_taken fd sequence id nick s h v =
    Sends-IsServer (send_to-Sends fd _ s) v

handle_login-IsServer :
    (fd : ℕ) (h : MessageHeader) (body : Bytes) (s : Server)
    → IsServer s
    → IsServer (handle_login fd h body s)
unfolding handle_login
handle_login-IsServer fd h body s v =
    option_both IsServer (parse_login_request body) (Sends-IsServer (send_to-Sends fd _ s) v) λ req.
      finish_login-IsServer _ fd h.sequence _ _ s
        (λ e.
          let ok =
            check_login-success fd (text_of 32 req.client_id) (text_of 64 req.nickname) s.clients
              e in
          (ok.0, ok.1, ok.2))
        v

-- One message, of whatever type and with whatever body, keeps the server's invariant: the table's
-- order, ids and nicknames online once at most, at most 1024 connections online, output buffers in
-- order and watched, and a handler exactly for each entry of the table.
pub handle_message-IsServer :
    (clock : Clock) (fd : ℕ) (h : MessageHeader) (body : Bytes) (s : Server)
    → IsServer s
    → IsServer (handle_message clock fd h body s)
unfolding handle_message
handle_message-IsServer clock fd h body s v = typed (message_type h.msg_type)
  where
    typed : (t : Option MessageType) → IsServer (handle_typed t fd h body clock s)
    typed none = v
    typed (some msg_heartbeat_req) = handle_heartbeat-IsServer fd h body clock s v
    typed (some msg_heartbeat_rsp) = v
    typed (some msg_login_req) = handle_login-IsServer fd h body s v
    typed (some msg_login_rsp) = v
    typed (some msg_logout_req) =
        unfold handle_logout queue_disconnect in sessions-IsServer s _ v refl refl
    typed (some msg_chat_msg) = Sends-IsServer (handle_chat_message-Sends fd h body clock s) v
    typed (some msg_user_list_req) = Sends-IsServer (handle_user_list_request-Sends fd h s) v
    typed (some msg_user_list_rsp) = v
    typed (some msg_file_offer) = handle_file_offer-IsServer s v fd h body
    typed (some msg_file_offer_rsp) = handle_file_offer_response-IsServer s fd h body v
    typed (some msg_file_data) = handle_file_data-IsServer s v fd h body
    typed (some msg_file_data_ack) = handle_file_data-IsServer s v fd h body
