-- ===== src/TcpClient/Session.antt =====
-- What happens to a client, one event after the other.
use qt_linux_im_project.Base.{ℕ, List, [], ◌∷◌, Bytes}
use qt_linux_im_project.Wire.Message.{ChatScope}
use qt_linux_im_project.TcpClient.{Qt, Disk, Client, TcpClient, SocketState}
use qt_linux_im_project.TcpClient.Request.{
  set_identity, send_login_request, send_logout_request, request_user_list, send_chat_message,
  send_file_offer, send_file_offer_response,
}
use qt_linux_im_project.TcpClient.Receive.{on_ready_read}
use qt_linux_im_project.TcpClient.Lifecycle.{
  SocketError, connect_to_server, disconnect_from_server, on_disconnected, on_error,
  on_heartbeat_timeout,
}

-- What can happen to a client from one connection to the next: a call by the windows, a slot of the
-- timer or of the socket, or a change of the socket's state by Qt.
pub data Event : Type 0 where
  identity : Bytes → Bytes → Event
  login : Bytes → Bytes → Event
  logout user_list heartbeat : Event
  chat : ChatScope → Bytes → Bytes → ℕ → Event
  offer : Disk → Bytes → Bytes → Bytes → ℕ → Bytes → Event
  answer : Disk → Bytes → ℕ → Bytes → Event
  connecting_to : Bytes → ℕ → Event
  leave lost : Event
  error : SocketError → Event
  readable : Disk → Bytes → Event
  socket_is : SocketState → Event

-- What the members become.
unfoldable pub react : Qt → Event → Client → Client
react qt (identity id nick) c = set_identity qt id nick c
react qt (login id nick) c = send_login_request id nick c
react qt logout c = send_logout_request c
react qt user_list c = request_user_list c
react qt heartbeat c = on_heartbeat_timeout c
react qt (chat scope to_id message now) c = send_chat_message scope to_id message now c
react qt (offer disk id path name size to_id) c = send_file_offer disk id path name size to_id c
react qt (answer disk id result message) c = send_file_offer_response qt disk id result message c
react qt (connecting_to ip port) c = connect_to_server ip port c
react qt leave c = disconnect_from_server c
react qt lost c = on_disconnected c
react qt (error e) c = on_error e c
react qt (readable disk bytes) c = c
react qt (socket_is state) c = record c { socket = state }

unfoldable pub handle_event : Qt → Event → TcpClient → TcpClient
unfolding react
handle_event qt (readable disk bytes) t = on_ready_read qt disk bytes t
handle_event qt e t = record t { members = react qt e t.members }

unfoldable pub run_events : Qt → List Event → TcpClient → TcpClient
unfolding handle_event
run_events qt [] t = t
run_events qt (e ∷ es) t = run_events qt es (handle_event qt e t)
