-- ===== src/TcpClient/Lifecycle.antt =====
-- Connecting, disconnecting, and the slots of the socket and the timer.
pub mod Clears
use qt_linux_im_project.Base.{ℕ, true, false, [], Bytes, Bool, if◌then◌else◌, codes}
use qt_linux_im_project.TcpClient.{
  Client, TcpClient, SocketState, unconnected, socket_call, emit, connect_to_host,
  disconnect_from_host, connected, disconnected, connect_error, is_connected,
}
use qt_linux_im_project.TcpClient.Request.{send_logout_request, send_heartbeat}
use qt_linux_im_project.TcpClient.Transfer.{clear_file_sessions}

-- The constructor.
unfoldable pub new_client : Client
new_client = record {
  socket = unconnected;
  heartbeat_active = false;
  sequence = 0;
  client_id = [];
  nickname = [];
  user_list = [];
  pending_offers = [];
  send_sessions = [];
  recv_sessions = [];
  written = [];
  socket_calls = [];
  file_calls = [];
  signals = [];
}

unfoldable pub connect_to_server : Bytes → ℕ → Client → Client
connect_to_server ip port c = socket_call (connect_to_host ip port) c

abbrev pub is_unconnected : SocketState → Bool
is_unconnected unconnected = true
is_unconnected state = false

unfoldable pub disconnect_from_server : Client → Client
unfolding clear_file_sessions is_connected send_logout_request
disconnect_from_server c =
    let cleared = clear_file_sessions (record c { heartbeat_active = false }) in
    let told = if is_connected cleared then send_logout_request cleared else cleared in
    if is_unconnected told.socket then told else socket_call disconnect_from_host told

-- The socket's stream starts anew.
unfoldable pub on_connected : TcpClient → TcpClient
on_connected t = record {
  recv_buffer = [];
  members =
      emit connected (record t.members { sequence = 0; heartbeat_active = true; written = [] });
}

unfoldable pub on_disconnected : Client → Client
unfolding clear_file_sessions
on_disconnected c = emit disconnected (clear_file_sessions (record c { heartbeat_active = false }))

-- The errors that `onError` names; the others come with `socket_->errorString()`.
pub data SocketError : Type 0 where
  remote_host_closed connection_refused host_not_found network_error socket_timeout : SocketError
  other_error : Bytes → SocketError

unfoldable pub on_error : SocketError → Client → Client
on_error remote_host_closed c = c
on_error connection_refused c = emit (connect_error (codes "Connection refused")) c
on_error host_not_found c = emit (connect_error (codes "Host not found")) c
on_error network_error c = emit (connect_error (codes "Network error")) c
on_error socket_timeout c = emit (connect_error (codes "Connection timeout")) c
on_error (other_error text) c = emit (connect_error text) c

unfoldable pub on_heartbeat_timeout : Client → Client
unfolding send_heartbeat
on_heartbeat_timeout c = send_heartbeat c
