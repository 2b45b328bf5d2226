-- ===== src/Server/Login.antt =====
-- The cases `MSG_HEARTBEAT_REQ`, `MSG_LOGIN_REQ` and `MSG_LOGOUT_REQ` of `Server::handleMessage`.
pub mod Outcome
use qt_linux_im_project.Base.{
  ℕ, Bool, true, false, not, ◌||◌, Bytes, none, some, if◌then◌else◌, is_empty, leb, ◌==◌, codes,
  length,
}
use qt_linux_im_project.Wire.Text.{text_of}
use qt_linux_im_project.Wire.Message.{
  MessageHeader, LoginResult, login_success, login_invalid_param, login_server_full,
  login_already_online, login_nickname_taken, login_code,
}
use qt_linux_im_project.Clients.{
  update_heartbeat, is_client_id_online, is_nickname_online, get_online_count, set_client_identity,
  Clients,
}
use qt_linux_im_project.Clients.Unique.{max_online_clients}
use qt_linux_im_project.Protocol.Server.Pack.{pack_heartbeat_response, pack_login_response}
use qt_linux_im_project.Protocol.Server.Parse.{parse_login_request}
use qt_linux_im_project.Server.State.{Server, Clock, queue_disconnect}
use qt_linux_im_project.Server.Send.{send_to, broadcast_user_list}

unfoldable pub handle_heartbeat : ℕ → MessageHeader → Bytes → Clock → Server → Server
handle_heartbeat fd header body clock s =
    if not (length body == 0)
    then s
    else send_to fd (pack_heartbeat_response header.sequence)
        (record s { clients = update_heartbeat fd clock.steady s.clients })

-- The tests of a login, in their order.
unfoldable pub check_login : ℕ → Bytes → Bytes → Clients → LoginResult
check_login fd client_id nickname clients =
    if is_empty client_id || is_empty nickname
    then login_invalid_param
    else if is_client_id_online client_id fd clients
    then login_already_online
    else if is_nickname_online nickname fd clients
    then login_nickname_taken
    else if leb max_online_clients (get_online_count clients)
    then login_server_full
    else login_success

-- What follows the tests, each branch with its own answer: `setClientIdentity` can still refuse a
-- descriptor that is not in the table.
unfoldable pub finish_login : ℕ → ℕ → Bytes → Bytes → LoginResult → Server → Server
unfolding login_code
finish_login fd sequence client_id nickname login_invalid_param s =
    send_to fd
      (pack_login_response sequence (login_code login_invalid_param) (codes "Invalid parameters")) s
finish_login fd sequence client_id nickname login_already_online s =
    send_to fd
      (pack_login_response sequence (login_code login_already_online)
        (codes "Client already online"))
      s
finish_login fd sequence client_id nickname login_nickname_taken s =
    send_to fd
      (pack_login_response sequence (login_code login_nickname_taken) (codes "Nickname taken")) s
finish_login fd sequence client_id nickname login_server_full s =
    send_to fd (pack_login_response sequence (login_code login_server_full) (codes "Server full")) s
finish_login fd sequence client_id nickname login_success s =
    let (done, clients) = set_client_identity fd client_id nickname s.clients in
    if done
    then broadcast_user_list (
        send_to fd (pack_login_response sequence (login_code login_success) (codes "OK"))
          (record s { clients = clients }))
    else send_to fd
        (pack_login_response sequence (login_code login_invalid_param) (codes "Invalid parameters"))
        s

unfoldable pub handle_login : ℕ → MessageHeader → Bytes → Server → Server
unfolding finish_login check_login login_code
handle_login fd header body s = elim (parse_login_request body) [
  | none ↦
      send_to fd
        (pack_login_response header.sequence (login_code login_invalid_param)
          (codes "Invalid parameters"))
        s
  | some req ↦
      let client_id = text_of 32 req.client_id in
      let nickname = text_of 64 req.nickname in
      finish_login fd header.sequence client_id nickname
        (check_login fd client_id nickname s.clients) s
]

unfoldable pub handle_logout : ℕ → Server → Server
handle_logout fd s = queue_disconnect fd s
