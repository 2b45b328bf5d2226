-- ===== src/Server/Send.antt =====
-- `sendResponse`, `sendUserList` and `broadcastUserList` of server/src/server.cpp.
pub mod Effect
use qt_linux_im_project.Base.{
  ℕ, Bool, true, false, List, [], ◌∷◌, ◌++◌, Bytes, none, some, if◌then◌else◌, is_empty, map, ◌==◌,
}
use qt_linux_im_project.Base.FdMap.{lookup, insert}
use qt_linux_im_project.Wire.Text.{c_field}
use qt_linux_im_project.Wire.Message.{UserInfo}
use qt_linux_im_project.Clients.{ClientInfo, get_online_clients}
use qt_linux_im_project.Protocol.Server.Pack.{pack_user_list_response}
use qt_linux_im_project.Server.Connection.{Connection, Outcome, queue_send}
use qt_linux_im_project.Server.State.{Server, queue_disconnect}

-- The handler's changes, and what it queued for the disconnect.
unfoldable pub store : ℕ → Outcome → Server → Server
store fd o s = record s {
  handlers = insert fd o.conn s.handlers;
  pending_disconnects = s.pending_disconnects ++ o.queued;
}

unfoldable pub after_send : ℕ → Outcome → Server → Server × Bool
unfolding store queue_disconnect
after_send fd o s =
    if o.success then (store fd o s, true) else (queue_disconnect fd (store fd o s), false)

unfoldable pub send_response : ℕ → Bytes → Server → Server × Bool
unfolding after_send
send_response fd bytes s = elim (lookup fd s.handlers) [
  | none ↦ (s, false)
  | some c ↦ after_send fd (queue_send bytes c) s
]

-- The call where the answer is not used.
unfoldable pub send_to : ℕ → Bytes → Server → Server
unfolding send_response
send_to fd bytes s = (send_response fd bytes s).0

unfoldable pub user_of : ClientInfo → UserInfo
user_of info = record { client_id = c_field 32 info.client_id; nickname = c_field 64 info.nickname }

unfoldable pub send_user_list : ℕ → ℕ → Server → Server
unfolding send_to user_of
send_user_list fd sequence s =
    send_to fd (pack_user_list_response sequence (map user_of (get_online_clients s.clients))) s

-- `for (const auto& info : clients) sendResponse(info.fd, packet);`
unfoldable pub send_each : List ClientInfo → Bytes → Server → Server
unfolding send_to
send_each [] packet s = s
send_each (info ∷ infos) packet s = send_each infos packet (send_to info.fd packet s)

unfoldable pub broadcast_user_list : Server → Server
unfolding send_each user_of
broadcast_user_list s =
    let clients = get_online_clients s.clients in
    if is_empty clients
    then s
    else send_each clients (pack_user_list_response 0 (map user_of clients)) s

-- The loops that leave out the sender.
unfoldable pub send_others : ℕ → List ClientInfo → Bytes → Server → Server
unfolding send_to
send_others fd [] packet s = s
send_others fd (target ∷ targets) packet s =
    send_others fd targets packet (if target.fd == fd then s else send_to target.fd packet s)
