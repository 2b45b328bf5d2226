-- ===== src/Server/Dispatch.antt =====
-- `handleMessage` and `onClientData` of server/src/server.cpp, and the callbacks of a connection
-- that reach the server's state: `handleRead`, `handleWrite`, `handleError`.
use qt_linux_im_project.Base.{ℕ, true, List, [], ◌∷◌, Bytes, Option, none, some, if◌then◌else◌}
use qt_linux_im_project.Base.FdMap.{lookup}
use qt_linux_im_project.Wire.Message.{
  MessageHeader, MessageType, msg_heartbeat_req, msg_login_req, msg_logout_req, msg_chat_msg,
  msg_user_list_req, msg_file_offer, msg_file_offer_rsp, msg_file_data, msg_file_data_ack,
  message_type,
}
use qt_linux_im_project.Clients.{check_timeout}
use qt_linux_im_project.Protocol.Frames.{parse_data}
use qt_linux_im_project.Server.Connection.{
  Connection, Outcome, request_close, handle_write, handle_error,
}
use qt_linux_im_project.Server.State.{Server, Clock, queue_disconnect}
use qt_linux_im_project.Server.Send.{store}
use qt_linux_im_project.Server.Login.{handle_heartbeat, handle_login, handle_logout}
use qt_linux_im_project.Server.Chat.{handle_chat_message, handle_user_list_request}
use qt_linux_im_project.Server.Files.{
  handle_file_offer, handle_file_offer_response, handle_file_data,
}

-- The `switch`; the remaining types fall to `default`.
unfoldable pub handle_typed :
    Option MessageType → ℕ → MessageHeader → Bytes → Clock → Server → Server
handle_typed (some msg_heartbeat_req) fd header body clock s =
    handle_heartbeat fd header body clock s
handle_typed (some msg_login_req) fd header body clock s = handle_login fd header body s
handle_typed (some msg_logout_req) fd header body clock s = handle_logout fd s
handle_typed (some msg_chat_msg) fd header body clock s = handle_chat_message fd header body clock s
handle_typed (some msg_user_list_req) fd header body clock s = handle_user_list_request fd header s
handle_typed (some msg_file_offer) fd header body clock s = handle_file_offer fd header body s
handle_typed (some msg_file_offer_rsp) fd header body clock s =
    handle_file_offer_response fd header body s
handle_typed (some msg_file_data) fd header body clock s = handle_file_data fd header body s
handle_typed (some msg_file_data_ack) fd header body clock s = handle_file_data fd header body s
handle_typed _ fd header body clock s = s

unfoldable pub handle_message : Clock → ℕ → MessageHeader → Bytes → Server → Server
unfolding handle_typed
handle_message clock fd header body s =
    handle_typed (message_type header.msg_type) fd header body clock s

-- The handlers do not touch the receive buffers, so the parser works on them beside the state.
unfoldable pub on_client_data : Clock → ℕ → Bytes → Server → Server
on_client_data clock fd bytes s =
    let (buffers, s') = parse_data (handle_message clock) fd bytes (s.recv_buffers, s) in
    record s' { recv_buffers = buffers }

-- A callback of the handler of `fd`, if there is one.
unfoldable pub on_handler : (Connection → Outcome) → ℕ → Server → Server
unfolding store
on_handler f fd s = elim (lookup fd s.handlers) [ none ↦ s | some c ↦ store fd (f c) s ]

-- What the kernel answers to `recv`; with bytes, the clocks while they are handled.
pub data RecvReply : Type 0 where
  received : Clock → Bytes → RecvReply
  peer_closed read_interrupted read_would_block read_failed : RecvReply

abbrev pub close : Connection → Outcome
close c = request_close c true

-- The loop of `ClientHandler::handleRead`. Where the answers end, there is nothing more to read.
unfoldable pub read_loop : ℕ → List RecvReply → Server → Server
unfolding on_handler
read_loop fd [] s = s
read_loop fd (received clock bytes ∷ rs) s = read_loop fd rs (on_client_data clock fd bytes s)
read_loop fd (peer_closed ∷ rs) s = on_handler close fd s
read_loop fd (read_interrupted ∷ rs) s = read_loop fd rs s
read_loop fd (read_would_block ∷ rs) s = s
read_loop fd (read_failed ∷ rs) s = on_handler close fd s

unfoldable pub handle_read : ℕ → List RecvReply → Server → Server
unfolding read_loop
handle_read fd rs s = elim (lookup fd s.handlers) [
  | none ↦ s
  | some c ↦ (if c.closing then s else read_loop fd rs s)
]

unfoldable pub on_write : ℕ → Server → Server
unfolding on_handler
on_write fd s = on_handler handle_write fd s

unfoldable pub on_error : ℕ → Server → Server
unfolding on_handler
on_error fd s = on_handler handle_error fd s

unfoldable pub queue_all : List ℕ → Server → Server
unfolding queue_disconnect
queue_all [] s = s
queue_all (fd ∷ fds) s = queue_all fds (queue_disconnect fd s)

-- One round of `heartbeatLoop` with its timeout of 10 seconds.
unfoldable pub heartbeat_round : ℕ → Server → Server
unfolding queue_all
heartbeat_round now s = queue_all (check_timeout 10 now s.clients) s
