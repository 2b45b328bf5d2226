-- ===== src/Tests/Data.antt =====
-- Two users that are online, on descriptors 5 and 6, and a connection that has not logged in, on 7.
pub mod Valid
use qt_linux_im_project.Base.{ℕ, true, false, List, [], ◌∷◌, Bytes, some, codes}
use qt_linux_im_project.Wire.Text.{c_field}
use qt_linux_im_project.Wire.Message.{LoginRequest, ChatMessage, MessageHeader}
use qt_linux_im_project.Clients.{Clients, ClientInfo, new_client}
use qt_linux_im_project.Server.Connection.{Connection, SendReply, sent, new_connection}
use qt_linux_im_project.Server.State.{Server, Clock, FileSession}

abbrev pub home : Bytes
home = codes "127.0.0.1"

abbrev pub fresh_clients : Clients
fresh_clients =
    (5, new_client 5 home 4000 0)
    ∷ (6, new_client 6 home 4001 0)
    ∷ (7, new_client 7 home 4002 0)
    ∷ []

abbrev pub alice : ClientInfo
alice = record (new_client 5 home 4000 0) {
  client_id = codes "a";
  nickname = codes "Alice";
  is_online = true;
}

abbrev pub bob : ClientInfo
bob = record (new_client 6 home 4001 0) {
  client_id = codes "b";
  nickname = codes "Bob";
  is_online = true;
}

abbrev pub online_clients : Clients
online_clients = (5, alice) ∷ (6, bob) ∷ (7, new_client 7 home 4002 0) ∷ []

-- A kernel that takes two bytes, and then as many as it is given.
abbrev pub replies : List SendReply
replies = sent 1 ∷ sent 5000 ∷ []

abbrev pub two_online : Server
two_online = record {
  running = true;
  clients = online_clients;
  recv_buffers = [];
  handlers =
      (5, new_connection 5 replies)
      ∷ (6, new_connection 6 replies)
      ∷ (7, new_connection 7 replies)
      ∷ [];
  pending_disconnects = 7 ∷ 6 ∷ 7 ∷ [];
  file_sessions = (codes "f1", record { sender_fd = some 5; receiver_fd = some 6 }) ∷ [];
  closed = [];
}

abbrev pub clock : Clock
clock = record { steady = 9; epoch_seconds = 1700 }

abbrev pub request_of : Bytes → Bytes → LoginRequest
request_of id nick = record { client_id = c_field 32 id; nickname = c_field 64 nick }

abbrev pub chat_of : ℕ → Bytes → ChatMessage
chat_of scope to_id = record {
  chat_type = scope;
  from_id = c_field 32 (codes "b");
  from_nick = c_field 64 (codes "Bob");
  to_id = c_field 32 to_id;
  timestamp = 0;
  message = c_field 256 (codes "hi");
}
