-- ===== src/TcpClient.antt =====
-- `TcpClient` of client/network/tcpclient.cpp: the client's side of a connection. A `QString` is
-- its text in UTF-8. What Qt does with texts and names is handed over as `Qt`, and what the file
-- system answers during a call as `Disk`. Signals, calls of the socket and calls on files are
-- listed in the order in which the code makes them; slots that a signal runs are no part of it.
pub mod Request
pub mod Transfer
pub mod Receive
pub mod Lifecycle
pub mod Session
pub mod Talks
use qt_linux_im_project.Base.{
  ℕ, ◌+◌, ◌%◌, ◌^◌, Bool, List, [], ◌∷◌, ◌++◌, Bytes, Option, none, some, if◌then◌else◌, true,
  false,
}
use qt_linux_im_project.Base.NameMap.{NameMap}
use qt_linux_im_project.Wire.Message.{UserInfo}
use qt_linux_im_project.Wire.Text.{c_str}

-- `QString::fromUtf8`, `trimmed`, `arg` and `number`, `QDir::filePath`, and
-- `QFileInfo::completeBaseName` and `suffix`.
pub record Qt : Type 0 where
  pub from_utf8 : Bytes → Bytes
  pub trimmed : Bytes → Bytes
  pub arg : Bytes → Bytes → Bytes
  pub number : ℕ → Bytes
  pub file_path : Bytes → Bytes → Bytes
  pub base_name : Bytes → Bytes
  pub suffix : Bytes → Bytes

-- The answers of the file system: whether a name is taken, how many
-- are, whether a name is a file, the two directories for
-- downloads, whether a file opens for writing, what the `read` calls of a file return until it is
-- at its end (`none` where it does not open), whether `seek` succeeds, and how many bytes `write`
-- takes at a position (`none` is a negative answer).
pub record Disk : Type 0 where
  pub exists : Bytes → Bool
  pub taken : ℕ
  pub is_file : Bytes → Bool
  pub download_location : Bytes
  pub current_downloads : Bytes
  pub open_write : Bytes → Bool
  pub open_read : Bytes → Option (List Bytes)
  pub seek : Bytes → ℕ → Bool
  pub write : Bytes → ℕ → Bytes → Option ℕ

pub data Signal : Type 0 where
  connected disconnected user_list_updated : Signal
  connect_error : Bytes → Signal
  login_response : Bool → Bytes → Signal
  chat_message_received : Bytes → Bytes → Bytes → Bool → Bytes → ℕ → Signal
  file_offer_received : Bytes → Bytes → ℕ → Bytes → Bytes → Signal
  file_offer_response_received : Bytes → ℕ → Bytes → Signal
  file_transfer_progress : Bytes → ℕ → ℕ → Bool → Signal
  file_transfer_completed : Bytes → Bool → Bool → Bytes → Signal

pub data SocketState : Type 0 where
  unconnected host_lookup connecting connected_state bound listening closing : SocketState

pub data SocketCall : Type 0 where
  connect_to_host : Bytes → ℕ → SocketCall
  disconnect_from_host : SocketCall

-- A write with the bytes that it took.
pub data FileCall : Type 0 where
  made_path opened_write opened_read flushed closed_file : Bytes → FileCall
  sought : Bytes → ℕ → FileCall
  wrote : Bytes → Bytes → ℕ → FileCall

-- A `QFile` that was created.
pub record OpenFile : Type 0 where
  pub path : Bytes
  pub is_open : Bool

pub record PendingOffer : Type 0 where
  pub file_id : Bytes
  pub file_name : Bytes
  pub file_size : ℕ
  pub from_id : Bytes
  pub from_nick : Bytes

pub record FileSendSession : Type 0 where
  pub file_id : Bytes
  pub file_path : Bytes
  pub file_name : Bytes
  pub file_size : ℕ
  pub to_id : Bytes
  pub bytes_sent : ℕ
  pub started : Bool
  pub file : Option OpenFile

pub record FileReceiveSession : Type 0 where
  pub file_id : Bytes
  pub file_name : Bytes
  pub file_size : ℕ
  pub bytes_received : ℕ
  pub save_path : Bytes
  pub file : Option OpenFile

-- The members but the receive buffer. `socket` is the state that the socket is in, which Qt
-- changes between the calls, `written` what was written to it since it is connected.
pub record Client : Type 0 where
  pub socket : SocketState
  pub heartbeat_active : Bool
  pub sequence : ℕ
  pub client_id : Bytes
  pub nickname : Bytes
  pub user_list : List UserInfo
  pub pending_offers : NameMap PendingOffer
  pub send_sessions : NameMap FileSendSession
  pub recv_sessions : NameMap FileReceiveSession
  pub written : Bytes
  pub socket_calls : List SocketCall
  pub file_calls : List FileCall
  pub signals : List Signal

pub record TcpClient : Type 0 where
  pub recv_buffer : Bytes
  pub members : Client

abbrev pub emit : Signal → Client → Client
emit signal c = record c { signals = c.signals ++ (signal ∷ []) }

abbrev pub file_call : FileCall → Client → Client
file_call call c = record c { file_calls = c.file_calls ++ (call ∷ []) }

abbrev pub socket_call : SocketCall → Client → Client
socket_call call c = record c { socket_calls = c.socket_calls ++ (call ∷ []) }

-- `++sequence_`, a `uint32_t`.
abbrev pub advance_sequence : Client → Client
advance_sequence c = record c { sequence = (c.sequence + 1) % 2 ^ 32 }

abbrev pub is_connected_state : SocketState → Bool
is_connected_state connected_state = true
is_connected_state state = false

unfoldable pub is_connected : Client → Bool
is_connected c = is_connected_state c.socket

-- The socket buffers whatever is written to it while it is connected.
unfoldable pub send_data : Bytes → Client → Client
unfolding is_connected
send_data bytes c = if is_connected c then record c { written = c.written ++ bytes } else c

-- `send...(ProtocolParser::pack...(++sequence_, ...))`: a packet under the next number.
unfoldable pub send_next : (ℕ → Bytes) → Client → Client
unfolding send_data
send_next pack c = send_data (pack (advance_sequence c).sequence) (advance_sequence c)

-- `QString::fromUtf8(f)` on a `char` array.
abbrev pub text_field : Qt → Bytes → Bytes
text_field qt f = qt.from_utf8 (c_str f)
