-- ===== src/Tests/Client.antt =====
-- A client's connection, a file from one client to another, and the client's files.
use qt_linux_im_project.Base.{
  ℕ, ◌+◌, ◌<◌, ◌≤◌, ◌≡◌, ◌≢◌, refl, sym, Bool, true, false, not, List, [], ◌∷◌, ◌++◌, Bytes, Option,
  none, some, codes, arith, All, append-nil, length, is_empty, bytes_eq, if◌then◌else◌, take, drop,
}
use qt_linux_im_project.Base.FdMap.{FdMap}
use qt_linux_im_project.Base.NameMap.{find}
use qt_linux_im_project.Wire.Message.{MessageHeader, chat_group}
use qt_linux_im_project.Protocol.Frames.{buffer_of}
use qt_linux_im_project.Protocol.Frames.Chunks.{feed, join}
use qt_linux_im_project.Protocol.Frames.Stream.{IsFrame, stream, deliver}
use qt_linux_im_project.TcpClient.{
  Qt, Disk, Client, TcpClient, PendingOffer, FileReceiveSession, connected_state, is_connected,
  disconnected, file_transfer_progress, file_transfer_completed, sought, flushed, closed_file,
}
use qt_linux_im_project.Wire.Text.{text_of}
use qt_linux_im_project.Wire.Message.{ChatMessage}
use qt_linux_im_project.Server.Chat.{chat_packet, scope_of}
use qt_linux_im_project.Tests.Data.{alice, chat_of, clock}
use qt_linux_im_project.TcpClient.{emit, chat_message_received}
use qt_linux_im_project.TcpClient.Receive.Shows.{IsText, is_private, chat_packet-shown}
use qt_linux_im_project.TcpClient.Request.{offer_session}
use qt_linux_im_project.TcpClient.Request.Answers.{
  opened_session, accepted, send_file_offer_response-accepts,
}
use qt_linux_im_project.TcpClient.Transfer.{
  numbered, build_download_path, start_file_send, handle_file_data,
}
use qt_linux_im_project.TcpClient.Transfer.Paths.{FirstFree, build_download_path-FirstFree}
use qt_linux_im_project.TcpClient.Transfer.Early.{handle_file_data-early}
use qt_linux_im_project.TcpClient.Transfer.Saves.{Receiving, Saved}
use qt_linux_im_project.TcpClient.Transfer.Sends.{IsPart}
use qt_linux_im_project.TcpClient.Transfer.Arrives.{IsFileId, file_transfer_arrives}
use qt_linux_im_project.TcpClient.Receive.Pieces.{read_pieces}
use qt_linux_im_project.TcpClient.Lifecycle.{new_client, on_connected, on_disconnected}
use qt_linux_im_project.TcpClient.Lifecycle.Clears.{on_disconnected-clears}
use qt_linux_im_project.TcpClient.Talks.Session.{client-server}
use qt_linux_im_project.TcpClient.Session.{Event, login, chat, heartbeat, leave, run_events}

-- Texts are kept as they are, and a number is written in decimal digits up to 9.
abbrev qt : Qt
qt = record {
  from_utf8 = λ text. text;
  trimmed = λ text. text;
  arg = λ pattern text. pattern ++ text;
  number = λ n. (48 + n) ∷ [];
  file_path = λ dir name. dir ++ name;
  base_name = λ name. name;
  suffix = λ name. [];
}

abbrev photo : Bytes
photo = codes "/d/photo"

abbrev file_id : Bytes
file_id = codes "f1"

abbrev content : Bytes
content = codes "hello"

-- One name is taken, every file opens, and a file has one part.
abbrev disk : Disk
disk = record {
  exists = λ path. bytes_eq path photo;
  taken = 1;
  is_file = λ path. true;
  download_location = codes "/d/";
  current_downloads = codes "/c/";
  open_write = λ path. true;
  open_read = λ path. some (content ∷ []);
  seek = λ path position. true;
  write = λ path position bytes. some (length bytes);
}

abbrev online : Client
online = record new_client {
  socket = connected_state;
  client_id = codes "a";
  nickname = codes "Alice";
}

abbrev events : List Event
events =
    login (codes "a") (codes "Alice")
    ∷ chat chat_group [] (codes "hi") 1700
    ∷ heartbeat
    ∷ leave
    ∷ []

abbrev idle : TcpClient
idle = record { recv_buffer = []; members = online }

abbrev conversation : Bytes
conversation = (run_events qt events (on_connected idle)).members.written

abbrev count : ℕ → MessageHeader → Bytes → ℕ → ℕ
count fd header body n = n + 1

client-server_example :
    (ms : List (MessageHeader × Bytes)) × (join (conversation ∷ []) ≡ stream ms)
    × All IsFrame ms
    × (buffer_of 5 (feed count 5 (conversation ∷ []) ([], 0)).0 ≡ [])
    × ((feed count 5 (conversation ∷ []) ([], 0)).1 ≡ deliver (count 5) ms 0)
unfolding buffer_of qt_linux_im_project.Base.FdMap.lookup
client-server_example =
    client-server count qt events idle 5 (conversation ∷ []) [] 0 (tt, (tt, (tt, (tt, tt))))
      (append-nil conversation) refl

abbrev sender : Client
sender = record online {
  send_sessions = (file_id, offer_session file_id photo (codes "photo") 5 (codes "b")) ∷ [];
}

abbrev saving : FileReceiveSession
saving = record {
  file_id = file_id;
  file_name = codes "photo";
  file_size = 5;
  bytes_received = 0;
  save_path = photo;
  file = some (record { path = photo; is_open = true });
}

abbrev receiver : TcpClient
receiver = record {
  recv_buffer = [];
  members = record online { recv_sessions = (file_id, saving) ∷ [] };
}

abbrev sent_file : Bytes
sent_file = (start_file_send disk file_id sender).written

file_id-IsFileId : IsFileId qt file_id
file_id-IsFileId = record { no_zero = refl; fits = omega arith; text = refl }

saving-Receiving : Receiving file_id photo 5 0 receiver.members
unfolding find bytes_eq
saving-Receiving = record {
  session = saving;
  found = refl;
  same_path = refl;
  same_size = refl;
  position = refl;
  open_file = refl;
}

content-IsPart : IsPart content
content-IsPart = record { filled = refl; bounded = omega arith }

file_transfer_arrives_example :
    Saved file_id photo 5 0
      (content ∷ [])
      receiver.members
      (read_pieces qt disk (sent_file ∷ []) receiver).members
unfolding find is_connected bytes_eq new_client
file_transfer_arrives_example =
    file_transfer_arrives qt disk disk file_id photo sender receiver
      (offer_session file_id photo (codes "photo") 5 (codes "b")) content [] (sent_file ∷ [])
      file_id-IsFileId refl refl refl refl (content-IsPart, tt) (omega arith)
      (sym (append-nil sent_file)) refl (λ position bytes. refl) saving-Receiving

-- The first number gives a free name.
build_download_path-FirstFree_example :
    FirstFree qt disk (codes "photo") 1 1 (build_download_path qt disk (codes "photo"))
unfolding numbered bytes_eq
build_download_path-FirstFree_example =
    build_download_path-FirstFree qt disk (codes "photo") 1 refl (omega arith) (omega arith) refl

abbrev offered : PendingOffer
offered = record {
  file_id = file_id;
  file_name = codes "photo";
  file_size = 5;
  from_id = codes "b";
  from_nick = codes "Bob";
}

abbrev asked : Client
asked = record online { pending_offers = (file_id, offered) ∷ [] }

send_file_offer_response-accepts_example :
    (path : Bytes) × (disk.exists path ≡ false)
    × (find file_id (accepted qt disk file_id (codes "ok") asked).recv_sessions
        ≡ some (opened_session path offered))
    × (find file_id (accepted qt disk file_id (codes "ok") asked).pending_offers ≡ none)
unfolding numbered bytes_eq find
send_file_offer_response-accepts_example =
    send_file_offer_response-accepts qt disk file_id (codes "ok") offered 1 asked refl (omega arith)
      (omega arith) refl refl

on_disconnected-clears_example : on_disconnected receiver.members ≡ record online {
  heartbeat_active = false;
  send_sessions = [];
  recv_sessions = [];
  pending_offers = [];
  file_calls = closed_file photo ∷ [];
  signals = disconnected ∷ [];
}
unfolding new_client
on_disconnected-clears_example = on_disconnected-clears receiver.members

handle_file_data-early_example :
    ((handle_file_data disk file_id 5 [] receiver.members).signals
      ≡ file_transfer_progress file_id 5 5 true
        ∷ file_transfer_completed file_id true true photo
        ∷ [])
    × ((handle_file_data disk file_id 5 [] receiver.members).file_calls
        ≡ sought photo 5 ∷ flushed photo ∷ closed_file photo ∷ [])
unfolding find bytes_eq new_client
handle_file_data-early_example =
    handle_file_data-early disk file_id saving 5 receiver.members refl refl (omega arith)
      (omega arith) (ground arith) refl

abbrev greeting : ChatMessage
greeting = chat_of 0 []

greeting_text : text_of 256 greeting.message ≡ codes "hi"
unfolding text_of qt_linux_im_project.Wire.Text.bounded_strnlen
    qt_linux_im_project.Wire.Text.c_field qt_linux_im_project.Wire.Text.strncpy take
greeting_text = refl

greeting-IsText : IsText 256 (text_of 256 greeting.message)
greeting-IsText = rw greeting_text (record { no_zero = refl; fits = omega arith })

no_target : text_of 32 greeting.to_id ≡ []
unfolding text_of qt_linux_im_project.Wire.Text.bounded_strnlen
    qt_linux_im_project.Wire.Text.c_field qt_linux_im_project.Wire.Text.strncpy take
no_target = refl

nobody-IsText : IsText 32 (text_of 32 greeting.to_id)
nobody-IsText = rw no_target (record { no_zero = refl; fits = omega arith })

abbrev passed_on : Bytes
passed_on = chat_packet 3 alice greeting clock

chat_packet-shown_example :
    ((read_pieces qt disk (passed_on ∷ []) idle).recv_buffer ≡ [])
    × ((read_pieces qt disk (passed_on ∷ []) idle).members
        ≡ emit
            (chat_message_received
              (codes "a")
              (codes "Alice")
              (text_of 256 greeting.message)
              (is_private (scope_of greeting))
              (text_of 32 greeting.to_id)
              1700)
            idle.members)
chat_packet-shown_example =
    chat_packet-shown qt disk 3 alice greeting clock (passed_on ∷ []) idle
      (record { no_zero = refl; fits = omega arith })
      (record { no_zero = refl; fits = omega arith }) nobody-IsText greeting-IsText (omega arith)
      (omega arith) refl (append-nil passed_on)
