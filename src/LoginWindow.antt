-- ===== src/LoginWindow.antt =====
-- `LoginWindow` of client/ui/loginwindow.cpp: what the window shows, its settings, and what it asks
-- of the client. A message box is an entry of the list of those that were shown; what happens while
-- it waits for the user is no part of it.
pub mod Connects
use qt_linux_im_project.Base.{
  ℕ, zero, suc, ◌+◌, ◌||◌, ltb, Bool, true, false, not, List, [], ◌∷◌, ◌++◌, Bytes, Option, none,
  some, if◌then◌else◌, codes, is_empty, ◌==◌,
}
use qt_linux_im_project.Base.NameMap.{NameMap, find, put}
use qt_linux_im_project.TcpClient.{Qt, Client}
use qt_linux_im_project.TcpClient.Request.{set_identity, send_login_request}
use qt_linux_im_project.TcpClient.Lifecycle.{connect_to_server, disconnect_from_server}
use qt_linux_im_project.ChatWindow.{Format, ChatWindow}
use qt_linux_im_project.ChatWindow.Slots.{new_chat_window}

-- An `int`.
pub data ℤ : Type 0 where
  pos negsuc : ℕ → ℤ

-- The four edits, the label of the status, the button, whether the window is shown, the boxes, the
-- settings, and the chat window.
pub record LoginWindow : Type 0 where
  pub edit_ip : Bytes
  pub edit_port : Bytes
  pub edit_client_id : Bytes
  pub edit_nickname : Bytes
  pub status : Bytes
  pub connect_enabled : Bool
  pub visible : Bool
  pub boxes : List Bytes
  pub settings : NameMap Bytes
  pub chat_window : Option ChatWindow

abbrev pub show_box : Bytes → LoginWindow → LoginWindow
show_box text w = record w { boxes = w.boxes ++ (text ∷ []) }

unfoldable pub save_config : LoginWindow → LoginWindow
save_config w = record w {
  settings =
      put (codes "user/nickname") w.edit_nickname
        (put (codes "server/port") w.edit_port (put (codes "server/ip") w.edit_ip w.settings));
}

abbrev pub or_else : Bytes → Option Bytes → Bytes
or_else old none = old
or_else old (some text) = text

unfoldable pub load_config : LoginWindow → LoginWindow
load_config w = record w {
  edit_ip = or_else w.edit_ip (find (codes "server/ip") w.settings);
  edit_port = or_else w.edit_port (find (codes "server/port") w.settings);
  edit_nickname = or_else w.edit_nickname (find (codes "user/nickname") w.settings);
}

-- `generateClientId` with the clock's text and the random number.
abbrev pub generate_client_id : Format → Bytes → Bytes → Bytes
generate_client_id f timestamp random = f.arg2 (codes "CLIENT_%1_%2") timestamp random

-- The constructor, with `setupUI`.
unfoldable pub new_login_window : NameMap Bytes → Bytes → LoginWindow
unfolding load_config
new_login_window settings client_id = load_config (record {
  edit_ip = codes "127.0.0.1";
  edit_port = codes "8888";
  edit_client_id = client_id;
  edit_nickname = [];
  status = codes "Status: Disconnected";
  connect_enabled = true;
  visible = true;
  boxes = [];
  settings = settings;
  chat_window = none;
})

-- `port` where it is in range.
unfoldable pub port_of : Option ℤ → Option ℕ
port_of none = none
port_of (some (negsuc n)) = none
port_of (some (pos n)) = if n == 0 || ltb 65_535 n then none else some n

-- `to_int` is `QString::toInt`, with `none` where it fails.
module _ (qt : Qt) (f : Format) (to_int : Bytes → Option ℤ) where
  -- `updateStatus`.
  abbrev pub update_status : Bytes → LoginWindow → LoginWindow
  update_status text w = record w { status = qt.arg (codes "Status: %1") text }

  unfoldable pub begin_connect : ℕ → LoginWindow × Client → LoginWindow × Client
  unfolding save_config
  begin_connect port (w, c) = (
    save_config (update_status (codes "Connecting...") (record w { connect_enabled = false })),
    connect_to_server (qt.trimmed w.edit_ip) port
        (set_identity qt (qt.trimmed w.edit_client_id) (qt.trimmed w.edit_nickname) c),
  )

  unfoldable pub on_connect_clicked : LoginWindow × Client → LoginWindow × Client
  unfolding begin_connect port_of
  on_connect_clicked (w, c) =
      if is_empty (qt.trimmed w.edit_ip)
      then (show_box (codes "Please enter a server IP.") w, c)
      else if is_empty (qt.trimmed w.edit_port)
      then (show_box (codes "Please enter a port.") w, c)
      else if is_empty (qt.trimmed w.edit_nickname)
      then (show_box (codes "Please enter a nickname.") w, c)
      else elim (port_of (to_int (qt.trimmed w.edit_port))) [
        | none ↦ (show_box (codes "Invalid port number.") w, c)
        | some port ↦ begin_connect port (w, c)
      ]

  unfoldable pub on_connected : LoginWindow × Client → LoginWindow × Client
  on_connected (w, c) = (
    update_status (codes "Connected, logging in...") w,
    send_login_request c.client_id c.nickname c,
  )

  unfoldable pub on_connect_error : Bytes → LoginWindow → LoginWindow
  on_connect_error text w =
      record (show_box (qt.arg (codes "Unable to connect to server:\\n%1") text)
        (update_status (codes "Connection failed") w)) { connect_enabled = true }

  unfoldable pub on_disconnected : LoginWindow → LoginWindow
  on_disconnected w =
      let told = update_status (codes "Disconnected") w in
      record (if w.visible
        then show_box (codes "Connection lost. Please reconnect.") told
        else told) { connect_enabled = true }

  -- The chat window, made when there is none.
  unfoldable pub open_chat : LoginWindow × Client → LoginWindow × Client
  open_chat (w, c) =
      let (chat, asked) = new_chat_window qt f c in
      elim w.chat_window [
        | none ↦ (record w { chat_window = some chat }, asked)
        | some old ↦ (w, c)
      ]

  unfoldable pub on_login_response : Bool → Bytes → LoginWindow × Client → LoginWindow × Client
  unfolding open_chat
  on_login_response success message (w, c) =
      let greeted =
        show_box (qt.arg (codes "Login successful.\\n%1") message)
          (update_status (codes "Login successful") w) in
      let (opened, asked) = open_chat (greeted, c) in
      let failed =
        show_box (qt.arg (codes "Login failed:\\n%1") message)
          (update_status (codes "Login failed") w) in
      if success
      then (record opened { visible = false }, asked)
      else (record failed { connect_enabled = true }, disconnect_from_server c)

  -- The slot for the chat window's `windowClosed`.
  unfoldable pub on_window_closed : LoginWindow → LoginWindow
  on_window_closed w = record w { visible = true; connect_enabled = true }
