-- ===== src/Tests/Windows.antt =====
-- The windows, on a client that is connected and one that is not.
use qt_linux_im_project.Base.{
  ℕ, ◌+◌, ◌^◌, ◌≤◌, ◌<◌, ◌≡◌, Bool, true, false, List, [], ◌∷◌, ◌++◌, Bytes, Option, none, some,
  codes, arith, ◌⊎◌, length,
}
use qt_linux_im_project.Base.NameMap.{find}
use qt_linux_im_project.TcpClient.{
  Qt, Disk, Client, PendingOffer, connected_state, file_offer_received,
}
use qt_linux_im_project.TcpClient.Lifecycle.{new_client}
use qt_linux_im_project.ChatWindow.{
  Format, ChatWindow, Target, accept_decline, unit_from, group_label,
}
use qt_linux_im_project.ChatWindow.Rows.{
  HasRows, Action, client_moves, send, select, press_cancel, close, act_all, act_all-HasRows,
}
use qt_linux_im_project.ChatWindow.Accept.{unit_from-fits}
use qt_linux_im_project.LoginWindow.{ℤ, pos, LoginWindow, new_login_window, save_config}
use qt_linux_im_project.LoginWindow.Connects.{Connects, new_login_window-save_config}

abbrev qt : Qt
qt = record {
  from_utf8 = λ text. text;
  trimmed = λ text. text;
  arg = λ pattern text. pattern ++ text;
  number = λ n. (48 + n) ∷ [];
  file_path = λ dir name. dir ++ name;
  base_name = λ name. name;
  suffix = λ name. [];
}

abbrev format : Format
format = record {
  arg2 = λ pattern a b. a ++ b;
  arg3 = λ pattern a b c. a ++ (b ++ c);
  arg4 = λ pattern a b c d. a ++ (b ++ (c ++ d));
  divided = λ size unit precision. (48 + unit) ∷ [];
  percent = λ part whole. codes "50.0";
  time_of = λ seconds. none;
  now = codes "12:00:00";
}

-- No file opens.
abbrev full_disk : Disk
full_disk = record {
  exists = λ path. false;
  taken = 0;
  is_file = λ path. true;
  download_location = codes "/d/";
  current_downloads = codes "/c/";
  open_write = λ path. false;
  open_read = λ path. none;
  seek = λ path position. true;
  write = λ path position bytes. some (length bytes);
}

abbrev file_id : Bytes
file_id = codes "f1"

abbrev offered : PendingOffer
offered = record {
  file_id = file_id;
  file_name = codes "photo";
  file_size = 5;
  from_id = codes "b";
  from_nick = codes "Bob";
}

abbrev online : Client
online = record new_client {
  socket = connected_state;
  client_id = codes "a";
  nickname = codes "Alice";
  pending_offers = (file_id, offered) ∷ [];
}

abbrev empty_window : ChatWindow
empty_window = record {
  status = codes "Connected";
  targets = (group_label, []) ∷ [];
  list_online = [];
  messages = [];
  input = codes "hi";
  table = [];
  transfer_rows = [];
  warnings = [];
  window_closed = false;
}

abbrev one_row : ChatWindow
one_row = record empty_window {
  table =
      record {
        file = codes "photo";
        size = codes "5 B";
        status = codes "Incoming from Bob";
        buttons = accept_decline true;
      }
      ∷ [];
  transfer_rows = (file_id, 0) ∷ [];
}

abbrev group : Target
group = record { current_data = []; current_text = group_label }

empty_window-HasRows : HasRows empty_window
unfolding find
empty_window-HasRows = record { rows = record { inside = λ id i e. cc; own_row = λ a b i p q. cc } }

abbrev actions : List Action
actions =
    client_moves online
      (file_offer_received file_id (codes "photo") 5 (codes "b") (codes "Bob") ∷ [])
    ∷ send group 1700
    ∷ select full_disk (record { current_data = codes "b"; current_text = codes "Bob" })
        (codes "/d/x") (codes "f2") (codes "x") 9
    ∷ press_cancel (codes "f2")
    ∷ close
    ∷ []

act_all-HasRows_example : HasRows (act_all qt format actions (empty_window, online)).0
act_all-HasRows_example =
    act_all-HasRows qt format actions (empty_window, online) empty_window-HasRows

abbrev to_int : Bytes → Option ℤ
to_int text = some (pos 8888)

abbrev login : LoginWindow
login = record (new_login_window [] (codes "a")) { edit_nickname = codes "Alice" }

new_login_window-save_config_example :
    ((new_login_window (save_config login).settings (codes "z")).edit_ip ≡ login.edit_ip)
    × ((new_login_window (save_config login).settings (codes "z")).edit_port ≡ login.edit_port)
    × ((new_login_window (save_config login).settings (codes "z")).edit_nickname
        ≡ login.edit_nickname)
new_login_window-save_config_example = new_login_window-save_config login (codes "z")

unit_from-fits_example :
    ((unit_from 3 0 5000 ≡ 0) ⊎ (1024 ^ unit_from 3 0 5000 ≤ 5000))
    × ((unit_from 3 0 5000 ≡ 3) ⊎ (5000 < 1024 ^ (unit_from 3 0 5000 + 1)))
unit_from-fits_example = unit_from-fits 5000
