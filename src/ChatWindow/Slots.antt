-- ===== src/ChatWindow/Slots.antt =====
-- The slots of `ChatWindow`.
use qt_linux_im_project.Base.{
  ℕ, ◌==◌, Bool, true, false, not, ◌&&◌, ◌||◌, List, [], ◌∷◌, ◌++◌, Bytes, Option, none, some,
  if◌then◌else◌, codes, is_empty, bytes_eq, length, drop,
}
use qt_linux_im_project.Wire.Message.{
  chat_group, chat_private, UserInfo, offer_code, file_offer_accept, file_offer_decline,
  file_offer_busy,
}
use qt_linux_im_project.TcpClient.{
  Qt, Disk, Client, Signal, connected, disconnected, user_list_updated, connect_error,
  login_response, chat_message_received, file_offer_received, file_offer_response_received,
  file_transfer_progress, file_transfer_completed, is_connected, text_field,
}
use qt_linux_im_project.TcpClient.Request.{
  request_user_list, send_chat_message, send_file_offer, send_file_offer_response,
}
use qt_linux_im_project.TcpClient.Lifecycle.{disconnect_from_server}
use qt_linux_im_project.ChatWindow.{
  Format, ChatWindow, Target, warn, group_label, format_size, update_transfer_status,
  add_transfer_row, disable_buttons,
}

module _ (qt : Qt) (f : Format) where
  -- The two branches of the test for `outgoing` are the same.
  unfoldable pub append_message : Bytes → Bytes → Option Bytes → Bytes → ChatWindow → ChatWindow
  append_message sender message time target w =
      let time_text : Bytes = elim time [ none ↦ f.now | some text ↦ text ] in
      let prefix = qt.arg (codes "[%1]") time_text in
      let line =
        if is_empty target
        then f.arg3 (codes "%1 %2: %3") prefix sender message
        else f.arg4 (codes "%1 %2 -> %3: %4") prefix sender target message in
      record w { messages = w.messages ++ (line ∷ []) }

  unfoldable pub on_chat_message_received :
      Bytes → Bytes → Bytes → Bool → Bytes → ℕ → ChatWindow → ChatWindow
  unfolding append_message
  on_chat_message_received from_id from_nick message is_private to_id timestamp w =
      let sender = if is_empty from_nick then from_id else from_nick in
      let target = if is_private then (if is_empty to_id then codes "Private" else to_id) else [] in
      append_message sender message (if timestamp == 0 then some f.now else f.time_of timestamp)
        target w

  -- The users but the client itself, as entries of the combo box.
  unfoldable pub user_entries : Bytes → List UserInfo → List (Bytes × Bytes)
  user_entries own_id [] = []
  user_entries own_id (user ∷ users) =
      let id = text_field qt user.client_id in
      let nick = text_field qt user.nickname in
      let rest = user_entries own_id users in
      if not (is_empty own_id) && bytes_eq id own_id
      then rest
      else (if is_empty nick then id else f.arg2 (codes "%1 (%2)") nick id, id) ∷ rest

  abbrev pub labels : List (Bytes × Bytes) → List Bytes
  labels [] = []
  labels ((label, id) ∷ entries) = label ∷ labels entries

  unfoldable pub update_user_list : Client → ChatWindow → ChatWindow
  unfolding user_entries
  update_user_list c w =
      let entries = user_entries c.client_id c.user_list in
      record w { targets = (group_label, []) ∷ entries; list_online = labels entries }

  unfoldable pub on_file_offer_received :
      Bytes → Bytes → ℕ → Bytes → Bytes → ChatWindow → ChatWindow
  unfolding add_transfer_row
  on_file_offer_received file_id name size from_id from_nick w =
      let label = if is_empty from_nick then from_id else from_nick in
      add_transfer_row f file_id name size (qt.arg (codes "Incoming from %1") label) true w

  abbrev pub offer_status : ℕ → Bytes
  offer_status result =
      if result == offer_code file_offer_accept
      then codes "Accepted"
      else if result == offer_code file_offer_decline
      then codes "Declined"
      else if result == offer_code file_offer_busy
      then codes "Busy"
      else codes "Unknown"

  unfoldable pub on_file_offer_response_received : Bytes → ℕ → Bytes → ChatWindow → ChatWindow
  unfolding update_transfer_status
  on_file_offer_response_received file_id result message w =
      let status = offer_status result in
      update_transfer_status file_id
        (if is_empty message then status else f.arg2 (codes "%1 (%2)") status message) w

  unfoldable pub on_file_transfer_progress : Bytes → ℕ → ℕ → Bool → ChatWindow → ChatWindow
  unfolding update_transfer_status format_size
  on_file_transfer_progress file_id transferred total incoming w =
      if total == 0
      then w
      else update_transfer_status file_id
          (qt.arg
            (qt.arg
              (qt.arg
                (qt.arg (codes "%1 %2% (%3 / %4)")
                  (if incoming then codes "Receiving" else codes "Sending"))
                (f.percent transferred total))
              (format_size f transferred))
            (format_size f total))
          w

  abbrev pub completed_status : Bool → Bool → Bytes → Bytes
  completed_status incoming success message =
      let done = if incoming then codes "Received" else codes "Sent" in
      if success
      then (if is_empty message then done else f.arg2 (codes "%1 (%2)") done message)
      else if is_empty message
      then codes "Failed"
      else qt.arg (codes "Failed (%1)") message

  unfoldable pub on_file_transfer_completed : Bytes → Bool → Bool → Bytes → ChatWindow → ChatWindow
  unfolding update_transfer_status
  on_file_transfer_completed file_id incoming success message w =
      update_transfer_status file_id (completed_status incoming success message) w

  -- What a signal of the client does to the window. The window has no slot for errors and answers
  -- to logins; with `connected` it also asks for the users.
  unfoldable pub notice : Client → Signal → ChatWindow → ChatWindow
  unfolding on_chat_message_received update_user_list on_file_offer_received
      on_file_offer_response_received on_file_transfer_progress on_file_transfer_completed
  notice c connected w = record w { status = codes "Connected" }
  notice c disconnected w = record w { status = codes "Disconnected" }
  notice c user_list_updated w = update_user_list c w
  notice c (connect_error text) w = w
  notice c (login_response success text) w = w
  notice c (chat_message_received from_id from_nick message is_private to_id timestamp) w =
      on_chat_message_received from_id from_nick message is_private to_id timestamp w
  notice c (file_offer_received file_id name size from_id from_nick) w =
      on_file_offer_received file_id name size from_id from_nick w
  notice c (file_offer_response_received file_id result message) w =
      on_file_offer_response_received file_id result message w
  notice c (file_transfer_progress file_id transferred total incoming) w =
      on_file_transfer_progress file_id transferred total incoming w
  notice c (file_transfer_completed file_id incoming success message) w =
      on_file_transfer_completed file_id incoming success message w

  unfoldable pub notice_all : Client → List Signal → ChatWindow → ChatWindow
  unfolding notice
  notice_all c [] w = w
  notice_all c (signal ∷ signals) w = notice_all c signals (notice c signal w)

  -- A call of the client with the slots of the signals that it emitted.
  unfoldable pub call_client : (Client → Client) → ChatWindow × Client → ChatWindow × Client
  unfolding notice_all
  call_client g (w, c) =
      let after = g c in (notice_all after (drop (length c.signals) after.signals) w, after)

  unfoldable pub on_connected : ChatWindow × Client → ChatWindow × Client
  unfolding call_client
  on_connected (w, c) = call_client request_user_list (record w { status = codes "Connected" }, c)

  -- To whom a message goes, and whether it is to the group.
  abbrev pub chosen : Target → Bytes × Bool
  chosen target =
      let id = qt.trimmed target.current_data in
      let text = qt.trimmed target.current_text in
      let is_group = is_empty id && bytes_eq text group_label in
      (if not is_group && is_empty id then text else id, is_group)

  -- `epoch` is the clock for the message.
  unfoldable pub on_send_clicked : Target → ℕ → ChatWindow × Client → ChatWindow × Client
  unfolding call_client append_message
  on_send_clicked target epoch (w, c) =
      let text = qt.trimmed w.input in
      let (to_id, is_group) = chosen target in
      let scope = if is_group then chat_group else chat_private in
      let (told, after) = call_client (send_chat_message scope to_id text epoch) (w, c) in
      let sender = if is_empty c.nickname then codes "Me" else c.nickname in
      if not (is_connected c)
      then (warn (codes "Not connected to the server.") w, c)
      else if is_empty text
      then (w, c)
      else (
        record (append_message sender text (some f.now) (if is_group then codes "Group" else to_id)
            told) { input = [] },
        after,
      )

  -- The dialog's answer, the new file's id, and what `QFileInfo` says of the file.
  unfoldable pub on_select_file :
      Disk → Target → Bytes → Bytes → Bytes → ℕ → ChatWindow × Client → ChatWindow × Client
  unfolding call_client add_transfer_row
  on_select_file disk target path file_id name size (w, c) =
      let (to_id, is_group) = chosen target in
      let (told, after) = call_client (send_file_offer disk file_id path name size to_id) (w, c) in
      if not (is_connected c)
      then (warn (codes "Not connected to the server.") w, c)
      else if is_group || is_empty to_id
      then (warn (codes "Please select a user for file transfer.") w, c)
      else if is_empty path
      then (w, c)
      else (add_transfer_row f file_id name size (codes "Waiting for accept") false told, after)

  -- The buttons of a row.
  unfoldable pub on_accept : Disk → Bytes → ChatWindow × Client → ChatWindow × Client
  unfolding call_client update_transfer_status disable_buttons
  on_accept disk file_id (w, c) =
      let (told, after) =
        call_client
          (send_file_offer_response qt disk file_id (offer_code file_offer_accept)
            (codes "Accepted"))
          (w, c) in
      (disable_buttons file_id (update_transfer_status file_id (codes "Accepted") told), after)

  unfoldable pub on_decline : Disk → Bytes → ChatWindow × Client → ChatWindow × Client
  unfolding call_client update_transfer_status disable_buttons
  on_decline disk file_id (w, c) =
      let (told, after) =
        call_client
          (send_file_offer_response qt disk file_id (offer_code file_offer_decline)
            (codes "Declined"))
          (w, c) in
      (disable_buttons file_id (update_transfer_status file_id (codes "Declined") told), after)

  unfoldable pub on_cancel : Bytes → ChatWindow → ChatWindow
  unfolding update_transfer_status disable_buttons
  on_cancel file_id w =
      disable_buttons file_id (update_transfer_status file_id (codes "Canceled") w)

  unfoldable pub close_event : ChatWindow × Client → ChatWindow × Client
  unfolding call_client
  close_event x =
      let (told, after) = call_client disconnect_from_server x in
      (record told { window_closed = true }, after)

  -- The constructor, with `setupUI`; the client is not null.
  unfoldable pub new_chat_window : Client → ChatWindow × Client
  unfolding call_client
  new_chat_window c = call_client request_user_list (
    record {
      status = if is_connected c then codes "Connected" else codes "Disconnected";
      targets = (group_label, []) ∷ [];
      list_online = [];
      messages = [];
      input = [];
      table = [];
      transfer_rows = [];
      warnings = [];
      window_closed = false;
    },
    c,
  )
