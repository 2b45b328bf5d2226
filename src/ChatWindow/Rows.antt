-- ===== src/ChatWindow/Rows.antt =====
-- The table of transfers: each file id has a row of its own.
use qt_linux_im_project.Base.{
  ℕ, zero, suc, ◌+◌, ◌<◌, ◌≡◌, refl, sym, ◌∙◌, Bool, true, false, ◌||◌, ◌==◌, List, [], ◌∷◌, ◌++◌,
  Bytes, Option, none, some, if◌then◌else◌, codes, arith, length, length-append, is_empty, bytes_eq,
  bytes_eq→eq, Option-cases, Bool-cases, inl, inr, drop,
}
use qt_linux_im_project.Base.NameMap.{NameMap, find, put, find-put}
use qt_linux_im_project.Wire.Message.{
  chat_group, chat_private, offer_code, file_offer_accept, file_offer_decline,
}
use qt_linux_im_project.TcpClient.Request.{
  request_user_list, send_chat_message, send_file_offer, send_file_offer_response,
}
use qt_linux_im_project.TcpClient.Lifecycle.{disconnect_from_server}
use qt_linux_im_project.TcpClient.{
  Qt, Disk, Client, Signal, connected, disconnected, user_list_updated, connect_error,
  login_response, chat_message_received, file_offer_received, file_offer_response_received,
  file_transfer_progress, file_transfer_completed, is_connected,
}
use qt_linux_im_project.ChatWindow.{
  Format, ChatWindow, Target, TransferRow, change_row, update_transfer_status, add_transfer_row,
  disable_buttons,
}
use qt_linux_im_project.ChatWindow.Slots.{
  chosen, notice, notice_all, call_client, on_chat_message_received, append_message,
  update_user_list, on_file_offer_received, on_file_offer_response_received,
  on_file_transfer_progress, on_file_transfer_completed, on_connected, on_send_clicked,
  on_select_file, on_accept, on_decline, on_cancel, close_event,
}

-- Each row that a file id has is in the table, and no two ids have the same one.
pub record IsRows (n : ℕ) (m : NameMap ℕ) : Type 0 where
  pub inside : (id : Bytes) (i : ℕ) → find id m ≡ some i → i < n
  pub own_row : (a b : Bytes) (i : ℕ) → find a m ≡ some i → find b m ≡ some i → a ≡ b

pub record HasRows (w : ChatWindow) : Type 0 where
  pub rows : IsRows (length w.table) w.transfer_rows

length-change_row :
    (i : ℕ) (f : TransferRow → TransferRow) (rows : List TransferRow)
    → length (change_row i f rows) ≡ length rows
unfolding change_row
length-change_row i f [] = refl
length-change_row zero f (row ∷ rows) = refl
length-change_row (suc i) f (row ∷ rows) = ground (arith, length-change_row i f rows)

pub put-IsRows : (n : ℕ) (id : Bytes) (m : NameMap ℕ) → IsRows n m → IsRows (n + 1) (put id n m)
put-IsRows n id m v = record {
  inside = λ a i e. elim (Bool-cases (bytes_eq id a)) [
    | inl s ↦ ground (arith, find-put id a n m)
    | inr s ↦ ground (arith, find-put id a n m, v.inside a i)
  ];
  own_row = λ a b i p q. elim (Bool-cases (bytes_eq id a)) [
    | inl s ↦ elim (Bool-cases (bytes_eq id b)) [
      | inl t ↦ sym (bytes_eq→eq id a s) ∙ bytes_eq→eq id b t
      | inr t ↦ absurd (ground (arith, find-put id a n m, find-put id b n m, v.inside b i))
    ]
    | inr s ↦ elim (Bool-cases (bytes_eq id b)) [
      | inl t ↦ absurd (ground (arith, find-put id a n m, find-put id b n m, v.inside a i))
      | inr t ↦
          v.own_row a b i (ground (arith, find-put id a n m)) (ground (arith, find-put id b n m))
    ]
  ];
}

keep_option {ℓ} :
    {A : Type ℓ} {w : ChatWindow} {g : A → ChatWindow} (o : Option A)
    → HasRows w
    → ((a : A) → HasRows (g a))
    → HasRows (elim o [ none ↦ w | some a ↦ g a ])
keep_option none x y = x
keep_option (some a) x y = y a

keep_if : {x y : ChatWindow} (b : Bool) → HasRows x → HasRows y → HasRows (if b then x else y)
keep_if true p q = p
keep_if false p q = q

change-HasRows :
    (i : ℕ) (g : TransferRow → TransferRow) (w : ChatWindow)
    → HasRows w
    → HasRows (record w { table = change_row i g w.table })
change-HasRows i g w v = record { rows = rw (length-change_row i g w.table) v.rows }

update-HasRows :
    (id text : Bytes) (w : ChatWindow) → HasRows w → HasRows (update_transfer_status id text w)
unfolding update_transfer_status
update-HasRows id text w v = keep_option (find id w.transfer_rows) v (λ i. change-HasRows i _ w v)

disable-HasRows : (id : Bytes) (w : ChatWindow) → HasRows w → HasRows (disable_buttons id w)
unfolding disable_buttons
disable-HasRows id w v = keep_option (find id w.transfer_rows) v (λ i. change-HasRows i _ w v)

new-HasRows :
    (row : TransferRow) (id : Bytes) (w : ChatWindow)
    → HasRows w
    → HasRows (record w {
      table = w.table ++ (row ∷ []);
      transfer_rows = put id (length w.table) w.transfer_rows;
    })
new-HasRows row id w v = record {
  rows =
      rw (length-append w.table (row ∷ [])) (put-IsRows (length w.table) id w.transfer_rows v.rows);
}

add-HasRows :
    (f : Format) (id name : Bytes) (size : ℕ) (text : Bytes) (incoming : Bool) (w : ChatWindow)
    → HasRows w
    → HasRows (add_transfer_row f id name size text incoming w)
unfolding add_transfer_row
add-HasRows f id name size text incoming w v = elim (Option-cases (find id w.transfer_rows)) [
  | inl e ↦ rw (e, add_transfer_row) (new-HasRows _ id w v)
  | inr (i, e) ↦ rw (e, add_transfer_row) (update-HasRows id text w v)
]

-- What happens to the window: its client goes on to a state with new signals, the user sends, picks
-- a file or presses a button, the connection stands, or the window is closed.
pub data Action : Type 0 where
  client_moves : Client → List Signal → Action
  send : Target → ℕ → Action
  select : Disk → Target → Bytes → Bytes → Bytes → ℕ → Action
  press_accept press_decline : Disk → Bytes → Action
  press_cancel : Bytes → Action
  stands close : Action

module _ (qt : Qt) (f : Format) where
  unfoldable pub act : Action → ChatWindow × Client → ChatWindow × Client
  act (client_moves after signals) (w, c) = (notice_all qt f after signals w, after)
  act (send target epoch) x = on_send_clicked qt f target epoch x
  act (select disk target path id name size) x = on_select_file qt f disk target path id name size x
  act (press_accept disk id) x = on_accept qt f disk id x
  act (press_decline disk id) x = on_decline qt f disk id x
  act (press_cancel id) (w, c) = (on_cancel qt f id w, c)
  act stands x = on_connected qt f x
  act close x = close_event qt f x

  unfoldable pub act_all : List Action → ChatWindow × Client → ChatWindow × Client
  unfolding act
  act_all [] x = x
  act_all (a ∷ actions) x = act_all actions (act a x)

  notice-HasRows :
      (c : Client) (signal : Signal) (w : ChatWindow) → HasRows w → HasRows (notice qt f c signal w)
  unfolding notice on_chat_message_received append_message update_user_list on_file_offer_received
      on_file_offer_response_received on_file_transfer_progress on_file_transfer_completed
  notice-HasRows c connected w v = record { rows = v.rows }
  notice-HasRows c disconnected w v = record { rows = v.rows }
  notice-HasRows c user_list_updated w v = record { rows = v.rows }
  notice-HasRows c (connect_error text) w v = v
  notice-HasRows c (login_response success text) w v = v
  notice-HasRows c (chat_message_received from nick message private to time) w v = record {
    rows = v.rows;
  }
  notice-HasRows c (file_offer_received id name size from nick) w v =
      add-HasRows f id name size _ true w v
  notice-HasRows c (file_offer_response_received id result message) w v = update-HasRows id _ w v
  notice-HasRows c (file_transfer_progress id transferred total incoming) w v =
      keep_if (total == 0) v (update-HasRows id _ w v)
  notice-HasRows c (file_transfer_completed id incoming success message) w v =
      update-HasRows id _ w v

  pub notice_all-HasRows :
      (c : Client) (signals : List Signal) (w : ChatWindow)
      → HasRows w
      → HasRows (notice_all qt f c signals w)
  unfolding notice_all
  notice_all-HasRows c [] w v = v
  notice_all-HasRows c (signal ∷ signals) w v =
      notice_all-HasRows c signals _ (notice-HasRows c signal w v)

  call-HasRows :
      (g : Client → Client) (x : ChatWindow × Client)
      → HasRows x.0
      → HasRows (call_client qt f g x).0
  unfolding call_client
  call-HasRows g (w, c) v = notice_all-HasRows (g c) (drop (length c.signals) (g c).signals) w v

  shown-HasRows :
      (sender message target : Bytes) (time : Option Bytes) (w : ChatWindow)
      → HasRows w
      → HasRows (record (append_message qt f sender message time target w) { input = [] })
  unfolding append_message
  shown-HasRows sender message target time w v = record { rows = v.rows }

  send-HasRows :
      (target : Target) (epoch : ℕ) (w : ChatWindow) (c : Client)
      → HasRows w
      → HasRows (on_send_clicked qt f target epoch (w, c)).0
  unfolding on_send_clicked
  send-HasRows target epoch w c v = elim (Bool-cases (is_connected c)) [
    | inr e ↦ rw (e, on_send_clicked) (record { rows = v.rows })
    | inl e ↦ elim (Bool-cases (is_empty (qt.trimmed w.input))) [
      | inl t ↦ rw (e, t, on_send_clicked) v
      | inr t ↦
          let (to_id, is_group) = chosen qt f target in
          rw (e, t, on_send_clicked)
            (shown-HasRows (if is_empty c.nickname then codes "Me" else c.nickname)
              (qt.trimmed w.input) (if is_group then codes "Group" else to_id) (some f.now) _
              (call-HasRows
                (send_chat_message (if is_group then chat_group else chat_private) to_id
                  (qt.trimmed w.input) epoch)
                (w, c) v))
    ]
  ]

  select-HasRows :
      (disk : Disk) (target : Target) (path id name : Bytes) (size : ℕ) (w : ChatWindow)
      (c : Client)
      → HasRows w
      → HasRows (on_select_file qt f disk target path id name size (w, c)).0
  unfolding on_select_file
  select-HasRows disk target path id name size w c v =
      let (to_id, is_group) = chosen qt f target in
      elim (Bool-cases (is_connected c)) [
        | inr e ↦ rw (e, on_select_file) (record { rows = v.rows })
        | inl e ↦ elim (Bool-cases (is_group || is_empty to_id)) [
          | inl g ↦ rw (e, g, on_select_file) (record { rows = v.rows })
          | inr g ↦ elim (Bool-cases (is_empty path)) [
            | inl t ↦ rw (e, g, t, on_select_file) v
            | inr t ↦
                rw (e, g, t, on_select_file)
                  (add-HasRows f id name size _ false _
                    (call-HasRows (send_file_offer disk id path name size to_id) (w, c) v))
          ]
        ]
      ]

  act-HasRows : (a : Action) (x : ChatWindow × Client) → HasRows x.0 → HasRows (act a x).0
  unfolding act on_send_clicked append_message on_select_file on_accept on_decline on_cancel
      on_connected close_event
  act-HasRows (client_moves after signals) (w, c) v = notice_all-HasRows after signals w v
  act-HasRows (send target epoch) (w, c) v = send-HasRows target epoch w c v
  act-HasRows (select disk target path id name size) (w, c) v =
      select-HasRows disk target path id name size w c v
  act-HasRows (press_accept disk id) (w, c) v = disable-HasRows id _ (
      update-HasRows id _ _ (
        call-HasRows
          (send_file_offer_response qt disk id (offer_code file_offer_accept) (codes "Accepted"))
          (w, c) v))
  act-HasRows (press_decline disk id) (w, c) v = disable-HasRows id _ (
      update-HasRows id _ _ (
        call-HasRows
          (send_file_offer_response qt disk id (offer_code file_offer_decline) (codes "Declined"))
          (w, c) v))
  act-HasRows (press_cancel id) (w, c) v = disable-HasRows id _ (update-HasRows id _ w v)
  act-HasRows stands (w, c) v =
      call-HasRows request_user_list (record w { status = codes "Connected" }, c)
        (record { rows = v.rows })
  act-HasRows close (w, c) v = record { rows = (call-HasRows disconnect_from_server (w, c) v).rows }

  -- Whatever happens to a chat window and its client, in any order, this is kept: each file id that
  -- has a row has one that is in the table, and no two ids have the same row.
  pub act_all-HasRows :
      (actions : List Action) (x : ChatWindow × Client)
      → HasRows x.0
      → HasRows (act_all actions x).0
  unfolding act_all
  act_all-HasRows [] x v = v
  act_all-HasRows (a ∷ actions) x v = act_all-HasRows actions (act a x) (act-HasRows a x v)
