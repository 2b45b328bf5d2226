-- ===== src/ChatWindow.antt =====
-- `ChatWindow` of client/ui/chatwindow.cpp: what the window shows, and what it asks of the client.
-- Each slot is a function on the window, with the client beside it where the slot calls it. Sizes
-- of widgets, palettes and headers are left out.
pub mod Slots
pub mod Rows
pub mod Accept
use qt_linux_im_project.Base.{
  ℕ, zero, suc, ◌+◌, ◌*◌, ◌^◌, ◌==◌, leb, Bool, true, false, not, ◌&&◌, ◌||◌, List, [], ◌∷◌, ◌++◌,
  Bytes, Option, none, some, if◌then◌else◌, codes, is_empty, bytes_eq, length,
}
use qt_linux_im_project.Base.NameMap.{NameMap, find, put}

-- Qt's texts: `arg` with several texts, `QString::number` of a size that was divided by 1024 so
-- many times, with a precision, and of a percentage, and the time of day of a number of seconds,
-- where that is a valid date, and of the present.
pub record Format : Type 0 where
  pub arg2 : Bytes → Bytes → Bytes → Bytes
  pub arg3 : Bytes → Bytes → Bytes → Bytes → Bytes
  pub arg4 : Bytes → Bytes → Bytes → Bytes → Bytes → Bytes
  pub divided : ℕ → ℕ → ℕ → Bytes
  pub percent : ℕ → ℕ → Bytes
  pub time_of : ℕ → Option Bytes
  pub now : Bytes

-- The buttons of a row, and whether they are enabled.
pub data Buttons : Type 0 where
  accept_decline : Bool → Buttons
  cancel : Bool → Buttons

pub record TransferRow : Type 0 where
  pub file : Bytes
  pub size : Bytes
  pub status : Bytes
  pub buttons : Buttons

-- The label of the connection, the entries of `combo_target` with their data, `list_online`, the
-- lines of the browser, the input, the table, `transferRows_`, the warnings that were shown, and
-- whether `windowClosed` was emitted.
pub record ChatWindow : Type 0 where
  pub status : Bytes
  pub targets : List (Bytes × Bytes)
  pub list_online : List Bytes
  pub messages : List Bytes
  pub input : Bytes
  pub table : List TransferRow
  pub transfer_rows : NameMap ℕ
  pub warnings : List Bytes
  pub window_closed : Bool

-- The entry of the combo box that is selected or typed: its data and its text.
pub record Target : Type 0 where
  pub current_data : Bytes
  pub current_text : Bytes

abbrev pub group_label : Bytes
group_label = codes "Group (All)"

abbrev pub warn : Bytes → ChatWindow → ChatWindow
warn text w = record w { warnings = w.warnings ++ (text ∷ []) }

-- The loop of `formatSize`, with the units that are left. The value is the size divided by a power
-- of 1024, which rounding to a double does not move across 1024.
unfoldable pub unit_from : ℕ → ℕ → ℕ → ℕ
unit_from zero unit size = unit
unit_from (suc left) unit size =
    let next = unit_from left (unit + 1) size in if leb (1024 ^ (unit + 1)) size then next else unit

abbrev pub unit_name : ℕ → Bytes
unit_name unit =
    if unit == 0
    then codes " B"
    else if unit == 1
    then codes " KB"
    else if unit == 2
    then codes " MB"
    else codes " GB"

unfoldable pub format_size : Format → ℕ → Bytes
unfolding unit_from
format_size f size =
    let unit = unit_from 3 0 size in
    f.divided size unit (if unit == 0 then 0 else 1) ++ unit_name unit

-- What `setItem` and `setText` do to a row; there is none behind the table's end.
unfoldable pub change_row : ℕ → (TransferRow → TransferRow) → List TransferRow → List TransferRow
change_row i f [] = []
change_row zero f (row ∷ rows) = f row ∷ rows
change_row (suc i) f (row ∷ rows) = row ∷ change_row i f rows

abbrev pub set_row_status : Bytes → TransferRow → TransferRow
set_row_status text row = record row { status = text }

unfoldable pub update_transfer_status : Bytes → Bytes → ChatWindow → ChatWindow
unfolding change_row
update_transfer_status file_id text w = elim (find file_id w.transfer_rows) [
  | none ↦ w
  | some row ↦ record w { table = change_row row (set_row_status text) w.table }
]

unfoldable pub add_transfer_row :
    Format → Bytes → Bytes → ℕ → Bytes → Bool → ChatWindow → ChatWindow
unfolding update_transfer_status format_size
add_transfer_row f file_id name size text incoming w = elim (find file_id w.transfer_rows) [
  | some row ↦ update_transfer_status file_id text w
  | none ↦ record w {
    table =
        w.table
        ++ (record {
          file = name;
          size = format_size f size;
          status = text;
          buttons = if incoming then accept_decline true else cancel true;
        }
            ∷ []);
    transfer_rows = put file_id (length w.table) w.transfer_rows;
  }
]

-- `setEnabled(false)` on the buttons of the row that was made for the file.
abbrev pub disable : TransferRow → TransferRow
disable row = record row {
  buttons = elim row.buttons [
    | accept_decline on ↦ accept_decline false
    | cancel on ↦ cancel false
  ];
}

unfoldable pub disable_buttons : Bytes → ChatWindow → ChatWindow
unfolding change_row
disable_buttons file_id w = elim (find file_id w.transfer_rows) [
  | none ↦ w
  | some row ↦ record w { table = change_row row disable w.table }
]
