-- ===== src/ChatWindow/Accept.antt =====
-- What the window shows of an offer that could not be accepted, and the units of sizes.
use qt_linux_im_project.Base.{
  ℕ, zero, suc, ◌+◌, ◌^◌, ◌<◌, ◌≤◌, ◌≡◌, List, [], ◌∷◌, Bytes, Option, none, some, arith, ◌⊎◌,
}
use qt_linux_im_project.ChatWindow.{ChatWindow, TransferRow, unit_from}

-- The unit that a size is shown in: the value is at least 1 in it, unless the unit is bytes, and
-- below 1024, unless it is gigabytes.
pub unit_from-fits :
    (size : ℕ)
    → ((unit_from 3 0 size ≡ 0) ⊎ (1024 ^ unit_from 3 0 size ≤ size))
      × ((unit_from 3 0 size ≡ 3) ⊎ (size < 1024 ^ (unit_from 3 0 size + 1)))
unfolding unit_from
unit_from-fits size = ground arith

abbrev pub status_at : ℕ → List TransferRow → Option Bytes
status_at i [] = none
status_at zero (row ∷ rows) = some row.status
status_at (suc i) (row ∷ rows) = status_at i rows
