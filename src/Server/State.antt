-- ===== src/Server/State.antt =====
-- The members of `Server` that its handlers change (server/src/server.h). The pointers `reactor_`,
-- `clientMgr_` and `protocol_` are set by `start`, so the tests for null are passed.
use qt_linux_im_project.Base.{ℕ, Bool, List, [], ◌∷◌, ◌++◌, Bytes, Option}
use qt_linux_im_project.Base.FdMap.{FdMap}
use qt_linux_im_project.Base.NameMap.{NameMap}
use qt_linux_im_project.Clients.{Clients}
use qt_linux_im_project.Server.Connection.{Connection}

-- `none` is the descriptor -1.
pub record FileSession : Type 0 where
  pub sender_fd : Option ℕ
  pub receiver_fd : Option ℕ

-- `closed` lists the descriptors that were closed, the last one first.
pub record Server : Type 0 where
  pub running : Bool
  pub clients : Clients
  pub recv_buffers : FdMap Bytes
  pub handlers : FdMap Connection
  pub pending_disconnects : List ℕ
  pub file_sessions : NameMap FileSession
  pub closed : List ℕ

-- What the clocks show while a message is handled: the steady clock in nanoseconds, and the
-- seconds since the epoch.
pub record Clock : Type 0 where
  pub steady : ℕ
  pub epoch_seconds : ℕ

unfoldable pub queue_disconnect : ℕ → Server → Server
queue_disconnect fd s = record s { pending_disconnects = s.pending_disconnects ++ fd ∷ [] }
