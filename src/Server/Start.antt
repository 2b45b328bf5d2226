-- ===== src/Server/Start.antt =====
-- `initListenSocket`, `setNonBlocking` and `start` of server/src/server.cpp, and what `run` and the
-- destructor do with the listening socket at the end.
pub mod Listens
use qt_linux_im_project.Base.{
  ℕ, Bool, true, false, not, List, [], ◌∷◌, Bytes, Option, none, some, if◌then◌else◌, ◌==◌, codes,
  bytes_eq, ◌&&◌,
}
use qt_linux_im_project.Reactor.{Events}
use qt_linux_im_project.Reactor.Epoll.{Epoll}
use qt_linux_im_project.Reactor.Handlers.{Reactor, init, register_handler}

-- The handlers that the reactor has.
pub data Role : Type 0 where
  listening : Role
  client : Role

-- `listenFd_`, where `none` is -1, the descriptors that were closed, the last one first, `reactor_`,
-- and whether `clientMgr_` and `protocol_` are set.
pub record Listener (E : Epoll) : Type 0 where
  pub listen_fd : Option ℕ
  pub closed : List ℕ
  pub reactor : Option (Reactor E Role)
  pub initialized : Bool

-- Whether each call on the new socket succeeds.
pub record SocketAnswers : Type 0 where
  pub set_option : Bool
  pub parsed_ip : Bool
  pub bound : Bool
  pub listens : Bool
  pub got_flags : Bool
  pub set_flags : Bool

unfoldable pub set_non_blocking : Bool → Bool → Bool
set_non_blocking got set = if not got then false else if not set then false else true

abbrev pub event_read : Events
event_read = record {
  event_read = true;
  event_write = false;
  event_error = false;
  event_hup = false;
}

module _ (E : Epoll) where
  -- `close(listenFd_); listenFd_ = -1;` where there is one.
  unfoldable pub close_listen : Listener E → Listener E
  close_listen s = elim s.listen_fd [
    | none ↦ s
    | some fd ↦ record s { listen_fd = none; closed = fd ∷ s.closed }
  ]

  -- `initListenSocket` with what `socket` answers.
  unfoldable pub init_listen_socket :
      Bytes → Option ℕ → SocketAnswers → Listener E → Listener E × Bool
  unfolding close_listen set_non_blocking
  init_listen_socket ip none a s = (record s { listen_fd = none }, false)
  init_listen_socket ip (some fd) a s =
      let opened : Listener E = record s { listen_fd = some fd } in
      let failed : Listener E × Bool = (close_listen opened, false) in
      if not a.set_option
      then failed
      else if not (bytes_eq ip (codes "0.0.0.0")) && not a.parsed_ip
      then failed
      else if not a.bound
      then failed
      else if not a.listens
      then failed
      else if not (set_non_blocking a.got_flags a.set_flags)
      then failed
      else (opened, true)

  -- `fresh` is the epoll instance that the kernel makes, and `empty` the reactor before `init`.
  unfoldable pub watch_listen :
      Bool → E.Kernel → Reactor E Role → ℕ → Listener E → Listener E × Bool
  unfolding close_listen
  watch_listen created fresh empty fd s =
      let (made, ready) = init E Role created fresh empty in
      let (watching, registered) = register_handler E Role fd listening event_read made in
      if not ready
      then (close_listen (record s { reactor = some made }), false)
      else if not registered
      then (close_listen (record s { reactor = some watching; initialized = true }), false)
      else (record s { reactor = some watching; initialized = true }, true)

  -- What follows `initListenSocket`.
  unfoldable pub watch_opened :
      Bool → E.Kernel → Reactor E Role → Listener E × Bool → Listener E × Bool
  unfolding watch_listen
  watch_opened created fresh empty (opened, ok) =
      if not ok then (opened, false) else elim opened.listen_fd [
        | none ↦ (opened, false)
        | some fd ↦ watch_listen created fresh empty fd opened
      ]

  unfoldable pub start :
      Bytes
      → Option ℕ
      → SocketAnswers
      → Bool
      → E.Kernel
      → Reactor E Role
      → Listener E
      → Listener E × Bool
  unfolding init_listen_socket watch_opened
  start ip socket a created fresh empty s =
      watch_opened created fresh empty (init_listen_socket ip socket a s)

  -- The test at the start of `run`.
  unfoldable pub is_initialized : Listener E → Bool
  is_initialized s = elim s.reactor [ none ↦ false | some r ↦ s.initialized ]

  -- What follows the loop of `run`.
  unfoldable pub end_run : Listener E → Listener E
  unfolding close_listen is_initialized
  end_run s = if is_initialized s then record (close_listen s) { reactor = none } else s

  -- The destructor closes the socket that is left.
  unfoldable pub destroy : Listener E → Listener E
  unfolding close_listen
  destroy s = close_listen s
