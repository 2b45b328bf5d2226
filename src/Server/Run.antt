-- ===== src/Server/Run.antt =====
-- `Server::run` of server/src/server.cpp with `ListenHandler::handleRead`, and the rounds of
-- `Reactor::poll` on the server's handlers. A round of the loop comes with what the kernel answers
-- in it, and with what the heartbeat thread and the signals do before it.
pub mod Reaches
pub mod Stops
use qt_linux_im_project.Base.{
  ℕ, Bool, true, false, not, ◌&&◌, ◌||◌, ◌==◌, List, [], ◌∷◌, Bytes, Option, none, some,
  if◌then◌else◌,
}
use qt_linux_im_project.Base.FdMap.{lookup}
use qt_linux_im_project.Clients.{Clients, is_some}
use qt_linux_im_project.Reactor.{EpollEvents, Events, from_epoll_events}
use qt_linux_im_project.Reactor.Poll.{Ready, WaitReply, poll}
use qt_linux_im_project.Server.State.{Server}
use qt_linux_im_project.Server.Disconnect.{
  Accepted, register_client, process_pending_disconnects, cleanup_all_clients,
}
use qt_linux_im_project.Server.Dispatch.{
  RecvReply, handle_read, on_write, on_error, heartbeat_round,
}

-- What the kernel answers to `accept`: a new connection with its peer's address and the clock, or
-- an error.
pub data AcceptReply : Type 0 where
  accepted : Bytes → ℕ → ℕ → Accepted → AcceptReply
  accept_interrupted accept_would_block accept_failed : AcceptReply

-- The answers to the calls that a callback makes.
pub record Replies : Type 0 where
  pub accepts : List AcceptReply
  pub reads : List RecvReply

-- The listening socket's descriptor.
module _ (listen_fd : ℕ) where
  -- `Reactor::findHandler`: the listening handler, or a client's.
  unfoldable pub finds : ℕ → Server → Bool
  finds fd s = fd == listen_fd || is_some (lookup fd s.handlers)

  -- The listening handler does nothing on these events.
  unfoldable pub writes_on : ℕ → Replies → Server → Server
  writes_on fd r s = if fd == listen_fd then s else on_write fd s

  unfoldable pub errs_on : ℕ → Replies → Server → Server
  errs_on fd r s = if fd == listen_fd then s else on_error fd s

-- The listening socket's descriptor, and the descriptor that `accept` picks for a new connection.
module _ (listen_fd : ℕ) (pick : Clients → ℕ) where
  -- Where the answers end, nobody else is waiting to be accepted.
  unfoldable pub accept_loop : List AcceptReply → Server → Server
  accept_loop [] s = s
  accept_loop (accepted ip port now a ∷ rs) s =
      accept_loop rs (register_client (pick s.clients) ip port now a s).0
  accept_loop (accept_interrupted ∷ rs) s = accept_loop rs s
  accept_loop (accept_would_block ∷ rs) s = s
  accept_loop (accept_failed ∷ rs) s = s

  unfoldable pub reads_on : ℕ → Replies → Server → Server
  unfolding accept_loop
  reads_on fd r s = if fd == listen_fd then accept_loop r.accepts s else handle_read fd r.reads s

  unfoldable pub poll_server : List (WaitReply Replies) → Server → Server × Bool
  unfolding finds reads_on writes_on errs_on
  poll_server rs s = poll (finds listen_fd) reads_on (writes_on listen_fd) (errs_on listen_fd) rs s

-- What comes between two rounds from outside, and the answers of the round.
pub record Round : Type 0 where
  pub heartbeats : List ℕ
  pub stopped : Bool
  pub waits : List (WaitReply Replies)

unfoldable pub heartbeat_rounds : List ℕ → Server → Server
heartbeat_rounds [] s = s
heartbeat_rounds (now ∷ nows) s = heartbeat_rounds nows (heartbeat_round now s)

-- `stop()` by a signal.
unfoldable pub stop_server : Bool → Server → Server
stop_server stopped s = if stopped then record s { running = false } else s

-- What happens outside before a round.
unfoldable pub outside : Round → Server → Server
unfolding heartbeat_rounds stop_server
outside r s = stop_server r.stopped (heartbeat_rounds r.heartbeats s)

module _ (listen_fd : ℕ) (pick : Clients → ℕ) where
  -- The body of the loop, and whether it goes on.
  unfoldable pub one_round : Round → Server → Server × Bool
  unfolding poll_server
  one_round r s =
      let (polled, ready) = poll_server listen_fd pick r.waits (process_pending_disconnects s) in
      if ready then (process_pending_disconnects polled, true) else (polled, false)

  -- The loop on the rounds to come; behind the last one the server is stopped.
  unfoldable pub run_loop : List Round → Server → Server
  unfolding outside one_round
  run_loop [] s = s
  run_loop (r ∷ rs) s =
      let before = outside r s in
      let (after, goes_on) = one_round r before in
      let rest = run_loop rs after in
      if before.running then (if goes_on then rest else after) else before

  unfoldable pub run : List Round → Server → Server
  unfolding run_loop
  run rs s =
      cleanup_all_clients (record (run_loop rs (record s { running = true })) { running = false })
