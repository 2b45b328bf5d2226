-- ===== src/Server/Run/Reaches.antt =====
-- The rounds of `run` are made of the steps of a running server.
use qt_linux_im_project.Base.{ℕ, ◌≡◌, refl, Bool, false, ◌==◌, List, [], ◌∷◌}
use qt_linux_im_project.Clients.{Clients, has_client}
use qt_linux_im_project.Reactor.Poll.{poll-keeps, WaitReply}
use qt_linux_im_project.Server.State.{Server}
use qt_linux_im_project.Server.Disconnect.{process_pending_disconnects}
use qt_linux_im_project.Server.Invariant.{if_both, first_both}
use qt_linux_im_project.Server.Invariant.Reachable.{
  Reach, next, connect, readable, writable, failing, heartbeat, disconnect, stop,
}
use qt_linux_im_project.Server.Run.{
  AcceptReply, accepted, accept_interrupted, accept_would_block, accept_failed, Replies, Round,
  accept_loop, finds, reads_on, writes_on, errs_on, poll_server, heartbeat_rounds, stop_server,
  outside, one_round, run_loop,
}

-- `accept` picks a descriptor that is not in use.
abbrev pub IsPick : (Clients → ℕ) → Type 0
IsPick pick = (m : Clients) → has_client (pick m) m ≡ false

module _ (s0 : Server) where
  heartbeat_rounds-Reach :
      (nows : List ℕ) (s : Server) → Reach s0 s → Reach s0 (heartbeat_rounds nows s)
  unfolding heartbeat_rounds
  heartbeat_rounds-Reach [] s r = r
  heartbeat_rounds-Reach (now ∷ nows) s r =
      heartbeat_rounds-Reach nows _ (next r (heartbeat now refl))

  stop_server-Reach : (b : Bool) (s : Server) → Reach s0 s → Reach s0 (stop_server b s)
  unfolding stop_server
  stop_server-Reach b s r = if_both (Reach s0) b (next r (stop refl)) r

  module _ (listen_fd : ℕ) (pick : Clients → ℕ) (fresh : IsPick pick) where
    accept_loop-Reach :
        (rs : List AcceptReply) (s : Server)
        → Reach s0 s
        → Reach s0 (accept_loop listen_fd pick rs s)
    unfolding accept_loop
    accept_loop-Reach [] s r = r
    accept_loop-Reach (accepted ip port now a ∷ rs) s r =
        accept_loop-Reach rs _
          (next r (connect (pick s.clients) ip port now a (fresh s.clients) refl))
    accept_loop-Reach (accept_interrupted ∷ rs) s r = accept_loop-Reach rs s r
    accept_loop-Reach (accept_would_block ∷ rs) s r = r
    accept_loop-Reach (accept_failed ∷ rs) s r = r

    poll_server-Reach :
        (ws : List (WaitReply Replies)) (s : Server)
        → Reach s0 s
        → Reach s0 (poll_server listen_fd pick ws s).0
    unfolding poll_server reads_on writes_on errs_on
    poll_server-Reach ws s r =
        poll-keeps (finds listen_fd) (reads_on listen_fd pick) (writes_on listen_fd)
          (errs_on listen_fd) (Reach s0)
          (λ fd a t q.
            if_both (Reach s0) (fd == listen_fd) (accept_loop-Reach a.accepts t q)
              (next q (readable fd a.reads refl)))
          (λ fd a t q. if_both (Reach s0) (fd == listen_fd) q (next q (writable fd refl)))
          (λ fd a t q. if_both (Reach s0) (fd == listen_fd) q (next q (failing fd refl))) ws s r

    outside-Reach : (r : Round) (s : Server) → Reach s0 s → Reach s0 (outside r s)
    unfolding outside
    outside-Reach r s q = stop_server-Reach r.stopped _ (heartbeat_rounds-Reach r.heartbeats s q)

    one_round-Reach :
        (r : Round) (s : Server) → Reach s0 s → Reach s0 (one_round listen_fd pick r s).0
    unfolding one_round
    one_round-Reach r s q =
        let polled =
          poll_server-Reach r.waits (process_pending_disconnects s) (next q (disconnect refl)) in
        first_both (Reach s0) (poll_server listen_fd pick r.waits (process_pending_disconnects s)).1
          _ _ (next polled (disconnect refl)) polled

    pub run_loop-Reach :
        (rs : List Round) (s : Server) → Reach s0 s → Reach s0 (run_loop listen_fd pick rs s)
    unfolding run_loop
    run_loop-Reach [] s q = q
    run_loop-Reach (r ∷ rs) s q =
        let b = outside-Reach r s q in
        let a = one_round-Reach r (outside r s) b in
        if_both (Reach s0) (outside r s).running
          (if_both (Reach s0) (one_round listen_fd pick r (outside r s)).1 (run_loop-Reach rs _ a)
            a)
          b
