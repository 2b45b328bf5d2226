-- ===== src/Tests/Reachability.antt =====
-- A connection, a login in two pieces, an output event, a round of the heartbeat thread 20 seconds
-- later, and the disconnect that it asked for.
use qt_linux_im_project.Base.{ℕ, ◌≡◌, refl, true, false, List, [], ◌∷◌, Bytes, codes, take, drop}
use qt_linux_im_project.Clients.{has_client}
use qt_linux_im_project.Protocol.Client.Pack.{pack_login_request}
use qt_linux_im_project.Server.State.{Server}
use qt_linux_im_project.Server.Disconnect.{Accepted, register_client, process_pending_disconnects}
use qt_linux_im_project.Server.Dispatch.{
  RecvReply, received, read_would_block, handle_read, on_write, heartbeat_round,
}
use qt_linux_im_project.Server.Invariant.{IsServer}
use qt_linux_im_project.Server.Invariant.Reachable.{
  here, next, connect, readable, writable, heartbeat, disconnect, started, Reach-started,
}
use qt_linux_im_project.Tests.Data.{home, clock, replies}

abbrev accepted : Accepted
accepted = record { non_blocking = true; registered = true; replies = replies }

abbrev login_pieces : List RecvReply
login_pieces =
    received clock (take 50 (pack_login_request 1 (codes "a") (codes "Alice")))
    ∷ received clock (drop 50 (pack_login_request 1 (codes "a") (codes "Alice")))
    ∷ read_would_block
    ∷ []

abbrev connected : Server
connected = (register_client 5 home 4000 0 accepted started).0

abbrev logged_in : Server
logged_in = on_write 5 (handle_read 5 login_pieces connected)

abbrev at_end : Server
at_end = process_pending_disconnects (heartbeat_round 20_000_000_000 logged_in)

nobody_yet : has_client 5 started.clients ≡ false
unfolding has_client qt_linux_im_project.Base.FdMap.lookup
nobody_yet = refl

Reach-started_example : IsServer at_end
Reach-started_example = Reach-started (
    next
      (next
        (next
          (next (next here (connect 5 home 4000 0 accepted nobody_yet refl))
            (readable 5 login_pieces refl))
          (writable 5 refl))
        (heartbeat 20_000_000_000 refl))
      (disconnect refl))
