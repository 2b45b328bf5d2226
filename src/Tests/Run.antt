-- ===== src/Tests/Run.antt =====
-- The server from its start to its end, and the reactor, on answers of a kernel.
use qt_linux_im_project.Base.{
  ℕ, suc, ◌+◌, ◌≤◌, ◌≡◌, refl, true, false, List, [], ◌∷◌, none, some, arith, inl, inr,
  if◌then◌else◌,
}
use qt_linux_im_project.Base.FdMap.{FdMap, lookup, insert, erase, lookup-insert, lookup-erase}
use qt_linux_im_project.Clients.{Clients, has_client, is_some}
use qt_linux_im_project.Reactor.{Events, EpollEvents, to_epoll_events}
use qt_linux_im_project.Reactor.Epoll.{Epoll, IsEpoll}
use qt_linux_im_project.Reactor.Handlers.{
  Reactor, Operation, register, modify_events, remove, operate_all,
}
use qt_linux_im_project.Reactor.Agrees.{Agrees, Covers, operate_all-Agrees, operate_all-Covers}
use qt_linux_im_project.Reactor.Poll.{wait_interrupted, ready}
use qt_linux_im_project.Server.Connection.{Connection, new_connection, pending}
use qt_linux_im_project.Server.State.{Server}
use qt_linux_im_project.Server.Send.Effect.{has_handler}
use qt_linux_im_project.Server.Disconnect.{process_pending_disconnects}
use qt_linux_im_project.Server.Disconnect.Pending.{has, onto}
use qt_linux_im_project.Server.Invariant.{IsServer, IsHandler}
use qt_linux_im_project.Server.Invariant.Reachable.{started}
use qt_linux_im_project.Server.Invariant.Stale.{Closing, process_pending_disconnects-stale}
use qt_linux_im_project.Server.Run.{accepted, accept_would_block, Round, run}
use qt_linux_im_project.Server.Run.Reaches.{IsPick}
use qt_linux_im_project.Server.Run.Stops.{at_end, run-stops}
use qt_linux_im_project.Server.Start.{
  Role, listening, client, Listener, SocketAnswers, event_read, start, end_run, destroy,
}
use qt_linux_im_project.Server.Start.Listens.{Gone, Starts, start-Starts, destroy-end_run}
use qt_linux_im_project.Clients.{get_all_fds}
use qt_linux_im_project.Tests.Data.{home, replies, two_online}
use qt_linux_im_project.Tests.Data.Valid.{two_online-IsServer, new_connection-IsHandler}

-- A descriptor above all that are in use.
abbrev next_fd : Clients → ℕ
next_fd [] = 0
next_fd ((fd, info) ∷ m) = suc fd + next_fd m

lookup-above : (j : ℕ) (m : Clients) → next_fd m ≤ j → lookup j m ≡ none
unfolding lookup
lookup-above j [] h = refl
lookup-above j ((fd, info) ∷ m) h = ground (arith, lookup-above j m)

next_fd-IsPick : IsPick next_fd
unfolding has_client
next_fd-IsPick m = ground (arith, lookup-above (next_fd m) m)

abbrev readable : EpollEvents
readable = to_epoll_events event_read

-- A connection is accepted, then its peer closes it, and then the server is stopped.
abbrev rounds : List Round
rounds =
    record {
      heartbeats = [];
      stopped = false;
      waits =
          wait_interrupted
          ∷ ready (
              record {
                fd = 3;
                events = readable;
                answers = record {
                  accepts =
                      accepted home 4000 0
                        (record { non_blocking = true; registered = true; replies = replies })
                      ∷ accept_would_block
                      ∷ [];
                  reads = [];
                };
              }
              ∷ [])
          ∷ [];
    }
    ∷ record { heartbeats = 7 ∷ []; stopped = true; waits = [] }
    ∷ []

run-stops_example :
    IsServer (at_end 3 next_fd rounds)
    × ((run 3 next_fd rounds started).clients ≡ [])
    × ((run 3 next_fd rounds started).handlers ≡ [])
    × ((run 3 next_fd rounds started).closed
        ≡ onto (get_all_fds (at_end 3 next_fd rounds).clients) (at_end 3 next_fd rounds).closed)
run-stops_example = run-stops 3 next_fd rounds next_fd-IsPick

-- Descriptors 5 and 6 are closing and have asked for their disconnects.
abbrev closing_connection : ℕ → Connection
closing_connection fd = record (new_connection fd replies) { closing = true }

abbrev two_closing : Server
two_closing = record two_online {
  handlers =
      (5, closing_connection 5) ∷ (6, closing_connection 6) ∷ (7, new_connection 7 replies) ∷ [];
  pending_disconnects = 5 ∷ 6 ∷ [];
}

closing-IsHandler : (fd : ℕ) → IsHandler (fd, closing_connection fd)
unfolding new_connection pending
closing-IsHandler fd = (record { inside = omega arith }, inr (inl refl), refl)

two_closing-IsServer : IsServer two_closing
unfolding has_handler has_client lookup
two_closing-IsServer = record {
  table = two_online-IsServer.table;
  own = two_online-IsServer.own;
  handlers = (closing-IsHandler 5, (closing-IsHandler 6, (new_connection-IsHandler 7, tt)));
  paired = λ fd. ground arith;
}

six-Closing : Closing 6 two_closing
unfolding lookup new_connection
six-Closing = (closing_connection 6, refl, refl)

process_pending_disconnects-stale_example :
    (has 6 (process_pending_disconnects two_closing).pending_disconnects ≡ true)
    × (lookup 6 (process_pending_disconnects two_closing).clients ≡ none)
    × ((process_pending_disconnects two_closing).closed ≡ 6 ∷ 5 ∷ [])
unfolding lookup
process_pending_disconnects-stale_example =
    process_pending_disconnects-stale 5 6 two_closing two_closing-IsServer refl refl (omega arith)
      refl six-Closing

-- A kernel that takes every call that the manual lets it take.
abbrev map_epoll : Epoll
map_epoll = record {
  Kernel = FdMap EpollEvents;
  watched = lookup;
  ctl_add = λ fd ev k. if is_some (lookup fd k) then (k, false) else (insert fd ev k, true);
  ctl_mod = λ fd ev k. if is_some (lookup fd k) then (insert fd ev k, true) else (k, false);
  ctl_del = λ fd k. (erase fd k, is_some (lookup fd k));
}

map_epoll-IsEpoll : IsEpoll map_epoll
map_epoll-IsEpoll = record {
  adds = λ fd j ev k. ground (arith, lookup-insert fd j ev k);
  modifies = λ fd j ev k. ground (arith, lookup-insert fd j ev k);
  deletes = λ fd j k. lookup-erase fd j k;
}

abbrev both : Events
both = record { event_read = true; event_write = true; event_error = false; event_hup = false }

abbrev new_reactor : Reactor map_epoll Role
new_reactor = record { epoll = record { created = true; kernel = [] }; handlers = [] }

abbrev operations : List (Operation Role)
operations =
    register 3 listening event_read
    ∷ register 5 client event_read
    ∷ modify_events 5 both
    ∷ register 5 client event_read
    ∷ remove 3
    ∷ []

new_reactor-Agrees : Agrees map_epoll map_epoll-IsEpoll Role new_reactor
new_reactor-Agrees = record { created = refl; same = λ j. unfold lookup in refl }

operate_all-Agrees_example :
    Agrees map_epoll map_epoll-IsEpoll Role (operate_all map_epoll Role operations new_reactor).0
unfolding operate_all lookup insert
operate_all-Agrees_example =
    operate_all-Agrees map_epoll map_epoll-IsEpoll Role operations new_reactor new_reactor-Agrees
      refl

new_reactor-Covers : Covers map_epoll map_epoll-IsEpoll Role new_reactor
new_reactor-Covers = record { created = refl; same = λ j. unfold lookup in refl }

-- The last two calls name descriptors without a handler.
abbrev unknown_calls : List (Operation Role)
unknown_calls = register 3 listening event_read ∷ modify_events 8 both ∷ remove 9 ∷ []

operate_all-Covers_example :
    Covers map_epoll map_epoll-IsEpoll Role (operate_all map_epoll Role unknown_calls new_reactor).0
operate_all-Covers_example =
    operate_all-Covers map_epoll map_epoll-IsEpoll Role unknown_calls new_reactor new_reactor-Covers

abbrev before : Listener map_epoll
before = record { listen_fd = none; closed = []; reactor = none; initialized = false }

abbrev all_well : SocketAnswers
all_well = record {
  set_option = true;
  parsed_ip = true;
  bound = true;
  listens = true;
  got_flags = true;
  set_flags = true;
}

start-Starts_example :
    Starts map_epoll
      (some 3)
      before
      (start map_epoll home (some 3) all_well true [] new_reactor before)
start-Starts_example = start-Starts map_epoll home (some 3) all_well true [] new_reactor before

destroy-end_run_example : Gone map_epoll (some 3) before (
    destroy map_epoll
      (end_run map_epoll (start map_epoll home (some 3) all_well true [] new_reactor before).0))
destroy-end_run_example =
    destroy-end_run map_epoll home (some 3) all_well true [] new_reactor before
