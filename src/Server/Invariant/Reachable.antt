-- ===== src/Server/Invariant/Reachable.antt =====
-- All that can happen to a running server, one step after the other.
use qt_linux_im_project.Base.{ℕ, ◌≡◌, refl, ap, true, false, List, [], Bytes, arith}
use qt_linux_im_project.Base.FdMap.{lookup}
use qt_linux_im_project.Clients.{has_client, get_online_count}
use qt_linux_im_project.Clients.Unique.{online_with}
use qt_linux_im_project.Server.State.{Server}
use qt_linux_im_project.Server.Send.Effect.{has_handler}
use qt_linux_im_project.Server.Disconnect.{Accepted, register_client, process_pending_disconnects}
use qt_linux_im_project.Server.Dispatch.{
  RecvReply, handle_read, on_write, on_error, heartbeat_round,
}
use qt_linux_im_project.Server.Invariant.{IsServer, sessions-IsServer}
use qt_linux_im_project.Server.Invariant.Connections.{
  register_client-IsServer, handle_read-IsServer, on_write-IsServer, on_error-IsServer,
  process_pending-IsServer, heartbeat_round-IsServer,
}

-- After `start`, in `run`.
abbrev pub started : Server
started = record {
  running = true;
  clients = [];
  recv_buffers = [];
  handlers = [];
  pending_disconnects = [];
  file_sessions = [];
  closed = [];
}

-- One callback of the reactor, one pass over the pending disconnects, one round of the heartbeat
-- thread, or the stop by a signal. `accept` gives no descriptor that is in use.
pub data Step : Server → Server → Type 0 where
  connect :
      {s t : Server} (fd : ℕ) (ip : Bytes) (port now : ℕ) (a : Accepted)
      → has_client fd s.clients ≡ false
      → t ≡ (register_client fd ip port now a s).0
      → Step s t
  readable : {s t : Server} (fd : ℕ) (rs : List RecvReply) → t ≡ handle_read fd rs s → Step s t
  writable : {s t : Server} (fd : ℕ) → t ≡ on_write fd s → Step s t
  failing : {s t : Server} (fd : ℕ) → t ≡ on_error fd s → Step s t
  heartbeat : {s t : Server} (now : ℕ) → t ≡ heartbeat_round now s → Step s t
  disconnect : {s t : Server} → t ≡ process_pending_disconnects s → Step s t
  stop : {s t : Server} → t ≡ record s { running = false } → Step s t

pub data Reach (s : Server) : Server → Type 0 where
  here : Reach s s
  next : {t u : Server} → Reach s t → Step t u → Reach s u

started-IsServer : IsServer started
unfolding has_handler has_client lookup online_with get_online_count
started-IsServer = record {
  table = record {
    sorted = tt;
    one_id = λ id. omega arith;
    one_nickname = λ nick. omega arith;
    room = omega arith;
  };
  own = tt;
  handlers = tt;
  paired = λ fd. refl;
}

pub Step-IsServer : {s t : Server} → Step s t → IsServer s → IsServer t
Step-IsServer {s} (connect fd ip port now a h e) v =
    rw e (register_client-IsServer fd ip port now a s h v)
Step-IsServer {s} (readable fd rs e) v = rw e (handle_read-IsServer fd rs s v)
Step-IsServer {s} (writable fd e) v = rw e (on_write-IsServer fd s v)
Step-IsServer {s} (failing fd e) v = rw e (on_error-IsServer fd s v)
Step-IsServer {s} (heartbeat now e) v = rw e (heartbeat_round-IsServer now s v)
Step-IsServer {s} (disconnect e) v = rw e (process_pending-IsServer s v)
Step-IsServer {s} (stop e) v =
    sessions-IsServer s _ v (ap (λ x. x.clients) e) (ap (λ x. x.handlers) e)

Reach-IsServer : {s t : Server} → Reach s t → IsServer s → IsServer t
Reach-IsServer here v = v
Reach-IsServer (next r st) v = Step-IsServer st (Reach-IsServer r v)

-- In every state that a started server can reach, by any sequence of connections, bytes, kernel
-- answers, timeouts, disconnects and a stop: each id and each nickname is online on one connection
-- at most, and at most 1024 connections are online; a descriptor has a handler exactly when it has
-- an entry in the table; and every handler's read position is inside its output buffer; and while
-- the buffer of a connection that is not closing holds bytes, the events that the reactor keeps for
-- the connection are reading and writing.
pub Reach-started : {s : Server} → Reach started s → IsServer s
Reach-started r = Reach-IsServer r started-IsServer
