-- ===== src/Server/Invariant.antt =====
-- The invariant of the server's state.
pub mod Files
pub mod Messages
pub mod Connections
pub mod Stale
pub mod Reachable
use qt_linux_im_project.Base.{
  ℕ, ◌≡◌, refl, sym, ◌∙◌, Bool, true, false, List, [], ◌∷◌, Bytes, Option, none, some,
  if◌then◌else◌, ◌==◌, arith, All, Option-cases, inl, inr,
}
use qt_linux_im_project.Base.FdMap.{lookup, insert-All}
use qt_linux_im_project.Base.FdMap
use qt_linux_im_project.Clients.{ClientInfo, Clients, has_client, IsOwn}
use qt_linux_im_project.Clients.Unique.{IsTable}
use qt_linux_im_project.Server.Connection.{Connection, Outcome, queue_send}
use qt_linux_im_project.Server.Connection.Output.{IsBuffer}
use qt_linux_im_project.Server.Connection.Queue.{queue_send-Queues, queue_send-fd}
use qt_linux_im_project.Server.Connection.Armed.{IsArmed, queue_send-IsArmed}
use qt_linux_im_project.Server.State.{Server}
use qt_linux_im_project.Server.Send.{send_to, store}
use qt_linux_im_project.Server.Send.Effect.{
  Sends, same, one_more, Sends-Quiet, has_handler, Sends-has_handler,
}

abbrev pub IsHandler : ℕ × Connection → Type 0
IsHandler e = IsBuffer e.1 × IsArmed e.1 × (e.1.fd ≡ e.0)

-- The table of clients is in order, with ids and nicknames online once at most; every handler's
-- buffer is in order and watched while bytes wait; and the descriptors with a handler are those
-- with an entry in the table.
pub record IsServer (s : Server) : Type 0 where
  pub table : IsTable s.clients
  pub own : All IsOwn s.clients
  pub handlers : All IsHandler s.handlers
  pub paired : (fd : ℕ) → has_handler fd s ≡ has_client fd s.clients

queue_send-IsHandler :
    (bytes : Bytes) (fd : ℕ) (c : Connection)
    → IsHandler (fd, c)
    → IsHandler (fd, (queue_send bytes c).conn)
queue_send-IsHandler bytes fd c (b, a, e) =
    ((queue_send-Queues bytes c b).buffer, queue_send-IsArmed bytes c a, queue_send-fd bytes c ∙ e)

send_to-handlers :
    (fd : ℕ) (bytes : Bytes) (s : Server)
    → All IsHandler s.handlers
    → All IsHandler (send_to fd bytes s).handlers
unfolding send_to
send_to-handlers fd bytes s h = elim (Option-cases (lookup fd s.handlers)) [
  | inl e ↦ ground arith
  | inr (c, e) ↦
      let kept =
        insert-All IsHandler fd (queue_send bytes c).conn s.handlers
          (queue_send-IsHandler bytes fd c (FdMap.lookup-All IsHandler fd s.handlers h e)) h in
      ground (arith, kept)
]

Sends-handlers : {s t : Server} → Sends s t → All IsHandler s.handlers → All IsHandler t.handlers
Sends-handlers same h = h
Sends-handlers (one_more {t = t} fd bytes x) h = send_to-handlers fd bytes t (Sends-handlers x h)

pub Sends-IsServer : {s t : Server} → Sends s t → IsServer s → IsServer t
unfolding has_handler
Sends-IsServer {s} {t} x v =
    let q = Sends-Quiet x in
    record {
      table = rw q.clients v.table;
      own = rw q.clients v.own;
      handlers = Sends-handlers x v.handlers;
      paired = λ fd. rw q.clients (Sends-has_handler x fd ∙ v.paired fd);
    }

-- A new table with the same descriptors.
pub clients-IsServer :
    (s : Server) (m : Clients)
    → IsServer s
    → IsTable m
    → All IsOwn m
    → ((fd : ℕ) → has_client fd m ≡ has_client fd s.clients)
    → IsServer (record s { clients = m })
unfolding has_handler
clients-IsServer s m v t o h = record {
  table = t;
  own = o;
  handlers = v.handlers;
  paired = λ fd. v.paired fd ∙ sym (h fd);
}

-- The invariant does not speak of the sessions and the queue.
pub sessions-IsServer :
    (s t : Server) → IsServer s → t.clients ≡ s.clients → t.handlers ≡ s.handlers → IsServer t
unfolding has_handler
sessions-IsServer s t v c h = record {
  table = rw c v.table;
  own = rw c v.own;
  handlers = rw h v.handlers;
  paired = λ fd. simp (c, h) (v.paired fd);
}

-- The ways in which the handlers branch.
pub if_both {κ} :
    (P : Server → Type κ) {s t : Server} (b : Bool) → P s → P t → P (if b then s else t)
if_both P true x y = x
if_both P false x y = y

pub option_both {ℓ κ} :
    {A : Type ℓ} (P : Server → Type κ) {s : Server} {f : A → Server} (o : Option A)
    → P s
    → ((a : A) → P (f a))
    → P (elim o [ none ↦ s | some a ↦ f a ])
option_both P none x y = x
option_both P (some a) x y = y a

pub first_both {κ} :
    (P : Server → Type κ) (b : Bool) (s t : Server × Bool)
    → P s.0
    → P t.0
    → P (if b then s else t).0
first_both P true s t x y = x
first_both P false s t x y = y
