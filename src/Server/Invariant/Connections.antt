-- ===== src/Server/Invariant/Connections.antt =====
-- Opening, reading, writing, failing and closing a connection keep the invariant.
use qt_linux_im_project.Base.{
  ℕ, zero, suc, ◌≡◌, refl, ◌∙◌, Bool, true, false, not, List, [], ◌∷◌, Bytes, none, arith,
  Option-cases, inl, inr, is_empty,
}
use qt_linux_im_project.Base.FdMap.{
  lookup, insert, lookup-insert, lookup-erase, insert-All, erase-All, lookup-All,
}
use qt_linux_im_project.Wire.Message.{MessageHeader}
use qt_linux_im_project.Clients.{IsOwn, has_client, is_some, new_client, add_client, check_timeout}
use qt_linux_im_project.Clients.Unique.{add_client-IsTable, remove_client-IsTable}
use qt_linux_im_project.Protocol.Frames.{next_frame, parse_loop, parse_buffer, parse_data}
use qt_linux_im_project.Protocol.Frames.Progress.{Next-cases}
use qt_linux_im_project.Server.Connection.{
  SendReply, Connection, Outcome, new_connection, request_close, handle_write, handle_error,
  pending,
}
use qt_linux_im_project.Server.Connection.Output.{handle_write-Keeps}
use qt_linux_im_project.Server.Connection.Armed.{new_connection-IsArmed, handle_write-IsArmed}
use qt_linux_im_project.Server.State.{Server, Clock}
use qt_linux_im_project.Server.Send.{store}
use qt_linux_im_project.Server.Send.Effect.{same, broadcast-Sends, has_handler}
use qt_linux_im_project.Server.Disconnect.{
  Accepted, emplace_handler, register_client, forget, handle_client_disconnect, disconnect_all,
  process_pending_disconnects, unique, sort,
}
use qt_linux_im_project.Server.Dispatch.{
  handle_message, on_client_data, on_handler, RecvReply, received, peer_closed, read_interrupted,
  read_would_block, read_failed, read_loop, handle_read, on_write, on_error, queue_all,
  heartbeat_round, close,
}
use qt_linux_im_project.Server.Invariant.{
  IsHandler, IsServer, Sends-IsServer, sessions-IsServer, if_both, first_both, option_both,
}
use qt_linux_im_project.Server.Invariant.Messages.{handle_message-IsServer}

-- The loop of the parser keeps what each callback keeps.
parse_loop-keeps {ℓ κ} :
    {S : Type ℓ} (P : S → Type κ) (callback : MessageHeader → Bytes → S → S)
    → ((h : MessageHeader) (body : Bytes) (s : S) → P s → P (callback h body s))
    → (fuel : ℕ) (b : Bytes) (s : S) → P s
    → P (parse_loop callback fuel b s).1
unfolding parse_loop
parse_loop-keeps P callback keep zero b s p = p
parse_loop-keeps P callback keep (suc fuel) b s p = elim (Next-cases (next_frame b)) [
  | inl e ↦ rw (e, parse_loop) p
  | inr (inl e) ↦ rw (e, parse_loop) p
  | inr (inr (h, body, rest, e)) ↦
      rw (e, parse_loop)
        (parse_loop-keeps P callback keep fuel rest (callback h body s) (keep h body s p))
]

on_client_data-IsServer :
    (clock : Clock) (fd : ℕ) (bytes : Bytes) (s : Server)
    → IsServer s
    → IsServer (on_client_data clock fd bytes s)
unfolding on_client_data parse_data parse_buffer
on_client_data-IsServer clock fd bytes s v =
    sessions-IsServer _ _
      (parse_loop-keeps IsServer (handle_message clock fd)
        (λ h body t w. handle_message-IsServer clock fd h body t w) _ _ s v)
      refl refl

-- A callback that keeps the handler in order.
on_handler-IsServer :
    (f : Connection → Outcome) (fd : ℕ) (s : Server)
    → ((c : Connection) → IsHandler (fd, c) → IsHandler (fd, (f c).conn))
    → IsServer s
    → IsServer (on_handler f fd s)
unfolding on_handler store has_handler
on_handler-IsServer f fd s keep v = elim (Option-cases (lookup fd s.handlers)) [
  | inl e ↦ rw (e, on_handler) v
  | inr (c, e) ↦
      rw (e, on_handler)
        (record {
          table = v.table;
          own = v.own;
          handlers =
              insert-All IsHandler fd (f c).conn s.handlers
                (keep c (lookup-All IsHandler fd s.handlers v.handlers e)) v.handlers;
          paired = λ j. ground (arith, lookup-insert fd j (f c).conn s.handlers, v.paired j);
        })
]

close-IsHandler :
    (fd : ℕ) (ok : Bool) (c : Connection)
    → IsHandler (fd, c)
    → IsHandler (fd, (request_close c ok).conn)
unfolding request_close pending
close-IsHandler fd ok c (b, a, e) = ground arith

handle_write-IsHandler :
    (fd : ℕ) (c : Connection) → IsHandler (fd, c) → IsHandler (fd, (handle_write c).conn)
handle_write-IsHandler fd c (b, a, e) =
    let k = handle_write-Keeps c b in (k.buffer, handle_write-IsArmed c a, k.same_fd ∙ e)

handle_error-IsHandler :
    (fd : ℕ) (c : Connection) → IsHandler (fd, c) → IsHandler (fd, (handle_error c).conn)
unfolding handle_error
handle_error-IsHandler fd c h = ground (arith, close-IsHandler fd true c h)

read_loop-IsServer :
    (fd : ℕ) (rs : List RecvReply) (s : Server) → IsServer s → IsServer (read_loop fd rs s)
unfolding read_loop
read_loop-IsServer fd [] s v = v
read_loop-IsServer fd (received clock bytes ∷ rs) s v =
    read_loop-IsServer fd rs (on_client_data clock fd bytes s)
      (on_client_data-IsServer clock fd bytes s v)
read_loop-IsServer fd (peer_closed ∷ rs) s v =
    on_handler-IsServer close fd s (close-IsHandler fd true) v
read_loop-IsServer fd (read_interrupted ∷ rs) s v = read_loop-IsServer fd rs s v
read_loop-IsServer fd (read_would_block ∷ rs) s v = v
read_loop-IsServer fd (read_failed ∷ rs) s v =
    on_handler-IsServer close fd s (close-IsHandler fd true) v

pub handle_read-IsServer :
    (fd : ℕ) (rs : List RecvReply) (s : Server) → IsServer s → IsServer (handle_read fd rs s)
unfolding handle_read
handle_read-IsServer fd rs s v =
    option_both IsServer (lookup fd s.handlers) v
      (λ c. if_both IsServer c.closing v (read_loop-IsServer fd rs s v))

pub on_write-IsServer : (fd : ℕ) (s : Server) → IsServer s → IsServer (on_write fd s)
unfolding on_write
on_write-IsServer fd s v = on_handler-IsServer handle_write fd s (handle_write-IsHandler fd) v

pub on_error-IsServer : (fd : ℕ) (s : Server) → IsServer s → IsServer (on_error fd s)
unfolding on_error
on_error-IsServer fd s v = on_handler-IsServer handle_error fd s (handle_error-IsHandler fd) v

new_connection-IsHandler : (fd : ℕ) (rs : List SendReply) → IsHandler (fd, new_connection fd rs)
unfolding new_connection
new_connection-IsHandler fd rs =
    (omega arith, (unfold new_connection in new_connection-IsArmed fd rs), refl)

registered-IsServer :
    (fd : ℕ) (ip : Bytes) (port now : ℕ) (rs : List SendReply) (s : Server)
    → lookup fd s.handlers ≡ none
    → IsServer s
    → IsServer (emplace_handler fd rs (record s { clients = add_client fd ip port now s.clients }))
unfolding emplace_handler has_handler
registered-IsServer fd ip port now rs s e v =
    rw (e, emplace_handler)
      (record {
        table = add_client-IsTable fd ip port now s.clients v.table;
        own = unfold add_client in insert-All IsOwn fd _ s.clients refl v.own;
        handlers = insert-All IsHandler fd _ s.handlers (new_connection-IsHandler fd rs) v.handlers;
        paired = λ j. pair j;
      })
  where
    pair :
        (j : ℕ)
        → is_some (lookup j (insert fd (new_connection fd rs) s.handlers))
          ≡ has_client j (add_client fd ip port now s.clients)
    pair j =
        unfold add_client has_client in
        ground (
          arith,
          lookup-insert fd j (new_connection fd rs) s.handlers,
          lookup-insert fd j (new_client fd ip port now) s.clients,
          v.paired j,
        )

pub register_client-IsServer :
    (fd : ℕ) (ip : Bytes) (port now : ℕ) (a : Accepted) (s : Server)
    → has_client fd s.clients ≡ false
    → IsServer s
    → IsServer (register_client fd ip port now a s).0
unfolding register_client has_handler
register_client-IsServer fd ip port now a s e v =
    first_both IsServer (not a.non_blocking) _ _ (sessions-IsServer s _ v refl refl) (
      first_both IsServer (not a.registered) _ _ (sessions-IsServer s _ v refl refl)
        (registered-IsServer fd ip port now a.replies s (ground (arith, v.paired fd)) v))

pub forget-IsServer : (fd : ℕ) (s : Server) → IsServer s → IsServer (forget fd s)
unfolding forget has_handler
forget-IsServer fd s v = record {
  table = remove_client-IsTable fd s.clients v.table;
  own = erase-All IsOwn fd s.clients v.own;
  handlers = erase-All IsHandler fd s.handlers v.handlers;
  paired = λ j.
      unfold has_client in
      ground (arith, lookup-erase fd j s.handlers, lookup-erase fd j s.clients, v.paired j);
}

pub handle_client_disconnect-IsServer :
    (fd : ℕ) (s : Server) → IsServer s → IsServer (handle_client_disconnect fd s)
unfolding handle_client_disconnect
handle_client_disconnect-IsServer fd s v =
    if_both IsServer s.running
      (Sends-IsServer (broadcast-Sends (forget fd s) same) (forget-IsServer fd s v))
      (forget-IsServer fd s v)

disconnect_all-IsServer : (fds : List ℕ) (s : Server) → IsServer s → IsServer (disconnect_all fds s)
unfolding disconnect_all
disconnect_all-IsServer [] s v = v
disconnect_all-IsServer (fd ∷ fds) s v =
    disconnect_all-IsServer fds _ (handle_client_disconnect-IsServer fd s v)

pub process_pending-IsServer : (s : Server) → IsServer s → IsServer (process_pending_disconnects s)
unfolding process_pending_disconnects
process_pending-IsServer s v = if_both IsServer (is_empty s.pending_disconnects) v (
    disconnect_all-IsServer (unique (sort s.pending_disconnects)) _
      (sessions-IsServer s _ v refl refl))

queue_all-IsServer : (fds : List ℕ) (s : Server) → IsServer s → IsServer (queue_all fds s)
unfolding queue_all
queue_all-IsServer [] s v = v
queue_all-IsServer (fd ∷ fds) s v = queue_all-IsServer fds _ (sessions-IsServer s _ v refl refl)

pub heartbeat_round-IsServer :
    (now : ℕ) (s : Server) → IsServer s → IsServer (heartbeat_round now s)
unfolding heartbeat_round
heartbeat_round-IsServer now s v = queue_all-IsServer (check_timeout 10 now s.clients) s v
