-- ===== src/Server/Invariant/Stale.antt =====
-- A descriptor that is queued for the disconnect again while it is being disconnected.
use qt_linux_im_project.Base.{
  ℕ, ◌<◌, ◌≡◌, ◌≢◌, refl, ap, ◌∙◌, true, ◌||◌, ◌==◌, List, [], ◌∷◌, ◌++◌, Bytes, some, none,
  if◌then◌else◌, arith, Bool-cases, Option-cases, inl, inr, is_empty, leb,
}
use qt_linux_im_project.Base.FdMap.{lookup, lookup-erase}
use qt_linux_im_project.Clients.{Clients, ClientInfo, get_online_clients}
use qt_linux_im_project.Server.Connection.{Connection, queue_send}
use qt_linux_im_project.Server.State.{Server, queue_disconnect}
use qt_linux_im_project.Server.Send.{
  store, after_send, send_response, send_to, send_each, broadcast_user_list,
}
use qt_linux_im_project.Server.Send.Effect.{lookup-send_to}
use qt_linux_im_project.Server.Disconnect.Pending.{has}
use qt_linux_im_project.Server.Chat.Routing.{has_fd, has_fd-online, is_online_fd}
use qt_linux_im_project.Clients
use qt_linux_im_project.Server.Files.{cleanup_file_sessions_for_fd}
use qt_linux_im_project.Server.Disconnect.{
  close_fd, forget, handle_client_disconnect, process_pending_disconnects, disconnect_all, sort,
  insert_sorted, unique, unique_from,
}
use qt_linux_im_project.Server.Disconnect.Forget.{handle_client_disconnect-forgets}
use qt_linux_im_project.Server.Invariant.{IsServer, sessions-IsServer, if_both}
use qt_linux_im_project.Server.Invariant.Connections.{forget-IsServer}

has-append : (b : ℕ) (xs ys : List ℕ) → has b (xs ++ ys) ≡ (has b xs || has b ys)
has-append b [] ys = refl
has-append b (x ∷ xs) ys = ground (arith, has-append b xs ys)

-- Sending takes nothing off the queue.
send_to-has :
    (b fd : ℕ) (packet : Bytes) (s : Server)
    → has b s.pending_disconnects ≡ true
    → has b (send_to fd packet s).pending_disconnects ≡ true
unfolding send_to send_response after_send store queue_disconnect
send_to-has b fd packet s h = elim (Option-cases (lookup fd s.handlers)) [
  | inl e ↦ ground arith
  | inr (c, e) ↦ ground (
    arith,
    has-append b s.pending_disconnects (queue_send packet c).queued,
    has-append b (s.pending_disconnects ++ (queue_send packet c).queued) (fd ∷ []),
  )
]

-- A handler that is closing.
abbrev pub Closing : ℕ → Server → Type 0
Closing b s = (c : Connection) × (lookup b s.handlers ≡ some c) × (c.closing ≡ true)

closing-send : (packet : Bytes) (c : Connection) → c.closing ≡ true → (queue_send packet c).conn ≡ c
unfolding queue_send
closing-send packet c k = ground arith

send_to-Closing :
    (b fd : ℕ) (packet : Bytes) (s : Server) → Closing b s → Closing b (send_to fd packet s)
send_to-Closing b fd packet s (c, e, k) = elim (Bool-cases (fd == b)) [
  | inl same ↦
      (c, lookup-send_to fd b packet s ∙ rw (same, e) (ap some (closing-send packet c k)), k)
  | inr other ↦ (c, lookup-send_to fd b packet s ∙ rw other e, k)
]

-- A send to it queues it.
send_to-queues :
    (b : ℕ) (packet : Bytes) (s : Server)
    → Closing b s
    → has b (send_to b packet s).pending_disconnects ≡ true
unfolding send_to send_response after_send store queue_disconnect queue_send
send_to-queues b packet s (c, e, k) = ground (
  arith,
  has-append b (s.pending_disconnects ++ []) (b ∷ []),
  has-append b s.pending_disconnects [],
)

send_each-has :
    (b : ℕ) (infos : List ClientInfo) (packet : Bytes) (s : Server)
    → has b s.pending_disconnects ≡ true
    → has b (send_each infos packet s).pending_disconnects ≡ true
unfolding send_each
send_each-has b [] packet s h = h
send_each-has b (info ∷ infos) packet s h =
    send_each-has b infos packet (send_to info.fd packet s) (send_to-has b info.fd packet s h)

send_each-queues :
    (b : ℕ) (infos : List ClientInfo) (packet : Bytes) (s : Server)
    → Closing b s
    → has_fd b infos ≡ true
    → has b (send_each infos packet s).pending_disconnects ≡ true
unfolding send_each
send_each-queues b [] packet s c h = cc
send_each-queues b (info ∷ infos) packet s c h = elim (Bool-cases (info.fd == b)) [
  | inl e ↦
      let same : info.fd ≡ b = ground arith in
      send_each-has b infos packet (send_to info.fd packet s)
        (rw same (send_to-queues b packet s c))
  | inr e ↦
      send_each-queues b infos packet (send_to info.fd packet s)
        (send_to-Closing b info.fd packet s c) (ground arith)
]

broadcast-has :
    (b : ℕ) (s : Server)
    → has b s.pending_disconnects ≡ true
    → has b (broadcast_user_list s).pending_disconnects ≡ true
unfolding broadcast_user_list
broadcast-has b s h = elim (Bool-cases (is_empty (get_online_clients s.clients))) [
  | inl e ↦ rw (e, broadcast_user_list) h
  | inr e ↦ rw (e, broadcast_user_list) (send_each-has b (get_online_clients s.clients) _ s h)
]

broadcast-queues :
    (b : ℕ) (s : Server)
    → Closing b s
    → has_fd b (get_online_clients s.clients) ≡ true
    → has b (broadcast_user_list s).pending_disconnects ≡ true
unfolding broadcast_user_list
broadcast-queues b s c h = elim (Bool-cases (is_empty (get_online_clients s.clients))) [
  | inl e ↦ absurd (not_empty (get_online_clients s.clients) e h)
  | inr e ↦ rw (e, broadcast_user_list) (send_each-queues b (get_online_clients s.clients) _ s c h)
]
  where
    not_empty : (infos : List ClientInfo) → is_empty infos ≡ true → has_fd b infos ≡ true → ⊥
    not_empty [] p q = cc
    not_empty (i ∷ infos) p q = cc

disconnect-has :
    (b fd : ℕ) (s : Server)
    → has b s.pending_disconnects ≡ true
    → has b (handle_client_disconnect fd s).pending_disconnects ≡ true
unfolding handle_client_disconnect forget close_fd cleanup_file_sessions_for_fd
disconnect-has b fd s h =
    if_both (λ t. has b t.pending_disconnects ≡ true) s.running (broadcast-has b (forget fd s) h) h

disconnect-running :
    (fd : ℕ) (s : Server)
    → s.running ≡ true
    → handle_client_disconnect fd s ≡ broadcast_user_list (forget fd s)
unfolding handle_client_disconnect
disconnect-running fd s r = ap (λ r. if r then broadcast_user_list (forget fd s) else forget fd s) r

forget-online :
    (a b : ℕ) (s : Server) → b ≢ a → is_online_fd b (forget a s).clients ≡ is_online_fd b s.clients
unfolding forget close_fd cleanup_file_sessions_for_fd Clients.remove_client
forget-online a b s ne = ground (arith, lookup-erase a b s.clients)

forget-Closing : (a b : ℕ) (s : Server) → b ≢ a → Closing b s → Closing b (forget a s)
unfolding forget close_fd cleanup_file_sessions_for_fd
forget-Closing a b s ne (c, e, k) = (c, ground (arith, lookup-erase a b s.handlers), k)

-- The list of users that a disconnect of `a` sends out queues `b`.
disconnect-queues :
    (a b : ℕ) (s : Server)
    → IsServer s
    → s.running ≡ true
    → b ≢ a
    → is_online_fd b s.clients ≡ true
    → Closing b s
    → has b (handle_client_disconnect a s).pending_disconnects ≡ true
disconnect-queues a b s v r ne o c =
    let after = forget-IsServer a s v in
    let online : has_fd b (get_online_clients (forget a s).clients) ≡ true =
      has_fd-online b 0 (forget a s).clients after.table.sorted after.own
      ∙ (forget-online a b s ne ∙ o) in
    rw (disconnect-running a s r)
      (broadcast-queues b (forget a s) (forget-Closing a b s ne c) online)

-- Two handlers that are closing, `a` and `b` with `a` before `b`, have queued their disconnects in
-- a running server in order, and `b`'s client is still online. One pass over the queue closes `a`
-- and then `b` and forgets `b`'s client; but `b` stands in the queue again afterwards, so the next
-- pass closes the descriptor once more.
pub process_pending_disconnects-stale :
    (a b : ℕ) (s : Server)
    → IsServer s
    → s.running ≡ true
    → s.pending_disconnects ≡ a ∷ b ∷ []
    → a < b
    → is_online_fd b s.clients ≡ true
    → Closing b s
    → (has b (process_pending_disconnects s).pending_disconnects ≡ true)
      × (lookup b (process_pending_disconnects s).clients ≡ none)
      × ((process_pending_disconnects s).closed ≡ b ∷ a ∷ s.closed)
unfolding process_pending_disconnects disconnect_all sort insert_sorted unique unique_from leb
process_pending_disconnects-stale a b s v r e lt o c =
    let t : Server = record s { pending_disconnects = [] } in
    let ta = handle_client_disconnect a t in
    let w = sessions-IsServer s t v refl refl in
    let order : unique (sort (a ∷ b ∷ [])) ≡ a ∷ b ∷ [] = ground arith in
    let pass : process_pending_disconnects s ≡ handle_client_disconnect b ta =
      rw (e, process_pending_disconnects) (ap (λ fds. disconnect_all fds t) order) in
    rw pass (
      disconnect-has b b ta (disconnect-queues a b t w r (ground arith) o c),
      (handle_client_disconnect-forgets b ta).0.client,
      (handle_client_disconnect-forgets b ta).1
          ∙ ap (λ l. b ∷ l) (handle_client_disconnect-forgets a t).1,
    )
