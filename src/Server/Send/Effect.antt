-- ===== src/Server/Send/Effect.antt =====
-- What sending changes: the handlers of the receivers and the pending disconnects.
use qt_linux_im_project.Base.{
  ℕ, ◌≡◌, ◌≢◌, refl, Bool, true, false, List, [], ◌∷◌, Bytes, Option, none, some, if◌then◌else◌,
  is_empty, map, ◌==◌, arith, Option-cases, inl, inr,
}
use qt_linux_im_project.Base.FdMap.{lookup, lookup-insert, map_some}
use qt_linux_im_project.Clients.{ClientInfo, get_online_clients, is_some}
use qt_linux_im_project.Server.Connection.{queue_send}
use qt_linux_im_project.Server.State.{Server}
use qt_linux_im_project.Server.Send.{
  send_to, send_user_list, send_each, broadcast_user_list, send_others, user_of,
}
use qt_linux_im_project.Protocol.Server.Pack.{pack_user_list_response}

-- Nothing but handlers and pending disconnects differs.
pub record Quiet (s t : Server) : Type 0 where
  pub running : t.running ≡ s.running
  pub clients : t.clients ≡ s.clients
  pub recv_buffers : t.recv_buffers ≡ s.recv_buffers
  pub file_sessions : t.file_sessions ≡ s.file_sessions
  pub closed : t.closed ≡ s.closed

pub Quiet-refl : (s : Server) → Quiet s s
Quiet-refl s = ground arith

pub Quiet-trans : {s t u : Server} → Quiet s t → Quiet t u → Quiet s u
Quiet-trans a b = ground arith

send_to-Quiet : (fd : ℕ) (bytes : Bytes) (s : Server) → Quiet s (send_to fd bytes s)
unfolding send_to
send_to-Quiet fd bytes s = ground arith

-- `t` is `s` after some calls of `sendResponse`.
pub data Sends (s : Server) : Server → Type 0 where
  same : Sends s s
  one_more : {t : Server} (fd : ℕ) (bytes : Bytes) → Sends s t → Sends s (send_to fd bytes t)

pub if-Sends : {s t u : Server} (b : Bool) → Sends s t → Sends s u → Sends s (if b then t else u)
if-Sends true x y = x
if-Sends false x y = y

pub option-Sends {ℓ} :
    {A : Type ℓ} {s t : Server} {f : A → Server} (o : Option A)
    → Sends s t
    → ((a : A) → Sends s (f a))
    → Sends s (elim o [ none ↦ t | some a ↦ f a ])
option-Sends none x y = x
option-Sends (some a) x y = y a

pub send_to-Sends : (fd : ℕ) (bytes : Bytes) (s : Server) → Sends s (send_to fd bytes s)
send_to-Sends fd bytes s = one_more fd bytes same

send_each-Sends :
    (infos : List ClientInfo) (packet : Bytes) (s : Server) {t : Server}
    → Sends s t
    → Sends s (send_each infos packet t)
unfolding send_each
send_each-Sends [] packet s x = x
send_each-Sends (info ∷ infos) packet s x =
    send_each-Sends infos packet s (one_more info.fd packet x)

pub broadcast-Sends : (s : Server) {t : Server} → Sends s t → Sends s (broadcast_user_list t)
unfolding broadcast_user_list
broadcast-Sends s {t} x = if-Sends (is_empty (get_online_clients t.clients)) x (
    send_each-Sends (get_online_clients t.clients)
      (pack_user_list_response 0 (map user_of (get_online_clients t.clients))) s x)

pub send_others-Sends :
    (fd : ℕ) (infos : List ClientInfo) (packet : Bytes) (s : Server) {t : Server}
    → Sends s t
    → Sends s (send_others fd infos packet t)
unfolding send_others
send_others-Sends fd [] packet s x = x
send_others-Sends fd (target ∷ targets) packet s x =
    send_others-Sends fd targets packet s
      (if-Sends (target.fd == fd) x (one_more target.fd packet x))

pub send_user_list-Sends : (fd sequence : ℕ) (s : Server) → Sends s (send_user_list fd sequence s)
unfolding send_user_list
send_user_list-Sends fd sequence s = one_more fd _ same

-- Sending leaves the table of clients, the buffers, the sessions and the closed descriptors alone.
pub Sends-Quiet : {s t : Server} → Sends s t → Quiet s t
Sends-Quiet {s} same = Quiet-refl s
Sends-Quiet (one_more {t = t} fd bytes x) = Quiet-trans (Sends-Quiet x) (send_to-Quiet fd bytes t)

-- A call of `sendResponse` runs `queueSend` on the handler of its descriptor, and on no other.
pub lookup-send_to :
    (fd j : ℕ) (bytes : Bytes) (s : Server)
    → lookup j (send_to fd bytes s).handlers ≡ (
        if fd == j
        then map_some (λ c. (queue_send bytes c).conn) (lookup j s.handlers)
        else lookup j s.handlers)
unfolding send_to
lookup-send_to fd j bytes s = elim (Option-cases (lookup fd s.handlers)) [
  | inl e ↦ ground (arith)
  | inr (c, e) ↦ ground (arith, lookup-insert fd j (queue_send bytes c).conn s.handlers)
]

unfoldable pub has_handler : ℕ → Server → Bool
has_handler fd s = is_some (lookup fd s.handlers)

-- Sending neither adds nor removes a handler.
pub Sends-has_handler : {s t : Server} → Sends s t → (fd : ℕ) → has_handler fd t ≡ has_handler fd s
unfolding has_handler
Sends-has_handler same fd = refl
Sends-has_handler (one_more {t = t} to bytes x) fd =
    ground (arith, lookup-send_to to fd bytes t, Sends-has_handler x fd)

pub send_to_other :
    (fd j : ℕ) (bytes : Bytes) (s : Server)
    → j ≢ fd
    → lookup j (send_to fd bytes s).handlers ≡ lookup j s.handlers
send_to_other fd j bytes s ne = ground (arith, lookup-send_to fd j bytes s)
