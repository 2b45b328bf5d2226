-- ===== src/Server/Chat/Routing.antt =====
-- Who gets a chat message.
use qt_linux_im_project.Base.{
  ℕ, ◌+◌, ◌≤◌, ◌<◌, ◌≡◌, refl, Bool, true, false, not, ◌&&◌, List, [], ◌∷◌, Bytes, Option, none,
  some, if◌then◌else◌, ◌==◌, is_empty, arith, All, Bool-cases, inl, inr,
}
use qt_linux_im_project.Base.FdMap.{lookup, From, map_some}
use qt_linux_im_project.Wire.Text.{text_of}
use qt_linux_im_project.Wire.Message.{MessageHeader, ChatScope, chat_group, chat_private}
use qt_linux_im_project.Clients.{
  ClientInfo, Clients, get_online_clients, get_fd_by_client_id, IsOwn,
}
use qt_linux_im_project.Protocol.Server.Parse.{parse_chat_message}
use qt_linux_im_project.Server.Connection.{Connection, queue_send}
use qt_linux_im_project.Server.State.{Server, Clock}
use qt_linux_im_project.Server.Send.{send_to, send_others}
use qt_linux_im_project.Server.Send.Effect.{
  Sends, same, if-Sends, option-Sends, send_to-Sends, send_others-Sends, send_user_list-Sends,
  lookup-send_to,
}
use qt_linux_im_project.Server.Chat.{
  online_client, scope_of, chat_packet, route_chat, handle_chat_message, handle_user_list_request,
}

route_chat-Sends :
    (fd : ℕ) (scope : ChatScope) (to packet : Bytes) (s : Server)
    → Sends s (route_chat fd scope to packet s)
unfolding route_chat
route_chat-Sends fd chat_group to packet s =
    send_others-Sends fd (get_online_clients s.clients) packet s same
route_chat-Sends fd chat_private to packet s =
    if-Sends (is_empty to) same (
      option-Sends (get_fd_by_client_id to s.clients) same
        (λ target. send_to-Sends target packet s))

-- A chat message does nothing to the server but send.
pub handle_chat_message-Sends :
    (fd : ℕ) (h : MessageHeader) (body : Bytes) (clock : Clock) (s : Server)
    → Sends s (handle_chat_message fd h body clock s)
unfolding handle_chat_message
handle_chat_message-Sends fd h body clock s = option-Sends (parse_chat_message body) same λ msg.
    option-Sends (online_client fd s.clients) same λ sender.
      route_chat-Sends fd (scope_of msg) (text_of 32 msg.to_id)
        (chat_packet h.sequence sender msg clock) s

pub handle_user_list_request-Sends :
    (fd : ℕ) (h : MessageHeader) (s : Server) → Sends s (handle_user_list_request fd h s)
unfolding handle_user_list_request
handle_user_list_request-Sends fd h s =
    option-Sends (online_client fd s.clients) same (λ info. send_user_list-Sends fd h.sequence s)

-- The descriptors of a list of clients grow along it.
abbrev pub FdsFrom : ℕ → List ClientInfo → Type 0
FdsFrom n [] = Unit
FdsFrom n (info ∷ infos) = (n ≤ info.fd) × FdsFrom (info.fd + 1) infos

abbrev pub has_fd : ℕ → List ClientInfo → Bool
has_fd j [] = false
has_fd j (info ∷ infos) = if info.fd == j then true else has_fd j infos

has_fd-below :
    (j n : ℕ) (infos : List ClientInfo) → j < n → FdsFrom n infos → has_fd j infos ≡ false
has_fd-below j n [] h s = refl
has_fd-below j n (info ∷ infos) h (p, s) = ground (arith, has_fd-below j (info.fd + 1) infos)

FdsFrom-mono : (a b : ℕ) (infos : List ClientInfo) → a ≤ b → FdsFrom b infos → FdsFrom a infos
FdsFrom-mono a b [] h s = tt
FdsFrom-mono a b (info ∷ infos) h (p, s) = (omega arith, s)

-- Is somebody online on this descriptor?
abbrev pub is_online_fd : ℕ → Clients → Bool
is_online_fd j m = elim (lookup j m) [ none ↦ false | some info ↦ info.is_online ]

pub online-FdsFrom :
    (n : ℕ) (m : Clients) → From n m → All IsOwn m → FdsFrom n (get_online_clients m)
unfolding get_online_clients
online-FdsFrom n [] s o = tt
online-FdsFrom n ((j, v) ∷ m) (p, s) (e, o) =
    ground (arith, online-FdsFrom (j + 1) m s o, FdsFrom-mono n (j + 1) (get_online_clients m))

pub has_fd-online :
    (j n : ℕ) (m : Clients)
    → From n m
    → All IsOwn m
    → has_fd j (get_online_clients m) ≡ is_online_fd j m
unfolding get_online_clients lookup
has_fd-online j n [] s o = refl
has_fd-online j n ((i, v) ∷ m) (p, s) (e, o) = ground (
  arith,
  has_fd-online j (i + 1) m s o,
  has_fd-below j (i + 1) (get_online_clients m),
  online-FdsFrom (i + 1) m s o,
)

-- The handler after the packet was queued on it.
abbrev pub with_packet : Bytes → Option Connection → Option Connection
with_packet packet = map_some (λ c. (queue_send packet c).conn)

pub lookup-send_others :
    (fd j n : ℕ) (infos : List ClientInfo) (packet : Bytes) (s : Server)
    → FdsFrom n infos
    → lookup j (send_others fd infos packet s).handlers ≡ (
        if not (fd == j) && has_fd j infos
        then with_packet packet (lookup j s.handlers)
        else lookup j s.handlers)
unfolding send_others
lookup-send_others fd j n [] packet s f = ground arith
lookup-send_others fd j n (info ∷ infos) packet s (p, f) = elim (Bool-cases (info.fd == fd)) [
  | inl own ↦
      rw (own, send_others)
        (ground (
          arith,
          lookup-send_others fd j (info.fd + 1) infos packet s f,
          has_fd-below j (info.fd + 1) infos,
        ))
  | inr other ↦
      rw (other, send_others)
        (ground (
          arith,
          lookup-send_others fd j (info.fd + 1) infos packet (send_to info.fd packet s) f,
          lookup-send_to info.fd j packet s,
          has_fd-below j (info.fd + 1) infos,
        ))
]
