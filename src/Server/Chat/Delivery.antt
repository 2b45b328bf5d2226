-- ===== src/Server/Chat/Delivery.antt =====
-- A chat message reaches those that it is for, and nobody else, under the sender's own name.
use qt_linux_im_project.Base.{
  ℕ, ◌≡◌, true, false, not, ◌&&◌, Bytes, some, if◌then◌else◌, ◌==◌, is_empty, ◌++◌, ◌<◌, ◌∙◌, sym,
  [], length, append-nil, arith,
}
use qt_linux_im_project.Base.FdMap.{lookup}
use qt_linux_im_project.Wire.Text.{text_of, no_nul}
use qt_linux_im_project.Wire.Text.Fields.{text_of-c_field_fits}
use qt_linux_im_project.Wire.Message.{
  MessageHeader, ChatMessage, chat_group, chat_private, message_code, msg_chat_msg,
}
use qt_linux_im_project.Wire.Message.Chat.{put_chat_message, length-put_chat_message}
use qt_linux_im_project.Clients.{ClientInfo, get_online_clients}
use qt_linux_im_project.Clients.Targets.{get_fd_by_client_id_complete}
use qt_linux_im_project.Protocol.{header_of}
use qt_linux_im_project.Protocol.Frames.{frame, next_frame}
use qt_linux_im_project.Protocol.RoundTrip.{next_frame-pack_header}
use qt_linux_im_project.Protocol.RoundTrip.Chat.{
  chat_message_of-IsChatMessage, parse_chat_message-put,
}
use qt_linux_im_project.Protocol.Server.Pack.{chat_message_of, pack_chat_message}
use qt_linux_im_project.Protocol.Server.Parse.{parse_chat_message}
use qt_linux_im_project.Server.State.{Server, Clock}
use qt_linux_im_project.Server.Send.Effect.{lookup-send_to}
use qt_linux_im_project.Server.Chat.{
  online_client, scope_of, chat_packet, route_chat, handle_chat_message,
}
use qt_linux_im_project.Server.Chat.Routing.{
  is_online_fd, with_packet, has_fd-online, online-FdsFrom, lookup-send_others,
}
use qt_linux_im_project.Server.Invariant.{IsServer}

module _ (fd : ℕ) (h : MessageHeader) (body : Bytes) (clock : Clock) (s : Server)
    (msg : ChatMessage) (sender : ClientInfo) where
  abbrev pub packet_of : Bytes
  packet_of = chat_packet h.sequence sender msg clock

  routed :
      parse_chat_message body ≡ some msg
      → online_client fd s.clients ≡ some sender
      → handle_chat_message fd h body clock s
        ≡ route_chat fd (scope_of msg) (text_of 32 msg.to_id) packet_of s
  unfolding handle_chat_message
  routed p o = rw (p, handle_chat_message, o)

  -- A group message from a client that is online, in a state that keeps the invariant: the packet
  -- is queued once on the handler of every other descriptor that is online, and no other handler
  -- changes.
  pub group_delivery :
      (j : ℕ)
      → IsServer s
      → parse_chat_message body ≡ some msg
      → online_client fd s.clients ≡ some sender
      → scope_of msg ≡ chat_group
      → lookup j (handle_chat_message fd h body clock s).handlers ≡ (
          if not (fd == j) && is_online_fd j s.clients
          then with_packet packet_of (lookup j s.handlers)
          else lookup j s.handlers)
  unfolding route_chat
  group_delivery j v p o g =
      rw (routed p o, g, route_chat, ← has_fd-online j 0 s.clients v.table.sorted v.own)
        (lookup-send_others fd j 0 (get_online_clients s.clients) packet_of s
          (online-FdsFrom 0 s.clients v.table.sorted v.own))

  -- A private message from a client that is online, in a state that keeps the invariant, to an id
  -- that is not empty and that a connection has online: the packet is queued once on that
  -- connection's handler, and no other handler changes.
  pub private_delivery :
      (j target : ℕ) (info : ClientInfo)
      → IsServer s
      → parse_chat_message body ≡ some msg
      → online_client fd s.clients ≡ some sender
      → scope_of msg ≡ chat_private
      → is_empty (text_of 32 msg.to_id) ≡ false
      → lookup target s.clients ≡ some info
      → info.is_online ≡ true
      → info.client_id ≡ text_of 32 msg.to_id
      → lookup j (handle_chat_message fd h body clock s).handlers
        ≡ (if target == j then with_packet packet_of (lookup j s.handlers) else lookup j s.handlers)
  unfolding route_chat
  private_delivery j target info v p o g f e on id =
      let found =
        get_fd_by_client_id_complete (text_of 32 msg.to_id) target s.clients info v.table f e on
          id in
      rw (routed p o, g, route_chat, f, found) (lookup-send_to target j packet_of s)

same_route :
    (fd : ℕ) (h : MessageHeader) (clock : Clock) (s : Server) (m m' : ChatMessage)
    → (sender : ClientInfo) → m.chat_type ≡ m'.chat_type
    → m.to_id ≡ m'.to_id
    → m.timestamp ≡ m'.timestamp
    → m.message ≡ m'.message
    → route_chat fd (scope_of m) (text_of 32 m.to_id) (chat_packet h.sequence sender m clock) s
      ≡ route_chat fd (scope_of m') (text_of 32 m'.to_id) (chat_packet h.sequence sender m' clock) s
unfolding scope_of chat_packet
same_route fd h clock s m m' sender ty to ts tx = rw (ty, to, ts, tx)

-- The packet of a chat message names the sender by the id and the nickname of its entry, where
-- these hold no NUL and fit their fields.
named_packet :
    (sequence : ℕ) (sender : ClientInfo) (m : ChatMessage) (clock : Clock) (rest : Bytes)
    → no_nul sender.client_id ≡ true
    → length sender.client_id < 32
    → no_nul sender.nickname ≡ true
    → length sender.nickname < 64
    → (r : ChatMessage) × (answer : Bytes) × (next_frame
          (chat_packet sequence sender m clock ++ rest)
        ≡ frame (header_of (message_code msg_chat_msg) 393 sequence) answer rest)
      × (parse_chat_message answer ≡ some r)
      × (text_of 32 r.from_id ≡ sender.client_id)
      × (text_of 64 r.from_nick ≡ sender.nickname)
unfolding chat_packet pack_chat_message
named_packet sequence sender m clock rest z l z' l' =
    let out =
      chat_message_of (scope_of m) sender.client_id sender.nickname (text_of 32 m.to_id)
        (text_of 256 m.message) (if m.timestamp == 0 then clock.epoch_seconds else m.timestamp) in
    (
      out,
      put_chat_message out,
      next_frame-pack_header msg_chat_msg sequence 393 _ rest
          (length-put_chat_message _ (chat_message_of-IsChatMessage _ _ _ _ _ _)) (omega arith),
      rw (append-nil (put_chat_message out)) at (
          parse_chat_message-put (scope_of m) sender.client_id sender.nickname (text_of 32 m.to_id)
            (text_of 256 m.message) (if m.timestamp == 0 then clock.epoch_seconds else m.timestamp)
            []),
      unfold chat_message_of in text_of-c_field_fits 32 sender.client_id z l,
      unfold chat_message_of in text_of-c_field_fits 64 sender.nickname z' l',
    )

-- Two messages, from a client that is online, that say the same of the scope, the target, the time
-- and the text do the same, whatever sender's id and nickname they claim: they pass on one packet,
-- which, where the id and the nickname that the client logged in with hold no NUL and fit their
-- fields, is taken off the receiver's buffer and parses to a message from that id and nickname.
pub claimed_sender_ignored :
    (fd : ℕ) (h : MessageHeader) (b b' rest : Bytes) (clock : Clock) (s : Server)
    (m m' : ChatMessage) (sender : ClientInfo)
    → parse_chat_message b ≡ some m
    → parse_chat_message b' ≡ some m'
    → m.chat_type ≡ m'.chat_type
    → m.to_id ≡ m'.to_id
    → m.timestamp ≡ m'.timestamp
    → m.message ≡ m'.message
    → online_client fd s.clients ≡ some sender
    → no_nul sender.client_id ≡ true
    → length sender.client_id < 32
    → no_nul sender.nickname ≡ true
    → length sender.nickname < 64
    → (packet : Bytes) × (r : ChatMessage) × (answer : Bytes) × (handle_chat_message fd h b clock s
        ≡ route_chat fd (scope_of m) (text_of 32 m.to_id) packet s)
      × (handle_chat_message fd h b' clock s
          ≡ route_chat fd (scope_of m) (text_of 32 m.to_id) packet s)
      × (next_frame (packet ++ rest)
          ≡ frame (header_of (message_code msg_chat_msg) 393 h.sequence) answer rest)
      × (parse_chat_message answer ≡ some r)
      × (text_of 32 r.from_id ≡ sender.client_id)
      × (text_of 64 r.from_nick ≡ sender.nickname)
claimed_sender_ignored fd h b b' rest clock s m m' sender p p' ty to ts tx o z l z' l' =
    let (r, answer, taken_off, parsed, id, nick) =
      named_packet h.sequence sender m clock rest z l z' l' in
    (
      chat_packet h.sequence sender m clock,
      r,
      answer,
      routed fd h b clock s m sender p o,
      routed fd h b' clock s m' sender p' o ∙ sym (same_route fd h clock s m m' sender ty to ts tx),
      taken_off,
      parsed,
      id,
      nick,
    )
