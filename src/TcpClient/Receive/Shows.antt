-- ===== src/TcpClient/Receive/Shows.antt =====
-- A chat message that the server passes on, at the client that it reaches.
use qt_linux_im_project.Base.{
  ℕ, ◌^◌, ◌%◌, ◌<◌, ◌≡◌, refl, sym, ap, ◌∙◌, Bool, true, false, List, [], ◌∷◌, Bytes, some,
  if◌then◌else◌, length, append-nil, arith, ◌==◌,
}
use qt_linux_im_project.Wire.Text.{no_nul, text_of}
use qt_linux_im_project.Wire.Text.Fields.{c_str-c_field_fits}
use qt_linux_im_project.Wire.Message.{
  ChatMessage, ChatScope, chat_private, chat_group, scope_code, message_code, message_type,
  msg_chat_msg,
}
use qt_linux_im_project.Wire.Message.Chat.{put_chat_message, length-put_chat_message}
use qt_linux_im_project.Protocol.{header_of}
use qt_linux_im_project.Protocol.Frames.Chunks.{join}
use qt_linux_im_project.Protocol.Frames.Stream.{stream}
use qt_linux_im_project.Protocol.Server.Pack.{pack_chat_message, chat_message_of}
use qt_linux_im_project.Protocol.Server.Parse.{parse_chat_message}
use qt_linux_im_project.Protocol.RoundTrip.{header_of-IsFrame}
use qt_linux_im_project.Protocol.RoundTrip.Chat.{
  parse_chat_message-put, chat_message_of-IsChatMessage,
}
use qt_linux_im_project.Protocol.RoundTrip.Packets.{pack_header-packet}
use qt_linux_im_project.Clients.{ClientInfo}
use qt_linux_im_project.Server.State.{Clock}
use qt_linux_im_project.Server.Chat.{chat_packet, scope_of}
use qt_linux_im_project.TcpClient.{
  Qt, Disk, Client, TcpClient, text_field, emit, chat_message_received,
}
use qt_linux_im_project.TcpClient.Receive.{process_message, process_typed, on_chat_message}
use qt_linux_im_project.TcpClient.Receive.Pieces.{read_pieces, read_pieces-stream}

-- A text that fits its field with the NUL behind it.
pub record IsText (n : ℕ) (text : Bytes) : Type 0 where
  pub no_zero : no_nul text ≡ true
  pub fits : length text < n

abbrev pub is_private : ChatScope → Bool
is_private chat_group = false
is_private chat_private = true

module _ (qt : Qt) (scope : ChatScope) (from_id from_nick to_id message : Bytes) (timestamp : ℕ)
    (a : IsText 32 from_id) (b : IsText 64 from_nick) (t : IsText 32 to_id) (v : IsText 256 message)
    (h : timestamp < 2 ^ 64) where
  abbrev sent_body : Bytes
  sent_body = put_chat_message (chat_message_of scope from_id from_nick to_id message timestamp)

  abbrev shown : Client → Client
  shown c =
      emit
        (chat_message_received (qt.from_utf8 from_id) (qt.from_utf8 from_nick)
          (qt.from_utf8 message) (is_private scope) (qt.from_utf8 to_id) timestamp)
        c

  fields-shown :
      (c : Client)
      → emit
          (chat_message_received
            (text_field qt
              (chat_message_of scope from_id from_nick to_id message timestamp).from_id)
            (text_field qt
              (chat_message_of scope from_id from_nick to_id message timestamp).from_nick)
            (text_field qt
              (chat_message_of scope from_id from_nick to_id message timestamp).message)
            ((chat_message_of scope from_id from_nick to_id message timestamp).chat_type
              == scope_code chat_private)
            (text_field qt (chat_message_of scope from_id from_nick to_id message timestamp).to_id)
            (chat_message_of scope from_id from_nick to_id message timestamp).timestamp)
          c
        ≡ shown c
  unfolding chat_message_of
  fields-shown c =
      let time : timestamp % 2 ^ 64 ≡ timestamp = omega arith in
      let private : (scope_code scope == scope_code chat_private) ≡ is_private scope =
        unfold scope_code in ground arith in
      rw
        (
          text_field,
          c_str-c_field_fits 32 from_id a.no_zero a.fits,
          c_str-c_field_fits 64 from_nick b.no_zero b.fits,
          c_str-c_field_fits 32 to_id t.no_zero t.fits,
          c_str-c_field_fits 256 message v.no_zero v.fits,
          time,
          private,
        )
        refl

  on_chat_message-shown : (c : Client) → on_chat_message qt sent_body c ≡ shown c
  unfolding on_chat_message
  on_chat_message-shown c =
      let parsed : parse_chat_message sent_body
          ≡ some (chat_message_of scope from_id from_nick to_id message timestamp) =
        ap parse_chat_message (sym (append-nil sent_body))
        ∙ parse_chat_message-put scope from_id from_nick to_id message timestamp [] in
      rw (parsed, on_chat_message) (fields-shown c)

  process_message-shown :
      (disk : Disk) (sequence : ℕ) (c : Client)
      → process_message qt disk
          (header_of (message_code msg_chat_msg) (length sent_body) sequence)
          sent_body
          c
        ≡ shown c
  unfolding process_message process_typed header_of message_code message_type
  process_message-shown disk sequence c = on_chat_message-shown c

  length-sent_body : length sent_body ≡ 393
  length-sent_body =
      length-put_chat_message _
        (chat_message_of-IsChatMessage scope from_id from_nick to_id message timestamp)

  packed :
      (sequence : ℕ)
      → pack_chat_message sequence scope from_id from_nick to_id message timestamp
        ≡ stream
            ((header_of (message_code msg_chat_msg) (length sent_body) sequence, sent_body) ∷ [])
  unfolding pack_chat_message
  packed sequence =
      pack_header-packet msg_chat_msg sequence 393 sent_body length-sent_body ∙ sym (append-nil _)

  pack_chat_message-shown :
      (disk : Disk) (sequence : ℕ) (ds : List Bytes) (receiver : TcpClient)
      → receiver.recv_buffer ≡ []
      → join ds ≡ pack_chat_message sequence scope from_id from_nick to_id message timestamp
      → ((read_pieces qt disk ds receiver).recv_buffer ≡ [])
        × ((read_pieces qt disk ds receiver).members ≡ shown receiver.members)
  pack_chat_message-shown disk sequence ds receiver e j =
      let read =
        read_pieces-stream qt disk ds
          ((header_of (message_code msg_chat_msg) (length sent_body) sequence, sent_body) ∷ [])
          receiver e (j ∙ packed sequence)
          (
            header_of-IsFrame (message_code msg_chat_msg) sequence sent_body
                (omega (arith, length-sent_body)),
            tt,
          ) in
      (read.0, read.1 ∙ process_message-shown disk sequence receiver.members)

-- The packet that the server makes of a chat message for those who get it, in whatever pieces it
-- reaches a client with an empty buffer, from a sender whose registered names, and with texts that,
-- fit their fields: the client emits one signal and does nothing else. The signal has the sender's
-- registered id and nickname, whatever the message named, the message's text, target and scope, and
-- the server's time where the message has none.
pub chat_packet-shown :
    (qt : Qt) (disk : Disk) (sequence : ℕ) (sender : ClientInfo) (msg : ChatMessage) (clock : Clock)
    (ds : List Bytes) (receiver : TcpClient)
    → IsText 32 sender.client_id
    → IsText 64 sender.nickname
    → IsText 32 (text_of 32 msg.to_id)
    → IsText 256 (text_of 256 msg.message)
    → msg.timestamp < 2 ^ 64
    → clock.epoch_seconds < 2 ^ 64
    → receiver.recv_buffer ≡ []
    → join ds ≡ chat_packet sequence sender msg clock
    → ((read_pieces qt disk ds receiver).recv_buffer ≡ [])
      × ((read_pieces qt disk ds receiver).members
          ≡ emit
              (chat_message_received
                (qt.from_utf8 sender.client_id)
                (qt.from_utf8 sender.nickname)
                (qt.from_utf8 (text_of 256 msg.message))
                (is_private (scope_of msg))
                (qt.from_utf8 (text_of 32 msg.to_id))
                (if msg.timestamp == 0 then clock.epoch_seconds else msg.timestamp))
              receiver.members)
unfolding chat_packet
chat_packet-shown qt disk sequence sender msg clock ds receiver a b t v h k e j =
    pack_chat_message-shown qt (scope_of msg) sender.client_id sender.nickname
      (text_of 32 msg.to_id) (text_of 256 msg.message)
      (if msg.timestamp == 0 then clock.epoch_seconds else msg.timestamp) a b t v (ground arith)
      disk sequence ds receiver e j
