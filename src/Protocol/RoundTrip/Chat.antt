-- ===== src/Protocol/RoundTrip/Chat.antt =====
-- A chat message from either side at the other.
use qt_linux_im_project.Base.{
  ℕ, ◌^◌, ◌<◌, ◌≡◌, refl, true, [], ◌++◌, Bytes, some, length, length-append, append-nil, arith,
}
use qt_linux_im_project.Wire.Text.{text_of, no_nul}
use qt_linux_im_project.Wire.Text.Fields.{length-c_field, terminate-c_field, text_of-c_field_fits}
use qt_linux_im_project.Protocol.{header_of}
use qt_linux_im_project.Protocol.Frames.{frame, next_frame}
use qt_linux_im_project.Protocol.RoundTrip.{next_frame-pack_header}
use qt_linux_im_project.Wire.Message.Chat.{
  put_chat_message, IsChatMessage, length-put_chat_message, get_chat_message-put_chat_message,
}
use qt_linux_im_project.Wire.Message.{
  ChatMessage, ChatScope, chat_group, chat_private, scope_code, message_code, msg_chat_msg,
}
use qt_linux_im_project.Protocol.Server.Pack.{chat_message_of, pack_chat_message}
use qt_linux_im_project.Protocol.Server.Parse.{parse_chat_message, terminate_chat_message}

scope_code-lt : (scope : ChatScope) → scope_code scope < 256
unfolding scope_code
scope_code-lt chat_group = omega arith
scope_code-lt chat_private = omega arith

pub chat_message_of-IsChatMessage :
    (scope : ChatScope) (from_id from_nick to_id message : Bytes) (timestamp : ℕ)
    → IsChatMessage (chat_message_of scope from_id from_nick to_id message timestamp)
unfolding chat_message_of
chat_message_of-IsChatMessage scope from_id from_nick to_id message timestamp = record {
  chat_type_fits = scope_code-lt scope;
  from_id_size = length-c_field 32 from_id (omega arith);
  from_nick_size = length-c_field 64 from_nick (omega arith);
  to_id_size = length-c_field 32 to_id (omega arith);
  timestamp_fits = omega arith;
  message_size = length-c_field 256 message (omega arith);
}

pub parse_chat_message-put :
    (scope : ChatScope) (from_id from_nick to_id message : Bytes) (timestamp : ℕ) (more : Bytes)
    → parse_chat_message
        (put_chat_message (chat_message_of scope from_id from_nick to_id message timestamp) ++ more)
      ≡ some (chat_message_of scope from_id from_nick to_id message timestamp)
unfolding parse_chat_message
parse_chat_message-put scope from_id from_nick to_id message timestamp more =
    let shape = chat_message_of-IsChatMessage scope from_id from_nick to_id message timestamp in
    rw
      (get_chat_message-put_chat_message
        (chat_message_of scope from_id from_nick to_id message timestamp) more shape)
      (ground (
        arith,
        length-append
            (put_chat_message (chat_message_of scope from_id from_nick to_id message timestamp))
            more,
        length-put_chat_message _ shape,
        terminated,
      ))
  where
    terminated :
        terminate_chat_message (chat_message_of scope from_id from_nick to_id message timestamp)
        ≡ chat_message_of scope from_id from_nick to_id message timestamp
    terminated =
        unfold terminate_chat_message chat_message_of in
        rw (
          terminate-c_field 32 from_id,
          terminate-c_field 64 from_nick,
          terminate-c_field 32 to_id,
          terminate-c_field 256 message,
        )

-- A chat message packed by either side, from strings with no NUL that fit their fields and a 64-bit
-- time, is taken off the receiver's buffer and parses to the same scope, sender, nickname, target,
-- time and text.
pub chat_message_arrives :
    (sequence : ℕ) (scope : ChatScope) (from_id from_nick to_id message : Bytes) (timestamp : ℕ)
    (rest : Bytes)
    → no_nul from_id ≡ true
    → length from_id < 32
    → no_nul from_nick ≡ true
    → length from_nick < 64
    → no_nul to_id ≡ true
    → length to_id < 32
    → no_nul message ≡ true
    → length message < 256
    → timestamp < 2 ^ 64
    → (r : ChatMessage) × (body : Bytes) × (next_frame
          (pack_chat_message sequence scope from_id from_nick to_id message timestamp ++ rest)
        ≡ frame (header_of (message_code msg_chat_msg) 393 sequence) body rest)
      × (parse_chat_message body ≡ some r)
      × (r.chat_type ≡ scope_code scope)
      × (text_of 32 r.from_id ≡ from_id)
      × (text_of 64 r.from_nick ≡ from_nick)
      × (text_of 32 r.to_id ≡ to_id)
      × (r.timestamp ≡ timestamp)
      × (text_of 256 r.message ≡ message)
unfolding pack_chat_message
chat_message_arrives sequence scope from_id from_nick to_id message timestamp rest z0 l0 z1 l1 z2 l2
      z3 l3 t =
    (
      chat_message_of scope from_id from_nick to_id message timestamp,
      put_chat_message (chat_message_of scope from_id from_nick to_id message timestamp),
      next_frame-pack_header msg_chat_msg sequence 393 _ rest
          (length-put_chat_message _
            (chat_message_of-IsChatMessage scope from_id from_nick to_id message timestamp))
          (omega arith),
      rw
          (append-nil
            (put_chat_message (chat_message_of scope from_id from_nick to_id message timestamp)))
          at (parse_chat_message-put scope from_id from_nick to_id message timestamp []),
      unfold chat_message_of in refl,
      unfold chat_message_of in text_of-c_field_fits 32 from_id z0 l0,
      unfold chat_message_of in text_of-c_field_fits 64 from_nick z1 l1,
      unfold chat_message_of in text_of-c_field_fits 32 to_id z2 l2,
      unfold chat_message_of in omega arith,
      unfold chat_message_of in text_of-c_field_fits 256 message z3 l3,
    )
