-- ===== src/Wire/Message/Chat.antt =====
-- The memory images of `ChatMessage`, numbers in network order: what a packer
-- copies after the conversions, and what a parser has after `memcpy` and the conversions back,
-- before it terminates the character arrays.
use qt_linux_im_project.Base.{
  ℕ, ◌%◌, ◌^◌, ◌<◌, ◌≡◌, refl, [], ◌∷◌, ◌++◌, Bytes, length, length-append, append_assoc, take,
  take-append_length, drop, drop-append_length, get_or, arith,
}
use qt_linux_im_project.Wire.Word.{put_u64, get_u64, length-put_u64, get_u64-put_u64}
use qt_linux_im_project.Wire.Message.{ChatMessage}

pub get_u8-put_u8 : (v : ℕ) → v < 256 → get_or (v % 256 ∷ []) 0 0 ≡ v
get_u8-put_u8 v h = omega arith

unfoldable pub put_chat_message : ChatMessage → Bytes
put_chat_message r =
    (r.chat_type % 256 ∷ [])
    ++ (r.from_id ++ (r.from_nick ++ (r.to_id ++ (put_u64 r.timestamp ++ (r.message)))))

unfoldable pub get_chat_message : Bytes → ChatMessage
get_chat_message b0 =
    let b1 = drop 1 b0 in
    let b2 = drop 32 b1 in
    let b3 = drop 64 b2 in
    let b4 = drop 32 b3 in
    let b5 = drop 8 b4 in
    record {
      chat_type = get_or (take 1 b0) 0 0;
      from_id = take 32 b1;
      from_nick = take 64 b2;
      to_id = take 32 b3;
      timestamp = get_u64 (take 8 b4);
      message = take 256 b5;
    }

-- Arrays of the declared sizes, and numbers of the declared widths.
pub record IsChatMessage (r : ChatMessage) : Type 0 where
  pub chat_type_fits : r.chat_type < 256
  pub from_id_size : length r.from_id ≡ 32
  pub from_nick_size : length r.from_nick ≡ 64
  pub to_id_size : length r.to_id ≡ 32
  pub timestamp_fits : r.timestamp < 2 ^ 64
  pub message_size : length r.message ≡ 256

pub length-put_chat_message :
    (r : ChatMessage) → IsChatMessage r → length (put_chat_message r) ≡ 393
unfolding put_chat_message
length-put_chat_message r v = omega (
  arith,
  length-append (r.chat_type % 256 ∷ [])
      (r.from_id ++ (r.from_nick ++ (r.to_id ++ (put_u64 r.timestamp ++ (r.message))))),
  length-append r.from_id (r.from_nick ++ (r.to_id ++ (put_u64 r.timestamp ++ (r.message)))),
  length-append r.from_nick (r.to_id ++ (put_u64 r.timestamp ++ (r.message))),
  length-append r.to_id (put_u64 r.timestamp ++ (r.message)),
  length-append (put_u64 r.timestamp) (r.message),
  length-put_u64 r.timestamp,
)

pub get_chat_message-put_chat_message :
    (r : ChatMessage) (rest : Bytes)
    → IsChatMessage r
    → get_chat_message (put_chat_message r ++ rest) ≡ r
unfolding get_chat_message put_chat_message
get_chat_message-put_chat_message r rest v = rw (
  append_assoc (r.chat_type % 256 ∷ []) _ rest,
  append_assoc r.from_id _ rest,
  append_assoc r.from_nick _ rest,
  append_assoc r.to_id _ rest,
  append_assoc (put_u64 r.timestamp) _ rest,
  drop-append_length 1 (r.chat_type % 256 ∷ []) _ (refl),
  drop-append_length 32 r.from_id _ (v.from_id_size),
  drop-append_length 64 r.from_nick _ (v.from_nick_size),
  drop-append_length 32 r.to_id _ (v.to_id_size),
  drop-append_length 8 (put_u64 r.timestamp) _ (length-put_u64 r.timestamp),
  take-append_length 1 (r.chat_type % 256 ∷ []) _ (refl),
  take-append_length 32 r.from_id _ (v.from_id_size),
  take-append_length 64 r.from_nick _ (v.from_nick_size),
  take-append_length 32 r.to_id _ (v.to_id_size),
  take-append_length 8 (put_u64 r.timestamp) _ (length-put_u64 r.timestamp),
  take-append_length 256 r.message _ (v.message_size),
  get_u8-put_u8 r.chat_type v.chat_type_fits,
  get_u64-put_u64 r.timestamp v.timestamp_fits,
)
