-- ===== src/Protocol/RoundTrip/UserList.antt =====
-- The list of users that the server broadcasts, at the client.
use qt_linux_im_project.Base.{
  ℕ, ◌+◌, ◌*◌, ◌%◌, ◌^◌, ◌≤◌, ◌<◌, ◌≡◌, refl, ap₂, List, [], ◌∷◌, ◌++◌, Bytes, some, length,
  length-append, arith, take-append_length, drop-append_length, All,
}
use qt_linux_im_project.Protocol.{header_of}
use qt_linux_im_project.Protocol.Frames.{frame, next_frame}
use qt_linux_im_project.Protocol.RoundTrip.{next_frame-pack_header}
use qt_linux_im_project.Wire.Message.Login.{
  put_user_info, IsUserInfo, length-put_user_info, get_user_info-put_user_info,
}
use qt_linux_im_project.Wire.Word.{put_u32, length-put_u32, get_u32-put_u32}
use qt_linux_im_project.Wire.Message.{UserInfo, message_code, msg_user_list_rsp}
use qt_linux_im_project.Protocol.Server.Pack.{put_users, pack_user_list_response}
use qt_linux_im_project.Protocol.Client.Parse.{
  terminate_user_info, get_users, parse_user_list_response,
}

-- A struct as the server fills it: arrays of the right sizes, the last character NUL.
pub record IsUser (u : UserInfo) : Type 0 where
  pub shape : IsUserInfo u
  pub terminated : terminate_user_info u ≡ u

length-put_users :
    (users : List UserInfo) → All IsUser users → length (put_users users) ≡ length users * 96
unfolding put_users
length-put_users [] v = omega arith
length-put_users (u ∷ users) (v, vs) = omega (
  arith,
  length-append (put_user_info u) (put_users users),
  length-put_user_info u v.shape,
  length-put_users users vs,
)

get_users-put_users :
    (users : List UserInfo) → All IsUser users → get_users (length users) (put_users users) ≡ users
unfolding get_users put_users
get_users-put_users [] v = refl
get_users-put_users (u ∷ users) (v, vs) =
    rw
      (
        get_user_info-put_user_info u (put_users users) v.shape,
        drop-append_length 96 (put_user_info u) (put_users users) (length-put_user_info u v.shape),
      )
      (ap₂ (◌∷◌) v.terminated (get_users-put_users users vs))

parse_user_list_response-put :
    (users : List UserInfo)
    → All IsUser users
    → length users < 2 ^ 32
    → parse_user_list_response (put_u32 (length users % 2 ^ 32) ++ put_users users) ≡ some users
unfolding parse_user_list_response
parse_user_list_response-put users v h =
    let count = length users % 2 ^ 32 in
    let same : count ≡ length users = omega arith in
    rw
      (
        take-append_length 4 (put_u32 count) (put_users users) (length-put_u32 count),
        drop-append_length 4 (put_u32 count) (put_users users) (length-put_u32 count),
        get_u32-put_u32 count (omega arith),
      )
      (ground (
        arith,
        same,
        get_users-put_users users v,
        length-append (put_u32 count) (put_users users),
        length-put_u32 count,
        length-put_users users v,
      ))

-- A user list of at most 10922 users (the most that 1 MiB holds), each a terminated struct, is taken
-- off the client's buffer and parses to the same users in the same order.
pub user_list_arrives :
    (sequence : ℕ) (users : List UserInfo) (rest : Bytes)
    → All IsUser users
    → length users ≤ 10922
    → (body : Bytes) × (next_frame (pack_user_list_response sequence users ++ rest)
        ≡ frame
            (header_of (message_code msg_user_list_rsp) (4 + length users * 96) sequence)
            body
            rest)
      × (parse_user_list_response body ≡ some users)
unfolding pack_user_list_response
user_list_arrives sequence users rest v h = (
  put_u32 (length users % 2 ^ 32) ++ put_users users,
  next_frame-pack_header msg_user_list_rsp sequence (4 + length users * 96) _ rest
      (omega (
        arith,
        length-append (put_u32 (length users % 2 ^ 32)) (put_users users),
        length-put_u32 (length users % 2 ^ 32),
        length-put_users users v,
      ))
      (omega arith),
  parse_user_list_response-put users v (omega arith),
)
