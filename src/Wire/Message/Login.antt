-- ===== src/Wire/Message/Login.antt =====
-- The memory images of `LoginRequest`, `LoginResponse` and `UserInfo`, numbers in network order: what a packer
-- copies after the conversions, and what a parser has after `memcpy` and the conversions back,
-- before it terminates the character arrays.
use qt_linux_im_project.Base.{
  ◌^◌, ◌<◌, ◌≡◌, ◌++◌, Bytes, length, length-append, append_assoc, take, take-append_length, drop,
  drop-append_length, arith,
}
use qt_linux_im_project.Wire.Word.{put_u32, get_u32, length-put_u32, get_u32-put_u32}
use qt_linux_im_project.Wire.Message.{LoginRequest, LoginResponse, UserInfo}

unfoldable pub put_login_request : LoginRequest → Bytes
put_login_request r = r.client_id ++ (r.nickname)

unfoldable pub get_login_request : Bytes → LoginRequest
get_login_request b0 =
    let b1 = drop 32 b0 in record { client_id = take 32 b0; nickname = take 64 b1 }

-- Arrays of the declared sizes, and numbers of the declared widths.
pub record IsLoginRequest (r : LoginRequest) : Type 0 where
  pub client_id_size : length r.client_id ≡ 32
  pub nickname_size : length r.nickname ≡ 64

pub length-put_login_request :
    (r : LoginRequest) → IsLoginRequest r → length (put_login_request r) ≡ 96
unfolding put_login_request
length-put_login_request r v = omega (arith, length-append r.client_id (r.nickname))

pub get_login_request-put_login_request :
    (r : LoginRequest) (rest : Bytes)
    → IsLoginRequest r
    → get_login_request (put_login_request r ++ rest) ≡ r
unfolding get_login_request put_login_request
get_login_request-put_login_request r rest v = rw (
  append_assoc r.client_id _ rest,
  drop-append_length 32 r.client_id _ (v.client_id_size),
  take-append_length 32 r.client_id _ (v.client_id_size),
  take-append_length 64 r.nickname _ (v.nickname_size),
)

unfoldable pub put_login_response : LoginResponse → Bytes
put_login_response r = put_u32 r.result ++ (r.message)

unfoldable pub get_login_response : Bytes → LoginResponse
get_login_response b0 =
    let b1 = drop 4 b0 in record { result = get_u32 (take 4 b0); message = take 128 b1 }

-- Arrays of the declared sizes, and numbers of the declared widths.
pub record IsLoginResponse (r : LoginResponse) : Type 0 where
  pub result_fits : r.result < 2 ^ 32
  pub message_size : length r.message ≡ 128

pub length-put_login_response :
    (r : LoginResponse) → IsLoginResponse r → length (put_login_response r) ≡ 132
unfolding put_login_response
length-put_login_response r v =
    omega (arith, length-append (put_u32 r.result) (r.message), length-put_u32 r.result)

pub get_login_response-put_login_response :
    (r : LoginResponse) (rest : Bytes)
    → IsLoginResponse r
    → get_login_response (put_login_response r ++ rest) ≡ r
unfolding get_login_response put_login_response
get_login_response-put_login_response r rest v = rw (
  append_assoc (put_u32 r.result) _ rest,
  drop-append_length 4 (put_u32 r.result) _ (length-put_u32 r.result),
  take-append_length 4 (put_u32 r.result) _ (length-put_u32 r.result),
  take-append_length 128 r.message _ (v.message_size),
  get_u32-put_u32 r.result v.result_fits,
)

unfoldable pub put_user_info : UserInfo → Bytes
put_user_info r = r.client_id ++ (r.nickname)

unfoldable pub get_user_info : Bytes → UserInfo
get_user_info b0 = let b1 = drop 32 b0 in record { client_id = take 32 b0; nickname = take 64 b1 }

-- Arrays of the declared sizes, and numbers of the declared widths.
pub record IsUserInfo (r : UserInfo) : Type 0 where
  pub client_id_size : length r.client_id ≡ 32
  pub nickname_size : length r.nickname ≡ 64

pub length-put_user_info : (r : UserInfo) → IsUserInfo r → length (put_user_info r) ≡ 96
unfolding put_user_info
length-put_user_info r v = omega (arith, length-append r.client_id (r.nickname))

pub get_user_info-put_user_info :
    (r : UserInfo) (rest : Bytes) → IsUserInfo r → get_user_info (put_user_info r ++ rest) ≡ r
unfolding get_user_info put_user_info
get_user_info-put_user_info r rest v = rw (
  append_assoc r.client_id _ rest,
  drop-append_length 32 r.client_id _ (v.client_id_size),
  take-append_length 32 r.client_id _ (v.client_id_size),
  take-append_length 64 r.nickname _ (v.nickname_size),
)
