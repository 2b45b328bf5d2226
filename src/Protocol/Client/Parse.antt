-- ===== src/Protocol/Client/Parse.antt =====
-- The parsers of client/network/protocol.cpp. `none` is the answer `false`.
use qt_linux_im_project.Base.{
  ℕ, zero, suc, ◌+◌, ◌*◌, List, [], ◌∷◌, Bytes, Option, none, some, ltb, if◌then◌else◌, length,
  take, drop,
}
use qt_linux_im_project.Wire.Text.{terminate}
use qt_linux_im_project.Wire.Word.{get_u32}
use qt_linux_im_project.Wire.Message.{
  LoginResponse, UserInfo, FileDataHeader, size_of_login_response, size_of_user_info,
  size_of_file_data_header,
}
use qt_linux_im_project.Wire.Message.Login.{get_login_response, get_user_info}
use qt_linux_im_project.Wire.Message.File.{get_file_data_header}

unfoldable pub parse_login_response : Bytes → Option LoginResponse
parse_login_response bytes =
    if ltb (length bytes) size_of_login_response
    then none
    else let rsp = get_login_response bytes in
      some (record rsp { message = terminate 128 rsp.message })

unfoldable pub terminate_user_info : UserInfo → UserInfo
terminate_user_info info = record info {
  client_id = terminate 32 info.client_id;
  nickname = terminate 64 info.nickname;
}

-- The loop over `count` structs, from the bytes at the current offset on.
unfoldable pub get_users : ℕ → Bytes → List UserInfo
unfolding terminate_user_info
get_users zero bytes = []
get_users (suc count) bytes =
    terminate_user_info (get_user_info bytes) ∷ get_users count (drop size_of_user_info bytes)

unfoldable pub parse_user_list_response : Bytes → Option (List UserInfo)
unfolding get_users
parse_user_list_response bytes =
    if ltb (length bytes) 4
    then none
    else let count = get_u32 (take 4 bytes) in
      let expected = 4 + count * size_of_user_info in
      if ltb (length bytes) expected then none else some (get_users count (drop 4 bytes))

-- The header and the payload.
unfoldable pub parse_file_data : Bytes → Option (FileDataHeader × Bytes)
parse_file_data bytes =
    if ltb (length bytes) size_of_file_data_header
    then none
    else let raw = get_file_data_header bytes in
      let header = record raw { file_id = terminate 37 raw.file_id } in
      let total = size_of_file_data_header + header.chunk_size in
      if ltb (length bytes) total
      then none
      else some (header, take header.chunk_size (drop size_of_file_data_header bytes))
