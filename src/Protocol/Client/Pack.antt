-- ===== src/Protocol/Client/Pack.antt =====
-- The packers of client/network/protocol.cpp.
use qt_linux_im_project.Base.{ℕ, ◌+◌, ◌%◌, ◌^◌, ◌++◌, Bytes, length}
use qt_linux_im_project.Wire.Text.{c_field}
use qt_linux_im_project.Wire.Message.{
  msg_heartbeat_req, msg_login_req, msg_logout_req, msg_user_list_req, msg_file_data, LoginRequest,
  FileDataHeader, size_of_login_request, size_of_file_data_header,
}
use qt_linux_im_project.Wire.Message.Login.{put_login_request}
use qt_linux_im_project.Wire.Message.File.{put_file_data_header}
use qt_linux_im_project.Protocol.{pack_header}

unfoldable pub pack_heartbeat_request : ℕ → Bytes
pack_heartbeat_request sequence = pack_header msg_heartbeat_req 0 sequence

unfoldable pub login_request_of : Bytes → Bytes → LoginRequest
login_request_of client_id nickname = record {
  client_id = c_field 32 client_id;
  nickname = c_field 64 nickname;
}

unfoldable pub pack_login_request : ℕ → Bytes → Bytes → Bytes
unfolding login_request_of
pack_login_request sequence client_id nickname =
    pack_header msg_login_req size_of_login_request sequence
    ++ put_login_request (login_request_of client_id nickname)

unfoldable pub pack_logout_request : ℕ → Bytes
pack_logout_request sequence = pack_header msg_logout_req 0 sequence

unfoldable pub pack_user_list_request : ℕ → Bytes
pack_user_list_request sequence = pack_header msg_user_list_req 0 sequence

unfoldable pub file_data_header_of : Bytes → ℕ → ℕ → FileDataHeader
file_data_header_of file_id offset data_len = record {
  file_id = c_field 37 file_id;
  offset = offset % 2 ^ 64;
  chunk_size = data_len % 2 ^ 32;
}

unfoldable pub pack_file_data : ℕ → Bytes → ℕ → Bytes → Bytes
unfolding file_data_header_of
pack_file_data sequence file_id offset chunk =
    pack_header msg_file_data (size_of_file_data_header + length chunk) sequence
    ++ (put_file_data_header (file_data_header_of file_id offset (length chunk)) ++ chunk)
