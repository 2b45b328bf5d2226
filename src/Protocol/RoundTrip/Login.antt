-- ===== src/Protocol/RoundTrip/Login.antt =====
-- The login request of the client at the server, and the server's answer at the client.
use qt_linux_im_project.Base.{
  ℕ, ◌^◌, ◌<◌, ◌≡◌, true, ◌++◌, Bytes, some, length, length-append, [], append-nil, arith,
}
use qt_linux_im_project.Wire.Text.{text_of, no_nul, terminate}
use qt_linux_im_project.Wire.Text.Fields.{length-c_field, terminate-c_field, text_of-c_field_fits}
use qt_linux_im_project.Wire.Message.{
  LoginRequest, LoginResponse, message_code, msg_login_req, msg_login_rsp,
}
use qt_linux_im_project.Wire.Message.Login.{
  put_login_request, IsLoginRequest, length-put_login_request, get_login_request-put_login_request,
  put_login_response, IsLoginResponse, length-put_login_response,
  get_login_response-put_login_response,
}
use qt_linux_im_project.Protocol.{header_of}
use qt_linux_im_project.Protocol.Frames.{frame, next_frame}
use qt_linux_im_project.Protocol.RoundTrip.{next_frame-pack_header}
use qt_linux_im_project.Protocol.Client.Pack.{login_request_of, pack_login_request}
use qt_linux_im_project.Protocol.Client.Parse.{parse_login_response}
use qt_linux_im_project.Protocol.Server.Pack.{login_response_of, pack_login_response}
use qt_linux_im_project.Protocol.Server.Parse.{parse_login_request, terminate_login_request}

pub login_request_of-IsLoginRequest : (id nick : Bytes) → IsLoginRequest (login_request_of id nick)
unfolding login_request_of
login_request_of-IsLoginRequest id nick = record {
  client_id_size = length-c_field 32 id (omega arith);
  nickname_size = length-c_field 64 nick (omega arith);
}

parse_login_request-put :
    (id nick more : Bytes)
    → parse_login_request (put_login_request (login_request_of id nick) ++ more)
      ≡ some (login_request_of id nick)
unfolding parse_login_request
parse_login_request-put id nick more =
    let shape = login_request_of-IsLoginRequest id nick in
    rw (get_login_request-put_login_request (login_request_of id nick) more shape) (
      ground (
        arith,
        length-append (put_login_request (login_request_of id nick)) more,
        length-put_login_request _ shape,
        terminated,
      ))
  where
    terminated : terminate_login_request (login_request_of id nick) ≡ login_request_of id nick
    terminated =
        unfold terminate_login_request login_request_of in
        rw (terminate-c_field 32 id, terminate-c_field 64 nick)

-- A login request that the client packs, with an id of 1 to 31 and a nickname of up to 63 bytes that
-- hold no NUL, is taken off the server's buffer, whatever follows it, and parses to the same id and
-- nickname.
pub login_request_arrives :
    (sequence : ℕ) (id nick rest : Bytes)
    → no_nul id ≡ true
    → length id < 32
    → no_nul nick ≡ true
    → length nick < 64
    → (req : LoginRequest) × (body : Bytes) × (next_frame
          (pack_login_request sequence id nick ++ rest)
        ≡ frame (header_of (message_code msg_login_req) 96 sequence) body rest)
      × (parse_login_request body ≡ some req)
      × (text_of 32 req.client_id ≡ id)
      × (text_of 64 req.nickname ≡ nick)
unfolding pack_login_request
login_request_arrives sequence id nick rest z l z' l' = (
  login_request_of id nick,
  put_login_request (login_request_of id nick),
  next_frame-pack_header msg_login_req sequence 96 _ rest
      (length-put_login_request _ (login_request_of-IsLoginRequest id nick)) (omega arith),
  rw (append-nil (put_login_request (login_request_of id nick))) at
      (parse_login_request-put id nick []),
  unfold login_request_of in text_of-c_field_fits 32 id z l,
  unfold login_request_of in text_of-c_field_fits 64 nick z' l',
)

login_response_of-IsLoginResponse :
    (result : ℕ) (message : Bytes) → IsLoginResponse (login_response_of result message)
unfolding login_response_of
login_response_of-IsLoginResponse result message = record {
  result_fits = omega arith;
  message_size = length-c_field 128 message (omega arith);
}

parse_login_response-put :
    (result : ℕ) (message : Bytes) (more : Bytes)
    → parse_login_response (put_login_response (login_response_of result message) ++ more)
      ≡ some (login_response_of result message)
unfolding parse_login_response
parse_login_response-put result message more =
    let shape = login_response_of-IsLoginResponse result message in
    rw (get_login_response-put_login_response (login_response_of result message) more shape) (
      ground (
        arith,
        length-append (put_login_response (login_response_of result message)) more,
        length-put_login_response _ shape,
        terminated,
      ))
  where
    terminated :
        record (login_response_of result message) {
          message = terminate 128 (login_response_of result message).message;
        }
        ≡ login_response_of result message
    terminated = unfold login_response_of in rw (terminate-c_field 128 message)

-- The server's answer to a login, with a 32-bit result and a message of up to 127 bytes that holds no
-- NUL, is taken off the client's buffer and parses to the same result and message.
pub login_response_arrives :
    (sequence : ℕ) (result : ℕ) (message : Bytes) (rest : Bytes)
    → result < 2 ^ 32
    → no_nul message ≡ true
    → length message < 128
    → (r : LoginResponse) × (body : Bytes) × (next_frame
          (pack_login_response sequence result message ++ rest)
        ≡ frame (header_of (message_code msg_login_rsp) 132 sequence) body rest)
      × (parse_login_response body ≡ some r)
      × (r.result ≡ result)
      × (text_of 128 r.message ≡ message)
unfolding pack_login_response
login_response_arrives sequence result message rest r z0 l0 = (
  login_response_of result message,
  put_login_response (login_response_of result message),
  next_frame-pack_header msg_login_rsp sequence 132 _ rest
      (length-put_login_response _ (login_response_of-IsLoginResponse result message))
      (omega arith),
  rw (append-nil (put_login_response (login_response_of result message))) at
      (parse_login_response-put result message []),
  unfold login_response_of in omega arith,
  unfold login_response_of in text_of-c_field_fits 128 message z0 l0,
)
