-- ===== src/Protocol/RoundTrip/Packets.antt =====
-- Each packer of the client makes one valid packet, whatever strings and numbers it is given.
use qt_linux_im_project.Base.{
  ℕ, ◌+◌, ◌*◌, ◌≤◌, ◌≡◌, refl, [], ◌++◌, Bytes, length, length-append, append-nil, arith,
}
use qt_linux_im_project.Wire.Message.{
  MessageType, MessageHeader, ChatScope, message_code, msg_heartbeat_req, msg_login_req,
  msg_logout_req, msg_chat_msg, msg_user_list_req, msg_file_offer, msg_file_offer_rsp,
  msg_file_data,
}
use qt_linux_im_project.Wire.Message.Login.{length-put_login_request}
use qt_linux_im_project.Wire.Message.Chat.{length-put_chat_message}
use qt_linux_im_project.Wire.Message.File.{
  length-put_file_offer, length-put_file_offer_response, length-put_file_data_header,
  put_file_data_header,
}
use qt_linux_im_project.Protocol.{header_of, pack_header, packet}
use qt_linux_im_project.Protocol.Frames.Stream.{IsFrame}
use qt_linux_im_project.Protocol.Client.Pack.{
  pack_heartbeat_request, pack_login_request, pack_logout_request, pack_user_list_request,
  pack_file_data, file_data_header_of,
}
use qt_linux_im_project.Protocol.Server.Pack.{
  pack_chat_message, pack_file_offer, pack_file_offer_response,
}
use qt_linux_im_project.Protocol.RoundTrip.{header_of-IsFrame}
use qt_linux_im_project.Protocol.RoundTrip.Login.{login_request_of-IsLoginRequest}
use qt_linux_im_project.Protocol.RoundTrip.Chat.{chat_message_of-IsChatMessage}
use qt_linux_im_project.Protocol.RoundTrip.Files.{
  file_offer_of-IsFileOffer, file_offer_response_of-IsFileOfferResponse,
  file_data_header_of-IsFileDataHeader,
}

-- One packet that `validateHeader` accepts, with the body that its header announces.
pub record IsPacket (b : Bytes) : Type 0 where
  pub message : MessageHeader × Bytes
  pub same : b ≡ packet message.0 message.1
  pub frame : IsFrame message

pub pack_header-packet :
    (t : MessageType) (sequence len : ℕ) (body : Bytes)
    → length body ≡ len
    → pack_header t len sequence ++ body
      ≡ packet (header_of (message_code t) (length body) sequence) body
unfolding pack_header packet
pack_header-packet t sequence len body e = rw e

pack_header-IsPacket :
    (t : MessageType) (sequence len : ℕ) (body : Bytes)
    → length body ≡ len
    → len ≤ 1024 * 1024
    → IsPacket (pack_header t len sequence ++ body)
pack_header-IsPacket t sequence len body e h = record {
  message = (header_of (message_code t) (length body) sequence, body);
  same = pack_header-packet t sequence len body e;
  frame = header_of-IsFrame (message_code t) sequence body (omega arith);
}

-- A packet with no body.
empty-IsPacket : (t : MessageType) (sequence : ℕ) → IsPacket (pack_header t 0 sequence)
empty-IsPacket t sequence =
    rw (append-nil (pack_header t 0 sequence)) at
      (pack_header-IsPacket t sequence 0 [] refl (omega arith))

pub heartbeat_request-IsPacket : (sequence : ℕ) → IsPacket (pack_heartbeat_request sequence)
unfolding pack_heartbeat_request
heartbeat_request-IsPacket sequence = empty-IsPacket msg_heartbeat_req sequence

pub logout_request-IsPacket : (sequence : ℕ) → IsPacket (pack_logout_request sequence)
unfolding pack_logout_request
logout_request-IsPacket sequence = empty-IsPacket msg_logout_req sequence

pub user_list_request-IsPacket : (sequence : ℕ) → IsPacket (pack_user_list_request sequence)
unfolding pack_user_list_request
user_list_request-IsPacket sequence = empty-IsPacket msg_user_list_req sequence

pub login_request-IsPacket :
    (sequence : ℕ) (id nick : Bytes) → IsPacket (pack_login_request sequence id nick)
unfolding pack_login_request
login_request-IsPacket sequence id nick =
    pack_header-IsPacket msg_login_req sequence 96 _
      (length-put_login_request _ (login_request_of-IsLoginRequest id nick)) (omega arith)

pub chat_message-IsPacket :
    (sequence : ℕ) (scope : ChatScope) (from_id from_nick to_id message : Bytes) (timestamp : ℕ)
    → IsPacket (pack_chat_message sequence scope from_id from_nick to_id message timestamp)
unfolding pack_chat_message
chat_message-IsPacket sequence scope from_id from_nick to_id message timestamp =
    pack_header-IsPacket msg_chat_msg sequence 393 _
      (length-put_chat_message _
        (chat_message_of-IsChatMessage scope from_id from_nick to_id message timestamp))
      (omega arith)

pub file_offer-IsPacket :
    (sequence : ℕ) (file_id file_name : Bytes) (file_size : ℕ) (from_id from_nick to_id : Bytes)
    → IsPacket (pack_file_offer sequence file_id file_name file_size from_id from_nick to_id)
unfolding pack_file_offer
file_offer-IsPacket sequence file_id file_name file_size from_id from_nick to_id =
    pack_header-IsPacket msg_file_offer sequence 429 _
      (length-put_file_offer _
        (file_offer_of-IsFileOffer file_id file_name file_size from_id from_nick to_id))
      (omega arith)

pub file_offer_response-IsPacket :
    (sequence : ℕ) (file_id : Bytes) (result : ℕ) (message : Bytes)
    → IsPacket (pack_file_offer_response sequence file_id result message)
unfolding pack_file_offer_response
file_offer_response-IsPacket sequence file_id result message =
    pack_header-IsPacket msg_file_offer_rsp sequence 105 _
      (length-put_file_offer_response _
        (file_offer_response_of-IsFileOfferResponse file_id result message))
      (omega arith)

-- The body of a chunk's packet.
abbrev pub file_data_body : Bytes → ℕ → Bytes → Bytes
file_data_body file_id offset chunk =
    put_file_data_header (file_data_header_of file_id offset (length chunk)) ++ chunk

pub length-file_data_body :
    (file_id : Bytes) (offset : ℕ) (chunk : Bytes)
    → length (file_data_body file_id offset chunk) ≡ 49 + length chunk
length-file_data_body file_id offset chunk = omega (
  arith,
  length-append (put_file_data_header (file_data_header_of file_id offset (length chunk))) chunk,
  length-put_file_data_header _
      (file_data_header_of-IsFileDataHeader file_id offset (length chunk)),
)

pub file_data-IsPacket :
    (sequence : ℕ) (file_id : Bytes) (offset : ℕ) (chunk : Bytes)
    → length chunk ≤ 16 * 1024
    → IsPacket (pack_file_data sequence file_id offset chunk)
unfolding pack_file_data
file_data-IsPacket sequence file_id offset chunk h =
    pack_header-IsPacket msg_file_data sequence (49 + length chunk)
      (file_data_body file_id offset chunk) (length-file_data_body file_id offset chunk)
      (omega arith)
