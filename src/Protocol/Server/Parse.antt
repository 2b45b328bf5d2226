-- ===== src/Protocol/Server/Parse.antt =====
-- The parsers of server/src/protocol.cpp. `none` is the answer `false`. The number fields come
-- from the struct's image already in host order.
use qt_linux_im_project.Base.{Bytes, Option, none, some, ltb, if◌then◌else◌, length}
use qt_linux_im_project.Wire.Text.{terminate}
use qt_linux_im_project.Wire.Message.{
  LoginRequest, ChatMessage, FileOffer, FileOfferResponse, size_of_login_request,
  size_of_chat_message, size_of_file_offer, size_of_file_offer_response,
}
use qt_linux_im_project.Wire.Message.Login.{get_login_request}
use qt_linux_im_project.Wire.Message.Chat.{get_chat_message}
use qt_linux_im_project.Wire.Message.File.{get_file_offer, get_file_offer_response}

unfoldable pub terminate_login_request : LoginRequest → LoginRequest
terminate_login_request req = record req {
  client_id = terminate 32 req.client_id;
  nickname = terminate 64 req.nickname;
}

unfoldable pub parse_login_request : Bytes → Option LoginRequest
unfolding terminate_login_request
parse_login_request bytes =
    if ltb (length bytes) size_of_login_request
    then none
    else some (terminate_login_request (get_login_request bytes))

unfoldable pub terminate_chat_message : ChatMessage → ChatMessage
terminate_chat_message msg = record msg {
  from_id = terminate 32 msg.from_id;
  from_nick = terminate 64 msg.from_nick;
  to_id = terminate 32 msg.to_id;
  message = terminate 256 msg.message;
}

unfoldable pub parse_chat_message : Bytes → Option ChatMessage
unfolding terminate_chat_message
parse_chat_message bytes =
    if ltb (length bytes) size_of_chat_message
    then none
    else some (terminate_chat_message (get_chat_message bytes))

unfoldable pub terminate_file_offer : FileOffer → FileOffer
terminate_file_offer offer = record offer {
  file_id = terminate 37 offer.file_id;
  from_id = terminate 32 offer.from_id;
  from_nick = terminate 64 offer.from_nick;
  to_id = terminate 32 offer.to_id;
  file_name = terminate 256 offer.file_name;
}

unfoldable pub parse_file_offer : Bytes → Option FileOffer
unfolding terminate_file_offer
parse_file_offer bytes =
    if ltb (length bytes) size_of_file_offer
    then none
    else some (terminate_file_offer (get_file_offer bytes))

unfoldable pub terminate_file_offer_response : FileOfferResponse → FileOfferResponse
terminate_file_offer_response rsp = record rsp {
  file_id = terminate 37 rsp.file_id;
  message = terminate 64 rsp.message;
}

unfoldable pub parse_file_offer_response : Bytes → Option FileOfferResponse
unfolding terminate_file_offer_response
parse_file_offer_response bytes =
    if ltb (length bytes) size_of_file_offer_response
    then none
    else some (terminate_file_offer_response (get_file_offer_response bytes))
