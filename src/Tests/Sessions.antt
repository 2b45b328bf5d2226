-- ===== src/Tests/Sessions.antt =====
-- File packets and disconnects on the server with two users online.
use qt_linux_im_project.Base.{
  ℕ, ◌≡◌, ◌≢◌, ◌⊎◌, length, refl, true, false, Bytes, [], ◌∷◌, ◌++◌, List, some, none, Option,
  codes, take, is_empty, arith,
}
use qt_linux_im_project.Base.FdMap.{lookup}
use qt_linux_im_project.Base.NameMap.{find}
use qt_linux_im_project.Wire.Text.{text_of, c_field}
use qt_linux_im_project.Wire.Message.{
  MessageHeader, ChatMessage, FileOffer, FileOfferResponse, LoginResult, login_success,
  login_already_online, login_nickname_taken, LoginRequest, chat_group, chat_private,
}
use qt_linux_im_project.Wire.Message.File.{put_file_offer, put_file_offer_response}
use qt_linux_im_project.Protocol.{header_of}
use qt_linux_im_project.Protocol.Server.Parse.{parse_file_offer_response}
use qt_linux_im_project.Server.Files.{handle_file_offer_response, handle_file_offer}
use qt_linux_im_project.Server.Files.Sessions.{file_offer_sessions, stranger_answer}
use qt_linux_im_project.Server.Files.Sessions.Offers.{Refused, Opened}
use qt_linux_im_project.Tests.Data.Valid.{two_online-IsServer}
use qt_linux_im_project.Server.Disconnect.{
  handle_client_disconnect, process_pending_disconnects, unique, sort,
}
use qt_linux_im_project.Server.Disconnect.Forget.{Forgotten, handle_client_disconnect-forgets}
use qt_linux_im_project.Server.Disconnect.Pending.{
  Rising, has, onto, process_pending_disconnects-closes,
}
use qt_linux_im_project.Tests.Data.{two_online}

-- File packets.
abbrev chunk_body : Bytes
chunk_body = c_field 37 (codes "f1") ++ codes "0123456789ABchunk"

abbrev data_header : MessageHeader
data_header = header_of 34 (length chunk_body) 9

abbrev offer : FileOffer
offer = record {
  file_id = c_field 37 (codes "f2");
  file_name = c_field 256 (codes "song");
  file_size = 12;
  from_id = c_field 32 (codes "a");
  from_nick = c_field 64 (codes "Alice");
  to_id = c_field 32 (codes "b");
}

abbrev offer_header : MessageHeader
offer_header = header_of 32 429 8

file_offer_sessions_example :
    (((handle_file_offer 5 offer_header (put_file_offer offer) two_online).file_sessions
        ≡ two_online.file_sessions)
      × Refused 5 (put_file_offer offer) two_online)
    ⊎ Opened 5
        (put_file_offer offer)
        two_online
        (handle_file_offer 5 offer_header (put_file_offer offer) two_online)
file_offer_sessions_example =
    file_offer_sessions 5 offer_header (put_file_offer offer) two_online two_online-IsServer

abbrev answer : FileOfferResponse
answer = record { file_id = c_field 37 (codes "f1"); result = 0; message = c_field 64 (codes "no") }

answer_parsed : parse_file_offer_response (put_file_offer_response answer) ≡ some answer
unfolding parse_file_offer_response put_file_offer_response c_field
    qt_linux_im_project.Wire.Text.strncpy qt_linux_im_project.Wire.Word.put_u32
    qt_linux_im_project.Wire.Text.terminate
    qt_linux_im_project.Wire.Message.File.get_file_offer_response take
    qt_linux_im_project.Wire.Word.get_u32 qt_linux_im_project.Base.drop
answer_parsed = refl

answer_session :
    find (text_of 37 answer.file_id) two_online.file_sessions
    ≡ some (record { sender_fd = some 5; receiver_fd = some 6 })
unfolding find qt_linux_im_project.Base.bytes_eq text_of take
    qt_linux_im_project.Wire.Text.bounded_strnlen c_field qt_linux_im_project.Wire.Text.strncpy
answer_session = refl

stranger_answer_example :
    handle_file_offer_response 7 offer_header (put_file_offer_response answer) two_online
    ≡ two_online
stranger_answer_example =
    stranger_answer 7 6 offer_header (put_file_offer_response answer) two_online
      (record { sender_fd = some 5; receiver_fd = some 6 }) answer answer_parsed answer_session refl
      (omega arith)

-- Disconnects.
handle_client_disconnect-forgets_example :
    Forgotten 5 (handle_client_disconnect 5 two_online)
    × ((handle_client_disconnect 5 two_online).closed ≡ 5 ∷ [])
    × ((j : ℕ)
        → j ≢ 5
        → (lookup j (handle_client_disconnect 5 two_online).clients ≡ lookup j two_online.clients)
          × (lookup j (handle_client_disconnect 5 two_online).recv_buffers
              ≡ lookup j two_online.recv_buffers))
handle_client_disconnect-forgets_example = handle_client_disconnect-forgets 5 two_online

process_pending_disconnects-closes_example :
    (fds : List ℕ) × Rising 0 fds
    × ((fd : ℕ) → has fd fds ≡ has fd (7 ∷ 6 ∷ 7 ∷ []))
    × ((process_pending_disconnects two_online).closed ≡ onto fds [])
process_pending_disconnects-closes_example = process_pending_disconnects-closes two_online

each_once : unique (sort (7 ∷ 6 ∷ 7 ∷ [])) ≡ 6 ∷ 7 ∷ []
unfolding unique sort
each_once = refl
