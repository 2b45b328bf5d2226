-- ===== src/Tests/Handlers.antt =====
-- Logins and chat messages on the server with two users online.
use qt_linux_im_project.Base.{
  ℕ, ◌≡◌, ◌≢◌, ◌⊎◌, ◌≤◌, refl, true, false, Bytes, [], ◌∷◌, ◌++◌, List, some, none, Option, codes,
  take, is_empty, arith,
}
use qt_linux_im_project.Base.FdMap.{lookup, map_some}
use qt_linux_im_project.Wire.Text.{text_of, c_field, no_nul}
use qt_linux_im_project.Wire.Message.{
  MessageHeader, ChatMessage, FileOffer, FileOfferResponse, LoginResult, login_success,
  login_already_online, login_nickname_taken, LoginRequest, LoginResponse, message_code,
  msg_login_rsp, msg_chat_msg, chat_group, chat_private,
}
use qt_linux_im_project.Wire.Message.Login.{put_login_request}
use qt_linux_im_project.Wire.Message.Chat.{put_chat_message}
use qt_linux_im_project.Protocol.{header_of}
use qt_linux_im_project.Protocol.Server.Parse.{parse_login_request, parse_chat_message}
use qt_linux_im_project.Clients.{ClientInfo, has_client}
use qt_linux_im_project.Server.Send.{send_to}
use qt_linux_im_project.Protocol.Frames.{frame, next_frame}
use qt_linux_im_project.Protocol.Client.Parse.{parse_login_response}
use qt_linux_im_project.Server.Send.Effect.{Quiet}
use qt_linux_im_project.Server.Login.{handle_login, check_login}
use qt_linux_im_project.Server.Login.Outcome.{
  asked_id, asked_nick, login_succeeds, login_refused, login_twice,
}
use qt_linux_im_project.Server.Chat.{
  handle_chat_message, chat_packet, online_client, scope_of, route_chat,
}
use qt_linux_im_project.Server.Chat.Routing.{with_packet}
use qt_linux_im_project.Server.Chat.Delivery.{
  packet_of, group_delivery, private_delivery, claimed_sender_ignored,
}
use qt_linux_im_project.Tests.Data.{two_online, request_of, chat_of, alice, bob, clock}
use qt_linux_im_project.Tests.Data.Valid.{two_online-IsServer}

-- A login of a third user.
abbrev carol : LoginRequest
carol = request_of (codes "c") (codes "Carol")

abbrev login_header : MessageHeader
login_header = header_of 1 96 1

carol_parsed : parse_login_request (put_login_request carol) ≡ some carol
unfolding parse_login_request put_login_request c_field qt_linux_im_project.Wire.Text.strncpy
    qt_linux_im_project.Wire.Text.terminate take
    qt_linux_im_project.Wire.Message.Login.get_login_request qt_linux_im_project.Base.drop
carol_parsed = refl

carol_passes : check_login 7 (asked_id carol) (asked_nick carol) two_online.clients ≡ login_success
unfolding check_login text_of take qt_linux_im_project.Wire.Text.bounded_strnlen c_field
    qt_linux_im_project.Wire.Text.strncpy qt_linux_im_project.Clients.is_client_id_online
    qt_linux_im_project.Clients.any_online qt_linux_im_project.Base.bytes_eq
    qt_linux_im_project.Clients.is_nickname_online qt_linux_im_project.Clients.get_online_count
carol_passes = refl

carol_connected : has_client 7 two_online.clients ≡ true
unfolding has_client lookup
carol_connected = refl

login_succeeds_example :
    lookup 7 (handle_login 7 login_header (put_login_request carol) two_online).clients
    ≡ map_some
        (λ info. record info {
          client_id = asked_id carol;
          nickname = asked_nick carol;
          is_online = true;
        })
        (lookup 7 two_online.clients)
login_succeeds_example =
    login_succeeds 7 7 login_header (put_login_request carol) two_online carol carol_parsed
      carol_passes carol_connected

-- A login under a nickname that is taken, and one under an id that is online.
abbrev false_bob : LoginRequest
false_bob = request_of (codes "c") (codes "Bob")

false_bob_parsed : parse_login_request (put_login_request false_bob) ≡ some false_bob
unfolding parse_login_request put_login_request c_field qt_linux_im_project.Wire.Text.strncpy
    qt_linux_im_project.Wire.Text.terminate take
    qt_linux_im_project.Wire.Message.Login.get_login_request qt_linux_im_project.Base.drop
false_bob_parsed = refl

false_bob_taken :
    check_login 7 (asked_id false_bob) (asked_nick false_bob) two_online.clients
    ≡ login_nickname_taken
unfolding check_login text_of take qt_linux_im_project.Wire.Text.bounded_strnlen c_field
    qt_linux_im_project.Wire.Text.strncpy qt_linux_im_project.Clients.is_client_id_online
    qt_linux_im_project.Clients.any_online qt_linux_im_project.Base.bytes_eq
    qt_linux_im_project.Clients.is_nickname_online
false_bob_taken = refl

false_bob_refused :
    check_login 7 (asked_id false_bob) (asked_nick false_bob) two_online.clients ≢ login_success
false_bob_refused e = cc (e, false_bob_taken)

login_refused_example :
    Quiet two_online (handle_login 7 login_header (put_login_request false_bob) two_online)
    × (lookup 5 (handle_login 7 login_header (put_login_request false_bob) two_online).handlers
        ≡ lookup 5 two_online.handlers)
login_refused_example =
    login_refused 7 5 login_header (put_login_request false_bob) two_online false_bob
      false_bob_parsed false_bob_refused (omega arith)

abbrev second_bob : LoginRequest
second_bob = request_of (codes "b") (codes "Bobby")

second_bob_parsed : parse_login_request (put_login_request second_bob) ≡ some second_bob
unfolding parse_login_request put_login_request c_field qt_linux_im_project.Wire.Text.strncpy
    qt_linux_im_project.Wire.Text.terminate take
    qt_linux_im_project.Wire.Message.Login.get_login_request qt_linux_im_project.Base.drop
second_bob_parsed = refl

second_bob_named : is_empty (asked_nick second_bob) ≡ false
unfolding text_of take qt_linux_im_project.Wire.Text.bounded_strnlen c_field
    qt_linux_im_project.Wire.Text.strncpy
second_bob_named = refl

bob_found : lookup 6 two_online.clients ≡ some bob
unfolding lookup
bob_found = refl

bob_asked : bob.client_id ≡ asked_id second_bob
unfolding text_of take qt_linux_im_project.Wire.Text.bounded_strnlen c_field
    qt_linux_im_project.Wire.Text.strncpy
bob_asked = refl

login_twice_example :
    (packet : Bytes) × (r : LoginResponse) × (reply : Bytes) × (handle_login 7 login_header
        (put_login_request second_bob)
        two_online
      ≡ send_to 7 packet two_online)
    × ((handle_login 7 login_header (put_login_request second_bob) two_online).clients
        ≡ two_online.clients)
    × (next_frame (packet ++ (9 ∷ []))
        ≡ frame (header_of (message_code msg_login_rsp) 132 login_header.sequence) reply (9 ∷ []))
    × (parse_login_response reply ≡ some r)
    × (r.result ≡ 3)
    × (text_of 128 r.message ≡ codes "Client already online")
login_twice_example =
    login_twice 7 6 login_header (put_login_request second_bob) (9 ∷ []) two_online second_bob bob
      second_bob_parsed second_bob_named bob_found refl bob_asked refl (omega arith)

-- Messages from the first user, who claims to be the second.
abbrev chat_header : MessageHeader
chat_header = header_of 16 393 4

abbrev to_all : ChatMessage
to_all = chat_of 0 []

abbrev to_bob : ChatMessage
to_bob = chat_of 1 (codes "b")

to_all_parsed : parse_chat_message (put_chat_message to_all) ≡ some to_all
unfolding parse_chat_message put_chat_message c_field qt_linux_im_project.Wire.Text.strncpy
    qt_linux_im_project.Wire.Word.put_u64 qt_linux_im_project.Wire.Message.Chat.get_chat_message
    qt_linux_im_project.Wire.Text.terminate take qt_linux_im_project.Wire.Word.get_u64
    qt_linux_im_project.Base.drop qt_linux_im_project.Wire.Endian.swap64
    qt_linux_im_project.Wire.Endian.htonl
to_all_parsed = refl

to_bob_parsed : parse_chat_message (put_chat_message to_bob) ≡ some to_bob
unfolding parse_chat_message put_chat_message c_field qt_linux_im_project.Wire.Text.strncpy
    qt_linux_im_project.Wire.Word.put_u64 qt_linux_im_project.Wire.Message.Chat.get_chat_message
    qt_linux_im_project.Wire.Text.terminate take qt_linux_im_project.Wire.Word.get_u64
    qt_linux_im_project.Base.drop qt_linux_im_project.Wire.Endian.swap64
    qt_linux_im_project.Wire.Endian.htonl
to_bob_parsed = refl

alice_online : online_client 5 two_online.clients ≡ some alice
unfolding online_client lookup
alice_online = refl

to_all_scope : scope_of to_all ≡ chat_group
unfolding scope_of
to_all_scope = refl

to_bob_scope : scope_of to_bob ≡ chat_private
unfolding scope_of
to_bob_scope = refl

to_bob_id : bob.client_id ≡ text_of 32 to_bob.to_id
unfolding text_of take qt_linux_im_project.Wire.Text.bounded_strnlen c_field
    qt_linux_im_project.Wire.Text.strncpy
to_bob_id = refl

to_bob_named : is_empty (text_of 32 to_bob.to_id) ≡ false
unfolding text_of take qt_linux_im_project.Wire.Text.bounded_strnlen c_field
    qt_linux_im_project.Wire.Text.strncpy
to_bob_named = refl

group_delivery_example :
    lookup 6 (handle_chat_message 5 chat_header (put_chat_message to_all) clock two_online).handlers
    ≡ with_packet (chat_packet 4 alice to_all clock) (lookup 6 two_online.handlers)
unfolding lookup header_of
group_delivery_example =
    group_delivery 5 chat_header (put_chat_message to_all) clock two_online to_all alice 6
      two_online-IsServer to_all_parsed alice_online to_all_scope

private_delivery_example :
    lookup 6 (handle_chat_message 5 chat_header (put_chat_message to_bob) clock two_online).handlers
    ≡ with_packet
        (packet_of 5 chat_header (put_chat_message to_bob) clock two_online to_bob alice)
        (lookup 6 two_online.handlers)
private_delivery_example =
    private_delivery 5 chat_header (put_chat_message to_bob) clock two_online to_bob alice 6 6 bob
      two_online-IsServer to_bob_parsed alice_online to_bob_scope to_bob_named bob_found refl
      to_bob_id

-- The same message under another claimed name.
abbrev claimed : ChatMessage
claimed = record to_all { from_id = c_field 32 (codes "z"); from_nick = c_field 64 (codes "Zoe") }

claimed_parsed : parse_chat_message (put_chat_message claimed) ≡ some claimed
unfolding parse_chat_message put_chat_message c_field qt_linux_im_project.Wire.Text.strncpy
    qt_linux_im_project.Wire.Word.put_u64 qt_linux_im_project.Wire.Message.Chat.get_chat_message
    qt_linux_im_project.Wire.Text.terminate take qt_linux_im_project.Wire.Word.get_u64
    qt_linux_im_project.Base.drop qt_linux_im_project.Wire.Endian.swap64
    qt_linux_im_project.Wire.Endian.htonl
claimed_parsed = refl

alice_id_no_nul : no_nul alice.client_id ≡ true
alice_id_no_nul = refl

alice_nickname_no_nul : no_nul alice.nickname ≡ true
alice_nickname_no_nul = refl

claimed_sender_ignored_example :
    (packet : Bytes) × (r : ChatMessage) × (passed : Bytes) × (handle_chat_message 5 chat_header
        (put_chat_message to_all)
        clock
        two_online
      ≡ route_chat 5 (scope_of to_all) (text_of 32 to_all.to_id) packet two_online)
    × (handle_chat_message 5 chat_header (put_chat_message claimed) clock two_online
        ≡ route_chat 5 (scope_of to_all) (text_of 32 to_all.to_id) packet two_online)
    × (next_frame (packet ++ [])
        ≡ frame (header_of (message_code msg_chat_msg) 393 chat_header.sequence) passed [])
    × (parse_chat_message passed ≡ some r)
    × (text_of 32 r.from_id ≡ alice.client_id)
    × (text_of 64 r.from_nick ≡ alice.nickname)
claimed_sender_ignored_example =
    claimed_sender_ignored 5 chat_header (put_chat_message to_all) (put_chat_message claimed) []
      clock two_online to_all claimed alice to_all_parsed claimed_parsed refl refl refl refl
      alice_online alice_id_no_nul (omega arith) alice_nickname_no_nul (omega arith)
