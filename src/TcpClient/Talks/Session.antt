-- ===== src/TcpClient/Talks/Session.antt =====
-- A whole connection of the client, as the server reads it.
use qt_linux_im_project.Base.{
  ℕ, zero, suc, ◌≡◌, refl, sym, ◌∙◌, false, not, ◌||◌, ◌==◌, List, [], ◌∷◌, Bytes, Option, none,
  some, if◌then◌else◌, append-nil, arith, All,
}
use qt_linux_im_project.Base.FdMap.{FdMap}
use qt_linux_im_project.Base.NameMap.{find, put}
use qt_linux_im_project.Wire.Message.{
  MessageHeader, MessageType, message_type, offer_code, file_offer_accept, msg_login_rsp,
  msg_chat_msg, msg_user_list_rsp, msg_file_offer, msg_file_offer_rsp, msg_file_data,
  msg_heartbeat_req, msg_heartbeat_rsp, msg_login_req, msg_logout_req, msg_user_list_req,
  msg_file_data_ack,
}
use qt_linux_im_project.Protocol.Frames.{
  parse_buffer, parse_loop, next_frame, wait, refused, frame, Next, buffer_of,
}
use qt_linux_im_project.Protocol.Frames.Chunks.{feed, join}
use qt_linux_im_project.Protocol.Frames.Stream.{IsFrame, stream, deliver, feed-stream}
use qt_linux_im_project.Protocol.Server.Parse.{
  parse_chat_message, parse_file_offer, parse_file_offer_response,
}
use qt_linux_im_project.Protocol.Client.Parse.{
  parse_login_response, parse_user_list_response, parse_file_data,
}
use qt_linux_im_project.Protocol.RoundTrip.Packets.{
  heartbeat_request-IsPacket, logout_request-IsPacket, user_list_request-IsPacket,
  login_request-IsPacket, chat_message-IsPacket, file_offer-IsPacket, file_offer_response-IsPacket,
}
use qt_linux_im_project.TcpClient.{Qt, Disk, Client, TcpClient, text_field, is_connected}
use qt_linux_im_project.TcpClient.Request.{
  set_identity, send_login_request, send_logout_request, send_heartbeat, request_user_list,
  send_chat_message, send_file_offer, offer_session, send_file_offer_response, prepare_answer,
  accept_pending,
}
use qt_linux_im_project.TcpClient.Transfer.{make_download_dir, clear_file_sessions}
use qt_linux_im_project.TcpClient.Receive.{
  on_login_response, on_chat_message, on_user_list, on_file_offer, on_file_offer_response,
  on_file_data, refuse_send, process_typed, process_message, on_ready_read,
}
use qt_linux_im_project.TcpClient.Lifecycle.{
  SocketError, connect_to_server, disconnect_from_server, on_connected, on_disconnected, on_error,
  on_heartbeat_timeout, is_unconnected,
}
use qt_linux_im_project.TcpClient.Talks.{
  Talks, quiet-Talks, Talks-refl, Talks-trans, Talks-then, Talks-after, if-Talks, option-Talks,
  send_next-Talks, ReadsInParts, start_file_send-Talks, handle_file_data-written,
  clear_file_sessions-written,
}
use qt_linux_im_project.TcpClient.Session.{
  Event, identity, login, logout, user_list, heartbeat, chat, offer, answer, connecting_to, leave,
  lost, error, readable, socket_is, react, handle_event, run_events,
}

-- Reading a file gives parts no longer than were asked for.
abbrev pub IsEvent : Event → Type 0
IsEvent (readable disk bytes) = ReadsInParts disk
IsEvent e = Unit

refuse_send-Talks : (file_id message : Bytes) (c : Client) → Talks c (refuse_send file_id message c)
unfolding refuse_send
refuse_send-Talks file_id message c =
    option-Talks (find file_id c.send_sessions) (Talks-refl c) (λ session. quiet-Talks refl)

on_file_offer_response-Talks :
    (qt : Qt) (disk : Disk) (body : Bytes) (c : Client)
    → ReadsInParts disk
    → Talks c (on_file_offer_response qt disk body c)
unfolding on_file_offer_response
on_file_offer_response-Talks qt disk body c r =
    option-Talks (parse_file_offer_response body) (Talks-refl c) (λ rsp.
      if-Talks (rsp.result == offer_code file_offer_accept)
        (Talks-after refl (start_file_send-Talks disk (text_field qt rsp.file_id) _ r))
        (Talks-after refl (refuse_send-Talks (text_field qt rsp.file_id) _ _)))

process_typed-Talks :
    (qt : Qt) (disk : Disk) (t : Option MessageType) (body : Bytes) (c : Client)
    → ReadsInParts disk
    → Talks c (process_typed qt disk t body c)
unfolding process_typed on_login_response on_chat_message on_user_list on_file_offer on_file_data
process_typed-Talks qt disk (some msg_login_rsp) body c r =
    option-Talks (parse_login_response body) (quiet-Talks refl) (λ rsp. quiet-Talks refl)
process_typed-Talks qt disk (some msg_chat_msg) body c r =
    option-Talks (parse_chat_message body) (quiet-Talks refl) (λ msg. quiet-Talks refl)
process_typed-Talks qt disk (some msg_user_list_rsp) body c r =
    option-Talks (parse_user_list_response body) (quiet-Talks refl) (λ users. quiet-Talks refl)
process_typed-Talks qt disk (some msg_file_offer) body c r =
    option-Talks (parse_file_offer body) (quiet-Talks refl) (λ o. quiet-Talks refl)
process_typed-Talks qt disk (some msg_file_offer_rsp) body c r =
    on_file_offer_response-Talks qt disk body c r
process_typed-Talks qt disk (some msg_file_data) body c r =
    option-Talks (parse_file_data body) (quiet-Talks refl) (λ p.
      quiet-Talks (handle_file_data-written disk (text_field qt p.0.file_id) p.0.offset p.1 c))
process_typed-Talks qt disk none body c r = quiet-Talks refl
process_typed-Talks qt disk (some msg_heartbeat_req) body c r = quiet-Talks refl
process_typed-Talks qt disk (some msg_heartbeat_rsp) body c r = quiet-Talks refl
process_typed-Talks qt disk (some msg_login_req) body c r = quiet-Talks refl
process_typed-Talks qt disk (some msg_logout_req) body c r = quiet-Talks refl
process_typed-Talks qt disk (some msg_user_list_req) body c r = quiet-Talks refl
process_typed-Talks qt disk (some msg_file_data_ack) body c r = quiet-Talks refl

next-Talks :
    (qt : Qt) (disk : Disk) (fuel : ℕ) (n : Next) (b : Bytes) (c : Client)
    → ((rest : Bytes) (t : Client) → Talks t (parse_loop (process_message qt disk) fuel rest t).1)
    → ReadsInParts disk
    → Talks c
        (elim n as (λ x. Bytes × Client) [
          | wait ↦ (b, c)
          | refused ↦ ([], c)
          | frame header body rest ↦
              parse_loop (process_message qt disk) fuel rest (process_message qt disk header body c)
        ]).1
unfolding process_message
next-Talks qt disk fuel wait b c ih r = Talks-refl c
next-Talks qt disk fuel refused b c ih r = Talks-refl c
next-Talks qt disk fuel (frame h body rest) b c ih r =
    Talks-trans (process_typed-Talks qt disk (message_type h.msg_type) body c r) (ih rest _)

parse_loop-Talks :
    (qt : Qt) (disk : Disk) (fuel : ℕ) (b : Bytes) (c : Client)
    → ReadsInParts disk
    → Talks c (parse_loop (process_message qt disk) fuel b c).1
unfolding parse_loop
parse_loop-Talks qt disk zero b c r = Talks-refl c
parse_loop-Talks qt disk (suc fuel) b c r =
    next-Talks qt disk fuel (next_frame b) b c (λ rest t. parse_loop-Talks qt disk fuel rest t r) r

accept_pending-written :
    (qt : Qt) (disk : Disk) (file_id : Bytes) (result : ℕ) (message : Bytes) (c : Client)
    → (prepare_answer qt disk file_id result message c).after.written ≡ c.written
unfolding prepare_answer accept_pending make_download_dir
accept_pending-written qt disk file_id result message c = ground arith

disconnect-Talks : (c : Client) → Talks c (disconnect_from_server c)
unfolding disconnect_from_server send_logout_request
disconnect-Talks c =
    let cleared = clear_file_sessions (record c { heartbeat_active = false }) in
    let told = if is_connected cleared then send_logout_request cleared else cleared in
    let talks : Talks c told =
      Talks-after (clear_file_sessions-written (record c { heartbeat_active = false })) (
        if-Talks (is_connected cleared) (send_next-Talks _ cleared logout_request-IsPacket)
          (Talks-refl cleared)) in
    Talks-trans talks (if-Talks (is_unconnected told.socket) (Talks-refl told) (quiet-Talks refl))

on_error-written : (e : SocketError) (c : Client) → (on_error e c).written ≡ c.written
unfolding on_error
on_error-written e c = ground arith

react-Talks : (qt : Qt) (e : Event) (c : Client) → Talks c (react qt e c)
unfolding react set_identity send_login_request send_logout_request request_user_list send_heartbeat
    send_chat_message send_file_offer send_file_offer_response on_heartbeat_timeout
    connect_to_server on_disconnected
react-Talks qt (identity id nick) c = quiet-Talks refl
react-Talks qt (login id nick) c =
    send_next-Talks _ c (λ sequence. login_request-IsPacket sequence id nick)
react-Talks qt logout c = send_next-Talks _ c logout_request-IsPacket
react-Talks qt user_list c = send_next-Talks _ c user_list_request-IsPacket
react-Talks qt heartbeat c = send_next-Talks _ c heartbeat_request-IsPacket
react-Talks qt (chat scope to_id message now) c =
    send_next-Talks _ c
      (λ sequence. chat_message-IsPacket sequence scope c.client_id c.nickname to_id message now)
react-Talks qt (offer disk id path name size to_id) c =
    let noted : Client = record c {
      send_sessions = put id (offer_session id path name size to_id) c.send_sessions;
    } in
    if-Talks (not (disk.exists path) || not (disk.is_file path)) (quiet-Talks refl) (
      Talks-after {t = noted} refl (
        send_next-Talks _ noted
          (λ sequence. file_offer-IsPacket sequence id name size c.client_id c.nickname to_id)))
react-Talks qt (answer disk id result message) c =
    Talks-then
      (Talks-after (accept_pending-written qt disk id result message c) (
        send_next-Talks _ _ (λ sequence.
          let a = prepare_answer qt disk id result message c in
          file_offer_response-IsPacket sequence id a.result a.message)))
      refl
react-Talks qt (connecting_to ip port) c = unfold connect_to_server in quiet-Talks refl
react-Talks qt leave c = disconnect-Talks c
react-Talks qt lost c =
    quiet-Talks (clear_file_sessions-written (record c { heartbeat_active = false }))
react-Talks qt (error e) c = quiet-Talks (on_error-written e c)
react-Talks qt (readable disk bytes) c = Talks-refl c
react-Talks qt (socket_is state) c = quiet-Talks refl

handle_event-Talks :
    (qt : Qt) (e : Event) (t : TcpClient)
    → IsEvent e
    → Talks t.members (handle_event qt e t).members
unfolding handle_event on_ready_read parse_buffer
handle_event-Talks qt (readable disk bytes) t r = parse_loop-Talks qt disk _ _ t.members r
handle_event-Talks qt (identity id nick) t r = react-Talks qt (identity id nick) t.members
handle_event-Talks qt (login id nick) t r = react-Talks qt (login id nick) t.members
handle_event-Talks qt logout t r = react-Talks qt logout t.members
handle_event-Talks qt user_list t r = react-Talks qt user_list t.members
handle_event-Talks qt heartbeat t r = react-Talks qt heartbeat t.members
handle_event-Talks qt (chat scope to message now) t r =
    react-Talks qt (chat scope to message now) t.members
handle_event-Talks qt (offer disk id path name size to) t r =
    react-Talks qt (offer disk id path name size to) t.members
handle_event-Talks qt (answer disk id result message) t r =
    react-Talks qt (answer disk id result message) t.members
handle_event-Talks qt (connecting_to ip port) t r = react-Talks qt (connecting_to ip port) t.members
handle_event-Talks qt leave t r = react-Talks qt leave t.members
handle_event-Talks qt lost t r = react-Talks qt lost t.members
handle_event-Talks qt (error e) t r = react-Talks qt (error e) t.members
handle_event-Talks qt (socket_is state) t r = react-Talks qt (socket_is state) t.members

run_events-Talks :
    (qt : Qt) (es : List Event) (t : TcpClient)
    → All IsEvent es
    → Talks t.members (run_events qt es t).members
unfolding run_events
run_events-Talks qt [] t v = Talks-refl t.members
run_events-Talks qt (e ∷ es) t (v, vs) =
    Talks-trans (handle_event-Talks qt e t v) (run_events-Talks qt es (handle_event qt e t) vs)

-- Whatever happens to a client after it is connected, in any order, where files are read in parts
-- of at most 16 KiB: what it has written since is a sequence of valid packets, and the server that
-- is fed these bytes in pieces of any sizes, on an empty buffer, handles each of these packets once
-- and in order, and keeps nothing back.
pub client-server {ℓ} :
    {S : Type ℓ} (callback : ℕ → MessageHeader → Bytes → S → S)
    → (qt : Qt) (es : List Event) (t : TcpClient) (fd : ℕ) (ds : List Bytes)
    → (buffers : FdMap Bytes) (s : S) → All IsEvent es
    → join ds ≡ (run_events qt es (on_connected t)).members.written
    → buffer_of fd buffers ≡ []
    → (ms : List (MessageHeader × Bytes)) × (join ds ≡ stream ms)
      × All IsFrame ms
      × (buffer_of fd (feed callback fd ds (buffers, s)).0 ≡ [])
      × ((feed callback fd ds (buffers, s)).1 ≡ deliver (callback fd) ms s)
unfolding on_connected
client-server callback qt es t fd ds buffers s v j e =
    let talks = run_events-Talks qt es (on_connected t) v in
    let whole : join ds ≡ stream talks.messages = j ∙ talks.grows in
    let fed =
      feed-stream callback fd ds talks.messages [] buffers s e
        (whole ∙ sym (append-nil (stream talks.messages))) talks.frames
        (unfold next_frame in refl) in
    (talks.messages, whole, talks.frames, fed.0, fed.1)
