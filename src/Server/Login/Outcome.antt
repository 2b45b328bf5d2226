-- ===== src/Server/Login/Outcome.antt =====
-- What a login request does to the server.
use qt_linux_im_project.Base.{
  ℕ, ◌<◌, ◌++◌, length, codes, ◌≡◌, ◌≢◌, refl, ap, ◌∙◌, true, false, [], ◌∷◌, Bytes, some,
  if◌then◌else◌, ◌==◌, is_empty, bytes_eq_refl, arith, Bool-cases, inl, inr,
}
use qt_linux_im_project.Base.FdMap.{lookup, modify, lookup-modify, map_some}
use qt_linux_im_project.Wire.Text.{text_of, no_nul}
use qt_linux_im_project.Wire.Message.{
  MessageHeader, LoginRequest, LoginResponse, message_code, msg_login_rsp, login_code, LoginResult,
  login_success, login_invalid_param, login_server_full, login_already_online, login_nickname_taken,
}
use qt_linux_im_project.Clients.{
  ClientInfo, Clients, has_client, identify, set_client_identity, any_online, id_of,
  is_client_id_online,
}
use qt_linux_im_project.Protocol.{header_of}
use qt_linux_im_project.Protocol.Frames.{frame, next_frame}
use qt_linux_im_project.Protocol.Client.Parse.{parse_login_response}
use qt_linux_im_project.Protocol.RoundTrip.Login.{login_response_arrives}
use qt_linux_im_project.Protocol.Server.Pack.{pack_login_response}
use qt_linux_im_project.Protocol.Server.Parse.{parse_login_request}
use qt_linux_im_project.Server.Send.{send_to}
use qt_linux_im_project.Server.State.{Server}
use qt_linux_im_project.Server.Send.Effect.{
  send_to-Sends, broadcast-Sends, Sends-Quiet, Quiet, send_to_other,
}
use qt_linux_im_project.Server.Login.{check_login, finish_login, handle_login}

finish_login_clients :
    (fd sequence : ℕ) (id nick : Bytes) (s : Server)
    → has_client fd s.clients ≡ true
    → (finish_login fd sequence id nick login_success s).clients
      ≡ modify fd (identify id nick) s.clients
unfolding finish_login set_client_identity
finish_login_clients fd sequence id nick s e =
    let t = record s { clients = modify fd (identify id nick) s.clients } in
    let quiet = Sends-Quiet (
      broadcast-Sends t (
        send_to-Sends fd (pack_login_response sequence (login_code login_success) (codes "OK"))
          t)) in
    ground (arith, quiet.clients)

-- The id and the nickname that a request asks for.
abbrev pub asked_id : LoginRequest → Bytes
asked_id req = text_of 32 req.client_id

abbrev pub asked_nick : LoginRequest → Bytes
asked_nick req = text_of 64 req.nickname

handle_login_step :
    (fd : ℕ) (h : MessageHeader) (body : Bytes) (s : Server) (req : LoginRequest) (r : LoginResult)
    → parse_login_request body ≡ some req
    → check_login fd (asked_id req) (asked_nick req) s.clients ≡ r
    → handle_login fd h body s ≡ finish_login fd h.sequence (asked_id req) (asked_nick req) r s
unfolding handle_login
handle_login_step fd h body s req r p c = rw (p, handle_login, c)

-- A connection in the table whose request passes the tests of the login is online under the id and
-- the nickname that it asked for; the other fields of its entry and all other entries are as they
-- were.
pub login_succeeds :
    (fd j : ℕ) (h : MessageHeader) (body : Bytes) (s : Server) (req : LoginRequest)
    → parse_login_request body ≡ some req
    → check_login fd (asked_id req) (asked_nick req) s.clients ≡ login_success
    → has_client fd s.clients ≡ true
    → lookup j (handle_login fd h body s).clients ≡ (
        if fd == j
        then map_some
            (λ info. record info {
              client_id = asked_id req;
              nickname = asked_nick req;
              is_online = true;
            })
            (lookup j s.clients)
        else lookup j s.clients)
unfolding identify
login_succeeds fd j h body s req p c e =
    rw
      (
        handle_login_step fd h body s req login_success p c,
        finish_login_clients fd h.sequence (asked_id req) (asked_nick req) s e,
      )
      (lookup-modify fd j (identify (asked_id req) (asked_nick req)) s.clients)

-- A refusal is one packet to the connection that asked.
finish_login_refused :
    (r : LoginResult) (fd sequence : ℕ) (id nick : Bytes) (s : Server)
    → r ≢ login_success
    → (packet : Bytes) × (finish_login fd sequence id nick r s ≡ send_to fd packet s)
unfolding finish_login
finish_login_refused login_success fd sequence id nick s ne = absurd (ne refl)
finish_login_refused login_invalid_param fd sequence id nick s ne = (_, refl)
finish_login_refused login_server_full fd sequence id nick s ne = (_, refl)
finish_login_refused login_already_online fd sequence id nick s ne = (_, refl)
finish_login_refused login_nickname_taken fd sequence id nick s ne = (_, refl)

-- A request that fails a test of the login leaves the running flag, the clients, the receive
-- buffers, the file sessions and the closed descriptors as they were, and every handler but the
-- one of the connection that asked.
pub login_refused :
    (fd j : ℕ) (h : MessageHeader) (body : Bytes) (s : Server) (req : LoginRequest)
    → parse_login_request body ≡ some req
    → check_login fd (asked_id req) (asked_nick req) s.clients ≢ login_success
    → j ≢ fd
    → Quiet s (handle_login fd h body s)
      × (lookup j (handle_login fd h body s).handlers ≡ lookup j s.handlers)
login_refused fd j h body s req p ne k =
    let r = check_login fd (asked_id req) (asked_nick req) s.clients in
    let (packet, sent) =
      finish_login_refused r fd h.sequence (asked_id req) (asked_nick req) s ne in
    rw (handle_login_step fd h body s req r p refl, sent)
      (Sends-Quiet (send_to-Sends fd packet s), send_to_other fd j packet s k)

any_online_complete :
    (name : ClientInfo → Bytes) (fd j : ℕ) (m : Clients) (info : ClientInfo)
    → lookup j m ≡ some info
    → info.is_online ≡ true
    → j ≢ fd
    → any_online name (name info) fd m ≡ true
unfolding lookup any_online
any_online_complete name fd j [] info e on ne = cc
any_online_complete name fd j ((i, v) ∷ m) info e on ne = elim (Bool-cases (i == j)) [
  | inl hit ↦
      let found : v ≡ info = ground arith in
      ground (arith, ap name found, ap (λ x. x.is_online) found, bytes_eq_refl (name info))
  | inr miss ↦ ground (arith, any_online_complete name fd j m info)
]

online_text_no_nul : no_nul (codes "Client already online") ≡ true
online_text_no_nul = refl

online_text_fits : length (codes "Client already online") < 128
online_text_fits = omega arith

-- A request, with a nickname, for an id that is not empty and that another connection has online
-- is answered with one packet to the connection that asked, and nothing else happens: no entry of
-- the table changes. Whatever follows the packet, the client takes it off its buffer as a login
-- response with the request's sequence number, the result 3 and the text "Client already online".
pub login_twice :
    (fd j : ℕ) (h : MessageHeader) (body rest : Bytes) (s : Server) (req : LoginRequest)
    (info : ClientInfo)
    → parse_login_request body ≡ some req
    → is_empty (asked_nick req) ≡ false
    → lookup j s.clients ≡ some info
    → info.is_online ≡ true
    → info.client_id ≡ asked_id req
    → is_empty info.client_id ≡ false
    → j ≢ fd
    → (packet : Bytes) × (r : LoginResponse) × (answer : Bytes) × (handle_login fd h body s
        ≡ send_to fd packet s)
      × ((handle_login fd h body s).clients ≡ s.clients)
      × (next_frame (packet ++ rest)
          ≡ frame (header_of (message_code msg_login_rsp) 132 h.sequence) answer rest)
      × (parse_login_response answer ≡ some r)
      × (r.result ≡ 3)
      × (text_of 128 r.message ≡ codes "Client already online")
unfolding finish_login login_code
login_twice fd j h body rest s req info p n e on id full ne =
    let taken : any_online id_of (asked_id req) fd s.clients ≡ true =
      rw (← id) (any_online_complete id_of fd j s.clients info e on ne) in
    let filled : is_empty (asked_id req) ≡ false = rw (← id) full in
    let refused : check_login fd (asked_id req) (asked_nick req) s.clients ≡ login_already_online =
      unfold check_login is_client_id_online in ground arith in
    let step : handle_login fd h body s
        ≡ send_to fd (pack_login_response h.sequence 3 (codes "Client already online")) s =
      handle_login_step fd h body s req login_already_online p refused in
    let (r, answer, taken_off, parsed, result, text) =
      login_response_arrives h.sequence 3 (codes "Client already online") rest (omega arith)
        online_text_no_nul online_text_fits in
    (
      pack_login_response h.sequence 3 (codes "Client already online"),
      r,
      answer,
      step,
      ap (λ t. t.clients) step ∙ (Sends-Quiet (send_to-Sends fd _ s)).clients,
      taken_off,
      parsed,
      result,
      text,
    )
