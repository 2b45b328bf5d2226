-- ===== src/Server/Invariant/Files.antt =====
-- The file messages keep the invariant: they only send, and change the sessions.
use qt_linux_im_project.Base.{ℕ, ◌≡◌, refl, Bytes, Option, none, some, is_empty, arith}
use qt_linux_im_project.Base.NameMap.{find}
use qt_linux_im_project.Wire.Text.{text_of}
use qt_linux_im_project.Wire.Message.{MessageHeader, FileOffer, FileOfferResponse, FileOfferResult}
use qt_linux_im_project.Clients.{ClientInfo, get_fd_by_client_id}
use qt_linux_im_project.Protocol.Server.Parse.{parse_file_offer, parse_file_offer_response}
use qt_linux_im_project.Server.State.{Server, FileSession}
use qt_linux_im_project.Server.Send.{send_to}
use qt_linux_im_project.Server.Send.Effect.{send_to-Sends}
use qt_linux_im_project.Server.Chat.{online_client}
use qt_linux_im_project.Server.Files.{
  reply_offer, forward_offer, accept_offer, handle_file_offer, update_session, notify_sender,
  answer_offer, handle_file_offer_response, extract_file_id, relay_target, handle_file_data,
}
use qt_linux_im_project.Server.Invariant.{
  IsServer, Sends-IsServer, sessions-IsServer, if_both, option_both,
}

module _ (s : Server) (v : IsServer s) where
  sent : (fd : ℕ) (bytes : Bytes) → IsServer (send_to fd bytes s)
  sent fd bytes = Sends-IsServer (send_to-Sends fd bytes s) v

  replied :
      (fd sequence : ℕ) (id : Bytes) (r : FileOfferResult) (text : Bytes)
      → IsServer (reply_offer fd sequence id r text s)
  unfolding reply_offer
  replied fd sequence id r text = sent fd _

  forward_offer-IsServer :
      (fd sequence : ℕ) (sender : ClientInfo) (offer : FileOffer) (target : ℕ)
      → IsServer (forward_offer fd sequence sender offer target s)
  unfolding forward_offer
  forward_offer-IsServer fd sequence sender offer target =
      sessions-IsServer _ _ (sent target _) refl refl

  accept_offer-IsServer :
      (fd sequence : ℕ) (sender : ClientInfo) (offer : FileOffer)
      → IsServer (accept_offer fd sequence sender offer s)
  unfolding accept_offer
  accept_offer-IsServer fd sequence sender offer =
      if_both IsServer (is_empty (text_of 37 offer.file_id)) (replied fd sequence _ _ _) (
        if_both IsServer (is_empty (text_of 32 offer.to_id)) (replied fd sequence _ _ _) (
          option_both IsServer (get_fd_by_client_id (text_of 32 offer.to_id) s.clients)
            (replied fd sequence _ _ _)
            (λ target. forward_offer-IsServer fd sequence sender offer target)))

  pub handle_file_offer-IsServer :
      (fd : ℕ) (h : MessageHeader) (body : Bytes) → IsServer (handle_file_offer fd h body s)
  unfolding handle_file_offer
  handle_file_offer-IsServer fd h body = option_both IsServer (parse_file_offer body) v λ offer.
      option_both IsServer (online_client fd s.clients) v
        (λ sender. accept_offer-IsServer fd h.sequence sender offer)

  update_session_same :
      (fd : ℕ) (id : Bytes) (rsp : FileOfferResponse) (session : FileSession)
      → ((update_session fd id rsp session s).0.clients ≡ s.clients)
        × ((update_session fd id rsp session s).0.handlers ≡ s.handlers)
  unfolding update_session
  update_session_same fd id rsp session = ground arith

  update_session-IsServer :
      (fd : ℕ) (id : Bytes) (rsp : FileOfferResponse) (session : FileSession)
      → IsServer (update_session fd id rsp session s).0
  update_session-IsServer fd id rsp session =
      let e = update_session_same fd id rsp session in sessions-IsServer s _ v e.0 e.1

  pub handle_file_data-IsServer :
      (fd : ℕ) (h : MessageHeader) (body : Bytes) → IsServer (handle_file_data fd h body s)
  unfolding handle_file_data
  handle_file_data-IsServer fd h body = if_both IsServer (is_empty (extract_file_id body)) v (
      option_both IsServer (find (extract_file_id body) s.file_sessions) v
        (λ session. option_both IsServer (relay_target fd session) v (λ target. sent target _)))

notify_sender-IsServer :
    (sequence : ℕ) (id : Bytes) (rsp : FileOfferResponse) (p : Server × Option FileSession)
    → IsServer p.0
    → IsServer (notify_sender sequence id rsp p)
unfolding notify_sender
notify_sender-IsServer sequence id rsp (s, none) v = v
notify_sender-IsServer sequence id rsp (s, some session) v =
    option_both IsServer session.sender_fd v (λ sender. sent s v sender _)

pub handle_file_offer_response-IsServer :
    (s : Server) (fd : ℕ) (h : MessageHeader) (body : Bytes)
    → IsServer s
    → IsServer (handle_file_offer_response fd h body s)
unfolding handle_file_offer_response answer_offer
handle_file_offer_response-IsServer s fd h body v =
    option_both IsServer (parse_file_offer_response body) v λ rsp.
      if_both IsServer (is_empty (text_of 37 rsp.file_id)) v (
        option_both IsServer (find (text_of 37 rsp.file_id) s.file_sessions) v λ session.
          notify_sender-IsServer h.sequence _ rsp _ (update_session-IsServer s v fd _ rsp session))
