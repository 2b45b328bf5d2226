-- ===== src/Server/Files/Sessions.antt =====
-- Who a file session lets through: relaying between its two ends, opening and closing.
pub mod Relay
pub mod Offers
use qt_linux_im_project.Base.{
  ℕ, ◌≡◌, ◌≢◌, none, ◌⊎◌, Bytes, some, is_empty, arith, Option-cases, Bool-cases, inl, inr,
}
use qt_linux_im_project.Base.NameMap.{find}
use qt_linux_im_project.Wire.Text.{text_of}
use qt_linux_im_project.Wire.Message.{MessageHeader, FileOfferResponse}
use qt_linux_im_project.Protocol.Server.Parse.{parse_file_offer, parse_file_offer_response}
use qt_linux_im_project.Server.State.{FileSession, Server}
use qt_linux_im_project.Server.Chat.{online_client}
use qt_linux_im_project.Server.Invariant.{IsServer}
use qt_linux_im_project.Server.Files.{
  handle_file_offer, accept_offer, handle_file_offer_response, answer_offer, update_session,
  notify_sender,
}
use qt_linux_im_project.Server.Files.Sessions.Offers.{
  Refused, unreadable, not_online, Opened, accept_offer-sessions, online_client-some,
  online_client-none,
}

-- In a state that keeps the invariant, a file offer leaves the sessions as they were, for one of
-- the reasons of `Refused`. Or it is from a connection that is online, carries a file id and names
-- a target, and a connection is online under that id: then the new sessions are those of before
-- with the session of that file id set to join the offering connection and the target's.
pub file_offer_sessions :
    (fd : ℕ) (h : MessageHeader) (body : Bytes) (s : Server)
    → IsServer s
    → (((handle_file_offer fd h body s).file_sessions ≡ s.file_sessions) × Refused fd body s)
      ⊎ Opened fd body s (handle_file_offer fd h body s)
unfolding handle_file_offer
file_offer_sessions fd h body s v = elim (Option-cases (parse_file_offer body)) [
  | inl n ↦ inl (rw (handle_file_offer, n), unreadable n)
  | inr (offer, p) ↦ elim (Option-cases (online_client fd s.clients)) [
    | inl n ↦ inl (rw (handle_file_offer, p, n), not_online (online_client-none fd s.clients n))
    | inr (sender, o) ↦
        let same : handle_file_offer fd h body s ≡ accept_offer fd h.sequence sender offer s =
          rw (handle_file_offer, p, o) in
        rw same (
          accept_offer-sessions fd h.sequence body sender offer s v.table.sorted p
            (online_client-some fd s.clients sender o))
  ]
]

update_stranger :
    (fd receiver : ℕ) (file_id : Bytes) (rsp : FileOfferResponse) (session : FileSession)
    → (s : Server) → session.receiver_fd ≡ some receiver
    → receiver ≢ fd
    → update_session fd file_id rsp session s ≡ (s, none)
unfolding update_session
update_stranger fd receiver file_id rsp session s r ne = ground arith

answer_stranger :
    (fd sequence receiver : ℕ) (rsp : FileOfferResponse) (session : FileSession) (s : Server)
    → find (text_of 37 rsp.file_id) s.file_sessions ≡ some session
    → session.receiver_fd ≡ some receiver
    → receiver ≢ fd
    → answer_offer fd sequence (text_of 37 rsp.file_id) rsp s ≡ s
unfolding answer_offer notify_sender
answer_stranger fd sequence receiver rsp session s f r ne =
    elim (Bool-cases (is_empty (text_of 37 rsp.file_id))) [
      | inl e ↦ rw (answer_offer, e)
      | inr e ↦ rw (
        answer_offer,
        e,
        f,
        update_stranger fd receiver (text_of 37 rsp.file_id) rsp session s r ne,
      )
    ]

-- An answer to an offer changes nothing at all when the session of its file id has a receiver and
-- the answer comes from another connection.
pub stranger_answer :
    (fd receiver : ℕ) (h : MessageHeader) (body : Bytes) (s : Server) (session : FileSession)
    → (rsp : FileOfferResponse) → parse_file_offer_response body ≡ some rsp
    → find (text_of 37 rsp.file_id) s.file_sessions ≡ some session
    → session.receiver_fd ≡ some receiver
    → receiver ≢ fd
    → handle_file_offer_response fd h body s ≡ s
unfolding handle_file_offer_response
stranger_answer fd receiver h body s session rsp p f r ne =
    rw (handle_file_offer_response, p) (answer_stranger fd h.sequence receiver rsp session s f r ne)
