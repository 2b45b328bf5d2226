-- ===== src/TcpClient/Request/Answers.antt =====
-- What the client's answer to a file offer does.
use qt_linux_im_project.Base.{
  ℕ, ◌+◌, ◌≤◌, ◌≡◌, refl, ◌∙◌, true, false, Bytes, some, none, arith, codes, bytes_eq_refl, ap,
}
use qt_linux_im_project.Base.NameMap.{find, put, remove, find-put, find-remove_same}
use qt_linux_im_project.Wire.Message.{offer_code, file_offer_accept, file_offer_decline}
use qt_linux_im_project.TcpClient.{
  Qt, Disk, Client, PendingOffer, FileReceiveSession, send_next, send_data,
}
use qt_linux_im_project.TcpClient.Request.{
  accept_pending, prepare_answer, send_answer, send_file_offer_response,
}
use qt_linux_im_project.TcpClient.Transfer.{numbered, build_download_path, make_download_dir}
use qt_linux_im_project.TcpClient.Transfer.Paths.{build_download_path-free}
use qt_linux_im_project.Protocol.Server.Pack.{pack_file_offer_response}

-- The session that an accepted offer opens.
abbrev pub opened_session : Bytes → PendingOffer → FileReceiveSession
opened_session path offer = record {
  file_id = offer.file_id;
  file_name = offer.file_name;
  file_size = offer.file_size;
  bytes_received = 0;
  save_path = path;
  file = some (record { path = path; is_open = true });
}

send_next-recv :
    (pack : ℕ → Bytes) (c : Client) → (send_next pack c).recv_sessions ≡ c.recv_sessions
unfolding send_next send_data
send_next-recv pack c = ground arith

send_next-pending :
    (pack : ℕ → Bytes) (c : Client) → (send_next pack c).pending_offers ≡ c.pending_offers
unfolding send_next send_data
send_next-pending pack c = ground arith

-- What `prepare_answer` leaves of the sessions when it accepts.
prepared :
    (qt : Qt) (disk : Disk) (file_id message : Bytes) (offer : PendingOffer) (c : Client)
    → find file_id c.pending_offers ≡ some offer
    → disk.open_write (build_download_path qt disk offer.file_name) ≡ true
    → (prepare_answer qt disk file_id (offer_code file_offer_accept) message c).after.recv_sessions
      ≡ put file_id
          (opened_session (build_download_path qt disk offer.file_name) offer)
          c.recv_sessions
unfolding prepare_answer accept_pending make_download_dir
prepared qt disk file_id message offer c f o =
    rw (f, prepare_answer, o, accept_pending) (ground arith)

pub sent_recv :
    (qt : Qt) (disk : Disk) (file_id message : Bytes) (result : ℕ) (c : Client)
    → (send_file_offer_response qt disk file_id result message c).recv_sessions
      ≡ (prepare_answer qt disk file_id result message c).after.recv_sessions
unfolding send_file_offer_response
sent_recv qt disk file_id message result c =
    let a = prepare_answer qt disk file_id result message c in
    send_next-recv (λ sequence. pack_file_offer_response sequence file_id a.result a.message)
      (prepare_answer qt disk file_id result message c).after

abbrev pub accepted : Qt → Disk → Bytes → Bytes → Client → Client
accepted qt disk file_id message c =
    send_file_offer_response qt disk file_id (offer_code file_offer_accept) message c

-- An offer that is pending is accepted, some number gives a free name and the file opens: a session
-- for the offered file stands under the file id, with no bytes received yet, an open file, and a
-- path that no file had; and the offer is pending no more.
pub send_file_offer_response-accepts :
    (qt : Qt) (disk : Disk) (file_id message : Bytes) (offer : PendingOffer) (free : ℕ) (c : Client)
    → find file_id c.pending_offers ≡ some offer
    → 1 ≤ free
    → free ≤ disk.taken + 1
    → disk.exists (numbered qt disk offer.file_name free) ≡ false
    → disk.open_write (build_download_path qt disk offer.file_name) ≡ true
    → (path : Bytes) × (disk.exists path ≡ false)
      × (find file_id (accepted qt disk file_id message c).recv_sessions
          ≡ some (opened_session path offer))
      × (find file_id (accepted qt disk file_id message c).pending_offers ≡ none)
unfolding send_file_offer_response
send_file_offer_response-accepts qt disk file_id message offer free c f l b e o = (
  build_download_path qt disk offer.file_name,
  build_download_path-free qt disk offer.file_name free l b e,
  ap (find file_id) (
        sent_recv qt disk file_id message (offer_code file_offer_accept) c
        ∙ prepared qt disk file_id message offer c f o)
      ∙ rw (find-put file_id file_id, bytes_eq_refl file_id) refl,
  find-remove_same file_id _,
)

expired :
    (qt : Qt) (disk : Disk) (file_id message : Bytes) (c : Client)
    → find file_id c.pending_offers ≡ none
    → prepare_answer qt disk file_id (offer_code file_offer_accept) message c ≡ record {
      result = offer_code file_offer_decline;
      message = codes "Offer expired";
      after = c;
    }
unfolding prepare_answer
expired qt disk file_id message c f = rw (f, prepare_answer) refl

-- An offer that is not pending any more is declined, although the caller accepts it and whatever
-- the caller's message: the client opens no file and no session, and sends the answer
-- `Offer expired`.
pub send_file_offer_response-expired :
    (qt : Qt) (disk : Disk) (file_id message : Bytes) (c : Client)
    → find file_id c.pending_offers ≡ none
    → accepted qt disk file_id message c
      ≡ record (send_next
          (λ sequence.
            pack_file_offer_response sequence file_id
              (offer_code file_offer_decline)
              (codes "Offer expired"))
          c) { pending_offers = remove file_id c.pending_offers }
unfolding send_file_offer_response
send_file_offer_response-expired qt disk file_id message c f =
    ap
      (λ a. record (send_answer file_id a) {
        pending_offers = remove file_id (send_answer file_id a).pending_offers;
      })
      (expired qt disk file_id message c f)
    ∙ ap
        (λ l.
          record (send_next
            (λ sequence.
              pack_file_offer_response sequence file_id (offer_code file_offer_decline)
                (codes "Offer expired"))
            c) { pending_offers = remove file_id l })
        (send_next-pending
          (λ sequence.
            pack_file_offer_response sequence file_id (offer_code file_offer_decline)
              (codes "Offer expired"))
          c)
