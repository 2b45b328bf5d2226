-- ===== src/Server/Files/Sessions/Offers.antt =====
-- `handleFileOffer`: which offers open a session.
use qt_linux_im_project.Base.{
  ℕ, ◌≡◌, none, true, false, ◌⊎◌, Bytes, some, is_empty, arith, Option-cases, Bool-cases, inl, inr,
}
use qt_linux_im_project.Base.FdMap.{lookup, From}
use qt_linux_im_project.Base.NameMap.{put}
use qt_linux_im_project.Wire.Text.{text_of}
use qt_linux_im_project.Wire.Message.{FileOffer}
use qt_linux_im_project.Clients.{ClientInfo, Clients, get_fd_by_client_id}
use qt_linux_im_project.Clients.Lookup.{get_fd_by_client_id_sound}
use qt_linux_im_project.Clients.Targets.{online_as, get_fd_by_client_id_nobody}
use qt_linux_im_project.Protocol.Server.Parse.{parse_file_offer}
use qt_linux_im_project.Server.State.{Server}
use qt_linux_im_project.Server.Send.{send_to}
use qt_linux_im_project.Server.Send.Effect.{send_to-Sends, Sends-Quiet}
use qt_linux_im_project.Server.Chat.{online_client}
use qt_linux_im_project.Server.Chat.Routing.{is_online_fd}
use qt_linux_im_project.Server.Files.{reply_offer, accept_offer, forward_offer, open_session}

-- Why an offer from `fd` opens no session: it cannot be read, `fd` is not online, the offer has no
-- file id or no target, or no connection is online under the target's id.
pub data Refused (fd : ℕ) (body : Bytes) (s : Server) : Type 0 where
  unreadable : parse_file_offer body ≡ none → Refused fd body s
  not_online : is_online_fd fd s.clients ≡ false → Refused fd body s
  no_id :
      (offer : FileOffer)
      → parse_file_offer body ≡ some offer
      → is_empty (text_of 37 offer.file_id) ≡ true
      → Refused fd body s
  no_target :
      (offer : FileOffer)
      → parse_file_offer body ≡ some offer
      → is_empty (text_of 32 offer.to_id) ≡ true
      → Refused fd body s
  target_offline :
      (offer : FileOffer)
      → parse_file_offer body ≡ some offer
      → ((j : ℕ) → online_as (text_of 32 offer.to_id) j s.clients ≡ false)
      → Refused fd body s

-- An offer from `fd`, which is online, to `target`, which is online under the id that the offer
-- names: the sessions of `t` are those of `s` with the one of the offer's file id set to join the
-- two.
pub record Opened (fd : ℕ) (body : Bytes) (s t : Server) : Type 0 where
  pub offer : FileOffer
  pub target : ℕ
  pub info : ClientInfo
  pub parsed : parse_file_offer body ≡ some offer
  pub sender_online : is_online_fd fd s.clients ≡ true
  pub has_id : is_empty (text_of 37 offer.file_id) ≡ false
  pub found : lookup target s.clients ≡ some info
  pub target_online : info.is_online ≡ true
  pub named : info.client_id ≡ text_of 32 offer.to_id
  pub sessions :
      t.file_sessions
      ≡ put
          (text_of 37 offer.file_id)
          (record { sender_fd = some fd; receiver_fd = some target })
          s.file_sessions

send_to-sessions :
    (fd : ℕ) (bytes : Bytes) (s : Server) → (send_to fd bytes s).file_sessions ≡ s.file_sessions
send_to-sessions fd bytes s = (Sends-Quiet (send_to-Sends fd bytes s)).file_sessions

pub online_client-some :
    (fd : ℕ) (m : Clients) (info : ClientInfo)
    → online_client fd m ≡ some info
    → is_online_fd fd m ≡ true
unfolding online_client qt_linux_im_project.Clients.get_client_info
online_client-some fd m info e = ground arith

pub online_client-none :
    (fd : ℕ) (m : Clients) → online_client fd m ≡ none → is_online_fd fd m ≡ false
unfolding online_client qt_linux_im_project.Clients.get_client_info
online_client-none fd m e = ground arith

module _ (fd sequence : ℕ) (body : Bytes) (sender : ClientInfo) (offer : FileOffer)
    (s : Server) where
  pub accept_offer-sessions :
      From 0 s.clients
      → parse_file_offer body ≡ some offer
      → is_online_fd fd s.clients ≡ true
      → (((accept_offer fd sequence sender offer s).file_sessions ≡ s.file_sessions)
          × Refused fd body s)
        ⊎ Opened fd body s (accept_offer fd sequence sender offer s)
  unfolding accept_offer reply_offer forward_offer open_session
  accept_offer-sessions w p o = elim (Bool-cases (is_empty (text_of 37 offer.file_id))) [
    | inl e ↦ inl (rw (accept_offer, e) (send_to-sessions _ _ s), no_id offer p e)
    | inr e ↦ elim (Bool-cases (is_empty (text_of 32 offer.to_id))) [
      | inl f ↦ inl (rw (accept_offer, e, f) (send_to-sessions _ _ s), no_target offer p f)
      | inr f ↦ elim (Option-cases (get_fd_by_client_id (text_of 32 offer.to_id) s.clients)) [
        | inl n ↦ inl (
          rw (accept_offer, e, f, n) (send_to-sessions _ _ s),
          target_offline offer p
              (λ j. get_fd_by_client_id_nobody (text_of 32 offer.to_id) j s.clients f n),
        )
        | inr (target, g) ↦
            let online = get_fd_by_client_id_sound (text_of 32 offer.to_id) s.clients target w g in
            inr (record {
              offer = offer;
              target = target;
              info = online.0;
              parsed = p;
              sender_online = o;
              has_id = e;
              found = online.1;
              target_online = online.2;
              named = online.3;
              sessions = rw (accept_offer, e, f, g) (rw (send_to-sessions _ _ s));
            })
      ]
    ]
  ]
