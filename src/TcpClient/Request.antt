-- ===== src/TcpClient/Request.antt =====
-- The requests that the windows make: logins, chat messages, user lists, heartbeats, and file
-- offers with their answers.
pub mod Answers
use qt_linux_im_project.Base.{
  ℕ, true, false, not, ◌||◌, ◌&&◌, ◌==◌, Bool, Bytes, Option, none, some, if◌then◌else◌, codes, [],
}
use qt_linux_im_project.Base.NameMap.{find, put, remove}
use qt_linux_im_project.Wire.Message.{ChatScope, offer_code, file_offer_accept, file_offer_decline}
use qt_linux_im_project.Protocol.Client.Pack.{
  pack_login_request, pack_logout_request, pack_heartbeat_request, pack_user_list_request,
}
use qt_linux_im_project.Protocol.Server.Pack.{
  pack_chat_message, pack_file_offer, pack_file_offer_response,
}
use qt_linux_im_project.TcpClient.{
  Qt, Disk, Client, FileSendSession, FileReceiveSession, PendingOffer, emit, file_call, send_next,
  file_transfer_completed, opened_write,
}
use qt_linux_im_project.TcpClient.Transfer.{build_download_path, make_download_dir}

unfoldable pub set_identity : Qt → Bytes → Bytes → Client → Client
set_identity qt client_id nickname c = record c {
  client_id = qt.trimmed client_id;
  nickname = qt.trimmed nickname;
}

unfoldable pub send_login_request : Bytes → Bytes → Client → Client
unfolding send_next
send_login_request client_id nickname c =
    send_next (λ sequence. pack_login_request sequence client_id nickname) c

unfoldable pub send_logout_request : Client → Client
unfolding send_next
send_logout_request c = send_next pack_logout_request c

unfoldable pub send_heartbeat : Client → Client
unfolding send_next
send_heartbeat c = send_next pack_heartbeat_request c

unfoldable pub request_user_list : Client → Client
unfolding send_next
request_user_list c = send_next pack_user_list_request c

-- `now` is `currentEpochSeconds()`.
unfoldable pub send_chat_message : ChatScope → Bytes → Bytes → ℕ → Client → Client
unfolding send_next
send_chat_message scope to_id message now c =
    send_next
      (λ sequence. pack_chat_message sequence scope c.client_id c.nickname to_id message now) c

-- `FileSendSession session;` and the assignments.
abbrev pub offer_session : Bytes → Bytes → Bytes → ℕ → Bytes → FileSendSession
offer_session file_id file_path file_name file_size to_id = record {
  file_id = file_id;
  file_path = file_path;
  file_name = file_name;
  file_size = file_size;
  to_id = to_id;
  bytes_sent = 0;
  started = false;
  file = none;
}

unfoldable pub send_file_offer : Disk → Bytes → Bytes → Bytes → ℕ → Bytes → Client → Client
unfolding send_next
send_file_offer disk file_id file_path file_name file_size to_id c =
    if not (disk.exists file_path) || not (disk.is_file file_path)
    then emit (file_transfer_completed file_id false false (codes "File not found")) c
    else send_next
        (λ sequence.
          pack_file_offer sequence file_id file_name file_size c.client_id c.nickname to_id)
        (record c {
          send_sessions =
              put file_id (offer_session file_id file_path file_name file_size to_id)
                c.send_sessions;
        })

-- What an answer is sent with, after the file for the download was opened.
pub record Answer : Type 0 where
  pub result : ℕ
  pub message : Bytes
  pub after : Client

unfoldable pub accept_pending : Qt → Disk → Bytes → Bytes → PendingOffer → Client → Answer
unfolding build_download_path make_download_dir
accept_pending qt disk file_id message offer c =
    let path = build_download_path qt disk offer.file_name in
    let made = make_download_dir disk c in
    if not (disk.open_write path)
    then record {
      result = offer_code file_offer_decline;
      message = codes "Cannot save file";
      after = emit (file_transfer_completed file_id true false (codes "Cannot save file")) made;
    }
    else record {
      result = offer_code file_offer_accept;
      message = message;
      after = record (file_call (opened_write path) made) {
        recv_sessions =
            put file_id
              (record {
                file_id = offer.file_id;
                file_name = offer.file_name;
                file_size = offer.file_size;
                bytes_received = 0;
                save_path = path;
                file = some (record { path = path; is_open = true });
              })
              c.recv_sessions;
      };
    }

unfoldable pub prepare_answer : Qt → Disk → Bytes → ℕ → Bytes → Client → Answer
unfolding accept_pending offer_code
prepare_answer qt disk file_id result message c =
    if result == offer_code file_offer_accept
    then elim (find file_id c.pending_offers) [
      | none ↦ record {
        result = offer_code file_offer_decline;
        message = codes "Offer expired";
        after = c;
      }
      | some offer ↦ accept_pending qt disk file_id message offer c
    ]
    else record { result = result; message = message; after = c }

abbrev pub send_answer : Bytes → Answer → Client
send_answer file_id a =
    send_next (λ sequence. pack_file_offer_response sequence file_id a.result a.message) a.after

unfoldable pub send_file_offer_response : Qt → Disk → Bytes → ℕ → Bytes → Client → Client
unfolding prepare_answer send_next
send_file_offer_response qt disk file_id result message c =
    let sent = send_answer file_id (prepare_answer qt disk file_id result message c) in
    record sent { pending_offers = remove file_id sent.pending_offers }
