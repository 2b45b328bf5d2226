-- ===== src/TcpClient/Lifecycle/Clears.antt =====
-- What a lost connection leaves of the client's files.
use qt_linux_im_project.Base.{
  ◌≡◌, refl, sym, ap, ◌∙◌, false, List, [], ◌∷◌, ◌++◌, if◌then◌else◌, append_assoc, append-nil,
  Bool-cases, inl, inr,
}
use qt_linux_im_project.Base.NameMap.{NameMap}
use qt_linux_im_project.TcpClient.{
  Client, FileCall, FileSendSession, FileReceiveSession, closed_file, disconnected,
}
use qt_linux_im_project.TcpClient.Transfer.{
  is_open_file, close_send_files, close_recv_files, clear_file_sessions,
}
use qt_linux_im_project.TcpClient.Lifecycle.{on_disconnected}

-- The calls that close the open files of the sessions.
abbrev pub send_closes : NameMap FileSendSession → List FileCall
send_closes [] = []
send_closes ((file_id, session) ∷ sessions) =
    if is_open_file session.file
    then closed_file session.file_path ∷ send_closes sessions
    else send_closes sessions

abbrev pub recv_closes : NameMap FileReceiveSession → List FileCall
recv_closes [] = []
recv_closes ((file_id, session) ∷ sessions) =
    if is_open_file session.file
    then closed_file session.save_path ∷ recv_closes sessions
    else recv_closes sessions

close_send-calls :
    (sessions : NameMap FileSendSession) (c : Client)
    → close_send_files sessions c ≡ record c { file_calls = c.file_calls ++ send_closes sessions }
unfolding close_send_files
close_send-calls [] c = ap (λ l. record c { file_calls = l }) (sym (append-nil c.file_calls))
close_send-calls ((file_id, session) ∷ sessions) c = elim (Bool-cases (is_open_file session.file)) [
  | inr f ↦ rw f (close_send-calls sessions c)
  | inl t ↦ rw t (
      close_send-calls sessions
        (record c { file_calls = c.file_calls ++ (closed_file session.file_path ∷ []) })
      ∙ ap (λ l. record c { file_calls = l }) (append_assoc c.file_calls _ _))
]

close_recv-calls :
    (sessions : NameMap FileReceiveSession) (c : Client)
    → close_recv_files sessions c ≡ record c { file_calls = c.file_calls ++ recv_closes sessions }
unfolding close_recv_files
close_recv-calls [] c = ap (λ l. record c { file_calls = l }) (sym (append-nil c.file_calls))
close_recv-calls ((file_id, session) ∷ sessions) c = elim (Bool-cases (is_open_file session.file)) [
  | inr f ↦ rw f (close_recv-calls sessions c)
  | inl t ↦ rw t (
      close_recv-calls sessions
        (record c { file_calls = c.file_calls ++ (closed_file session.save_path ∷ []) })
      ∙ ap (λ l. record c { file_calls = l }) (append_assoc c.file_calls _ _))
]

-- A lost connection stops the heartbeat, is told by one signal, and ends each transfer: no offer
-- and no session is left, and each file that is open in a session is closed, those that are being
-- sent first. All else stays.
pub on_disconnected-clears :
    (c : Client)
    → on_disconnected c ≡ record c {
      heartbeat_active = false;
      send_sessions = [];
      recv_sessions = [];
      pending_offers = [];
      file_calls = (c.file_calls ++ send_closes c.send_sessions) ++ recv_closes c.recv_sessions;
      signals = c.signals ++ (disconnected ∷ []);
    }
unfolding on_disconnected clear_file_sessions
on_disconnected-clears c = rw (close_send-calls, close_recv-calls) refl
