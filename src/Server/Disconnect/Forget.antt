-- ===== src/Server/Disconnect/Forget.antt =====
-- What is left of a client after its disconnect.
use qt_linux_im_project.Base.{ℕ, ◌≡◌, ◌≢◌, ◌∙◌, refl, Bool, false, [], ◌∷◌, none, arith, All}
use qt_linux_im_project.Base.FdMap.{lookup, lookup-erase}
use qt_linux_im_project.Base.NameMap.{NameMap, remove_if}
use qt_linux_im_project.Clients
use qt_linux_im_project.Protocol.Frames
use qt_linux_im_project.Server.State.{FileSession, Server}
use qt_linux_im_project.Server.Files.{involves, cleanup_file_sessions_for_fd}
use qt_linux_im_project.Server.Disconnect.{forget, close_fd, handle_client_disconnect}
use qt_linux_im_project.Server.Send.Effect.{
  Sends, same, if-Sends, broadcast-Sends, Sends-Quiet, Sends-has_handler, has_handler,
}

-- Nothing in the server is left of descriptor `fd`: no client, no buffer, no handler, no session.
pub record Forgotten (fd : ℕ) (s : Server) : Type 0 where
  pub client : lookup fd s.clients ≡ none
  pub buffer : lookup fd s.recv_buffers ≡ none
  pub handler : has_handler fd s ≡ false
  pub sessions : All (λ entry. involves fd entry.1 ≡ false) s.file_sessions

remove_if-All :
    (p : FileSession → Bool) (m : NameMap FileSession)
    → All (λ entry. p entry.1 ≡ false) (remove_if p m)
unfolding remove_if
remove_if-All p [] = tt
remove_if-All p ((j, v) ∷ m) = ground (arith, remove_if-All p m)

forget-Forgotten : (fd : ℕ) (s : Server) → Forgotten fd (forget fd s)
unfolding forget has_handler Clients.remove_client Frames.remove_client cleanup_file_sessions_for_fd
forget-Forgotten fd s = record {
  client = ground (arith, lookup-erase fd fd s.clients);
  buffer = ground (arith, lookup-erase fd fd s.recv_buffers);
  handler = ground (arith, lookup-erase fd fd s.handlers);
  sessions = remove_if-All (involves fd) s.file_sessions;
}

disconnect-Sends : (fd : ℕ) (s : Server) → Sends (forget fd s) (handle_client_disconnect fd s)
unfolding handle_client_disconnect
disconnect-Sends fd s = if-Sends s.running (broadcast-Sends (forget fd s) same) same

forget-closed : (fd : ℕ) (s : Server) → (forget fd s).closed ≡ fd ∷ s.closed
unfolding forget close_fd cleanup_file_sessions_for_fd
forget-closed fd s = refl

forget-clients :
    (fd j : ℕ) (s : Server) → j ≢ fd → lookup j (forget fd s).clients ≡ lookup j s.clients
unfolding forget close_fd cleanup_file_sessions_for_fd Clients.remove_client
forget-clients fd j s ne = ground (arith, lookup-erase fd j s.clients)

forget-buffers :
    (fd j : ℕ) (s : Server) → j ≢ fd → lookup j (forget fd s).recv_buffers ≡ lookup j s.recv_buffers
unfolding forget close_fd cleanup_file_sessions_for_fd Frames.remove_client
forget-buffers fd j s ne = ground (arith, lookup-erase fd j s.recv_buffers)

-- After the disconnect of descriptor `fd`, with or without the new list of users that a running
-- server sends out: no client, buffer, handler or file session of `fd` is left, `fd` is the last
-- descriptor that was closed, and the client and the buffer of every other descriptor are as they
-- were.
pub handle_client_disconnect-forgets :
    (fd : ℕ) (s : Server)
    → Forgotten fd (handle_client_disconnect fd s)
      × ((handle_client_disconnect fd s).closed ≡ fd ∷ s.closed)
      × ((j : ℕ)
          → j ≢ fd
          → (lookup j (handle_client_disconnect fd s).clients ≡ lookup j s.clients)
            × (lookup j (handle_client_disconnect fd s).recv_buffers ≡ lookup j s.recv_buffers))
handle_client_disconnect-forgets fd s =
    let x = disconnect-Sends fd s in
    let q = Sends-Quiet x in
    let f = forget-Forgotten fd s in
    (
      record {
        client = rw q.clients f.client;
        buffer = rw q.recv_buffers f.buffer;
        handler = Sends-has_handler x fd ∙ f.handler;
        sessions = rw q.file_sessions f.sessions;
      },
      rw q.closed (forget-closed fd s),
      λ j ne.
          (rw q.clients (forget-clients fd j s ne), rw q.recv_buffers (forget-buffers fd j s ne)),
    )
