-- ===== src/Server/Disconnect.antt =====
-- `registerClient`, `handleClientDisconnect`, `processPendingDisconnects` and `cleanupAllClients`
-- of server/src/server.cpp.
pub mod Forget
pub mod Pending
use qt_linux_im_project.Base.{
  ℕ, Bool, true, false, not, List, [], ◌∷◌, Bytes, none, some, if◌then◌else◌, is_empty, leb, ◌==◌,
}
use qt_linux_im_project.Base.FdMap.{lookup, insert, erase}
use qt_linux_im_project.Clients.{add_client, get_all_fds}
use qt_linux_im_project.Clients
use qt_linux_im_project.Protocol.Frames
use qt_linux_im_project.Server.Connection.{SendReply, new_connection}
use qt_linux_im_project.Server.State.{Server}
use qt_linux_im_project.Server.Send.{broadcast_user_list}
use qt_linux_im_project.Server.Files.{cleanup_file_sessions_for_fd}

unfoldable pub close_fd : ℕ → Server → Server
close_fd fd s = record s { closed = fd ∷ s.closed }

-- What the kernel says to a new descriptor: whether `setNonBlocking` and `registerHandler` succeed,
-- and its answers to the sends.
pub record Accepted : Type 0 where
  pub non_blocking : Bool
  pub registered : Bool
  pub replies : List SendReply

-- `clientHandlers_.emplace`: an entry that is there already stays.
unfoldable pub emplace_handler : ℕ → List SendReply → Server → Server
emplace_handler fd replies s = elim (lookup fd s.handlers) [
  | none ↦ record s { handlers = insert fd (new_connection fd replies) s.handlers }
  | some c ↦ s
]

unfoldable pub register_client : ℕ → Bytes → ℕ → ℕ → Accepted → Server → Server × Bool
unfolding emplace_handler close_fd
register_client fd ip port now a s =
    if not a.non_blocking
    then (close_fd fd s, false)
    else if not a.registered
    then (close_fd fd s, false)
    else (
      emplace_handler fd a.replies (record s { clients = add_client fd ip port now s.clients }),
      true,
    )

-- Everything that the server holds for the descriptor goes. Descriptors are not negative, so the
-- first test is passed.
unfoldable pub forget : ℕ → Server → Server
unfolding close_fd cleanup_file_sessions_for_fd Clients.remove_client Frames.remove_client
forget fd s = close_fd fd (
    cleanup_file_sessions_for_fd fd (record s {
      handlers = erase fd s.handlers;
      clients = Clients.remove_client fd s.clients;
      recv_buffers = Frames.remove_client fd s.recv_buffers;
    }))

unfoldable pub handle_client_disconnect : ℕ → Server → Server
unfolding forget
handle_client_disconnect fd s = if s.running then broadcast_user_list (forget fd s) else forget fd s

-- `std::sort` and `std::unique`.
unfoldable pub insert_sorted : ℕ → List ℕ → List ℕ
insert_sorted a [] = a ∷ []
insert_sorted a (x ∷ xs) = if leb a x then a ∷ x ∷ xs else x ∷ insert_sorted a xs

unfoldable pub sort : List ℕ → List ℕ
unfolding insert_sorted
sort [] = []
sort (x ∷ xs) = insert_sorted x (sort xs)

unfoldable pub unique_from : ℕ → List ℕ → List ℕ
unique_from a [] = a ∷ []
unique_from a (x ∷ xs) =
    let same = unique_from a xs in
    let other = unique_from x xs in if a == x then same else a ∷ other

unfoldable pub unique : List ℕ → List ℕ
unfolding unique_from
unique [] = []
unique (x ∷ xs) = unique_from x xs

unfoldable pub disconnect_all : List ℕ → Server → Server
disconnect_all [] s = s
disconnect_all (fd ∷ fds) s = disconnect_all fds (handle_client_disconnect fd s)

unfoldable pub process_pending_disconnects : Server → Server
unfolding disconnect_all
process_pending_disconnects s =
    if is_empty s.pending_disconnects
    then s
    else disconnect_all (unique (sort s.pending_disconnects))
        (record s { pending_disconnects = [] })

unfoldable pub cleanup_all_clients : Server → Server
unfolding disconnect_all
cleanup_all_clients s = record (disconnect_all (get_all_fds s.clients) s) { handlers = [] }
