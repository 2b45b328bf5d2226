-- ===== src/Tests/Connections.antt =====
-- The output of one connection, and the table of clients.
use qt_linux_im_project.Base.{
  ℕ, ◌≡◌, refl, true, false, some, none, ◌<◌, [], ◌∷◌, Bytes, codes, length, arith, inl, inr,
}
use qt_linux_im_project.Clients.{
  set_client_identity, any_online, id_of, nick_of, get_online_count, check_timeout, is_timed_out,
  get_online_clients, get_fd_by_client_id, is_client_id_online, ClientInfo,
}
use qt_linux_im_project.Clients.Unique.{max_online_clients}
use qt_linux_im_project.Clients.Timeout.{check_timeout-is_timed_out, contains, silent}
use qt_linux_im_project.Server.Connection.{
  Connection, event_read_write, queue_send, handle_write, sent, would_block,
}
use qt_linux_im_project.Server.Connection.Output.{IsBuffer, Keeps, handle_write-Keeps}
use qt_linux_im_project.Server.Connection.Queue.{Queues, queue_send-Queues}
use qt_linux_im_project.Server.Connection.Armed.{IsArmed}
use qt_linux_im_project.Tests.Data.{fresh_clients, online_clients}
use qt_linux_im_project.Tests.Data.Valid.{two_online-IsServer}

-- One byte of three is out, and the kernel takes one more before it takes no more.
abbrev waiting : Connection
waiting = record {
  fd = 5;
  closing = false;
  outbuf = 1 ∷ 2 ∷ 3 ∷ [];
  out_offset = 1;
  interest = event_read_write;
  replies = sent 0 ∷ would_block ∷ [];
  delivered = 1 ∷ [];
}

waiting-IsBuffer : IsBuffer waiting
waiting-IsBuffer = record { inside = omega arith }

waiting-IsArmed : IsArmed waiting
waiting-IsArmed = inr (inr refl)

queue_send-Queues_example : Queues (4 ∷ 5 ∷ []) waiting (queue_send (4 ∷ 5 ∷ []) waiting)
queue_send-Queues_example = queue_send-Queues (4 ∷ 5 ∷ []) waiting waiting-IsBuffer

handle_write-Keeps_example : Keeps waiting (handle_write waiting)
handle_write-Keeps_example = handle_write-Keeps waiting waiting-IsBuffer

one_more_out : (handle_write waiting).conn.delivered ≡ 1 ∷ 2 ∷ []
unfolding handle_write qt_linux_im_project.Server.Connection.flush_out qt_linux_im_project.Base.take
    qt_linux_im_project.Base.drop
one_more_out = refl

nobody_a : any_online id_of (codes "a") 5 fresh_clients ≡ false
unfolding any_online
nobody_a = refl

nobody_alice : any_online nick_of (codes "Alice") 5 fresh_clients ≡ false
unfolding any_online
nobody_alice = refl

room : get_online_count fresh_clients < max_online_clients
unfolding get_online_count
room = omega arith

b_found : get_fd_by_client_id (codes "b") online_clients ≡ some 6
unfolding get_fd_by_client_id qt_linux_im_project.Clients.find_online
    qt_linux_im_project.Base.bytes_eq
b_found = refl

z_missing : get_fd_by_client_id (codes "z") online_clients ≡ none
unfolding get_fd_by_client_id qt_linux_im_project.Clients.find_online
    qt_linux_im_project.Base.bytes_eq
z_missing = refl

check_timeout-is_timed_out_example :
    (contains 6 (check_timeout 10 11_000_000_000 online_clients)
      ≡ silent 6 10 11_000_000_000 online_clients)
    × (is_timed_out 6 10 11_000_000_000 online_clients ≡ silent 6 10 11_000_000_000 online_clients)
check_timeout-is_timed_out_example =
    check_timeout-is_timed_out 6 10 11_000_000_000 online_clients two_online-IsServer.table.sorted
