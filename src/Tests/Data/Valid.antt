-- ===== src/Tests/Data/Valid.antt =====
-- The server with two users online keeps its invariant.
use qt_linux_im_project.Base.{
  ℕ, ◌≡◌, ◌≤◌, refl, [], ◌∷◌, true, false, codes, arith, inr, inl, All, if◌then◌else◌, ◌==◌,
}
use qt_linux_im_project.Base.FdMap.{lookup, From}
use qt_linux_im_project.Clients.{
  Clients, has_client, any_online, set_client_identity, get_online_count,
}
use qt_linux_im_project.Clients.Unique.{IsTable, online_with, set_client_identity-IsTable}
use qt_linux_im_project.Server.Connection.{new_connection, pending}
use qt_linux_im_project.Server.Send.Effect.{has_handler}
use qt_linux_im_project.Server.Invariant.{IsServer, IsHandler}
use qt_linux_im_project.Tests.Data.{fresh_clients, online_clients, two_online, replies}

pub fresh_clients-IsTable : IsTable fresh_clients
unfolding online_with get_online_count
fresh_clients-IsTable = record {
  sorted = (omega arith, (omega arith, (omega arith, tt)));
  one_id = λ id. omega arith;
  one_nickname = λ nick. omega arith;
  room = omega arith;
}

abbrev first_login : Clients
first_login = (set_client_identity 5 (codes "a") (codes "Alice") fresh_clients).1

first_login-IsTable : IsTable first_login
unfolding any_online get_online_count
first_login-IsTable =
    set_client_identity-IsTable 5 (codes "a") (codes "Alice") fresh_clients refl refl (omega arith)
      fresh_clients-IsTable

second_login-IsTable : IsTable (set_client_identity 6 (codes "b") (codes "Bob") first_login).1
unfolding any_online set_client_identity lookup qt_linux_im_project.Base.FdMap.modify
    qt_linux_im_project.Base.bytes_eq get_online_count
second_login-IsTable =
    set_client_identity-IsTable 6 (codes "b") (codes "Bob") first_login refl refl (omega arith)
      first_login-IsTable

online_clients-IsTable : IsTable online_clients
unfolding set_client_identity lookup qt_linux_im_project.Base.FdMap.modify
online_clients-IsTable = second_login-IsTable

pub new_connection-IsHandler : (fd : ℕ) → IsHandler (fd, new_connection fd replies)
unfolding new_connection pending
new_connection-IsHandler fd = (record { inside = omega arith }, inr (inl refl), refl)

pub two_online-IsServer : IsServer two_online
unfolding has_handler has_client lookup
two_online-IsServer = record {
  table = online_clients-IsTable;
  own = (refl, (refl, (refl, tt)));
  handlers =
      (new_connection-IsHandler 5, (new_connection-IsHandler 6, (new_connection-IsHandler 7, tt)));
  paired = λ fd. ground arith;
}
