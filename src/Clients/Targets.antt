-- ===== src/Clients/Targets.antt =====
-- What `getFdByClientId` has to find: the one connection that is online under an id.
use qt_linux_im_project.Base.{
  ℕ, ◌+◌, ◌≤◌, ◌≡◌, refl, Bool, true, false, ◌&&◌, [], ◌∷◌, Bytes, none, some, ◌==◌, is_empty,
  bytes_eq, bytes_eq_refl, inl, inr, Bool-cases, arith,
}
use qt_linux_im_project.Base.FdMap.{lookup, From}
use qt_linux_im_project.Clients.{ClientInfo, Clients, id_of, find_online, get_fd_by_client_id}
use qt_linux_im_project.Clients.Unique.{online_with, IsTable}

-- The table has descriptor `fd` online under the id.
abbrev pub online_as : Bytes → ℕ → Clients → Bool
online_as id fd m = elim (lookup fd m) [
  | none ↦ false
  | some info ↦ info.is_online && bytes_eq info.client_id id
]

-- A connection that is online under an id counts.
online_with_counts :
    (id : Bytes) (fd : ℕ) (m : Clients) → online_as id fd m ≡ true → 1 ≤ online_with id_of id m
unfolding lookup online_with
online_with_counts id fd [] e = cc
online_with_counts id fd ((j, v) ∷ m) e = elim (Bool-cases (j == fd)) [
  | inl hit ↦ ground arith
  | inr miss ↦ ground (arith, online_with_counts id fd m)
]

find_online_complete :
    (id : Bytes) (fd n : ℕ) (m : Clients)
    → From n m
    → online_with id_of id m ≤ 1
    → online_as id fd m ≡ true
    → find_online id m ≡ some fd
unfolding lookup online_with find_online
find_online_complete id fd n [] s one e = cc
find_online_complete id fd n ((j, v) ∷ m) (p, s) one e = elim (Bool-cases (j == fd)) [
  | inl hit ↦ ground arith
  | inr miss ↦ ground (arith, find_online_complete id fd (j + 1) m s, online_with_counts id fd m)
]

find_online_nobody :
    (id : Bytes) (fd : ℕ) (m : Clients) → find_online id m ≡ none → online_as id fd m ≡ false
unfolding lookup find_online
find_online_nobody id fd [] e = refl
find_online_nobody id fd ((j, v) ∷ m) e = ground (arith, find_online_nobody id fd m)

-- Where `getFdByClientId` returns -1 for an id that is not empty, no descriptor is online under it.
pub get_fd_by_client_id_nobody :
    (id : Bytes) (fd : ℕ) (m : Clients)
    → is_empty id ≡ false
    → get_fd_by_client_id id m ≡ none
    → online_as id fd m ≡ false
unfolding get_fd_by_client_id
get_fd_by_client_id_nobody id fd m f e = find_online_nobody id fd m (ground arith)

-- In a table in which each id is online once at most, `getFdByClientId` finds the connection that
-- is online under an id that is not empty.
pub get_fd_by_client_id_complete :
    (id : Bytes) (fd : ℕ) (m : Clients) (info : ClientInfo)
    → IsTable m
    → is_empty id ≡ false
    → lookup fd m ≡ some info
    → info.is_online ≡ true
    → info.client_id ≡ id
    → get_fd_by_client_id id m ≡ some fd
unfolding get_fd_by_client_id
get_fd_by_client_id_complete id fd m info t f e on same =
    let here : online_as id fd m ≡ true = rw (e, online_as, on, same) (bytes_eq_refl id) in
    rw f (find_online_complete id fd 0 m t.sorted (t.one_id id) here)
