-- ===== src/Clients/Lookup.antt =====
-- What the lookups by id and by nickname find.
use qt_linux_im_project.Base.{
  ℕ, ◌+◌, ◌≤◌, ◌≡◌, refl, true, false, [], ◌∷◌, Bytes, none, some, bytes_eq, bytes_eq→eq, inl, inr,
  Bool-cases, arith, length,
}
use qt_linux_im_project.Base.FdMap.{lookup, From}
use qt_linux_im_project.Clients.{
  ClientInfo, Clients, any_online, id_of, find_online, get_fd_by_client_id, is_client_id_online,
  get_online_clients, get_online_count,
}

-- `getOnlineCount` counts what `getOnlineClients` lists.
pub get_online_count-length : (m : Clients) → get_online_count m ≡ length (get_online_clients m)
unfolding get_online_count get_online_clients
get_online_count-length [] = refl
get_online_count-length ((fd, info) ∷ m) = ground (arith, get_online_count-length m)

-- Descriptor `fd`, not below `n`, is online under this id.
abbrev Holds : ℕ → Bytes → Clients → ℕ → Type 0
Holds n id m fd =
    (info : ClientInfo) × (n ≤ fd)
    × (lookup fd m ≡ some info)
    × (info.is_online ≡ true)
    × (info.client_id ≡ id)

Holds-cons :
    (n j fd : ℕ) (id : Bytes) (v : ClientInfo) (m : Clients)
    → n ≤ j
    → Holds (j + 1) id m fd
    → Holds n id ((j, v) ∷ m) fd
unfolding lookup
Holds-cons n j fd id v m p (info, above, found, on, same) =
    (info, omega arith, ground arith, on, same)

find_online-Holds :
    (n : ℕ) (id : Bytes) (m : Clients) (fd : ℕ)
    → From n m
    → find_online id m ≡ some fd
    → Holds n id m fd
unfolding find_online
find_online-Holds n id [] fd s e = cc
find_online-Holds n id ((j, v) ∷ m) fd (p, s) e = elim (Bool-cases v.is_online) [
  | inr off ↦ Holds-cons n j fd id v m p (find_online-Holds (j + 1) id m fd s (ground arith))
  | inl on ↦ elim (Bool-cases (bytes_eq v.client_id id)) [
    | inl hit ↦ unfold lookup in (v, ground arith, ground arith, on, bytes_eq→eq v.client_id id hit)
    | inr miss ↦ Holds-cons n j fd id v m p (find_online-Holds (j + 1) id m fd s (ground arith))
  ]
]

-- On a table whose keys grow, as those of a `std::map` do: what `getFdByClientId` returns is the
-- descriptor of a connection that is online under that id.
pub get_fd_by_client_id_sound :
    (id : Bytes) (m : Clients) (fd : ℕ)
    → From 0 m
    → get_fd_by_client_id id m ≡ some fd
    → (info : ClientInfo) × (lookup fd m ≡ some info)
      × (info.is_online ≡ true)
      × (info.client_id ≡ id)
unfolding get_fd_by_client_id
get_fd_by_client_id_sound id m fd s e =
    let found = find_online-Holds 0 id m fd s (ground arith) in (found.0, found.2, found.3, found.4)

find_online-none :
    (id : Bytes) (ex : ℕ) (m : Clients) → find_online id m ≡ none → any_online id_of id ex m ≡ false
unfolding find_online any_online
find_online-none id ex [] e = refl
find_online-none id ex ((j, v) ∷ m) e = ground (arith, find_online-none id ex m)

-- Where `getFdByClientId` returns -1, `isClientIdOnline` finds nobody under that id either,
-- whichever descriptor it leaves out.
pub get_fd_by_client_id-none :
    (id : Bytes) (ex : ℕ) (m : Clients)
    → get_fd_by_client_id id m ≡ none
    → is_client_id_online id ex m ≡ false
unfolding get_fd_by_client_id is_client_id_online
get_fd_by_client_id-none [] ex m e = refl
get_fd_by_client_id-none (c ∷ id) ex m e = find_online-none (c ∷ id) ex m e
