-- ===== src/Clients.antt =====
-- `ClientManager` of server/src/client_manager.cpp: the table of connections by descriptor. Times
-- are nanoseconds of the steady clock, handed to the functions that read it.
pub mod Lookup
pub mod Targets
pub mod Timeout
pub mod Unique
use qt_linux_im_project.Base.{
  ◌≡◌, ℕ, suc, ◌+◌, ◌-◌, ◌/◌, Bool, true, false, not, ◌&&◌, List, [], ◌∷◌, Bytes, Option, none,
  some, ltb, ◌==◌, if◌then◌else◌, bytes_eq, is_empty,
}
use qt_linux_im_project.Base.FdMap.{FdMap, lookup, insert, modify, erase, keys}

pub record ClientInfo : Type 0 where
  pub fd : ℕ
  pub client_id : Bytes
  pub nickname : Bytes
  pub ip : Bytes
  pub port : ℕ
  pub last_heartbeat : ℕ
  pub is_online : Bool

-- An entry of the table names its own descriptor.
abbrev pub IsOwn : ℕ × ClientInfo → Type 0
IsOwn e = e.1.fd ≡ e.0

abbrev pub Clients : Type 0
Clients = FdMap ClientInfo

-- The entry of a new connection.
abbrev pub new_client : ℕ → Bytes → ℕ → ℕ → ClientInfo
new_client fd ip port now = record {
  fd = fd;
  client_id = [];
  nickname = [];
  ip = ip;
  port = port;
  last_heartbeat = now;
  is_online = false;
}

unfoldable pub add_client : ℕ → Bytes → ℕ → ℕ → Clients → Clients
add_client fd ip port now m = insert fd (new_client fd ip port now) m

unfoldable pub remove_client : ℕ → Clients → Clients
remove_client fd m = erase fd m

abbrev pub touch : ℕ → ClientInfo → ClientInfo
touch now info = record info { last_heartbeat = now }

unfoldable pub update_heartbeat : ℕ → ℕ → Clients → Clients
update_heartbeat fd now m = modify fd (touch now) m

-- The test is `duration_cast<seconds>(now - lastHeartbeat).count() > timeoutSeconds`.
unfoldable pub check_timeout : ℕ → ℕ → Clients → List ℕ
check_timeout timeout_seconds now [] = []
check_timeout timeout_seconds now ((fd, info) ∷ m) =
    let rest = check_timeout timeout_seconds now m in
    if ltb timeout_seconds ((now - info.last_heartbeat) / 1_000_000_000) then fd ∷ rest else rest

-- `getClient` and `getClientInfo`: the entry, or `nullptr` and `false`.
unfoldable pub get_client_info : ℕ → Clients → Option ClientInfo
get_client_info fd m = lookup fd m

unfoldable pub identify : Bytes → Bytes → ClientInfo → ClientInfo
identify client_id nickname info = record info {
  client_id = client_id;
  nickname = nickname;
  is_online = true;
}

abbrev pub is_some {ℓ} : {A : Type ℓ} → Option A → Bool
is_some none = false
is_some (some a) = true

unfoldable pub has_client : ℕ → Clients → Bool
has_client fd m = is_some (lookup fd m)

-- The answer, and the table.
unfoldable pub set_client_identity : ℕ → Bytes → Bytes → Clients → Bool × Clients
unfolding identify has_client
set_client_identity fd client_id nickname m =
    if has_client fd m then (true, modify fd (identify client_id nickname) m) else (false, m)

-- The loop of `isClientIdOnline` and of `isNicknameOnline`, by the string that it compares.
unfoldable pub any_online : (ClientInfo → Bytes) → Bytes → ℕ → Clients → Bool
any_online name key exclude_fd [] = false
any_online name key exclude_fd ((fd, info) ∷ m) =
    if fd == exclude_fd
    then any_online name key exclude_fd m
    else let rest = any_online name key exclude_fd m in
      if not info.is_online then rest else if bytes_eq (name info) key then true else rest

abbrev pub id_of : ClientInfo → Bytes
id_of info = info.client_id

abbrev pub nick_of : ClientInfo → Bytes
nick_of info = info.nickname

unfoldable pub is_client_id_online : Bytes → ℕ → Clients → Bool
is_client_id_online client_id exclude_fd m =
    if is_empty client_id then false else any_online id_of client_id exclude_fd m

unfoldable pub is_nickname_online : Bytes → ℕ → Clients → Bool
is_nickname_online nickname exclude_fd m =
    if is_empty nickname then false else any_online nick_of nickname exclude_fd m

unfoldable pub find_online : Bytes → Clients → Option ℕ
find_online client_id [] = none
find_online client_id ((fd, info) ∷ m) =
    let rest = find_online client_id m in
    if not info.is_online then rest else if bytes_eq info.client_id client_id then some fd else rest

-- `none` is the answer -1.
unfoldable pub get_fd_by_client_id : Bytes → Clients → Option ℕ
get_fd_by_client_id client_id m = if is_empty client_id then none else find_online client_id m

unfoldable pub get_online_clients : Clients → List ClientInfo
get_online_clients [] = []
get_online_clients ((fd, info) ∷ m) =
    let rest = get_online_clients m in if info.is_online then info ∷ rest else rest

unfoldable pub is_timed_out : ℕ → ℕ → ℕ → Clients → Bool
is_timed_out fd timeout_seconds now m = elim (lookup fd m) [
  | none ↦ false
  | some info ↦ ltb timeout_seconds ((now - info.last_heartbeat) / 1_000_000_000)
]

unfoldable pub get_all_fds : Clients → List ℕ
get_all_fds m = keys m

unfoldable pub get_online_count : Clients → ℕ
get_online_count [] = 0
get_online_count ((fd, info) ∷ m) = (if info.is_online then 1 else 0) + get_online_count m
