-- ===== src/Clients/Unique.antt =====
-- No two connections are online under one id, nor under one nickname: what a login has to check,
-- and what keeps it.
use qt_linux_im_project.Base.{
  ℕ, ◌+◌, ◌≤◌, ◌<◌, ◌≡◌, refl, false, ◌&&◌, [], ◌∷◌, Bytes, ◌==◌, if◌then◌else◌, bytes_eq,
  bytes_eq→eq, arith, inl, inr, Bool-cases,
}
use qt_linux_im_project.Base.FdMap.{
  insert, modify, erase, From, insert-From, erase-From, modify-From,
}
use qt_linux_im_project.Clients.{
  ClientInfo, Clients, any_online, id_of, nick_of, identify, new_client, add_client,
  get_online_count, remove_client, update_heartbeat, touch, set_client_identity, has_client,
}

-- How many connections are online under this name.
unfoldable pub online_with : (ClientInfo → Bytes) → Bytes → Clients → ℕ
online_with name key [] = 0
online_with name key ((fd, info) ∷ m) =
    (if info.is_online && bytes_eq (name info) key then 1 else 0) + online_with name key m

-- `kMaxOnlineClients`.
abbrev pub max_online_clients : ℕ
max_online_clients = 1024

-- The keys grow, as in a `std::map`, each id and each nickname is online once at most, and no more
-- than 1024 connections are online.
pub record IsTable (m : Clients) : Type 0 where
  pub sorted : From 0 m
  pub one_id : (id : Bytes) → online_with id_of id m ≤ 1
  pub one_nickname : (nick : Bytes) → online_with nick_of nick m ≤ 1
  pub room : get_online_count m ≤ max_online_clients

module _ (name : ClientInfo → Bytes) where
  online_with-erase :
      (key : Bytes) (fd : ℕ) (m : Clients)
      → online_with name key (erase fd m) ≤ online_with name key m
  unfolding online_with erase
  online_with-erase key fd [] = omega arith
  online_with-erase key fd ((j, v) ∷ m) = ground (arith, online_with-erase key fd m)

  -- A new connection is not online, and one that it replaces is gone.
  online_with-insert :
      (key : Bytes) (fd : ℕ) (info : ClientInfo) (m : Clients)
      → info.is_online ≡ false
      → online_with name key (insert fd info m) ≤ online_with name key m
  unfolding online_with insert
  online_with-insert key fd info [] e = ground arith
  online_with-insert key fd info ((j, v) ∷ m) e = ground (arith, online_with-insert key fd info m e)

  none_above :
      (key : Bytes) (fd n : ℕ) (m : Clients)
      → fd < n
      → From n m
      → any_online name key fd m ≡ false
      → online_with name key m ≡ 0
  unfolding online_with any_online
  none_above key fd n [] h s e = refl
  none_above key fd n ((j, v) ∷ m) h (p, s) e = ground (arith, none_above key fd (j + 1) m)

modify_above :
    (f : ClientInfo → ClientInfo) (fd n : ℕ) (m : Clients) → fd < n → From n m → modify fd f m ≡ m
unfolding modify
modify_above f fd n [] h s = refl
modify_above f fd n ((j, v) ∷ m) h (p, s) = ground (arith, modify_above f fd (j + 1) m)

module _ (name : ClientInfo → Bytes) (f : ClientInfo → ClientInfo) where
  -- A change that keeps the name and the flag keeps the count.
  online_with-modify_same :
      (key : Bytes) (fd : ℕ) (m : Clients)
      → ((v : ClientInfo) → name (f v) ≡ name v)
      → ((v : ClientInfo) → (f v).is_online ≡ v.is_online)
      → online_with name key (modify fd f m) ≡ online_with name key m
  unfolding online_with modify
  online_with-modify_same key fd [] e g = refl
  online_with-modify_same key fd ((j, v) ∷ m) e g =
      ground (arith, e v, g v, online_with-modify_same key fd m e g)

  -- The name that the loop did not find on another connection is now online once.
  take_name :
      (key : Bytes) (fd n : ℕ) (m : Clients)
      → ((v : ClientInfo) → name (f v) ≡ key)
      → From n m
      → any_online name key fd m ≡ false
      → online_with name key (modify fd f m) ≤ 1
  unfolding online_with modify any_online
  take_name key fd n [] e s h = omega arith
  take_name key fd n ((j, v) ∷ m) e (p, s) h = elim (Bool-cases (j == fd)) [
    | inl hit ↦ ground (arith, none_above name key fd (j + 1) m)
    | inr miss ↦ ground (arith, take_name key fd (j + 1) m e s)
  ]

  -- And the count of every other name does not grow.
  other_name :
      (key other : Bytes) (fd : ℕ) (m : Clients)
      → ((v : ClientInfo) → name (f v) ≡ key)
      → bytes_eq key other ≡ false
      → online_with name other (modify fd f m) ≤ online_with name other m
  unfolding online_with modify
  other_name key other fd [] e ne = omega arith
  other_name key other fd ((j, v) ∷ m) e ne = ground (arith, e v, other_name key other fd m e ne)

  rename :
      (key other : Bytes) (fd : ℕ) (m : Clients)
      → ((v : ClientInfo) → name (f v) ≡ key)
      → From 0 m
      → any_online name key fd m ≡ false
      → online_with name other m ≤ 1
      → online_with name other (modify fd f m) ≤ 1
  rename key other fd m e s h one = elim (Bool-cases (bytes_eq key other)) [
    | inl same ↦ rw (bytes_eq→eq key other same) at (take_name key fd 0 m e s h)
    | inr ne ↦ omega (arith, other_name key other fd m e ne)
  ]

get_online_count-erase : (fd : ℕ) (m : Clients) → get_online_count (erase fd m) ≤ get_online_count m
unfolding get_online_count erase
get_online_count-erase fd [] = omega arith
get_online_count-erase fd ((j, v) ∷ m) = ground (arith, get_online_count-erase fd m)

get_online_count-insert :
    (fd : ℕ) (info : ClientInfo) (m : Clients)
    → info.is_online ≡ false
    → get_online_count (insert fd info m) ≤ get_online_count m
unfolding get_online_count insert
get_online_count-insert fd info [] e = ground arith
get_online_count-insert fd info ((j, v) ∷ m) e = ground (arith, get_online_count-insert fd info m e)

get_online_count-touch :
    (fd now : ℕ) (m : Clients) → get_online_count (modify fd (touch now) m) ≡ get_online_count m
unfolding get_online_count modify
get_online_count-touch fd now [] = refl
get_online_count-touch fd now ((j, v) ∷ m) = ground (arith, get_online_count-touch fd now m)

get_online_count-modify :
    (fd : ℕ) (f : ClientInfo → ClientInfo) (m : Clients)
    → get_online_count (modify fd f m) ≤ get_online_count m + 1
unfolding get_online_count modify
get_online_count-modify fd f [] = omega arith
get_online_count-modify fd f ((j, v) ∷ m) = ground (arith, get_online_count-modify fd f m)

pub add_client-IsTable :
    (fd : ℕ) (ip : Bytes) (port now : ℕ) (m : Clients)
    → IsTable m
    → IsTable (add_client fd ip port now m)
unfolding add_client
add_client-IsTable fd ip port now m t = record {
  sorted = insert-From 0 fd _ m (omega arith) t.sorted;
  one_id = λ id. omega (arith, online_with-insert id_of id fd _ m refl, t.one_id id);
  one_nickname =
      λ nick. omega (arith, online_with-insert nick_of nick fd _ m refl, t.one_nickname nick);
  room = omega (arith, get_online_count-insert fd (new_client fd ip port now) m refl, t.room);
}

pub remove_client-IsTable : (fd : ℕ) (m : Clients) → IsTable m → IsTable (remove_client fd m)
unfolding remove_client
remove_client-IsTable fd m t = record {
  sorted = erase-From 0 fd m t.sorted;
  one_id = λ id. omega (arith, online_with-erase id_of id fd m, t.one_id id);
  one_nickname = λ nick. omega (arith, online_with-erase nick_of nick fd m, t.one_nickname nick);
  room = omega (arith, get_online_count-erase fd m, t.room);
}

pub update_heartbeat-IsTable :
    (fd now : ℕ) (m : Clients) → IsTable m → IsTable (update_heartbeat fd now m)
unfolding update_heartbeat
update_heartbeat-IsTable fd now m t = record {
  sorted = modify-From 0 fd _ m t.sorted;
  one_id = λ id.
      rw (online_with-modify_same id_of (touch now) id fd m (λ v. refl) (λ v. refl)) (t.one_id id);
  one_nickname = λ nick.
      rw (online_with-modify_same nick_of (touch now) nick fd m (λ v. refl) (λ v. refl))
        (t.one_nickname nick);
  room = omega (arith, get_online_count-touch fd now m, t.room);
}

-- `setClientIdentity`, where no other descriptor has the id or the nickname online and fewer than
-- 1024 connections are online, keeps the table's order of descriptors, leaves each id and each
-- nickname online on one connection at most, and at most 1024 connections online.
pub set_client_identity-IsTable :
    (fd : ℕ) (id nick : Bytes) (m : Clients)
    → any_online id_of id fd m ≡ false
    → any_online nick_of nick fd m ≡ false
    → get_online_count m < max_online_clients
    → IsTable m
    → IsTable (set_client_identity fd id nick m).1
unfolding set_client_identity
set_client_identity-IsTable fd id nick m h k r t = elim (Bool-cases (has_client fd m)) [
  | inr e ↦ rw e t
  | inl e ↦ rw e (record {
    sorted = modify-From 0 fd _ m t.sorted;
    one_id = λ other. rename id_of _ id other fd m (λ v. refl) t.sorted h (t.one_id other);
    one_nickname =
        λ other. rename nick_of _ nick other fd m (λ v. refl) t.sorted k (t.one_nickname other);
    room = omega (arith, get_online_count-modify fd (identify id nick) m);
  })
]
