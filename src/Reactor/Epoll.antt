-- ===== src/Reactor/Epoll.antt =====
-- `EpollWrapper` of server/src/epoll_wrapper.cpp on the kernel's `epoll_ctl`.
use qt_linux_im_project.Base.{
  ℕ, ◌≡◌, ◌==◌, arith, Bool, true, false, Option, none, some, if◌then◌else◌,
}
use qt_linux_im_project.Reactor.{EpollEvents}

-- The kernel's epoll instance: what it watches a descriptor for, and `epoll_ctl` with
-- `EPOLL_CTL_ADD`, `EPOLL_CTL_MOD` and `EPOLL_CTL_DEL`, each with whether it answers 0.
pub record Epoll : Type 1 where
  pub Kernel : Type 0
  pub watched : ℕ → Kernel → Option EpollEvents
  pub ctl_add : ℕ → EpollEvents → Kernel → Kernel × Bool
  pub ctl_mod : ℕ → EpollEvents → Kernel → Kernel × Bool
  pub ctl_del : ℕ → Kernel → Kernel × Bool

-- What the manual of `epoll_ctl` says. A call that fails changes nothing; one that succeeds changes
-- what the kernel watches this descriptor for, and no other. Deleting a descriptor that is watched
-- succeeds.
pub record IsEpoll (E : Epoll) : Type 0 where
  pub adds :
      (fd j : ℕ) (ev : EpollEvents) (k : E.Kernel)
      → E.watched j (E.ctl_add fd ev k).0 ≡ (
          if (E.ctl_add fd ev k).1
          then (if fd == j then some ev else E.watched j k)
          else E.watched j k)
  pub modifies :
      (fd j : ℕ) (ev : EpollEvents) (k : E.Kernel)
      → E.watched j (E.ctl_mod fd ev k).0 ≡ (
          if (E.ctl_mod fd ev k).1
          then (if fd == j then some ev else E.watched j k)
          else E.watched j k)
  pub deletes :
      (fd j : ℕ) (k : E.Kernel)
      → E.watched j (E.ctl_del fd k).0 ≡ (if fd == j then none else E.watched j k)

-- `created` is `epollFd_ >= 0`.
pub record EpollWrapper (E : Epoll) : Type 0 where
  pub created : Bool
  pub kernel : E.Kernel

module _ (E : Epoll) where
  -- What `epoll_create1` answers, and the instance that it makes.
  unfoldable pub create : Bool → E.Kernel → EpollWrapper E → EpollWrapper E × Bool
  create answer fresh w =
      if answer
      then (record { created = true; kernel = fresh }, true)
      else (record w { created = false }, false)

  unfoldable pub called : EpollWrapper E → E.Kernel × Bool → EpollWrapper E × Bool
  called w (k, answer) = (record w { kernel = k }, answer)

  unfoldable pub add_fd : ℕ → EpollEvents → EpollWrapper E → EpollWrapper E × Bool
  unfolding called
  add_fd fd ev w = if w.created then called w (E.ctl_add fd ev w.kernel) else (w, false)

  unfoldable pub modify_fd : ℕ → EpollEvents → EpollWrapper E → EpollWrapper E × Bool
  unfolding called
  modify_fd fd ev w = if w.created then called w (E.ctl_mod fd ev w.kernel) else (w, false)

  unfoldable pub remove_fd : ℕ → EpollWrapper E → EpollWrapper E × Bool
  unfolding called
  remove_fd fd w = if w.created then called w (E.ctl_del fd w.kernel) else (w, false)

module _ (E : Epoll) where
  abbrev pub watches : ℕ → EpollWrapper E → Option EpollEvents
  watches j w = E.watched j w.kernel

  pub add_fd-created :
      (fd : ℕ) (ev : EpollEvents) (w : EpollWrapper E) → (add_fd E fd ev w).0.created ≡ w.created
  unfolding add_fd called
  add_fd-created fd ev w = ground arith

  pub modify_fd-created :
      (fd : ℕ) (ev : EpollEvents) (w : EpollWrapper E) → (modify_fd E fd ev w).0.created ≡ w.created
  unfolding modify_fd called
  modify_fd-created fd ev w = ground arith

  pub remove_fd-created : (fd : ℕ) (w : EpollWrapper E) → (remove_fd E fd w).0.created ≡ w.created
  unfolding remove_fd called
  remove_fd-created fd w = ground arith

  pub add_fd-watches :
      (law : IsEpoll E) (fd j : ℕ) (ev : EpollEvents) (w : EpollWrapper E)
      → w.created ≡ true
      → watches j (add_fd E fd ev w).0
        ≡ (if (add_fd E fd ev w).1 then (if fd == j then some ev else watches j w) else watches j w)
  unfolding add_fd called
  add_fd-watches law fd j ev w c = rw c (law.adds fd j ev w.kernel)

  pub modify_fd-watches :
      (law : IsEpoll E) (fd j : ℕ) (ev : EpollEvents) (w : EpollWrapper E)
      → w.created ≡ true
      → watches j (modify_fd E fd ev w).0 ≡ (
          if (modify_fd E fd ev w).1
          then (if fd == j then some ev else watches j w)
          else watches j w)
  unfolding modify_fd called
  modify_fd-watches law fd j ev w c = rw c (law.modifies fd j ev w.kernel)

  pub remove_fd-watches :
      (law : IsEpoll E) (fd j : ℕ) (w : EpollWrapper E)
      → w.created ≡ true
      → watches j (remove_fd E fd w).0 ≡ (if fd == j then none else watches j w)
  unfolding remove_fd called
  remove_fd-watches law fd j w c = rw c (law.deletes fd j w.kernel)
