-- ===== src/Server/Start/Listens.antt =====
-- The listening socket is open after a start that succeeds, and is closed once in any case.
use qt_linux_im_project.Base.{
  ℕ, ◌≡◌, refl, ap, Bool, true, false, not, ◌&&◌, List, ◌∷◌, Bytes, Option, none, some,
  if◌then◌else◌, arith, Option-cases, Bool-cases, inl, inr, bytes_eq, codes, ◌⊎◌, ==-refl,
}
use qt_linux_im_project.Base.FdMap.{lookup, lookup-insert}
use qt_linux_im_project.Reactor.Epoll.{Epoll}
use qt_linux_im_project.Reactor.Handlers.{Reactor, find_handler, init, register_handler, change}
use qt_linux_im_project.Server.Start.{
  Role, listening, Listener, SocketAnswers, close_listen, init_listen_socket, watch_listen,
  watch_opened, start, end_run, destroy, is_initialized, set_non_blocking, event_read,
}

-- With the new socket's descriptor closed.
abbrev pub closed_after : Option ℕ → List ℕ → List ℕ
closed_after none fds = fds
closed_after (some fd) fds = fd ∷ fds

module _ (E : Epoll) where
  -- The descriptor `fd` is open, watched by a reactor with the listening handler, and nothing was
  -- closed since `s`.
  pub record Listening (fd : ℕ) (s t : Listener E) : Type 0 where
    pub reactor : Reactor E Role
    pub has_reactor : t.reactor ≡ some reactor
    pub initialized : t.initialized ≡ true
    pub found : find_handler E Role fd reactor ≡ some listening
    pub listen_fd : t.listen_fd ≡ some fd
    pub closed : t.closed ≡ s.closed

  -- There is no listening descriptor, and the one that `socket` made was closed.
  pub record Gone (socket : Option ℕ) (s t : Listener E) : Type 0 where
    pub listen_fd : t.listen_fd ≡ none
    pub closed : t.closed ≡ closed_after socket s.closed

  close_listen-Gone :
      (s t : Listener E) → t.closed ≡ s.closed → Gone t.listen_fd s (close_listen E t)
  unfolding close_listen
  close_listen-Gone s t e = elim (Option-cases t.listen_fd) [
    | inl n ↦ rw (n, close_listen) (record { listen_fd = n; closed = e })
    | inr (fd, n) ↦ rw (n, close_listen) (record { listen_fd = refl; closed = ap (λ l. fd ∷ l) e })
  ]

  abbrev Opens : Option ℕ → Listener E → Listener E × Bool → Type 0
  Opens socket s x =
      ((fd : ℕ) × (socket ≡ some fd) × (x ≡ (record s { listen_fd = some fd }, true)))
      ⊎ ((x.1 ≡ false) × Gone socket s x.0)

  if_fails :
      {socket : Option ℕ} {s t : Listener E} {x : Listener E × Bool} (b : Bool)
      → Gone socket s t
      → Opens socket s x
      → Opens socket s (if b then (t, false) else x)
  if_fails true g o = inr (refl, g)
  if_fails false g o = o

  init-Opens :
      (ip : Bytes) (socket : Option ℕ) (a : SocketAnswers) (s : Listener E)
      → Opens socket s (init_listen_socket E ip socket a s)
  unfolding init_listen_socket
  init-Opens ip none a s = inr (refl, record { listen_fd = refl; closed = refl })
  init-Opens ip (some fd) a s =
      let t : Listener E = close_listen E (record s { listen_fd = some fd }) in
      let g : Gone (some fd) s t = close_listen-Gone s (record s { listen_fd = some fd }) refl in
      if_fails (not a.set_option) g (
        if_fails (not (bytes_eq ip (codes "0.0.0.0")) && not a.parsed_ip) g (
          if_fails (not a.bound) g (
            if_fails (not a.listens) g (
              if_fails (not (set_non_blocking a.got_flags a.set_flags)) g (inl (fd, refl, refl))))))

  -- What `start` promises for the answer of `socket`.
  abbrev pub Starts : Option ℕ → Listener E → Listener E × Bool → Type 0
  Starts socket s (t, ok) =
      ((fd : ℕ) × (socket ≡ some fd) × (ok ≡ true) × Listening fd s t)
      ⊎ ((ok ≡ false) × Gone socket s t)

  register-found :
      (fd : ℕ) (r : Reactor E Role)
      → (register_handler E Role fd listening event_read r).1 ≡ true
      → find_handler E Role fd (register_handler E Role fd listening event_read r).0
        ≡ some listening
  unfolding register_handler find_handler change
  register-found fd r h = elim (Option-cases (lookup fd r.handlers)) [
    | inr (old, e) ↦ ground (
      arith,
      lookup-insert fd fd (record { handler = listening; events = event_read }) r.handlers,
      ==-refl fd,
    )
    | inl e ↦ ground (
      arith,
      lookup-insert fd fd (record { handler = listening; events = event_read }) r.handlers,
      ==-refl fd,
    )
  ]

  stops :
      (b : Bool) (socket : Option ℕ) (s t : Listener E) (x : Listener E × Bool)
      → Gone socket s t
      → (b ≡ false → Starts socket s x)
      → Starts socket s (if b then (t, false) else x)
  stops true socket s t x g o = inr (refl, g)
  stops false socket s t x g o = o refl

  watch-Starts :
      (created : Bool) (fresh : E.Kernel) (empty : Reactor E Role) (fd : ℕ) (s : Listener E)
      → Starts
          (some fd)
          s
          (watch_listen E created fresh empty fd (record s { listen_fd = some fd }))
  unfolding watch_listen
  watch-Starts created fresh empty fd s =
      let (made, ready) = init E Role created fresh empty in
      let watching = register_handler E Role fd listening event_read made in
      stops (not ready) (some fd) s _ _ (close_listen-Gone s _ refl) λ _.
        stops (not watching.1) (some fd) s _ _ (close_listen-Gone s _ refl) λ h. inl (
          fd,
          refl,
          refl,
          record {
            reactor = watching.0;
            has_reactor = refl;
            initialized = refl;
            found = register-found fd made (ground arith);
            listen_fd = refl;
            closed = refl;
          },
        )

  opened-Starts :
      (created : Bool) (fresh : E.Kernel) (empty : Reactor E Role) (fd : ℕ) (s : Listener E)
      → Starts
          (some fd)
          s
          (watch_opened E created fresh empty (record s { listen_fd = some fd }, true))
  unfolding watch_opened
  opened-Starts created fresh empty fd s = watch-Starts created fresh empty fd s

  failed-Starts :
      (created : Bool) (fresh : E.Kernel) (empty : Reactor E Role) (socket : Option ℕ)
      (s : Listener E) (x : Listener E × Bool)
      → x.1 ≡ false
      → Gone socket s x.0
      → Starts socket s (watch_opened E created fresh empty x)
  unfolding watch_opened
  failed-Starts created fresh empty socket s (t, ok) f g = rw (f, watch_opened) (inr (refl, g))

  watch_opened-Starts :
      (created : Bool) (fresh : E.Kernel) (empty : Reactor E Role) (socket : Option ℕ)
      (s : Listener E) (x : Listener E × Bool)
      → Opens socket s x
      → Starts socket s (watch_opened E created fresh empty x)
  watch_opened-Starts created fresh empty socket s x (inr (f, g)) =
      failed-Starts created fresh empty socket s x f g
  watch_opened-Starts created fresh empty socket s x (inl (fd, same, e)) =
      rw (e, same) (opened-Starts created fresh empty fd s)

  -- `start`, on whatever the kernel answers, either answers `true` with the new socket open, kept
  -- as the listening descriptor and registered in the reactor with the listening handler, or it
  -- answers `false` with no listening descriptor and the new socket, if one was made, closed once.
  pub start-Starts :
      (ip : Bytes) (socket : Option ℕ) (a : SocketAnswers) (created : Bool) (fresh : E.Kernel)
      (empty : Reactor E Role) (s : Listener E)
      → Starts socket s (start E ip socket a created fresh empty s)
  unfolding start
  start-Starts ip socket a created fresh empty s =
      watch_opened-Starts created fresh empty socket s _ (init-Opens ip socket a s)

  is_initialized-Listening :
      (fd : ℕ) (s t : Listener E) → Listening fd s t → is_initialized E t ≡ true
  unfolding is_initialized
  is_initialized-Listening fd s t h = rw h.has_reactor h.initialized

  ends :
      (socket : Option ℕ) (s : Listener E) (x : Listener E × Bool)
      → Starts socket s x
      → Gone socket s (destroy E (end_run E x.0))
  unfolding destroy end_run close_listen
  ends socket s (t, ok) (inl (fd, same, _, h)) =
      rw (is_initialized-Listening fd s t h, h.listen_fd, h.closed, same)
        (record { listen_fd = refl; closed = refl })
  ends socket s (t, ok) (inr (_, g)) = elim (Bool-cases (is_initialized E t)) [
    | inl i ↦ rw (i, g.listen_fd) (record { listen_fd = refl; closed = g.closed })
    | inr i ↦ rw (i, g.listen_fd) (record { listen_fd = refl; closed = g.closed })
  ]

  -- Whatever the kernel answers to the calls of `start`, the end of `run` and then the destructor
  -- leave no listening descriptor, and the socket that `start` made, if any, was closed once.
  pub destroy-end_run :
      (ip : Bytes) (socket : Option ℕ) (a : SocketAnswers) (created : Bool) (fresh : E.Kernel)
      (empty : Reactor E Role) (s : Listener E)
      → Gone socket s (destroy E (end_run E (start E ip socket a created fresh empty s).0))
  destroy-end_run ip socket a created fresh empty s =
      ends socket s _ (start-Starts ip socket a created fresh empty s)
