-- ===== src/Reactor/Agrees.antt =====
-- The reactor's handlers and the descriptors that the kernel watches.
use qt_linux_im_project.Base.{
  ℕ, ◌≡◌, ◌∙◌, true, List, [], ◌∷◌, Option, none, some, arith, Option-cases, Bool-cases, inl, inr,
}
use qt_linux_im_project.Base.FdMap.{lookup, lookup-insert, lookup-erase}
use qt_linux_im_project.Clients.{is_some}
use qt_linux_im_project.Reactor.{Events, EpollEvents, to_epoll_events}
use qt_linux_im_project.Reactor.Epoll.{
  Epoll, IsEpoll, add_fd, add_fd-created, modify_fd-created, remove_fd-created, add_fd-watches,
  modify_fd-watches, remove_fd-watches,
}
use qt_linux_im_project.Reactor.Handlers.{
  HandlerEntry, Reactor, change, register_handler, modify_handler, remove_handler, Operation,
  register, modify_events, remove, operate, operate_all,
}

module _ (E : Epoll) (law : IsEpoll E) (H : Type 0) where
  -- What the kernel has to watch a descriptor for, by the events that the reactor keeps: reading
  -- with the peer's hang-up, writing, errors and hang-up, edge triggered.
  abbrev pub kept : ℕ → Reactor E H → Option EpollEvents
  kept j r = elim (lookup j r.handlers) [
    | none ↦ none
    | some entry ↦ some (record {
      epoll_in = entry.events.event_read;
      epoll_rdhup = entry.events.event_read;
      epoll_out = entry.events.event_write;
      epoll_err = entry.events.event_error;
      epoll_hup = entry.events.event_hup;
      epoll_et = true;
    })
  ]

  -- The kernel watches each descriptor for what the reactor keeps for it.
  pub record Agrees (r : Reactor E H) : Type 0 where
    pub created : r.epoll.created ≡ true
    pub same : (j : ℕ) → E.watched j r.epoll.kernel ≡ kept j r

  -- The kernel watches the descriptors that have a handler, and no other.
  pub record Covers (r : Reactor E H) : Type 0 where
    pub created : r.epoll.created ≡ true
    pub same : (j : ℕ) → is_some (E.watched j r.epoll.kernel) ≡ is_some (lookup j r.handlers)

  change-Agrees :
      (fd : ℕ) (entry : HandlerEntry H) (r : Reactor E H)
      → Agrees r
      → (change E H fd entry r).1 ≡ true
      → Agrees (change E H fd entry r).0
  unfolding change to_epoll_events
  change-Agrees fd entry r a ok = record {
    created = modify_fd-created E fd (to_epoll_events entry.events) r.epoll ∙ a.created;
    same = λ j. ground (
      arith,
      modify_fd-watches E law fd j (to_epoll_events entry.events) r.epoll a.created,
      lookup-insert fd j entry r.handlers,
      a.same j,
    );
  }

  register-Agrees :
      (fd : ℕ) (handler : H) (events : Events) (r : Reactor E H)
      → Agrees r
      → (register_handler E H fd handler events r).1 ≡ true
      → Agrees (register_handler E H fd handler events r).0
  unfolding register_handler to_epoll_events
  register-Agrees fd handler events r a ok = elim (Option-cases (lookup fd r.handlers)) [
    | inr (old, e) ↦ rw (e, register_handler) (change-Agrees fd _ r a (ground arith))
    | inl e ↦ elim (Bool-cases (add_fd E fd (to_epoll_events events) r.epoll).1) [
      | inr f ↦ absurd (ground arith)
      | inl t ↦
          rw (e, t, register_handler)
            (record {
              created = add_fd-created E fd (to_epoll_events events) r.epoll ∙ a.created;
              same = λ j. ground (
                arith,
                add_fd-watches E law fd j (to_epoll_events events) r.epoll a.created,
                lookup-insert fd j (record { handler = handler; events = events }) r.handlers,
                a.same j,
              );
            })
    ]
  ]

  modify-Agrees :
      (fd : ℕ) (events : Events) (r : Reactor E H)
      → Agrees r
      → (modify_handler E H fd events r).1 ≡ true
      → Agrees (modify_handler E H fd events r).0
  unfolding modify_handler
  modify-Agrees fd events r a ok = elim (Option-cases (lookup fd r.handlers)) [
    | inl e ↦ rw (e, modify_handler) a
    | inr (old, e) ↦ rw (e, modify_handler) (change-Agrees fd _ r a (ground arith))
  ]

  -- Deleting what is not there changes nothing.
  remove-Agrees : (fd : ℕ) (r : Reactor E H) → Agrees r → Agrees (remove_handler E H fd r)
  unfolding remove_handler
  remove-Agrees fd r a = elim (Option-cases (lookup fd r.handlers)) [
    | inl e ↦ rw (e, remove_handler) a
    | inr (old, e) ↦
        rw (e, remove_handler)
          (record {
            created = remove_fd-created E fd r.epoll ∙ a.created;
            same = λ j. ground (
              arith,
              remove_fd-watches E law fd j r.epoll a.created,
              lookup-erase fd j r.handlers,
              a.same j,
            );
          })
  ]

  operate-Agrees :
      (op : Operation H) (r : Reactor E H)
      → Agrees r
      → (operate E H op r).1 ≡ true
      → Agrees (operate E H op r).0
  unfolding operate
  operate-Agrees (register fd handler events) r a ok = register-Agrees fd handler events r a ok
  operate-Agrees (modify_events fd events) r a ok = modify-Agrees fd events r a ok
  operate-Agrees (remove fd) r a ok = remove-Agrees fd r a

  -- A history of registrations, changes and removals, each answered `true`, keeps this: the kernel
  -- watches each descriptor that has a handler, edge triggered, for input and the peer's hang-up
  -- exactly when the reactor keeps reading for it, for output exactly when it keeps writing, for
  -- errors and hang-up exactly when it keeps those, and watches no descriptor without a handler.
  pub operate_all-Agrees :
      (ops : List (Operation H)) (r : Reactor E H)
      → Agrees r
      → (operate_all E H ops r).1 ≡ true
      → Agrees (operate_all E H ops r).0
  unfolding operate_all
  operate_all-Agrees [] r a ok = a
  operate_all-Agrees (op ∷ ops) r a ok =
      operate_all-Agrees ops (operate E H op r).0 (operate-Agrees op r a (ground arith))
        (ground arith)

  change-Covers :
      (fd : ℕ) (entry old : HandlerEntry H) (r : Reactor E H)
      → Covers r
      → lookup fd r.handlers ≡ some old
      → Covers (change E H fd entry r).0
  unfolding change
  change-Covers fd entry old r a e = record {
    created = modify_fd-created E fd (to_epoll_events entry.events) r.epoll ∙ a.created;
    same = λ j. ground (
      arith,
      modify_fd-watches E law fd j (to_epoll_events entry.events) r.epoll a.created,
      lookup-insert fd j entry r.handlers,
      a.same j,
      a.same fd,
    );
  }

  register-Covers :
      (fd : ℕ) (handler : H) (events : Events) (r : Reactor E H)
      → Covers r
      → Covers (register_handler E H fd handler events r).0
  unfolding register_handler
  register-Covers fd handler events r a = elim (Option-cases (lookup fd r.handlers)) [
    | inr (old, e) ↦ rw (e, register_handler) (change-Covers fd _ old r a e)
    | inl e ↦ elim (Bool-cases (add_fd E fd (to_epoll_events events) r.epoll).1) [
      | inr f ↦
          rw (e, f, register_handler)
            (record {
              created = add_fd-created E fd (to_epoll_events events) r.epoll ∙ a.created;
              same = λ j. ground (
                arith,
                add_fd-watches E law fd j (to_epoll_events events) r.epoll a.created,
                a.same j,
              );
            })
      | inl t ↦
          rw (e, t, register_handler)
            (record {
              created = add_fd-created E fd (to_epoll_events events) r.epoll ∙ a.created;
              same = λ j. ground (
                arith,
                add_fd-watches E law fd j (to_epoll_events events) r.epoll a.created,
                lookup-insert fd j (record { handler = handler; events = events }) r.handlers,
                a.same j,
              );
            })
    ]
  ]

  modify-Covers :
      (fd : ℕ) (events : Events) (r : Reactor E H)
      → Covers r
      → Covers (modify_handler E H fd events r).0
  unfolding modify_handler
  modify-Covers fd events r a = elim (Option-cases (lookup fd r.handlers)) [
    | inl e ↦ rw (e, modify_handler) a
    | inr (old, e) ↦ rw (e, modify_handler) (change-Covers fd _ old r a e)
  ]

  remove-Covers : (fd : ℕ) (r : Reactor E H) → Covers r → Covers (remove_handler E H fd r)
  unfolding remove_handler
  remove-Covers fd r a = elim (Option-cases (lookup fd r.handlers)) [
    | inl e ↦ rw (e, remove_handler) a
    | inr (old, e) ↦
        rw (e, remove_handler)
          (record {
            created = remove_fd-created E fd r.epoll ∙ a.created;
            same = λ j. ground (
              arith,
              remove_fd-watches E law fd j r.epoll a.created,
              lookup-erase fd j r.handlers,
              a.same j,
            );
          })
  ]

  operate-Covers : (op : Operation H) (r : Reactor E H) → Covers r → Covers (operate E H op r).0
  unfolding operate
  operate-Covers (register fd handler events) r a = register-Covers fd handler events r a
  operate-Covers (modify_events fd events) r a = modify-Covers fd events r a
  operate-Covers (remove fd) r a = remove-Covers fd r a

  -- Any history of registrations, changes and removals keeps this, those included that the kernel
  -- refuses: the descriptors that the kernel watches are those that have a handler.
  pub operate_all-Covers :
      (ops : List (Operation H)) (r : Reactor E H) → Covers r → Covers (operate_all E H ops r).0
  unfolding operate_all
  operate_all-Covers [] r a = a
  operate_all-Covers (op ∷ ops) r a =
      operate_all-Covers ops (operate E H op r).0 (operate-Covers op r a)
