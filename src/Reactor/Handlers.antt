-- ===== src/Reactor/Handlers.antt =====
-- `init`, `registerHandler`, `modifyHandler`, `removeHandler` and `findHandler` of
-- server/src/reactor.cpp. A handler comes with its descriptor, which `getHandle` answers; `H` is
-- what else it is. The pointers are not null.
use qt_linux_im_project.Base.{
  ℕ, Bool, true, false, List, [], ◌∷◌, ◌&&◌, Option, none, some, if◌then◌else◌,
}
use qt_linux_im_project.Base.FdMap.{FdMap, lookup, insert, erase}
use qt_linux_im_project.Reactor.{Events, to_epoll_events}
use qt_linux_im_project.Reactor.Epoll.{Epoll, EpollWrapper, create, add_fd, modify_fd, remove_fd}

pub record HandlerEntry (H : Type 0) : Type 0 where
  pub handler : H
  pub events : Events

pub record Reactor (E : Epoll) (H : Type 0) : Type 0 where
  pub epoll : EpollWrapper E
  pub handlers : FdMap (HandlerEntry H)

module _ (E : Epoll) (H : Type 0) where
  unfoldable pub init : Bool → E.Kernel → Reactor E H → Reactor E H × Bool
  unfolding create
  init answer fresh r = let (w, ok) = create E answer fresh r.epoll in (record r { epoll = w }, ok)

  -- An entry with these events, and `EPOLL_CTL_MOD`.
  unfoldable pub change : ℕ → HandlerEntry H → Reactor E H → Reactor E H × Bool
  unfolding modify_fd
  change fd entry r =
      let (w, ok) = modify_fd E fd (to_epoll_events entry.events) r.epoll in
      (record r { epoll = w; handlers = insert fd entry r.handlers }, ok)

  unfoldable pub register_handler : ℕ → H → Events → Reactor E H → Reactor E H × Bool
  unfolding change add_fd
  register_handler fd handler events r =
      let entry : HandlerEntry H = record { handler = handler; events = events } in
      let (w, ok) = add_fd E fd (to_epoll_events events) r.epoll in
      elim (lookup fd r.handlers) [
        | some old ↦ change fd entry r
        | none ↦
            if ok
            then (record r { epoll = w; handlers = insert fd entry r.handlers }, true)
            else (record r { epoll = w }, false)
      ]

  unfoldable pub modify_handler : ℕ → Events → Reactor E H → Reactor E H × Bool
  unfolding change
  modify_handler fd events r = elim (lookup fd r.handlers) [
    | none ↦ (r, false)
    | some entry ↦ change fd (record entry { events = events }) r
  ]

  unfoldable pub remove_handler : ℕ → Reactor E H → Reactor E H
  unfolding remove_fd
  remove_handler fd r = elim (lookup fd r.handlers) [
    | none ↦ r
    | some entry ↦ record { epoll = (remove_fd E fd r.epoll).0; handlers = erase fd r.handlers }
  ]

  unfoldable pub find_handler : ℕ → Reactor E H → Option H
  find_handler fd r = elim (lookup fd r.handlers) [ none ↦ none | some entry ↦ some entry.handler ]

-- A call of the reactor.
pub data Operation (H : Type 0) : Type 0 where
  register : ℕ → H → Events → Operation H
  modify_events : ℕ → Events → Operation H
  remove : ℕ → Operation H

module _ (E : Epoll) (H : Type 0) where
  -- `removeHandler` has no answer.
  unfoldable pub operate : Operation H → Reactor E H → Reactor E H × Bool
  unfolding register_handler modify_handler remove_handler
  operate (register fd handler events) r = register_handler E H fd handler events r
  operate (modify_events fd events) r = modify_handler E H fd events r
  operate (remove fd) r = (remove_handler E H fd r, true)

  -- A history of calls, and whether each of them answered `true`.
  unfoldable pub operate_all : List (Operation H) → Reactor E H → Reactor E H × Bool
  unfolding operate
  operate_all [] r = (r, true)
  operate_all (op ∷ ops) r =
      let (next, ok) = operate op r in let (end, rest) = operate_all ops next in (end, ok && rest)
