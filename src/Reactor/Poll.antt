-- ===== src/Reactor/Poll.antt =====
-- `Reactor::poll`, over any handlers: whether a descriptor has a handler, and its three callbacks,
-- each with the answers of the kernel to the calls that it makes.
use qt_linux_im_project.Base.{ℕ, Bool, true, false, ◌||◌, List, [], ◌∷◌, if◌then◌else◌}
use qt_linux_im_project.Reactor.{Events, EpollEvents, from_epoll_events}

-- An entry of the array that `epoll_wait` fills.
pub record Ready {ℓ} (A : Type ℓ) : Type ℓ where
  pub fd : ℕ
  pub events : EpollEvents
  pub answers : A

-- What `epoll_wait` returns: a negative number with `EINTR` or another error, or the ready
-- descriptors, none of them after the timeout.
pub data WaitReply {ℓ} (A : Type ℓ) : Type ℓ where
  wait_interrupted wait_failed : WaitReply A
  ready : List (Ready A) → WaitReply A

module _ {ℓ κ} {A : Type ℓ} {S : Type κ} (finds : ℕ → S → Bool)
    (read write error : ℕ → A → S → S) where
  -- What follows the read of a ready descriptor: its handler may be gone.
  unfoldable pub write_after : Ready A → Bool → S → S
  write_after r wanted s =
      if wanted then (if finds r.fd s then write r.fd r.answers s else s) else s

  -- The body of the loop over the ready descriptors, for one that has a handler.
  unfoldable pub dispatch_events : Ready A → Events → S → S
  unfolding write_after
  dispatch_events r ev s =
      if ev.event_error || ev.event_hup
      then error r.fd r.answers s
      else write_after r ev.event_write (if ev.event_read then read r.fd r.answers s else s)

  unfoldable pub dispatch : Ready A → S → S
  unfolding dispatch_events
  dispatch r s = if finds r.fd s then dispatch_events r (from_epoll_events r.events) s else s

  unfoldable pub dispatch_all : List (Ready A) → S → S
  unfolding dispatch
  dispatch_all [] s = s
  dispatch_all (r ∷ rs) s = dispatch_all rs (dispatch r s)

  -- `false` is the answer -1. Where the answers end, the timeout has passed.
  unfoldable pub poll : List (WaitReply A) → S → S × Bool
  unfolding dispatch_all
  poll [] s = (s, true)
  poll (wait_interrupted ∷ rs) s = poll rs s
  poll (wait_failed ∷ rs) s = (s, false)
  poll (ready events ∷ rs) s = (dispatch_all events s, true)

-- What each callback keeps, where it is called, is kept by `poll`.
module _ {ℓ κ μ} {A : Type ℓ} {S : Type κ} (finds : ℕ → S → Bool) (read write error : ℕ → A → S → S)
    (P : S → Type μ) (read_keeps : (fd : ℕ) (a : A) (s : S) → P s → P (read fd a s))
    (write_keeps : (fd : ℕ) (a : A) (s : S) → P s → P (write fd a s))
    (error_keeps : (fd : ℕ) (a : A) (s : S) → P s → P (error fd a s)) where
  if_keeps : {s t : S} (b : Bool) → P s → P t → P (if b then s else t)
  if_keeps true x y = x
  if_keeps false x y = y

  dispatch-keeps : (r : Ready A) (s : S) → P s → P (dispatch finds read write error r s)
  unfolding dispatch dispatch_events write_after
  dispatch-keeps r s p =
      let ev = from_epoll_events r.events in
      let after = if ev.event_read then read r.fd r.answers s else s in
      let q : P after = if_keeps ev.event_read (read_keeps r.fd r.answers s p) p in
      if_keeps (finds r.fd s)
        (if_keeps (ev.event_error || ev.event_hup) (error_keeps r.fd r.answers s p) (
          if_keeps ev.event_write
            (if_keeps (finds r.fd after) (write_keeps r.fd r.answers after q) q) q))
        p

  dispatch_all-keeps :
      (rs : List (Ready A)) (s : S) → P s → P (dispatch_all finds read write error rs s)
  unfolding dispatch_all
  dispatch_all-keeps [] s p = p
  dispatch_all-keeps (r ∷ rs) s p = dispatch_all-keeps rs _ (dispatch-keeps r s p)

  pub poll-keeps : (rs : List (WaitReply A)) (s : S) → P s → P (poll finds read write error rs s).0
  unfolding poll
  poll-keeps [] s p = p
  poll-keeps (wait_interrupted ∷ rs) s p = poll-keeps rs s p
  poll-keeps (wait_failed ∷ rs) s p = p
  poll-keeps (ready events ∷ rs) s p = dispatch_all-keeps events s p
