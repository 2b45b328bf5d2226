-- ===== src/Clients/Timeout.antt =====
-- `checkTimeout` and `isTimedOut` against one criterion.
use qt_linux_im_project.Base.{
  ℕ, ◌+◌, ◌-◌, ◌*◌, ◌/◌, ◌<◌, ◌≡◌, refl, Bool, true, false, List, [], ◌∷◌, none, some, ◌==◌, ltb,
  leb, if◌then◌else◌, arith, Option-cases, inl, inr,
}
use qt_linux_im_project.Base.FdMap.{FdMap, lookup, From}
use qt_linux_im_project.Clients.{Clients, check_timeout, is_timed_out}

abbrev pub contains : ℕ → List ℕ → Bool
contains a [] = false
contains a (x ∷ xs) = if x == a then true else contains a xs

pub lookup-From {ℓ} : {V : Type ℓ} (fd n : ℕ) (m : FdMap V) → fd < n → From n m → lookup fd m ≡ none
unfolding lookup
lookup-From fd n [] h s = refl
lookup-From fd n ((j, v) ∷ m) h (p, s) = ground (arith, lookup-From fd (j + 1) m)

check_timeout-From :
    (fd n t now : ℕ) (m : Clients) → fd < n → From n m → contains fd (check_timeout t now m) ≡ false
unfolding check_timeout
check_timeout-From fd n t now [] h s = refl
check_timeout-From fd n t now ((j, v) ∷ m) h (p, s) =
    ground (arith, check_timeout-From fd (j + 1) t now m)

-- The whole seconds since the last heartbeat are more than `t` from one second after the limit on.
whole_seconds :
    (t now last : ℕ)
    → ltb t ((now - last) / 1_000_000_000) ≡ leb (last + (t + 1) * 1_000_000_000) now
whole_seconds t now last = ground arith

-- Whether the connection on a descriptor, if there is one, had its last heartbeat `t + 1` whole
-- seconds ago or before.
abbrev pub silent : ℕ → ℕ → ℕ → Clients → Bool
silent fd t now m = elim (lookup fd m) [
  | none ↦ false
  | some info ↦ leb (info.last_heartbeat + (t + 1) * 1_000_000_000) now
]

is_timed_out-silent : (fd t now : ℕ) (m : Clients) → is_timed_out fd t now m ≡ silent fd t now m
unfolding is_timed_out
is_timed_out-silent fd t now m = elim (Option-cases (lookup fd m)) [
  | inl e ↦ rw (e, is_timed_out, silent) refl
  | inr (info, e) ↦ rw (e, is_timed_out, silent) (whole_seconds t now info.last_heartbeat)
]

reports-From :
    (fd n t now : ℕ) (m : Clients)
    → From n m
    → contains fd (check_timeout t now m) ≡ silent fd t now m
unfolding check_timeout lookup
reports-From fd n t now [] s = refl
reports-From fd n t now ((j, v) ∷ m) (p, s) = ground (
  arith,
  reports-From fd (j + 1) t now m s,
  check_timeout-From fd (j + 1) t now m,
  lookup-From fd (j + 1) m,
  whole_seconds t now v.last_heartbeat,
)

-- On a table whose keys grow, as those of a `std::map` do: a descriptor is among those that
-- `checkTimeout` reports for a limit of `t` seconds, and `isTimedOut` says so of it, exactly when
-- the table has a connection on it whose last heartbeat is `t + 1` whole seconds old or older.
pub check_timeout-is_timed_out :
    (fd t now : ℕ) (m : Clients)
    → From 0 m
    → (contains fd (check_timeout t now m) ≡ silent fd t now m)
      × (is_timed_out fd t now m ≡ silent fd t now m)
check_timeout-is_timed_out fd t now m s =
    (reports-From fd 0 t now m s, is_timed_out-silent fd t now m)
