-- ===== src/Server/Run/Stops.antt =====
-- What is left when `run` returns.
use qt_linux_im_project.Base.{
  ℕ, ◌≡◌, ◌≢◌, refl, false, ◌==◌, List, [], ◌∷◌, none, if◌then◌else◌, arith, ==-refl, Bool-cases,
  inl, inr,
}
use qt_linux_im_project.Base.FdMap.{FdMap, lookup, keys}
use qt_linux_im_project.Clients.{Clients, get_all_fds}
use qt_linux_im_project.Server.State.{Server}
use qt_linux_im_project.Server.Disconnect.{
  handle_client_disconnect, disconnect_all, cleanup_all_clients,
}
use qt_linux_im_project.Server.Disconnect.Forget.{handle_client_disconnect-forgets}
use qt_linux_im_project.Server.Disconnect.Pending.{has, onto, disconnect_all-closed}
use qt_linux_im_project.Server.Invariant.{IsServer}
use qt_linux_im_project.Server.Invariant.Reachable.{here, started, Reach-started}
use qt_linux_im_project.Server.Run.{Round, run_loop, run}
use qt_linux_im_project.Server.Run.Reaches.{IsPick, run_loop-Reach}

disconnect-lookup :
    (fd j : ℕ) (s : Server)
    → lookup j (handle_client_disconnect fd s).clients
      ≡ (if fd == j then none else lookup j s.clients)
disconnect-lookup fd j s = elim (Bool-cases (fd == j)) [
  | inl e ↦
      let same : fd ≡ j = ground arith in
      rw (e, ← same) (handle_client_disconnect-forgets fd s).0.client
  | inr e ↦
      let other : j ≢ fd = ground arith in
      rw e ((handle_client_disconnect-forgets fd s).2 j other).0
]

disconnect_all-lookup :
    (fds : List ℕ) (j : ℕ) (s : Server)
    → lookup j (disconnect_all fds s).clients ≡ (if has j fds then none else lookup j s.clients)
unfolding disconnect_all
disconnect_all-lookup [] j s = refl
disconnect_all-lookup (fd ∷ fds) j s =
    ground
      (arith, disconnect_all-lookup fds j (handle_client_disconnect fd s), disconnect-lookup fd j s)

has-keys {ℓ} :
    {V : Type ℓ} (j : ℕ) (m : FdMap V) → lookup j m ≡ (if has j (keys m) then lookup j m else none)
unfolding lookup keys
has-keys j [] = refl
has-keys j ((i, v) ∷ m) = ground (arith, has-keys j m)

-- A map where nothing is found is empty.
lookup-empty {ℓ} : {V : Type ℓ} (m : FdMap V) → ((j : ℕ) → lookup j m ≡ none) → m ≡ []
unfolding lookup
lookup-empty [] h = refl
lookup-empty ((i, v) ∷ m) h = let found = h i in ground (arith, ==-refl i)

all_gone : (s : Server) (j : ℕ) → lookup j (disconnect_all (get_all_fds s.clients) s).clients ≡ none
unfolding get_all_fds
all_gone s j = ground (arith, disconnect_all-lookup (keys s.clients) j s, has-keys j s.clients)

-- The server when the loop ends.
abbrev pub at_end : ℕ → (Clients → ℕ) → List Round → Server
at_end listen_fd pick rs = run_loop listen_fd pick rs started

-- `run` on a server that was just started, whatever the kernel answers and whichever descriptors
-- `accept` picks, as long as they are not in use: the server is in order when the loop ends, and
-- after the cleanup no client and no handler is left, and every descriptor that was in the table
-- at the end of the loop was closed, in order, behind those that were closed before.
pub run-stops :
    (listen_fd : ℕ) (pick : Clients → ℕ) (rs : List Round)
    → IsPick pick
    → IsServer (at_end listen_fd pick rs)
      × ((run listen_fd pick rs started).clients ≡ [])
      × ((run listen_fd pick rs started).handlers ≡ [])
      × ((run listen_fd pick rs started).closed
          ≡ onto (get_all_fds (at_end listen_fd pick rs).clients) (at_end listen_fd pick rs).closed)
unfolding run cleanup_all_clients
run-stops listen_fd pick rs fresh =
    let end = at_end listen_fd pick rs in
    let stopped = record end { running = false } in
    (
      Reach-started (run_loop-Reach started listen_fd pick fresh rs started here),
      lookup-empty _ (all_gone stopped),
      refl,
      disconnect_all-closed (get_all_fds end.clients) stopped,
    )
