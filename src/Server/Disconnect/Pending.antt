-- ===== src/Server/Disconnect/Pending.antt =====
-- What one pass over the pending disconnects closes.
use qt_linux_im_project.Base.{
  ℕ, ◌+◌, ◌≤◌, ◌≡◌, ◌∙◌, ap, refl, Bool, false, ◌||◌, List, [], ◌∷◌, if◌then◌else◌, ◌==◌, is_empty,
  arith,
}
use qt_linux_im_project.Server.State.{Server}
use qt_linux_im_project.Server.Disconnect.{
  insert_sorted, sort, unique_from, unique, disconnect_all, process_pending_disconnects,
  handle_client_disconnect,
}
use qt_linux_im_project.Server.Disconnect.Forget.{handle_client_disconnect-forgets}

-- Strictly growing, from `n` on: each descriptor stands there once.
abbrev pub Rising : ℕ → List ℕ → Type 0
Rising n [] = Unit
Rising n (x ∷ xs) = (n ≤ x) × Rising (x + 1) xs

abbrev Sorted : ℕ → List ℕ → Type 0
Sorted n [] = Unit
Sorted n (x ∷ xs) = (n ≤ x) × Sorted x xs

abbrev pub has : ℕ → List ℕ → Bool
has a [] = false
has a (x ∷ xs) = (x == a) || has a xs

insert_sorted-Sorted : (n a : ℕ) (xs : List ℕ) → n ≤ a → Sorted n xs → Sorted n (insert_sorted a xs)
unfolding insert_sorted
insert_sorted-Sorted n a [] h s = (h, tt)
insert_sorted-Sorted n a (x ∷ xs) h (p, s) = ground (arith, insert_sorted-Sorted x a xs)

sort-Sorted : (xs : List ℕ) → Sorted 0 (sort xs)
unfolding sort
sort-Sorted [] = tt
sort-Sorted (x ∷ xs) = insert_sorted-Sorted 0 x (sort xs) (omega arith) (sort-Sorted xs)

unique_from-Rising : (n a : ℕ) (xs : List ℕ) → n ≤ a → Sorted a xs → Rising n (unique_from a xs)
unfolding unique_from
unique_from-Rising n a [] h s = (h, tt)
unique_from-Rising n a (x ∷ xs) h (p, s) =
    ground (arith, unique_from-Rising n a xs, unique_from-Rising (a + 1) x xs)

unique-Rising : (xs : List ℕ) → Sorted 0 xs → Rising 0 (unique xs)
unfolding unique
unique-Rising [] s = tt
unique-Rising (x ∷ xs) (p, s) = unique_from-Rising 0 x xs p s

has-insert_sorted : (b a : ℕ) (xs : List ℕ) → has b (insert_sorted a xs) ≡ has b (a ∷ xs)
unfolding insert_sorted
has-insert_sorted b a [] = refl
has-insert_sorted b a (x ∷ xs) = ground (arith, has-insert_sorted b a xs)

has-sort : (b : ℕ) (xs : List ℕ) → has b (sort xs) ≡ has b xs
unfolding sort
has-sort b [] = refl
has-sort b (x ∷ xs) = ground (arith, has-insert_sorted b x (sort xs), has-sort b xs)

has-unique_from : (b a : ℕ) (xs : List ℕ) → has b (unique_from a xs) ≡ has b (a ∷ xs)
unfolding unique_from
has-unique_from b a [] = refl
has-unique_from b a (x ∷ xs) = ground (arith, has-unique_from b a xs, has-unique_from b x xs)

has-unique : (b : ℕ) (xs : List ℕ) → has b (unique xs) ≡ has b xs
unfolding unique
has-unique b [] = refl
has-unique b (x ∷ xs) = has-unique_from b x xs

-- `xs`, turned round, before `ys`.
abbrev pub onto : List ℕ → List ℕ → List ℕ
onto [] ys = ys
onto (x ∷ xs) ys = onto xs (x ∷ ys)

pub disconnect_all-closed :
    (fds : List ℕ) (s : Server) → (disconnect_all fds s).closed ≡ onto fds s.closed
unfolding disconnect_all
disconnect_all-closed [] s = refl
disconnect_all-closed (fd ∷ fds) s =
    disconnect_all-closed fds (handle_client_disconnect fd s)
    ∙ ap (onto fds) (handle_client_disconnect-forgets fd s).1

pass-closed :
    (queued : List ℕ) (s t : Server)
    → t.closed ≡ s.closed
    → (if is_empty queued then s else disconnect_all (unique (sort queued)) t).closed
      ≡ onto (unique (sort queued)) s.closed
unfolding sort unique
pass-closed [] s t e = refl
pass-closed (x ∷ xs) s t e =
    disconnect_all-closed (unique (sort (x ∷ xs))) t ∙ ap (onto (unique (sort (x ∷ xs)))) e

-- One pass over the pending disconnects closes a list of descriptors, in growing order and so each
-- one once, however often it was queued; they are the descriptors that were queued, and no other.
pub process_pending_disconnects-closes :
    (s : Server)
    → (fds : List ℕ) × Rising 0 fds
      × ((fd : ℕ) → has fd fds ≡ has fd s.pending_disconnects)
      × ((process_pending_disconnects s).closed ≡ onto fds s.closed)
unfolding process_pending_disconnects
process_pending_disconnects-closes s = (
  unique (sort s.pending_disconnects),
  unique-Rising _ (sort-Sorted s.pending_disconnects),
  λ fd. has-unique fd (sort s.pending_disconnects) ∙ has-sort fd s.pending_disconnects,
  pass-closed s.pending_disconnects s _ refl,
)
