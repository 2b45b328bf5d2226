-- ===== src/Base/FdMap.antt =====
-- `std::map<int, V>` and `std::unordered_map<int, V>` keyed by a descriptor: association lists in
-- the order of the keys, which is the order in which `std::map` iterates.
use qt_linux_im_project.Base.Tests.{ltb, ◌==◌, if◌then◌else◌, Bool-cases}
use qt_linux_im_project.Base.Lists.{All}
use Prim.Native.Nat.{ℕ, ◌+◌, ◌≤◌}
use mathlib.Core.Path.{◌≡◌, refl, subst₂}
use mathlib.Core.Logic.{inl, inr}
use mathlib.Core.List.{List, [], ◌∷◌}
use mathlib.Core.Option.{Option, none, some}
use native.Mathlib.Omega.{arith}

abbrev pub FdMap {ℓ} : Type ℓ → Type ℓ
FdMap V = List (ℕ × V)

module _ {ℓ} {V : Type ℓ} where
  -- `find`.
  unfoldable pub lookup : ℕ → FdMap V → Option V
  lookup fd [] = none
  lookup fd ((j, v) ∷ m) = if j == fd then some v else lookup fd m

  -- `m[k] = v`.
  unfoldable pub insert : ℕ → V → FdMap V → FdMap V
  insert k v [] = (k, v) ∷ []
  insert k v ((j, w) ∷ m) =
      if ltb k j then (k, v) ∷ (j, w) ∷ m else if j == k then (k, v) ∷ m else (j, w) ∷ insert k v m

  -- A write through the iterator that `find` returned.
  unfoldable pub modify : ℕ → (V → V) → FdMap V → FdMap V
  modify k f [] = []
  modify k f ((j, v) ∷ m) = if j == k then (j, f v) ∷ m else (j, v) ∷ modify k f m

  unfoldable pub erase : ℕ → FdMap V → FdMap V
  erase k [] = []
  erase k ((j, v) ∷ m) = let rest = erase k m in if j == k then rest else (j, v) ∷ rest

  -- The keys in the order of the iteration.
  unfoldable pub keys : FdMap V → List ℕ
  keys [] = []
  keys ((j, v) ∷ m) = j ∷ keys m

  -- The keys grow along the list, and lie from `n` on.
  abbrev pub From : ℕ → FdMap V → Type 0
  From n [] = Unit
  From n ((j, v) ∷ m) = (n ≤ j) × From (j + 1) m

module _ {ℓ} {V : Type ℓ} where
  pub lookup-insert :
      (fd i : ℕ) (v : V) (m : FdMap V)
      → lookup i (insert fd v m) ≡ (if fd == i then some v else lookup i m)
  unfolding lookup insert
  lookup-insert fd i v [] = refl
  lookup-insert fd i v ((first, w) ∷ rest) = ground (arith, lookup-insert fd i v rest)

  pub lookup-erase :
      (k j : ℕ) (m : FdMap V) → lookup j (erase k m) ≡ (if k == j then none else lookup j m)
  unfolding lookup erase
  lookup-erase k j [] = ground arith
  lookup-erase k j ((i, w) ∷ m) = ground (arith, lookup-erase k j m)

  abbrev pub map_some : (V → V) → Option V → Option V
  map_some f none = none
  map_some f (some v) = some (f v)

  pub lookup-modify :
      (k j : ℕ) (f : V → V) (m : FdMap V)
      → lookup j (modify k f m) ≡ (if k == j then map_some f (lookup j m) else lookup j m)
  unfolding lookup modify
  lookup-modify k j f [] = ground arith
  lookup-modify k j f ((i, w) ∷ m) = ground (arith, lookup-modify k j f m)

  From-mono : {a b : ℕ} (m : FdMap V) → a ≤ b → From b m → From a m
  From-mono [] h s = tt
  From-mono ((j, v) ∷ m) h (p, s) = (omega arith, s)

  pub insert-From : (n k : ℕ) (v : V) (m : FdMap V) → n ≤ k → From n m → From n (insert k v m)
  unfolding insert
  insert-From n k v [] h s = (h, tt)
  insert-From n k v ((j, w) ∷ m) h (p, s) =
      ground (arith, insert-From (j + 1) k v m, From-mono {a = k + 1} {b = j + 1} m)

  pub erase-From : (n k : ℕ) (m : FdMap V) → From n m → From n (erase k m)
  unfolding erase
  erase-From n k [] s = tt
  erase-From n k ((j, w) ∷ m) (p, s) =
      ground (arith, erase-From (j + 1) k m s, From-mono {a = n} {b = j + 1} (erase k m))

  pub modify-From : (n k : ℕ) (f : V → V) (m : FdMap V) → From n m → From n (modify k f m)
  unfolding modify
  modify-From n k f [] s = tt
  modify-From n k f ((j, w) ∷ m) (p, s) = ground (arith, modify-From (j + 1) k f m s)

-- Predicates on every entry.
module _ {ℓ κ} {V : Type ℓ} (P : ℕ × V → Type κ) where
  pub insert-All : (k : ℕ) (v : V) (m : FdMap V) → P (k, v) → All P m → All P (insert k v m)
  unfolding insert
  insert-All k v [] p s = (p, tt)
  insert-All k v ((j, w) ∷ m) p (q, s) = ground (arith, insert-All k v m p s)

  pub erase-All : (k : ℕ) (m : FdMap V) → All P m → All P (erase k m)
  unfolding erase
  erase-All k [] s = tt
  erase-All k ((j, w) ∷ m) (q, s) = ground (arith, erase-All k m s)

  pub modify-All :
      (k : ℕ) (f : V → V) (m : FdMap V)
      → ((j : ℕ) (v : V) → P (j, v) → P (j, f v))
      → All P m
      → All P (modify k f m)
  unfolding modify
  modify-All k f [] h s = tt
  modify-All k f ((j, w) ∷ m) h (q, s) = ground (arith, modify-All k f m h s, h j w q)

  pub lookup-All : (k : ℕ) (m : FdMap V) {v : V} → All P m → lookup k m ≡ some v → P (k, v)
  unfolding lookup
  lookup-All k [] s e = cc
  lookup-All k ((j, w) ∷ m) {v} (q, s) e = elim (Bool-cases (j == k)) [
    | inl h ↦
        let same : j ≡ k = ground arith in
        let found : w ≡ v = ground arith in subst₂ (λ a b. P (a, b)) same found q
    | inr h ↦ lookup-All k m s (ground arith)
  ]
