-- ===== src/Base/NameMap.antt =====
-- `std::unordered_map<std::string, V>`: an association list. The source never depends on the
-- order of its iteration.
use qt_linux_im_project.Base.Tests.{
  Bytes, bytes_eq, bytes_eq→eq, bytes_eq_refl, if◌then◌else◌, Bool-cases,
}
use mathlib.Core.Path.{◌≡◌, refl}
use mathlib.Core.Logic.{inl, inr}
use native.Mathlib.Omega.{arith}
use mathlib.Core.Bool.{Bool}
use mathlib.Core.List.{List, [], ◌∷◌}
use mathlib.Core.Option.{Option, none, some}

abbrev pub NameMap {ℓ} : Type ℓ → Type ℓ
NameMap V = List (Bytes × V)

module _ {ℓ} {V : Type ℓ} where
  unfoldable pub find : Bytes → NameMap V → Option V
  find k [] = none
  find k ((j, v) ∷ m) = if bytes_eq j k then some v else find k m

  -- `m[k] = v`.
  unfoldable pub put : Bytes → V → NameMap V → NameMap V
  put k v [] = (k, v) ∷ []
  put k v ((j, w) ∷ m) = if bytes_eq j k then (j, v) ∷ m else (j, w) ∷ put k v m

  unfoldable pub remove : Bytes → NameMap V → NameMap V
  remove k [] = []
  remove k ((j, v) ∷ m) = let rest = remove k m in if bytes_eq j k then rest else (j, v) ∷ rest

  -- The loop that erases every entry whose value passes the test.
  unfoldable pub remove_if : (V → Bool) → NameMap V → NameMap V
  remove_if p [] = []
  remove_if p ((j, v) ∷ m) = let rest = remove_if p m in if p v then rest else (j, v) ∷ rest

module _ {ℓ} {V : Type ℓ} where
  pub find-put :
      (k j : Bytes) (v : V) (m : NameMap V)
      → find j (put k v m) ≡ (if bytes_eq k j then some v else find j m)
  unfolding find put
  find-put k j v [] = refl
  find-put k j v ((i, w) ∷ m) = elim (Bool-cases (bytes_eq i k)) [
    | inl e ↦ rw (bytes_eq→eq i k e, bytes_eq_refl k) (ground arith)
    | inr e ↦ ground (arith, find-put k j v m, bytes_eq→eq i j, bytes_eq→eq k j, bytes_eq_refl k)
  ]

  pub find-remove_same : (k : Bytes) (m : NameMap V) → find k (remove k m) ≡ none
  unfolding find remove
  find-remove_same k [] = refl
  find-remove_same k ((i, w) ∷ m) = ground (arith, find-remove_same k m)
