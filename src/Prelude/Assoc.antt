-- ===== src/Prelude/Assoc.antt =====
-- A Go map with integer keys as an association list; a key stands in it at most once.
use Prim.Native.Nat.{ℕ}
use mathlib.Core.Path.{◌≡◌}
use mathlib.Core.Option.{Option, none, some}
use mathlib.Core.List.{List, [], ◌∷◌}
use native.Mathlib.Omega.{arith}
use n6bagent.Prelude.Tests.{◌==◌, if◌then◌else◌}

module _ {ℓ} {V : Type ℓ} where
  unfoldable pub lookup : ℕ → List (ℕ × V) → Option V
  lookup k [] = none
  lookup k ((j, v) ∷ m) = if j == k then some v else lookup k m

  unfoldable pub delete : ℕ → List (ℕ × V) → List (ℕ × V)
  delete k [] = []
  delete k ((j, v) ∷ m) = let rest = delete k m in if j == k then rest else (j, v) ∷ rest

  unfoldable pub insert : ℕ → V → List (ℕ × V) → List (ℕ × V)
  unfolding delete
  insert k v m = (k, v) ∷ delete k m

  pub lookup-delete :
      (k j : ℕ) (m : List (ℕ × V)) → lookup j (delete k m) ≡ (if k == j then none else lookup j m)
  unfolding lookup delete
  lookup-delete k j [] = ground arith
  lookup-delete k j ((i, v) ∷ m) = ground (arith, lookup-delete k j m)

  pub lookup-insert :
      (k j : ℕ) (v : V) (m : List (ℕ × V))
      → lookup j (insert k v m) ≡ (if k == j then some v else lookup j m)
  unfolding lookup insert
  lookup-insert k j v m = ground (arith, lookup-delete k j m)
