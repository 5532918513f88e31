-- ===== src/Prelude/Map.antt =====
-- `HashMap` with numeric keys, as an association list with the newest entry first. The program
-- never depends on the order of a map's entries.
use Prim.Native.Nat.{ℕ}
use mathlib.Core.Path.{◌≡◌}
use mathlib.Core.Bool.{Bool, true}
use mathlib.Core.Option.{Option, none, some}
use mathlib.Core.List.{List, [], ◌∷◌}
use native.Mathlib.Omega.{arith}
use devsite.Prelude.Tests.{◌==◌, if◌then◌else◌}

module _ {ℓ} {V : Type ℓ} where
  unfoldable pub lookup : ℕ → List (ℕ × V) → Option V
  lookup k [] = none
  lookup k ((j, v) ∷ m) = if j == k then some v else lookup k m

  unfoldable pub remove : ℕ → List (ℕ × V) → List (ℕ × V)
  remove k [] = []
  remove k ((j, v) ∷ m) = let rest = remove k m in if j == k then rest else (j, v) ∷ rest

  unfoldable pub insert : ℕ → V → List (ℕ × V) → List (ℕ × V)
  insert k v m = (k, v) ∷ remove k m

  -- `retain`.
  unfoldable pub retain : (ℕ → V → Bool) → List (ℕ × V) → List (ℕ × V)
  retain p [] = []
  retain p ((j, v) ∷ m) = let rest = retain p m in if p j v then (j, v) ∷ rest else rest

  pub lookup-remove :
      (k j : ℕ) (m : List (ℕ × V)) → lookup j (remove k m) ≡ (if k == j then none else lookup j m)
  unfolding lookup remove
  lookup-remove k j [] = ground arith
  lookup-remove k j ((i, v) ∷ m) = ground (arith, lookup-remove k j m)

  pub lookup-insert :
      (k j : ℕ) (v : V) (m : List (ℕ × V))
      → lookup j (insert k v m) ≡ (if k == j then some v else lookup j m)
  unfolding insert lookup
  lookup-insert k j v m = ground (arith, lookup-remove k j m)

  -- An entry that passes the test is still found.
  pub lookup-retain-some :
      (p : ℕ → V → Bool) (k : ℕ) (m : List (ℕ × V)) (v : V)
      → lookup k m ≡ some v
      → p k v ≡ true
      → lookup k (retain p m) ≡ some v
  unfolding lookup retain
  lookup-retain-some p k [] v e h = cc
  lookup-retain-some p k ((j, w) ∷ m) v e h = ground (arith, lookup-retain-some p k m v)

  pub lookup-retain-none :
      (p : ℕ → V → Bool) (k : ℕ) (m : List (ℕ × V))
      → lookup k m ≡ none
      → lookup k (retain p m) ≡ none
  unfolding lookup retain
  lookup-retain-none p k [] e = e
  lookup-retain-none p k ((j, w) ∷ m) e = ground (arith, lookup-retain-none p k m)

  -- A map holds each key once.
  abbrev pub Distinct : List (ℕ × V) → Type ℓ
  Distinct [] = Unit
  Distinct ((k, v) ∷ m) = (lookup k m ≡ none) × Distinct m

  pub remove-Distinct : (k : ℕ) (m : List (ℕ × V)) → Distinct m → Distinct (remove k m)
  unfolding remove
  remove-Distinct k [] h = tt
  remove-Distinct k ((j, v) ∷ m) h =
      ground (arith, remove-Distinct k m h.1, lookup-remove k j m, h.0)

  pub insert-Distinct : (k : ℕ) (v : V) (m : List (ℕ × V)) → Distinct m → Distinct (insert k v m)
  unfolding insert
  insert-Distinct k v m h = (ground (arith, lookup-remove k k m), remove-Distinct k m h)
