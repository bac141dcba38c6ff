-- ===== src/Prelude/Pick.antt =====
-- An element of a list, by its position, and the others.
use Prim.Native.Nat.{ℕ, zero, suc}
use mathlib.Core.Option.{Option, none, some}
use mathlib.Core.List.{List, [], ◌∷◌}

unfoldable pub pick : {A : Type 0} → ℕ → List A → Option (A × List A)
pick i [] = none
pick zero (x ∷ rest) = some (x, rest)
pick (suc i) (x ∷ rest) = elim (pick i rest) [
  | none ↦ none
  | some (found, others) ↦ some (found, x ∷ others)
]
