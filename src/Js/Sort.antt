-- ===== src/Js/Sort.antt =====
-- `Array.prototype.sort` with the comparator `(a, b) => a - b`. The sort of ECMAScript is stable,
-- so for a consistent comparator its result is that of stable insertion.
pub mod Laws
use polyglot_infinity.Prelude.{ℕ, List, [], ◌∷◌, if◌then◌else◌}
use polyglot_infinity.Js.Number.{Numbers}

module _ {Num : Type 0} (n : Numbers Num) where
  -- An equal element that stands later stays later.
  unfoldable pub ordered_insert : Num → List Num → List Num
  ordered_insert x [] = x ∷ []
  ordered_insert x (y ∷ ys) = if n.le x y then x ∷ y ∷ ys else y ∷ ordered_insert x ys

  unfoldable pub sort : List Num → List Num
  unfolding ordered_insert
  sort [] = []
  sort (x ∷ xs) = ordered_insert x (sort xs)
