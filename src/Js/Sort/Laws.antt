-- ===== src/Js/Sort/Laws.antt =====
-- The sort returns an ascending rearrangement of its input.
use mathlib.Core.List.Perm
use polyglot_infinity.Prelude.{
  suc, ◌≡◌, refl, ap, ◌∙◌, inl, inr, Bool, true, List, [], ◌∷◌, arith, Perm, All, length,
  Bool-cases, if◌then◌else◌,
}
use polyglot_infinity.Prelude.Counting.{count}
use polyglot_infinity.Js.Number.{Numbers}
use polyglot_infinity.Js.Sort.{ordered_insert, sort}

module _ {Num : Type 0} (n : Numbers Num) where
  -- Every element is at most each one behind it.
  abbrev pub IsSorted : List Num → Type 0
  IsSorted [] = Unit
  IsSorted (x ∷ xs) = All (λ y. n.le x y ≡ true) xs × IsSorted xs

  pub ordered_insert-All {κ} :
      (P : Num → Type κ) (x : Num) (xs : List Num) → P x → All P xs → All P (ordered_insert n x xs)
  unfolding ordered_insert
  ordered_insert-All P x [] p h = (p, tt)
  ordered_insert-All P x (y ∷ ys) p h = elim (Bool-cases (n.le x y)) [
    | inl e ↦ rw e (p, h)
    | inr e ↦ rw e (h.0, ordered_insert-All P x ys p h.1)
  ]

  pub sort-All {κ} : (P : Num → Type κ) (xs : List Num) → All P xs → All P (sort n xs)
  unfolding sort
  sort-All P [] h = h
  sort-All P (x ∷ xs) h = ordered_insert-All P x (sort n xs) h.0 (sort-All P xs h.1)

  le-All :
      (x y : Num) (ys : List Num)
      → n.le x y ≡ true
      → All (λ z. n.le y z ≡ true) ys
      → All (λ z. n.le x z ≡ true) ys
  le-All x y [] p h = tt
  le-All x y (z ∷ ys) p h = (n.le_trans x y z p h.0, le-All x y ys p h.1)

  ordered_insert-IsSorted :
      (x : Num) (xs : List Num) → IsSorted xs → IsSorted (ordered_insert n x xs)
  unfolding ordered_insert
  ordered_insert-IsSorted x [] s = (tt, tt)
  ordered_insert-IsSorted x (y ∷ ys) s = elim (Bool-cases (n.le x y)) [
    | inl e ↦ rw e ((e, le-All x y ys e s.0), s)
    | inr e ↦ rw e (
      ordered_insert-All (λ z. n.le y z ≡ true) x ys (n.le_total x y e) s.0,
      ordered_insert-IsSorted x ys s.1,
    )
  ]

  pub sort-IsSorted : (xs : List Num) → IsSorted (sort n xs)
  unfolding sort
  sort-IsSorted [] = tt
  sort-IsSorted (x ∷ xs) = ordered_insert-IsSorted x (sort n xs) (sort-IsSorted xs)

  ordered_insert-perm : (x : Num) (xs : List Num) → Perm (ordered_insert n x xs) (x ∷ xs)
  unfolding ordered_insert
  ordered_insert-perm x [] = Perm.rfl
  ordered_insert-perm x (y ∷ ys) = elim (Bool-cases (n.le x y)) [
    | inl e ↦ rw e Perm.rfl
    | inr e ↦ rw e (Perm.trans (Perm.cons y (ordered_insert-perm x ys)) (Perm.swap x y ys))
  ]

  pub sort-perm : (xs : List Num) → Perm (sort n xs) xs
  unfolding sort
  sort-perm [] = Perm.rfl
  sort-perm (x ∷ xs) = Perm.trans (ordered_insert-perm x (sort n xs)) (Perm.cons x (sort-perm xs))

  count-ordered_insert :
      (p : Num → Bool) (x : Num) (xs : List Num)
      → count p (ordered_insert n x xs) ≡ count p (x ∷ xs)
  unfolding ordered_insert
  count-ordered_insert p x [] = refl
  count-ordered_insert p x (y ∷ ys) = ground (arith, count-ordered_insert p x ys)

  -- A test passes as often before as after.
  pub count-sort : (p : Num → Bool) (xs : List Num) → count p (sort n xs) ≡ count p xs
  unfolding sort
  count-sort p [] = refl
  count-sort p (x ∷ xs) =
      count-ordered_insert p x (sort n xs) ∙ ap (λ k. if p x then suc k else k) (count-sort p xs)

  length-ordered_insert :
      (x : Num) (xs : List Num) → length (ordered_insert n x xs) ≡ suc (length xs)
  unfolding ordered_insert
  length-ordered_insert x [] = refl
  length-ordered_insert x (y ∷ ys) = ground (arith, length-ordered_insert x ys)

  pub length-sort : (xs : List Num) → length (sort n xs) ≡ length xs
  unfolding sort
  length-sort [] = refl
  length-sort (x ∷ xs) = length-ordered_insert x (sort n xs) ∙ ap suc (length-sort xs)
