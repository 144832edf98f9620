-- ===== src/Prelude/Counting.antt =====
-- How many elements of a list pass a test.
use polyglot_infinity.Prelude.{
  ℕ, suc, ◌+◌, ◌≤◌, ◌≡◌, refl, Bool, true, false, List, [], ◌∷◌, ◌++◌, arith, length, All,
  if◌then◌else◌,
}

module _ {ℓ} {A : Type ℓ} (p : A → Bool) where
  abbrev pub count : List A → ℕ
  count [] = 0
  count (x ∷ xs) = if p x then suc (count xs) else count xs

  pub count-le-length : (xs : List A) → count xs ≤ length xs
  count-le-length [] = omega arith
  count-le-length (x ∷ xs) = ground (arith, count-le-length xs)

  pub count-append : (xs ys : List A) → count (xs ++ ys) ≡ count xs + count ys
  count-append [] ys = omega arith
  count-append (x ∷ xs) ys = ground (arith, count-append xs ys)

  pub count-none : (xs : List A) → All (λ x. p x ≡ false) xs → count xs ≡ 0
  count-none [] h = refl
  count-none (x ∷ xs) h = ground (arith, count-none xs)

  pub count-All : (xs : List A) → All (λ x. p x ≡ true) xs → count xs ≡ length xs
  count-All [] h = refl
  count-All (x ∷ xs) h = ground (arith, count-All xs)

  -- If all pass by number, each passes.
  pub All-count : (xs : List A) → length xs ≤ count xs → All (λ x. p x ≡ true) xs
  All-count [] h = tt
  All-count (x ∷ xs) h =
      (ground (arith, count-le-length xs), All-count xs (ground (arith, count-le-length xs)))
