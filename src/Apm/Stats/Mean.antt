-- ===== src/Apm/Stats/Mean.antt =====
-- The mean of whole milliseconds: `avg` over numbers of which the whole ones are exact up to a bound.
use polyglot_infinity.Prelude.{
  ℕ, ◌+◌, ◌*◌, ◌≤◌, ◌<◌, ◌≡◌, refl, ap, ap₂, map, inl, inr, Bool-cases, ◌∙◌, ◌^◌, List, [], ◌∷◌,
  arith, length, length-map, All,
}
use native.Mathlib.Nat.{mul-div-le, lt-div-mul-add, mul_comm, div-lt_iff_lt-mul, le-div_iff_mul-le}
use polyglot_infinity.Js.Number.{Numbers, round_div_ℕ}
use polyglot_infinity.Js.Sort.{ordered_insert, sort}
use polyglot_infinity.Js.Sort.Laws.{length-sort}
use polyglot_infinity.Apm.Stats.{sum_from, sorted_stats, compute_stats}

abbrev pub sum : List ℕ → ℕ
sum [] = 0
sum (x ∷ xs) = x + sum xs

sum-ordered_insert :
    (n : Numbers ℕ) (x : ℕ) (xs : List ℕ) → sum (ordered_insert n x xs) ≡ x + sum xs
unfolding ordered_insert
sum-ordered_insert n x [] = refl
sum-ordered_insert n x (y ∷ ys) = ground (arith, sum-ordered_insert n x ys)

sum-sort : (n : Numbers ℕ) (xs : List ℕ) → sum (sort n xs) ≡ sum xs
unfolding sort
sum-sort n [] = refl
sum-sort n (x ∷ xs) = omega (arith, sum-ordered_insert n x (sort n xs), sum-sort n xs)

sum_bounds :
    (lo hi : ℕ) (xs : List ℕ)
    → All (λ x. lo ≤ x) xs
    → All (λ x. x ≤ hi) xs
    → (lo * length xs ≤ sum xs) × (sum xs ≤ hi * length xs)
sum_bounds lo hi [] h k = (omega arith, omega arith)
sum_bounds lo hi (x ∷ xs) h k =
    let (below, above) = sum_bounds lo hi xs h.1 k.1 in (grind arith, grind arith)

round_div_bounds :
    (lo hi s l : ℕ)
    → 0 < l
    → lo * l ≤ s
    → s ≤ hi * l
    → (lo ≤ round_div_ℕ s l) × (round_div_ℕ s l ≤ hi)
round_div_bounds lo hi s l pos h k =
    let wide : 0 < 2 * l = omega arith in
    let above = (div-lt_iff_lt-mul {k = 2 * l} {x = 2 * s + l} {y = hi + 1} wide).1 (omega arith) in
    ((le-div_iff_mul-le {k = 2 * l} {x = lo} {y = 2 * s + l} wide).1 (omega arith), omega arith)

-- Half at most off the true mean, and up where it is a half.
round_div-nearest :
    (s l : ℕ)
    → 0 < l
    → (2 * l * round_div_ℕ s l ≤ 2 * s + l) × (2 * s < 2 * l * round_div_ℕ s l + l)
round_div-nearest s l pos =
    let wide : 0 < 2 * l = omega arith in
    let under = mul-div-le (2 * s + l) (2 * l) in
    let over : 2 * s + l < 2 * l * round_div_ℕ s l + 2 * l =
      rw (← mul_comm (round_div_ℕ s l) (2 * l)) (lt-div-mul-add {a = 2 * s + l} wide) in
    (under, omega (arith, over))

-- The numbers of an interface that are whole, in their order.
abbrev whole_of : {Num : Type 0} → Numbers Num → Numbers ℕ
whole_of n = record {
  le = λ a b. n.le (n.of_ℕ a) (n.of_ℕ b);
  le_total = λ a b. n.le_total (n.of_ℕ a) (n.of_ℕ b);
  le_trans = λ a b c. n.le_trans (n.of_ℕ a) (n.of_ℕ b) (n.of_ℕ c);
  falsy = λ a. n.falsy (n.of_ℕ a);
  of_ℕ = λ a. a;
  add = ◌+◌;
  round_div = round_div_ℕ;
}

ordered_insert-map :
    {Num : Type 0} (n : Numbers Num) (x : ℕ) (xs : List ℕ)
    → ordered_insert n (n.of_ℕ x) (map n.of_ℕ xs) ≡ map n.of_ℕ (ordered_insert (whole_of n) x xs)
unfolding ordered_insert
ordered_insert-map n x [] = refl
ordered_insert-map n x (y ∷ ys) = elim (Bool-cases (n.le (n.of_ℕ x) (n.of_ℕ y))) [
  | inl e ↦ rw (e, ordered_insert) refl
  | inr e ↦ rw (e, ordered_insert) (ap (◌∷◌ (n.of_ℕ y)) (ordered_insert-map n x ys))
]

sort-map :
    {Num : Type 0} (n : Numbers Num) (xs : List ℕ)
    → sort n (map n.of_ℕ xs) ≡ map n.of_ℕ (sort (whole_of n) xs)
unfolding sort
sort-map n [] = refl
sort-map n (x ∷ xs) =
    ap (ordered_insert n (n.of_ℕ x)) (sort-map n xs) ∙ ordered_insert-map n x (sort (whole_of n) xs)

-- Whole numbers among the floats: a sum below 2 ^ 52 is exact, and its quotient by a count is rounded
-- to the side of the half on which it lies.
module _ {Num : Type 0} (n : Numbers Num)
    (add_exact : (a b : ℕ) → a + b < 2 ^ 52 → n.add (n.of_ℕ a) (n.of_ℕ b) ≡ n.of_ℕ (a + b))
    (round_div_exact : (s l : ℕ)
      → s < 2 ^ 52
      → 0 < l
      → n.round_div (n.of_ℕ s) l ≡ n.of_ℕ (round_div_ℕ s l)) where
  sum_from-eq :
      (acc : ℕ) (xs : List ℕ)
      → acc + sum xs < 2 ^ 52
      → sum_from n (n.of_ℕ acc) (map n.of_ℕ xs) ≡ n.of_ℕ (acc + sum xs)
  unfolding sum_from
  sum_from-eq acc [] h = ap n.of_ℕ (omega arith)
  sum_from-eq acc (x ∷ xs) h =
      ap (λ a. sum_from n a (map n.of_ℕ xs)) (add_exact acc x (omega arith))
      ∙ sum_from-eq (acc + x) xs (omega arith)
      ∙ ap n.of_ℕ (omega arith)

  -- The mean does not depend on the order in which the values came.
  avg-eq :
      (values : List ℕ)
      → 0 < length values
      → sum values < 2 ^ 52
      → (compute_stats n (map n.of_ℕ values)).avg
        ≡ n.of_ℕ (round_div_ℕ (sum values) (length values))
  unfolding compute_stats sorted_stats
  avg-eq [] h small = elim h [ ]
  avg-eq (x ∷ xs) h small =
      let values = x ∷ xs in
      let sorted = sort (whole_of n) values in
      let same : sum sorted ≡ sum values = sum-sort (whole_of n) values in
      let total = sum_from-eq 0 sorted (omega (arith, same)) in
      let count = length-sort n (map n.of_ℕ values) ∙ length-map values n.of_ℕ in
      ap₂ n.round_div
        (ap (sum_from n (n.of_ℕ 0)) (sort-map n values) ∙ total ∙ ap n.of_ℕ (omega (arith, same)))
        count
      ∙ round_div_exact (sum values) (length values) small h

  -- Over any numbers of which the whole ones are added exactly below 2 ^ 52, and such a sum over a
  -- count is rounded to the nearest whole number, upwards from a half: the mean of at least one
  -- whole number, with a sum below 2 ^ 52, is whole, lies between any two bounds of the values,
  -- and is the whole number nearest to the sum over the count, upwards from a half.
  pub avg_bounds :
      (lo hi : ℕ) (values : List ℕ)
      → 0 < length values
      → sum values < 2 ^ 52
      → All (λ x. lo ≤ x) values
      → All (λ x. x ≤ hi) values
      → (avg : ℕ) × ((compute_stats n (map n.of_ℕ values)).avg ≡ n.of_ℕ avg)
        × (lo ≤ avg)
        × (avg ≤ hi)
        × (2 * length values * avg ≤ 2 * sum values + length values)
        × (2 * sum values < 2 * length values * avg + length values)
  avg_bounds lo hi values filled small h k =
      let (below, above) = sum_bounds lo hi values h k in
      let (low, high) = round_div_bounds lo hi (sum values) (length values) filled below above in
      let (under, over) = round_div-nearest (sum values) (length values) filled in
      (round_div_ℕ (sum values) (length values), avg-eq values filled small, low, high, under, over)
