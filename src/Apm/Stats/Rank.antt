-- ===== src/Apm/Stats/Rank.antt =====
-- The ranks of `percentile` in apm-server/server.js.
use polyglot_infinity.Prelude.{
  ap, ◌∙◌, Mem, Mem-get_elem?, ℕ, zero, suc, ◌+◌, ◌*◌, ◌≤◌, ◌<◌, ◌≡◌, refl, true, false, some, List,
  [], ◌∷◌, arith, length, get_elem?, get_elem?-total, All, All-get_elem?,
}
use mathlib.Core.List.Perm
use polyglot_infinity.Prelude.Counting.{count, count-none}
use polyglot_infinity.Js.Number.{Numbers, lt, le_refl}
use polyglot_infinity.Js.Sort.{sort}
use polyglot_infinity.Js.Sort.Laws.{IsSorted, sort-IsSorted, sort-perm, count-sort, length-sort}
use polyglot_infinity.Apm.Stats.{Percentage, median, p95, p99, percent, rank_index, percentile}

pub rank_index-lt : (p : Percentage) (l : ℕ) → 0 < l → rank_index p l < l
unfolding rank_index
rank_index-lt median l h = omega arith
rank_index-lt p95 l h = omega arith
rank_index-lt p99 l h = omega arith

rank_index_bounds :
    (p : Percentage) (l : ℕ)
    → 0 < l
    → (percent p * l ≤ 100 * (rank_index p l + 1)) × (100 * rank_index p l < percent p * l)
unfolding rank_index
rank_index_bounds median l h = (omega arith, omega arith)
rank_index_bounds p95 l h = (omega arith, omega arith)
rank_index_bounds p99 l h = (omega arith, omega arith)

module _ {Num : Type 0} (n : Numbers Num) where
  -- `v` is a value at which at least `p` percent of the list have been reached, and below which there
  -- are fewer than `p` percent; and it is one of the values.
  pub record IsNearestRank (values : List Num) (p : ℕ) (v : Num) : Type 0 where
    pub attained : Mem v values
    pub reached : p * length values ≤ 100 * count (λ x. n.le x v) values
    pub not_before : 100 * count (λ x. lt n x v) values < p * length values

  pub get_elem?-reached :
      (xs : List Num) (i : ℕ) (v : Num)
      → IsSorted n xs
      → get_elem? xs i ≡ some v
      → i + 1 ≤ count (λ x. n.le x v) xs
  get_elem?-reached [] i v s e = cc
  get_elem?-reached (x ∷ xs) zero v s e = ground (arith, le_refl n v)
  get_elem?-reached (x ∷ xs) (suc i) v s e =
      ground
        (arith, get_elem?-reached xs i v s.1 e, All-get_elem? (λ y. n.le x y ≡ true) xs i v s.0 e)

  count_lt_head :
      (x : Num) (xs : List Num) → All (λ y. n.le x y ≡ true) xs → All (λ y. lt n y x ≡ false) xs
  count_lt_head x [] h = tt
  count_lt_head x (y ∷ xs) h = (rw h.0, count_lt_head x xs h.1)

  get_elem?-not_before :
      (xs : List Num) (i : ℕ) (v : Num)
      → IsSorted n xs
      → get_elem? xs i ≡ some v
      → count (λ x. lt n x v) xs ≤ i
  get_elem?-not_before [] i v s e = cc
  get_elem?-not_before (x ∷ xs) zero v s e =
      let none_below : count (λ y. lt n y x) xs ≡ 0 = count-none _ xs (count_lt_head x xs s.0) in
      ground (arith, le_refl n v)
  get_elem?-not_before (x ∷ xs) (suc i) v s e = ground (arith, get_elem?-not_before xs i v s.1 e)

  pub percentile-sorted :
      (xs : List Num) (p : Percentage)
      → 0 < length xs
      → percentile n xs p ≡ get_elem? xs (rank_index p (length xs))
  unfolding percentile
  percentile-sorted [] p h = elim h [ ]
  percentile-sorted (x ∷ xs) p h = refl

  -- On the sorted values, if there is one, percentile is defined and is a nearest-rank percentile of
  -- the values.
  pub percentile-IsNearestRank :
      (values : List Num) (p : Percentage)
      → 0 < length values
      → (v : Num) × (percentile n (sort n values) p ≡ some v) × IsNearestRank values (percent p) v
  percentile-IsNearestRank values p filled =
      let sorted = sort n values in
      let same : length sorted ≡ length values = length-sort n values in
      let scaled : percent p * length sorted ≡ percent p * length values =
        ap (λ t. percent p * t) same in
      let i = rank_index p (length sorted) in
      let inside : i < length sorted = rank_index-lt p (length sorted) (omega arith) in
      let (v, found) = get_elem?-total sorted i inside in
      let (over, under) = rank_index_bounds p (length sorted) (omega arith) in
      let reached = get_elem?-reached sorted i v (sort-IsSorted n values) found in
      let before = get_elem?-not_before sorted i v (sort-IsSorted n values) found in
      (
        v,
        percentile-sorted sorted p (omega arith) ∙ found,
        record {
          attained = (Perm.mem_iff (sort-perm n values)).0 (Mem-get_elem? sorted i v found);
          reached = omega (arith, scaled, count-sort n (λ x. n.le x v) values);
          not_before = omega (arith, scaled, count-sort n (λ x. lt n x v) values);
        },
      )
