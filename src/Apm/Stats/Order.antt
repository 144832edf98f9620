-- ===== src/Apm/Stats/Order.antt =====
-- The fields of a statistics record against one another.
use mathlib.Core.List.Perm
use polyglot_infinity.Prelude.{
  ℕ, zero, suc, ◌-◌, ◌*◌, ◌≤◌, ◌<◌, ◌≡◌, refl, sym, ◌∙◌, true, some, List, [], ◌∷◌, arith, Mem, ap,
  length, get_elem?, get_elem?-total, Mem-get_elem?, All, All-get_elem?,
}
use polyglot_infinity.Prelude.Counting.{All-count}
use polyglot_infinity.Js.Number.{Numbers, le_refl}
use polyglot_infinity.Js.Sort.{sort}
use polyglot_infinity.Js.Sort.Laws.{IsSorted, sort-IsSorted, sort-perm, count-sort, length-sort}
use polyglot_infinity.Apm.Stats.{
  Percentage, median, p95, p99, percent, rank_index, percentile, sorted_stats, compute_stats, Stats,
}
use polyglot_infinity.Apm.Stats.Rank.{
  IsNearestRank, rank_index-lt, get_elem?-reached, percentile-sorted, percentile-IsNearestRank,
}

rank_index_mono :
    (p q : Percentage) (l : ℕ) → percent p ≤ percent q → rank_index p l ≤ rank_index q l
unfolding rank_index
rank_index_mono p q l h = let grows : percent p * l ≤ percent q * l = grind arith in omega arith

module _ {Num : Type 0} (n : Numbers Num) where
  get_elem?_mono :
      (xs : List Num) (i j : ℕ) (a b : Num)
      → IsSorted n xs
      → i ≤ j
      → get_elem? xs i ≡ some a
      → get_elem? xs j ≡ some b
      → n.le a b ≡ true
  get_elem?_mono [] i j a b s h p q = cc
  get_elem?_mono (x ∷ xs) zero zero a b s h p q = let same : a ≡ b = cc in rw same (le_refl n b)
  get_elem?_mono (x ∷ xs) zero (suc j) a b s h p q =
      let same : x ≡ a = cc in rw (← same) (All-get_elem? (λ y. n.le x y ≡ true) xs j b s.0 q)
  get_elem?_mono (x ∷ xs) (suc i) zero a b s h p q = absurd (omega arith)
  get_elem?_mono (x ∷ xs) (suc i) (suc j) a b s h p q =
      get_elem?_mono xs i j a b s.1 (omega arith) p q

  -- What the statistics of a list of values promise: every field is there, the percentiles are
  -- nearest-rank percentiles of the values in ascending order, and the maximum is a value that none
  -- is above.
  pub record IsSummary (values : List Num) (s : Stats Num) : Type 0 where
    pub v50 : Num
    pub v95 : Num
    pub v99 : Num
    pub top : Num
    pub counted : s.count ≡ length values
    pub at50 : s.p50 ≡ some v50
    pub at95 : s.p95 ≡ some v95
    pub at99 : s.p99 ≡ some v99
    pub at_top : s.max ≡ some top
    pub rank50 : IsNearestRank n values 50 v50
    pub rank95 : IsNearestRank n values 95 v95
    pub rank99 : IsNearestRank n values 99 v99
    pub le50 : n.le v50 v95 ≡ true
    pub le95 : n.le v95 v99 ≡ true
    pub le99 : n.le v99 top ≡ true
    pub top_attained : Mem top values
    pub top_above : All (λ x. n.le x top ≡ true) values

  percentile_mono :
      (values : List Num) (p q : Percentage) (a b : Num)
      → 0 < length values
      → percent p ≤ percent q
      → percentile n (sort n values) p ≡ some a
      → percentile n (sort n values) q ≡ some b
      → n.le a b ≡ true
  percentile_mono values p q a b filled h ea eb =
      let sorted = sort n values in
      let full : 0 < length sorted = omega (arith, length-sort n values) in
      get_elem?_mono sorted (rank_index p (length sorted)) (rank_index q (length sorted)) a b
        (sort-IsSorted n values) (rank_index_mono p q (length sorted) h)
        (sym (percentile-sorted n sorted p full) ∙ ea)
        (sym (percentile-sorted n sorted q full) ∙ eb)

  percentile-le-last :
      (values : List Num) (p : Percentage) (a b : Num)
      → 0 < length values
      → percentile n (sort n values) p ≡ some a
      → get_elem? (sort n values) (length (sort n values) - 1) ≡ some b
      → n.le a b ≡ true
  percentile-le-last values p a b filled ea eb =
      let sorted = sort n values in
      let full : 0 < length sorted = omega (arith, length-sort n values) in
      get_elem?_mono sorted (rank_index p (length sorted)) (length sorted - 1) a b
        (sort-IsSorted n values) (omega (arith, rank_index-lt p (length sorted) full))
        (sym (percentile-sorted n sorted p full) ∙ ea) eb

  last_above :
      (values : List Num) (b : Num)
      → 0 < length values
      → get_elem? (sort n values) (length (sort n values) - 1) ≡ some b
      → All (λ x. n.le x b ≡ true) values
  last_above values b filled e =
      All-count (λ x. n.le x b) values
        (omega (
          arith,
          length-sort n values,
          count-sort n (λ x. n.le x b) values,
          get_elem?-reached n (sort n values) (length (sort n values) - 1) b
              (sort-IsSorted n values) e,
        ))

  compute_stats-filled :
      (values : List Num)
      → 0 < length values
      → compute_stats n values ≡ sorted_stats n (sort n values)
  unfolding compute_stats
  compute_stats-filled [] h = elim h [ ]
  compute_stats-filled (x ∷ xs) h = refl

  -- The statistics of at least one value are defined in every field: the count is the number of
  -- values, p50, p95 and p99 are nearest-rank percentiles in ascending order, and the maximum is a
  -- value that none is above and that is at least p99.
  pub compute_stats-IsSummary :
      (values : List Num) → 0 < length values → IsSummary values (compute_stats n values)
  unfolding sorted_stats
  compute_stats-IsSummary values filled =
      let sorted = sort n values in
      let full : 0 < length sorted = omega (arith, length-sort n values) in
      let (a, at_a, rank_a) = percentile-IsNearestRank n values median filled in
      let (b, at_b, rank_b) = percentile-IsNearestRank n values p95 filled in
      let (c, at_c, rank_c) = percentile-IsNearestRank n values p99 filled in
      let (m, at_m) = get_elem?-total sorted (length sorted - 1) (omega arith) in
      let same = compute_stats-filled values filled in
      record {
        v50 = a;
        v95 = b;
        v99 = c;
        top = m;
        counted = ap (λ (s : Stats Num). s.count) same ∙ length-sort n values;
        at50 = ap (λ (s : Stats Num). s.p50) same ∙ at_a;
        at95 = ap (λ (s : Stats Num). s.p95) same ∙ at_b;
        at99 = ap (λ (s : Stats Num). s.p99) same ∙ at_c;
        at_top = ap (λ (s : Stats Num). s.max) same ∙ at_m;
        rank50 = rank_a;
        rank95 = rank_b;
        rank99 = rank_c;
        le50 = percentile_mono values median p95 a b filled (omega arith) at_a at_b;
        le95 = percentile_mono values p95 p99 b c filled (omega arith) at_b at_c;
        le99 = percentile-le-last values p99 c m filled at_c at_m;
        top_attained =
            (Perm.mem_iff (sort-perm n values)).0 (Mem-get_elem? sorted (length sorted - 1) m at_m);
        top_above = last_above values m filled at_m;
      }
