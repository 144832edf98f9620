-- ===== src/Apm/Stats.antt =====
-- apm-server/server.js, the statistics: `percentile` and `computeStats`.
pub mod Rank
pub mod Order
pub mod Mean
use polyglot_infinity.Prelude.{
  ℕ, ◌+◌, ◌-◌, ◌*◌, ◌/◌, Option, none, some, List, [], ◌∷◌, length, get_elem?, if◌then◌else◌, ◌==◌,
}
use polyglot_infinity.Js.Number.{Numbers}
use polyglot_infinity.Js.Sort.{sort}

-- The percentages that `percentile` is called with. `(p / 100) * n` is a float product: for these
-- three its rounding does not move it past a whole number on any length below 2 ^ 40, as it does for
-- 7 and the length 100.
pub data Percentage : Type 0 where
  median p95 p99 : Percentage

abbrev pub percent : Percentage → ℕ
percent median = 50
percent p95 = 95
percent p99 = 99

-- `Math.max(0, Math.ceil((p / 100) * n) - 1)` in whole numbers: subtraction stops at 0.
unfoldable pub rank_index : Percentage → ℕ → ℕ
rank_index p n = (percent p * n + 99) / 100 - 1

module _ {Num : Type 0} (n : Numbers Num) where
  -- `none` is `undefined`, what an array gives outside its bounds.
  unfoldable pub percentile : List Num → Percentage → Option Num
  unfolding rank_index
  percentile [] p = some (n.of_ℕ 0)
  percentile (x ∷ xs) p = get_elem? (x ∷ xs) (rank_index p (length (x ∷ xs)))

  -- `for (…) sum += sorted[i]`.
  unfoldable pub sum_from : Num → List Num → Num
  sum_from acc [] = acc
  sum_from acc (x ∷ xs) = sum_from (n.add acc x) xs

pub record Stats (Num : Type 0) : Type 0 where
  pub count : ℕ
  pub p50 : Option Num
  pub p95 : Option Num
  pub p99 : Option Num
  pub avg : Num
  pub max : Option Num

module _ {Num : Type 0} (n : Numbers Num) where
  abbrev pub no_stats : Stats Num
  no_stats = record {
    count = 0;
    p50 = some (n.of_ℕ 0);
    p95 = some (n.of_ℕ 0);
    p99 = some (n.of_ℕ 0);
    avg = n.of_ℕ 0;
    max = some (n.of_ℕ 0);
  }

  -- The result for an ascending list that is not empty.
  unfoldable pub sorted_stats : List Num → Stats Num
  unfolding percentile sum_from
  sorted_stats sorted = record {
    count = length sorted;
    p50 = percentile n sorted median;
    p95 = percentile n sorted p95;
    p99 = percentile n sorted p99;
    avg = n.round_div (sum_from n (n.of_ℕ 0) sorted) (length sorted);
    max = get_elem? sorted (length sorted - 1);
  }

  unfoldable pub compute_stats : List Num → Stats Num
  unfolding sorted_stats sort
  compute_stats [] = no_stats
  compute_stats (x ∷ xs) = sorted_stats (sort n (x ∷ xs))
