-- ===== src/Js/Number.antt =====
-- The numbers of the program, as an interface. A JavaScript number is a binary64 float, of which
-- there are none here: the code is modelled over any type with the operations that it uses, and
-- the laws of the order are those that hold of every number that JSON can denote (no NaN).
use polyglot_infinity.Prelude.{
  ℕ, ◌+◌, ◌*◌, ◌/◌, ◌≡◌, Bool, true, false, not, arith, leb, ◌==◌, inl, inr, Bool-cases,
}

pub record Numbers (Num : Type 0) : Type 0 where
  -- `!(a - b > 0)`: the comparator `(a, b) => a - b` leaves `a` before `b`.
  pub le : Num → Num → Bool
  pub le_total : (a b : Num) → le a b ≡ false → le b a ≡ true
  pub le_trans : (a b c : Num) → le a b ≡ true → le b c ≡ true → le a c ≡ true
  -- `!a`, true of zero.
  pub falsy : Num → Bool
  -- The number that a count or a numeral of the source is.
  pub of_ℕ : ℕ → Num
  pub add : Num → Num → Num
  -- `Math.round(s / n)` for a count `n`.
  pub round_div : Num → ℕ → Num

pub leb_total : (a b : ℕ) → leb a b ≡ false → leb b a ≡ true
leb_total a b h = ground arith

pub leb_trans : (a b c : ℕ) → leb a b ≡ true → leb b c ≡ true → leb a c ≡ true
leb_trans a b c h k = ground arith

-- Whole milliseconds, which is what the platform's services send. Math.round(s / n) is
-- floor(s / n + 1 / 2). Sums stay exact while they are below 2 ^ 53.
abbrev pub round_div_ℕ : ℕ → ℕ → ℕ
round_div_ℕ s n = (2 * s + n) / (2 * n)

abbrev pub whole_numbers : Numbers ℕ
whole_numbers = record {
  le = leb;
  le_total = leb_total;
  le_trans = leb_trans;
  falsy = λ n. n == 0;
  of_ℕ = λ n. n;
  add = ◌+◌;
  round_div = round_div_ℕ;
}

module _ {Num : Type 0} (n : Numbers Num) where
  -- `a < b`.
  abbrev pub lt : Num → Num → Bool
  lt a b = not (n.le b a)

  pub le_refl : (a : Num) → n.le a a ≡ true
  le_refl a = elim (Bool-cases (n.le a a)) [ inl e ↦ e | inr e ↦ n.le_total a a e ]
