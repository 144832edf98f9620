-- ===== src/Apm/Query/Decimal.antt =====
-- The server reads back the decimal digits that a client writes.
use polyglot_infinity.Prelude.{
  ℕ, zero, suc, ◌+◌, ◌-◌, ◌*◌, ◌/◌, ◌%◌, ◌<◌, ◌≡◌, ap, ◌∙◌, true, some, ◌∷◌, arith, inl, inr, ltb,
  Text, Bool-cases,
}
use polyglot_infinity.Js.Decimal.{decimal_onto}
use polyglot_infinity.Apm.Query.{is_digit, leading_number, digits_here}

is_digit-digit : (d : ℕ) → d < 10 → is_digit (d + b'0') ≡ true
is_digit-digit d h = ground arith

one_digit : (n : ℕ) (s : Text) → n < 10 → digits_here ((n + b'0') ∷ s) ≡ some (leading_number n s)
unfolding digits_here
one_digit n s h = let value : n + b'0' - b'0' ≡ n = omega arith in rw (is_digit-digit n h, value)

next_digit : (n : ℕ) (s : Text) → leading_number (n / 10) ((n % 10 + b'0') ∷ s) ≡ leading_number n s
unfolding leading_number
next_digit n s =
    let value : n / 10 * 10 + (n % 10 + b'0' - b'0') ≡ n = omega arith in
    rw (is_digit-digit (n % 10) (omega arith), value)

-- Reading goes on behind the digits with the number as accumulator.
pub digits_here-decimal_onto :
    (fuel n : ℕ) (s : Text)
    → n < fuel
    → digits_here (decimal_onto fuel n s) ≡ some (leading_number n s)
unfolding digits_here decimal_onto
digits_here-decimal_onto zero n s h = elim h [ ]
digits_here-decimal_onto (suc fuel) n s h = elim (Bool-cases (ltb n 10)) [
  | inl e ↦ rw e (one_digit n s (ground arith))
  | inr e ↦ rw e (
      digits_here-decimal_onto fuel (n / 10) ((n % 10 + b'0') ∷ s) (ground arith)
      ∙ ap some (next_digit n s))
]
