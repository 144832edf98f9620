-- ===== src/Js/Decimal.antt =====
-- Numbers as texts: `String(n)` of a whole number and `toFixed`.
use polyglot_infinity.Prelude.{
  ℕ, zero, suc, ◌+◌, ◌*◌, ◌/◌, ◌%◌, [], ◌∷◌, ◌++◌, if◌then◌else◌, ltb, Text,
}

-- The digits of a number, most significant first, in front of a text. Fuel above the number is
-- enough, since each round divides it by ten.
unfoldable pub decimal_onto : ℕ → ℕ → Text → Text
decimal_onto zero n s = s
decimal_onto (suc fuel) n s =
    let front = decimal_onto fuel (n / 10) ((n % 10 + b'0') ∷ s) in
    if ltb n 10 then (n + b'0') ∷ s else front

unfoldable pub decimal : ℕ → Text
unfolding decimal_onto
decimal n = decimal_onto (suc n) n []

-- The last `d` decimal digits of a number, with leading zeros.
unfoldable pub last_digits : ℕ → ℕ → Text → Text
last_digits zero n s = s
last_digits (suc d) n s = last_digits d (n / 10) ((n % 10 + b'0') ∷ s)

abbrev pub ten_to : ℕ → ℕ
ten_to zero = 1
ten_to (suc d) = 10 * ten_to d

-- `(n / 10 ** d).toFixed(d)`: the float nearest to the quotient prints as the quotient.
unfoldable pub to_fixed : ℕ → ℕ → Text
unfolding decimal last_digits
to_fixed d n = decimal (n / ten_to d) ++ b'.' ∷ last_digits d n []
