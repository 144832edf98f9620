-- ===== src/Apm/Query.antt =====
-- apm-server/server.js, reading `limit` from the request's URL: `indexOf('?')`, `slice`, the match
-- of /(?:^|&)limit=(\d+)/ and `parseInt`.
pub mod Decimal
pub mod Laws
use polyglot_infinity.Prelude.{
  ℕ, ◌+◌, ◌-◌, ◌*◌, Bool, true, false, ◌&&◌, Option, none, some, List, [], ◌∷◌, if◌then◌else◌, leb,
  ◌==◌, Text, codes,
}

-- What follows a prefix: `starts_with` with the rest, `none` if the text does not begin so.
unfoldable pub strip_prefix : Text → Text → Option Text
strip_prefix [] s = some s
strip_prefix (p ∷ ps) [] = none
strip_prefix (p ∷ ps) (c ∷ s) = if p == c then strip_prefix ps s else none

abbrev pub is_some {ℓ} : {A : Type ℓ} → Option A → Bool
is_some none = false
is_some (some a) = true

-- `s.startsWith(p)`.
unfoldable pub starts_with : Text → Text → Bool
unfolding strip_prefix
starts_with s p = is_some (strip_prefix p s)

-- `url.slice(url.indexOf('?') + 1)`, `none` where there is no question mark.
unfoldable pub query_string : Text → Option Text
query_string [] = none
query_string (c ∷ s) = if c == b'?' then some s else query_string s

abbrev pub is_digit : ℕ → Bool
is_digit c = leb b'0' c && leb c b'9'

-- The longest run of digits at the front, read by `parseInt(…, 10)` from an accumulator. Above
-- 2 ^ 53 the float differs from the number; it is then above 1000 like the number, and the only
-- use of the limit is to be clamped to at most 1000.
unfoldable pub leading_number : ℕ → Text → ℕ
leading_number acc [] = acc
leading_number acc (c ∷ s) =
    let more = leading_number (acc * 10 + (c - b'0')) s in if is_digit c then more else acc

-- `(\d+)` at the front: at least one digit.
unfoldable pub digits_here : Text → Option ℕ
unfolding leading_number
digits_here [] = none
digits_here (c ∷ s) = if is_digit c then some (leading_number (c - b'0') s) else none

abbrev pub digits_behind : Option Text → Option ℕ
digits_behind none = none
digits_behind (some rest) = digits_here rest

-- `limit=(\d+)` at the front.
unfoldable pub limit_here : Text → Option ℕ
unfolding strip_prefix digits_here
limit_here s = digits_behind (strip_prefix (codes "limit=") s)

abbrev pub or_else {ℓ} : {A : Type ℓ} → Option A → Option A → Option A
or_else none o = o
or_else (some a) o = some a

-- The leftmost match of `&limit=(\d+)`.
unfoldable pub limit_behind_amp : Text → Option ℕ
unfolding limit_here
limit_behind_amp [] = none
limit_behind_amp (c ∷ s) =
    let later = limit_behind_amp s in if c == b'&' then or_else (limit_here s) later else later

-- The leftmost match of `(?:^|&)limit=(\d+)`: at the front, or behind some `&`.
unfoldable pub limit_in : Text → Option ℕ
unfolding limit_here limit_behind_amp
limit_in s = or_else (limit_here s) (limit_behind_amp s)

abbrev pub limit_or : ℕ → Option ℕ → ℕ
limit_or d none = d
limit_or d (some l) = l

abbrev pub limit_of_query : Option Text → ℕ
limit_of_query none = 100
limit_of_query (some qs) = limit_or 100 (limit_in qs)

-- The limit of a metrics request: 100 unless the query names another.
unfoldable pub requested_limit : Text → ℕ
unfolding query_string limit_in
requested_limit url = limit_of_query (query_string url)
