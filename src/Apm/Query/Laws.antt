-- ===== src/Apm/Query/Laws.antt =====
-- Which limit a metrics request asks for.
use polyglot_infinity.Prelude.{
  ℕ, suc, ◌≡◌, ◌≢◌, refl, ap, ◌∙◌, true, Option, none, some, [], ◌∷◌, ◌++◌, arith, All, ==_iff,
  Text, codes,
}
use polyglot_infinity.Apm.Query.{
  strip_prefix, starts_with, query_string, leading_number, digits_behind, limit_here,
  limit_of_query, limit_behind_amp, limit_in, or_else, limit_or, requested_limit,
}
use polyglot_infinity.Js.Decimal.{decimal_onto}
use polyglot_infinity.Apm.Query.Decimal.{digits_here-decimal_onto}

strip_prefix-append : (p s : Text) → strip_prefix p (p ++ s) ≡ some s
unfolding strip_prefix
strip_prefix-append [] s = refl
strip_prefix-append (c ∷ p) s = rw ((==_iff c c).1 refl) (strip_prefix-append p s)

pub starts_with-append : (p s : Text) → starts_with (p ++ s) p ≡ true
unfolding starts_with
starts_with-append p s = rw (strip_prefix-append p s)

query_string-none : (path : Text) → All (λ c. c ≢ b'?') path → query_string path ≡ none
unfolding query_string
query_string-none [] h = refl
query_string-none (c ∷ path) h = ground (arith, query_string-none path)

query_string-append :
    (path qs : Text) → All (λ c. c ≢ b'?') path → query_string (path ++ b'?' ∷ qs) ≡ some qs
unfolding query_string
query_string-append [] qs h = refl
query_string-append (c ∷ path) qs h = ground (arith, query_string-append path qs)

-- What may stand behind the digits: nothing, or another parameter.
abbrev pub more_params : Option Text → Text
more_params none = []
more_params (some t) = b'&' ∷ t

leading_number-more_params : (n : ℕ) (o : Option Text) → leading_number n (more_params o) ≡ n
unfolding leading_number
leading_number-more_params n none = refl
leading_number-more_params n (some t) = refl

limit_here-decimal :
    (n : ℕ) (o : Option Text)
    → limit_here (codes "limit=" ++ decimal_onto (suc n) n (more_params o)) ≡ some n
unfolding limit_here
limit_here-decimal n o =
    ap digits_behind (strip_prefix-append (codes "limit=") (decimal_onto (suc n) n (more_params o)))
    ∙ digits_here-decimal_onto (suc n) n (more_params o) (omega arith)
    ∙ ap some (leading_number-more_params n o)

limit_in-limit_here : (n : ℕ) (s : Text) → limit_here s ≡ some n → limit_in s ≡ some n
unfolding limit_in
limit_in-limit_here n s h = ap (λ o. or_else o (limit_behind_amp s)) h

-- A URL with no query asks for 100 events; a query that begins with limit= and a number in decimal
-- asks for that number, with or without more parameters behind it.
pub requested_limit_lem :
    (path : Text) (n : ℕ) (o : Option Text)
    → All (λ c. c ≢ b'?') path
    → (requested_limit path ≡ 100)
      × (requested_limit (path ++ b'?' ∷ (codes "limit=" ++ decimal_onto (suc n) n (more_params o)))
          ≡ n)
unfolding requested_limit
requested_limit_lem path n o h =
    let query = codes "limit=" ++ decimal_onto (suc n) n (more_params o) in
    (
      ap limit_of_query (query_string-none path h),
      ap limit_of_query (query_string-append path query h)
          ∙ ap (limit_or 100) (limit_in-limit_here n query (limit_here-decimal n o)),
    )
