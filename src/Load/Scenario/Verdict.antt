-- ===== src/Load/Scenario/Verdict.antt =====
-- The end that all scenarios of tests/load-test.js share: named checks of the response, then one
-- sample of the error rate.
use polyglot_infinity.Prelude.{
  Bool, true, false, Option, none, some, List, [], ◌∷◌, ◌++◌, ◌==◌, Text, if◌then◌else◌,
}
use polyglot_infinity.Js.Value.{Json, arr}
use polyglot_infinity.Load.User.{Amount, Response, M, pure, ◌>>◌, is_error, check, add_error}

-- `r.status === 200`.
abbrev pub is_200 : Response → Bool
is_200 r = r.status == 200

-- `r.json(name) !== undefined`.
abbrev pub is_defined : Option (Json Amount) → Bool
is_defined none = false
is_defined (some v) = true

abbrev pub has_field : Text → Response → Bool
has_field name r = is_defined (r.json name)

-- `Array.isArray(…)`.
abbrev pub is_array : Option (Json Amount) → Bool
is_array (some (arr vs)) = true
is_array _ = false

abbrev pub returned : Option Bool → M Bool
returned none v = none
returned (some b) v = some (b, v)

-- `r.status === 200 && typeof r.json() === "object"`, which throws for a 200 that is no JSON.
abbrev pub object_test : Response → M Bool
object_test r = if is_200 r then returned r.is_object else pure false

-- A template literal from its pieces.
abbrev pub join : List Text → Text
join [] = []
join (t ∷ ts) = t ++ join ts

-- `check(res, { … }); errorRate.add(res.status >= 400);`
abbrev pub verdict : Response → List (Text × Bool) → M (Unit {0})
verdict res tests = do check tests; add_error (is_error res)
