-- ===== src/Panels/Setting.antt =====
-- What the scripts of the panels take from outside: the base URL that the build puts in, and the
-- number and text operations of JavaScript.
use polyglot_infinity.Prelude.{ℕ, Bool, List, [], ◌∷◌, ◌++◌, Text}
use polyglot_infinity.Js.Number.{Numbers}
use polyglot_infinity.Js.Async.{Call, get_call}

pub record Setting (Num : Type 0) : Type 0 where
  -- `API_BASE`.
  pub base : Text
  pub numbers : Numbers Num
  -- The number that a literal denotes, and the text that a number has in a template.
  pub literal : Text → Num
  pub show : Num → Text
  pub add : Num → Num → Num
  pub times : Num → Num → Num
  pub round : Num → Num
  pub less : Num → Num → Bool
  pub to_fixed : ℕ → Num → Text
  -- `parseFloat(…) || 100`.
  pub parse_float_or : Text → Num → Num
  pub to_lower_case : Text → Text
  pub encode_uri_component : Text → Text

-- A template literal from its pieces.
abbrev pub pieces : List Text → Text
pieces [] = []
pieces (t ∷ ts) = t ++ pieces ts

-- `fetch` of a URL below the base.
abbrev pub api : {Num : Type 0} → Setting Num → List Text → Call
api js path = get_call (js.base ++ pieces path)
