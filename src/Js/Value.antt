-- ===== src/Js/Value.antt =====
-- The values that `JSON.parse` returns. An object's fields stand under distinct names, as after
-- parsing, so that the first one of a name is the property.
use polyglot_infinity.Js.Completion.{Completion, ok, throw}
use polyglot_infinity.Js.Number.{Numbers}
use polyglot_infinity.Prelude.{
  true, false, not, ◌++◌, codes, Bool, Option, none, some, List, [], ◌∷◌, if◌then◌else◌, Text,
  text_eq,
}

mutual
  pub data Json (Num : Type 0) : Type 0 where
    null : Json Num
    bool : Bool → Json Num
    num : Num → Json Num
    str : Text → Json Num
    arr : Items Num → Json Num
    obj : Fields Num → Json Num

  pub data Items (Num : Type 0) : Type 0 where
    nil : Items Num
    cons : Json Num → Items Num → Items Num

  pub data Fields (Num : Type 0) : Type 0 where
    end : Fields Num
    field : Text → Json Num → Fields Num → Fields Num

module _ {Num : Type 0} where
  abbrev pub elements : Items Num → List (Json Num)
  elements nil = []
  elements (cons v vs) = v ∷ elements vs

  abbrev pub items : List (Json Num) → Items Num
  items [] = nil
  items (v ∷ vs) = cons v (items vs)

  -- An own property of a parsed object; `none` is `undefined`.
  unfoldable pub property : Text → Fields Num → Option (Json Num)
  property k end = none
  property k (field j v fs) = if text_eq j k then some v else property k fs

-- `typeof v === 'string'` and `typeof v === 'number'`, with the value; `none` also for `undefined`.
module _ {Num : Type 0} where
  abbrev pub as_text : Option (Json Num) → Option Text
  as_text (some (str s)) = some s
  as_text _ = none

  abbrev pub as_number : Option (Json Num) → Option Num
  as_number (some (num x)) = some x
  as_number _ = none

module _ {Num : Type 0} (n : Numbers Num) where
  -- Whether the value counts as true in a condition.
  unfoldable pub truthy : Json Num → Bool
  truthy null = false
  truthy (bool b) = b
  truthy (num x) = not (n.falsy x)
  truthy (str []) = false
  truthy (str (c ∷ s)) = true
  truthy (arr vs) = true
  truthy (obj fs) = true

-- The message of V8 for reading a property of `null`.
abbrev pub null_message : Text → Text
null_message k = codes "Cannot read properties of null (reading '" ++ k ++ codes "')"

-- `v.k` for a name `k` that no built-in prototype has: only objects have it, and reading it from
-- `null` throws a TypeError.
unfoldable pub read : {Num : Type 0} → Json Num → Text → Completion (Option (Json Num))
read null k = throw (null_message k)
read (obj fs) k = ok (property k fs)
read _ k = ok none
