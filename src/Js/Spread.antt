-- ===== src/Js/Spread.antt =====
-- Object literals with spread elements, and property reads that do not throw.
use polyglot_infinity.Prelude.{
  ℕ, zero, suc, Option, none, some, [], ◌∷◌, if◌then◌else◌, Text, text_eq, codes,
}
use polyglot_infinity.Js.Completion.{Completion, ok, throw}
use polyglot_infinity.Js.Decimal.{decimal}
use polyglot_infinity.Js.Value.{
  Json, null, str, arr, obj, Items, nil, cons, Fields, end, field, property,
}

module _ {Num : Type 0} where
  -- A property is set, in its place if it is there.
  unfoldable pub set_field : Text → Json Num → Fields Num → Fields Num
  set_field k v end = field k v end
  set_field k v (field j w fs) = if text_eq j k then field j v fs else field j w (set_field k v fs)

  unfoldable pub drop_field : Text → Fields Num → Fields Num
  drop_field k end = end
  drop_field k (field j w fs) = if text_eq j k then fs else field j w (drop_field k fs)

  -- `k: v`, where an undefined value reads as a property that is not there.
  unfoldable pub put_field : Text → Option (Json Num) → Fields Num → Fields Num
  unfolding set_field drop_field
  put_field k none fs = drop_field k fs
  put_field k (some v) fs = set_field k v fs

  unfoldable pub merge : Fields Num → Fields Num → Fields Num
  unfolding set_field
  merge fs end = fs
  merge fs (field k v gs) = merge (set_field k v fs) gs

  unfoldable pub indexed : ℕ → Items Num → Fields Num
  unfolding decimal
  indexed i nil = end
  indexed i (cons v vs) = field (decimal i) v (indexed (suc i) vs)

  unfoldable pub characters : ℕ → Text → Fields Num
  unfolding decimal
  characters i [] = end
  characters i (c ∷ s) = field (decimal i) (str (c ∷ [])) (characters (suc i) s)

  -- The own properties that `...v` copies.
  unfoldable pub spread : Json Num → Fields Num
  unfolding indexed characters
  spread (obj fs) = fs
  spread (arr vs) = indexed 0 vs
  spread (str s) = characters 0 s
  spread _ = end

  unfoldable pub item : ℕ → Items Num → Option (Json Num)
  item i nil = none
  item zero (cons v vs) = some v
  item (suc i) (cons v vs) = item i vs

  abbrev character : Text → ℕ → Option (Json Num)
  character [] i = none
  character (c ∷ s) zero = some (str (c ∷ []))
  character (c ∷ s) (suc i) = character s i

  -- `v[i]` for a value that may be undefined.
  unfoldable pub read_index : Option (Json Num) → ℕ → Completion (Option (Json Num))
  unfolding item property decimal
  read_index none i = throw (codes "Cannot read properties of undefined")
  read_index (some null) i = throw (codes "Cannot read properties of null")
  read_index (some (arr vs)) i = ok (item i vs)
  read_index (some (str s)) i = ok (character s i)
  read_index (some (obj fs)) i = ok (property (decimal i) fs)
  read_index (some _) i = ok none

  -- `v?.k`.
  unfoldable pub maybe_read : Option (Json Num) → Text → Option (Json Num)
  unfolding property
  maybe_read (some (obj fs)) k = property k fs
  maybe_read _ k = none

  -- `a ?? b`.
  abbrev pub or_else : Option (Json Num) → Option (Json Num) → Option (Json Num)
  or_else none b = b
  or_else (some null) b = b
  or_else (some v) b = some v
