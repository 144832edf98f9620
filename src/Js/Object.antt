-- ===== src/Js/Object.antt =====
-- Objects made by `Object.create(null)` as dictionaries: association lists in the order in which
-- the keys were added, and `Object.keys`, which lists array indices in ascending order before all
-- other keys.
pub mod Laws
use polyglot_infinity.Prelude.{
  ℕ, ◌+◌, ◌-◌, ◌*◌, Bool, true, false, ◌&&◌, ◌||◌, Option, none, some, List, [], ◌∷◌, ◌++◌, map,
  if◌then◌else◌, ltb, leb, ◌==◌, Text, text_eq,
}

abbrev pub Object {ℓ} : Type ℓ → Type ℓ
Object V = List (Text × V)

module _ {ℓ} {V : Type ℓ} where
  -- `o[k]`, `none` for `undefined`.
  unfoldable pub get : Text → Object V → Option V
  get k [] = none
  get k ((j, v) ∷ o) = if text_eq j k then some v else get k o

  -- `o[k] = v`: a new key goes to the end.
  unfoldable pub set : Text → V → Object V → Object V
  set k v [] = (k, v) ∷ []
  set k v ((j, w) ∷ o) = if text_eq j k then (j, v) ∷ o else (j, w) ∷ set k v o

  abbrev pub names : Object V → List Text
  names [] = []
  names ((k, v) ∷ o) = k ∷ names o

-- The number that decimal digits denote, from an accumulator; `none` at another character.
unfoldable pub digits_from : ℕ → Text → Option ℕ
digits_from acc [] = some acc
digits_from acc (c ∷ s) =
    let rest = digits_from (acc * 10 + (c - b'0')) s in
    if leb b'0' c && leb c b'9' then rest else none

-- An array index is the decimal form, with no leading zero, of a number below 2 ^ 32 - 1.
unfoldable pub array_index : Text → Option ℕ
unfolding digits_from
array_index [] = none
array_index (c ∷ []) = digits_from 0 (c ∷ [])
array_index (c ∷ d ∷ s) = elim (digits_from 0 (c ∷ d ∷ s)) [
  | none ↦ none
  | some i ↦ if c == b'0' then none else if ltb i 4294967295 then some i else none
]

unfoldable pub insert_index : ℕ → Text → List (ℕ × Text) → List (ℕ × Text)
insert_index i k [] = (i, k) ∷ []
insert_index i k ((j, l) ∷ xs) =
    if leb i j then (i, k) ∷ (j, l) ∷ xs else (j, l) ∷ insert_index i k xs

-- The keys that are array indices, ascending.
unfoldable pub index_keys : List Text → List (ℕ × Text)
unfolding insert_index array_index
index_keys [] = []
index_keys (k ∷ ks) = elim (array_index k) [
  | none ↦ index_keys ks
  | some i ↦ insert_index i k (index_keys ks)
]

-- The other keys, in the order in which they were added.
unfoldable pub string_keys : List Text → List Text
unfolding array_index
string_keys [] = []
string_keys (k ∷ ks) = elim (array_index k) [ none ↦ k ∷ string_keys ks | some i ↦ string_keys ks ]

-- `Object.keys(o)`.
unfoldable pub keys {ℓ} : {V : Type ℓ} → Object V → List Text
unfolding index_keys string_keys
keys o = map (λ p. p.1) (index_keys (names o)) ++ string_keys (names o)

-- Membership of a key, as a test.
unfoldable pub has_key : Text → List Text → Bool
has_key k [] = false
has_key k (j ∷ ks) = text_eq j k || has_key k ks
