-- ===== src/Js/Object/Laws.antt =====
-- Reads after writes, and what `Object.keys` lists.
use polyglot_infinity.Prelude.{
  ◌≡◌, refl, ◌∙◌, true, false, ◌||◌, none, some, List, [], ◌∷◌, ◌++◌, map, arith, inl, inr,
  if◌then◌else◌, Text, text_eq, text_eq_iff, Bool-cases, Option-cases, ℕ,
}
use polyglot_infinity.Js.Object.{
  Object, get, set, names, keys, index_keys, string_keys, insert_index, array_index, has_key,
}

module _ {ℓ} {V : Type ℓ} where
  pub get-set :
      (k j : Text) (v : V) (o : Object V)
      → get j (set k v o) ≡ (if text_eq k j then some v else get j o)
  unfolding get set
  get-set k j v [] = refl
  get-set k j v ((i, w) ∷ o) =
      ground (arith, text_eq_iff k j, text_eq_iff i k, text_eq_iff i j, get-set k j v o)

  -- A key is present exactly when it has a value.
  pub get-eq-none : (k : Text) (o : Object V) → has_key k (names o) ≡ false → get k o ≡ none
  unfolding get has_key
  get-eq-none k [] h = refl
  get-eq-none k ((j, v) ∷ o) h = ground (arith, get-eq-none k o)

  pub get-of_has_key :
      (k : Text) (o : Object V) → has_key k (names o) ≡ true → (v : V) × (get k o ≡ some v)
  unfolding get has_key
  get-of_has_key k [] h = cc
  get-of_has_key k ((j, v) ∷ o) h = elim (Bool-cases (text_eq j k)) [
    | inl e ↦ (v, rw e)
    | inr e ↦ rw e (get-of_has_key k o (ground arith))
  ]

has_key-append :
    (k : Text) (xs ys : List Text) → has_key k (xs ++ ys) ≡ (has_key k xs || has_key k ys)
unfolding has_key
has_key-append k [] ys = refl
has_key-append k (x ∷ xs) ys = ground (arith, has_key-append k xs ys)

abbrev texts : List (ℕ × Text) → List Text
texts = map (λ p. p.1)

has_key-insert_index :
    (k j : Text) (i : ℕ) (xs : List (ℕ × Text))
    → has_key k (texts (insert_index i j xs)) ≡ (text_eq j k || has_key k (texts xs))
unfolding has_key insert_index
has_key-insert_index k j i [] = refl
has_key-insert_index k j i ((h, l) ∷ xs) = ground (arith, has_key-insert_index k j i xs)

-- Reordering loses no key and adds none.
has_key-split :
    (k : Text) (ks : List Text)
    → (has_key k (texts (index_keys ks)) || has_key k (string_keys ks)) ≡ has_key k ks
unfolding has_key index_keys string_keys
has_key-split k [] = refl
has_key-split k (j ∷ ks) = elim (Option-cases (array_index j)) [
  | inl e ↦ rw (e, index_keys, string_keys) (ground (arith, has_key-split k ks))
  | inr (i, e) ↦
      rw (e, index_keys, string_keys)
        (ground (arith, has_key-split k ks, has_key-insert_index k j i (index_keys ks)))
]

pub has_key-keys {ℓ} :
    {V : Type ℓ} (k : Text) (o : Object V) → has_key k (keys o) ≡ has_key k (names o)
unfolding keys
has_key-keys k o =
    has_key-append k (texts (index_keys (names o))) (string_keys (names o))
    ∙ has_key-split k (names o)
