-- ===== src/Portal/Statuses/Own.antt =====
-- Which card each fetch writes.
use polyglot_infinity.Prelude.{
  ℕ, zero, suc, ◌≡◌, refl, ap, subst, ◌∙◌, sym, inl, inr, Bool, true, false, not, ◌&&◌, Option,
  none, some, List, [], ◌∷◌, arith, if◌then◌else◌, get_elem?, All, All-get_elem?, Text, text_eq,
  text_eq_self, codes, Bool-cases, Option-cases,
}
use polyglot_infinity.Js.Object.{Object, get, set}
use polyglot_infinity.Js.Object.Laws.{get-set}
use polyglot_infinity.Portal.Services.{Service, services}
use polyglot_infinity.Portal.Statuses.{
  Card, Remote, Fetched, rejected, answered, cpp, zig, wasm, Settled, aggregate, go_hub, artifact,
  artifact_key, source, is_ok, offline_card, or_empty, by_name, assign, if_aggregated,
  offline_entry, remote_entry, fail_aggregate, card_of, apply_aggregate, hub_card, artifact_card,
  write,
}

-- No other service has the key.
abbrev IsOther : Service → List Service → Type 0
IsOther v = All (λ (u : Service). (text_eq u.key v.key ≡ false) × (text_eq v.key u.key ≡ false))

abbrev HasDistinctKeys : List Service → Type 0
HasDistinctKeys [] = Unit
HasDistinctKeys (v ∷ vs) = IsOther v vs × HasDistinctKeys vs

module _ {Num : Type 0} where
  abbrev pub or_else : Option (Card Num) → Option (Card Num) → Option (Card Num)
  or_else none d = d
  or_else (some c) d = some c

  -- What a loop over services leaves at a key, if it writes there.
  unfoldable last_entry : (Service → Option (Card Num)) → List Service → Text → Option (Card Num)
  last_entry f [] k = none
  last_entry f (v ∷ vs) k = or_else (last_entry f vs k) (if text_eq v.key k then f v else none)

  or_else_assoc : (a b c : Option (Card Num)) → or_else (or_else a b) c ≡ or_else a (or_else b c)
  or_else_assoc none b c = refl
  or_else_assoc (some x) b c = refl

  or_else-if_none : (d : Option (Card Num)) (b : Bool) → d ≡ or_else d (if b then none else none)
  or_else-if_none none true = refl
  or_else-if_none none false = refl
  or_else-if_none (some c) b = refl

  or_else-if_some :
      (b : Bool) (c : Card Num) (d : Option (Card Num))
      → (if b then some c else d) ≡ or_else (if b then some c else none) d
  or_else-if_some true c d = refl
  or_else-if_some false c d = refl

  or_else-none : (d : Option (Card Num)) → or_else d none ≡ d
  or_else-none none = refl
  or_else-none (some c) = refl

  get-assign :
      (f : Service → Option (Card Num)) (vs : List Service) (k : Text) (o : Object (Card Num))
      → get k (assign f vs o) ≡ or_else (last_entry f vs k) (get k o)
  unfolding assign last_entry
  get-assign f [] k o = refl
  get-assign f (v ∷ vs) k o = elim (Option-cases (f v)) [
    | inl e ↦
        rw (e, assign)
          (get-assign f vs k o
            ∙ ap (λ d. or_else d (get k o)) (or_else-if_none (last_entry f vs k) (text_eq v.key k)))
    | inr (card, e) ↦
        rw (e, assign)
          (get-assign f vs k (set v.key card o)
            ∙ ap (or_else (last_entry f vs k))
                (get-set v.key k card o ∙ or_else-if_some (text_eq v.key k) card (get k o))
            ∙ sym (
                or_else_assoc (last_entry f vs k) (if text_eq v.key k then some card else none)
                  (get k o)))
  ]

  last_entry-other :
      (f : Service → Option (Card Num)) (v : Service) (vs : List Service)
      → IsOther v vs
      → last_entry f vs v.key ≡ none
  unfolding last_entry
  last_entry-other f v [] h = refl
  last_entry-other f v (u ∷ us) h = rw (last_entry-other f v us h.1) (rw h.0.0 refl)

  last_entry-head :
      (f : Service → Option (Card Num)) (v : Service) (vs : List Service)
      → IsOther v vs
      → last_entry f (v ∷ vs) v.key ≡ f v
  unfolding last_entry
  last_entry-head f v vs h = rw (last_entry-other f v vs h) (rw (text_eq_self v.key) refl)

  last_entry-own :
      (f : Service → Option (Card Num)) (vs : List Service) (i : ℕ) (v : Service)
      → HasDistinctKeys vs
      → get_elem? vs i ≡ some v
      → last_entry f vs v.key ≡ f v
  unfolding last_entry
  last_entry-own f [] i v h e = absurd (cc)
  last_entry-own f (u ∷ us) zero v h e =
      subst (λ w. last_entry f (u ∷ us) w.key ≡ f w) (cc) (last_entry-head f u us h.0)
  last_entry-own f (u ∷ us) (suc i) v h e =
      let differs = All-get_elem? _ us i v h.0 e in
      rw (last_entry-own f us i v h.1 e) (rw differs.1 (or_else-none (f v)))

-- The same two, as tests.
unfoldable is_other : Service → List Service → Bool
is_other v [] = true
is_other v (u ∷ us) = not (text_eq u.key v.key) && not (text_eq v.key u.key) && is_other v us

unfoldable has_distinct_keys : List Service → Bool
has_distinct_keys [] = true
has_distinct_keys (v ∷ vs) = is_other v vs && has_distinct_keys vs

IsOther-is_other : (v : Service) (vs : List Service) → is_other v vs ≡ true → IsOther v vs
unfolding is_other
IsOther-is_other v [] h = tt
IsOther-is_other v (u ∷ us) h = ((ground arith, ground arith), IsOther-is_other v us (ground arith))

HasDistinctKeys-has_distinct_keys :
    (vs : List Service) → has_distinct_keys vs ≡ true → HasDistinctKeys vs
unfolding has_distinct_keys
HasDistinctKeys-has_distinct_keys [] h = tt
HasDistinctKeys-has_distinct_keys (v ∷ vs) h =
    (IsOther-is_other v vs (ground arith), HasDistinctKeys-has_distinct_keys vs (ground arith))

services-HasDistinctKeys : HasDistinctKeys services
unfolding services text_eq is_other has_distinct_keys
services-HasDistinctKeys = HasDistinctKeys-has_distinct_keys services refl

-- Which fetch a service's card waits for.
abbrev pub owner_of : Text → Option Text → Text
owner_of k none = k
owner_of k (some n) = codes "aggregate"

abbrev pub owner : Service → Text
owner svc = owner_of svc.key svc.aggregate_name

-- A fetch of its own is named like the service.
abbrev HasKey : Text → Service → Type 0
HasKey t svc = text_eq t svc.key ≡ text_eq t (owner svc)

abbrev HasKeys : Service → Type 0
HasKeys svc =
    HasKey (codes "go") svc
    × HasKey (codes "cpp") svc
    × HasKey (codes "zig") svc
    × HasKey (codes "wasm") svc

services-HasKeys : All HasKeys services
unfolding services text_eq
services-HasKeys = ground arith

-- What the loops over the services write, by a service's aggregate name.
module _ {Num : Type 0} (show : Num → Text) where
  abbrev pub aggregate_entry : Fetched (Option (List (Remote Num))) → Service → Option (Card Num)
  aggregate_entry rejected svc = offline_entry svc
  aggregate_entry (answered status none) svc = offline_entry svc
  aggregate_entry (answered status (some remotes)) svc =
      if is_ok status then remote_entry show (or_empty remotes) svc else offline_entry svc

  -- The card that a fetch writes for a service, `none` where it leaves it.
  abbrev pub written : Settled Num → Service → Option (Card Num)
  written (aggregate r) svc = aggregate_entry r svc
  written (go_hub ms r) svc =
      if text_eq (codes "go") svc.key then some (hub_card show ms r) else none
  written (artifact a ms r) svc =
      if text_eq (artifact_key a) svc.key then some (artifact_card show ms r) else none

  pub get-assign_own :
      (f : Service → Option (Card Num)) (i : ℕ) (svc : Service) (o : Object (Card Num))
      → get_elem? services i ≡ some svc
      → get svc.key (assign f services o) ≡ or_else (f svc) (get svc.key o)
  get-assign_own f i svc o e =
      get-assign f services svc.key o
      ∙ ap (λ d. or_else d (get svc.key o))
          (last_entry-own f services i svc services-HasDistinctKeys e)

  get-set_own :
      (t k : Text) (card : Card Num) (o : Object (Card Num))
      → get k (set t card o) ≡ or_else (if text_eq t k then some card else none) (get k o)
  get-set_own t k card o = get-set t k card o ∙ or_else-if_some (text_eq t k) card (get k o)

  -- A fetch changes the card of a service as said.
  pub get-write :
      (f : Settled Num) (i : ℕ) (svc : Service) (o : Object (Card Num))
      → get_elem? services i ≡ some svc
      → get svc.key (write show f o) ≡ or_else (written f svc) (get svc.key o)
  unfolding write fail_aggregate apply_aggregate
  get-write (aggregate rejected) i svc o e = get-assign_own offline_entry i svc o e
  get-write (aggregate (answered status none)) i svc o e = get-assign_own offline_entry i svc o e
  get-write (aggregate (answered status (some remotes))) i svc o e =
      elim (Bool-cases (is_ok status)) [
        | inl good ↦ rw good (get-assign_own (remote_entry show (or_empty remotes)) i svc o e)
        | inr bad ↦ rw bad (get-assign_own offline_entry i svc o e)
      ]
  get-write (go_hub ms r) i svc o e = get-set_own (codes "go") svc.key (hub_card show ms r) o
  get-write (artifact a ms r) i svc o e =
      get-set_own (artifact_key a) svc.key (artifact_card show ms r) o

  if_aggregated-other :
      (f : Text → Option (Card Num)) (k : Text) (o : Option Text)
      → text_eq (codes "aggregate") (owner_of k o) ≡ false
      → if_aggregated f o ≡ none
  unfolding text_eq
  if_aggregated-other f k none h = refl
  if_aggregated-other f k (some n) h = absurd (cc)

  -- A fetch leaves the services of the others.
  pub written-other :
      (f : Settled Num) (i : ℕ) (svc : Service)
      → get_elem? services i ≡ some svc
      → text_eq (source f) (owner svc) ≡ false
      → written f svc ≡ none
  written-other (aggregate rejected) i svc e other =
      if_aggregated-other (λ n. some offline_card) svc.key svc.aggregate_name other
  written-other (aggregate (answered status none)) i svc e other =
      if_aggregated-other (λ n. some offline_card) svc.key svc.aggregate_name other
  written-other (aggregate (answered status (some remotes))) i svc e other =
      elim (Bool-cases (is_ok status)) [
        | inl good ↦ rw good (
            if_aggregated-other (λ n. card_of show (by_name n (or_empty remotes))) svc.key
              svc.aggregate_name other)
        | inr bad ↦
            rw bad (if_aggregated-other (λ n. some offline_card) svc.key svc.aggregate_name other)
      ]
  written-other (go_hub ms r) i svc e other =
      let (g, _, _, _) = All-get_elem? HasKeys services i svc services-HasKeys e in
      rw (g ∙ other) refl
  written-other (artifact cpp ms r) i svc e other =
      let (_, c, _, _) = All-get_elem? HasKeys services i svc services-HasKeys e in
      rw (c ∙ other) refl
  written-other (artifact zig ms r) i svc e other =
      let (_, _, z, _) = All-get_elem? HasKeys services i svc services-HasKeys e in
      rw (z ∙ other) refl
  written-other (artifact wasm ms r) i svc e other =
      let (_, _, _, w) = All-get_elem? HasKeys services i svc services-HasKeys e in
      rw (w ∙ other) refl
