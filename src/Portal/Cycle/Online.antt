-- ===== src/Portal/Cycle/Online.antt =====
-- The number in the header of the dashboard page: `onlineCount`.
use polyglot_infinity.Prelude.{
  ℕ, zero, suc, ◌≡◌, refl, ap, ◌∙◌, sym, inl, inr, Bool, true, false, not, ◌&&◌, Option, none, some,
  List, [], ◌∷◌, map, arith, if◌then◌else◌, get_elem?, All, Text, text_eq, text_eq_iff,
  text_eq_self, codes, Bool-cases, Option-cases,
}
use polyglot_infinity.Prelude.Counting.{count}
use polyglot_infinity.Js.Object.{Object, get, set, names, has_key}
use polyglot_infinity.Portal.Services.{Service, services}
use polyglot_infinity.Portal.Statuses.{
  Card, rejected, answered, Artifact, hub_card, artifact_card, cpp, zig, wasm, Settled, aggregate,
  go_hub, artifact, artifact_key, source, online, is_ok, loading_card, or_empty, offline_entry,
  remote_entry, assign, fail_aggregate, apply_aggregate, write,
}
use polyglot_infinity.Portal.Cycle.{
  Page, PageEvent, click, settled, settled_earlier, settle_earlier, has_text, new_page,
  mounted_page, fetch_status, settle_page, step_page, run_page,
}
use polyglot_infinity.Portal.Cycle.Cards.{shown, run-shown}

module _ {Num : Type 0} where
  abbrev pub is_online : Card Num → Bool
  is_online card = text_eq card.status online

  -- `Object.values(statuses).filter(…).length`.
  abbrev pub online_count : Object (Card Num) → ℕ
  online_count o = count (λ (e : Text × Card Num). is_online e.1) o

  abbrev is_online_at : Option (Card Num) → Bool
  is_online_at none = false
  is_online_at (some card) = is_online card

count-congr {ℓ} :
    {A : Type ℓ} (p q : A → Bool) (xs : List A)
    → ((i : ℕ) (x : A) → get_elem? xs i ≡ some x → p x ≡ q x)
    → count p xs ≡ count q xs
count-congr p q [] h = refl
count-congr p q (x ∷ xs) h =
    let rest = count-congr p q xs (λ i y e. h (suc i) y e) in
    let head = h 0 x refl in rw (head, rest) refl

count-map {ℓ κ} :
    {A : Type ℓ} {B : Type κ} (f : A → B) (p : B → Bool) (xs : List A)
    → count p (map f xs) ≡ count (λ x. p (f x)) xs
count-map f p [] = refl
count-map f p (x ∷ xs) = rw (count-map f p xs) refl

-- No text stands twice.
unfoldable distinct : List Text → Bool
unfolding has_key
distinct [] = true
distinct (t ∷ ts) = not (has_key t ts) && distinct ts

has_key-get_elem? :
    (t u : Text) (ts : List Text) (i : ℕ)
    → has_key t ts ≡ false
    → get_elem? ts i ≡ some u
    → text_eq t u ≡ false
unfolding has_key
has_key-get_elem? t u [] i h e = absurd (cc)
has_key-get_elem? t u (v ∷ vs) zero h e =
    let same : v ≡ u = cc in ground (arith, text_eq_iff v t, text_eq_iff t u)
has_key-get_elem? t u (v ∷ vs) (suc i) h e = has_key-get_elem? t u vs i (ground arith) e

abbrev IsKey : Service → Type 0
IsKey v = has_key v.key (map (λ (svc : Service). svc.key) services) ≡ true

services-IsKey : All IsKey services
unfolding services has_key text_eq
services-IsKey = ground arith

go_here : has_key (codes "go") (map (λ (svc : Service). svc.key) services) ≡ true
unfolding services has_key text_eq
go_here = refl

artifact_here :
    (a : Artifact) → has_key (artifact_key a) (map (λ (svc : Service). svc.key) services) ≡ true
unfolding services has_key text_eq
artifact_here cpp = refl
artifact_here zig = refl
artifact_here wasm = refl

keys_distinct : distinct (map (λ (svc : Service). svc.key) services) ≡ true
unfolding distinct services text_eq
keys_distinct = refl

module _ {Num : Type 0} where
  online_count-names :
      (o : Object (Card Num))
      → distinct (names o) ≡ true
      → online_count o ≡ count (λ k. is_online_at (get k o)) (names o)
  unfolding distinct get
  online_count-names [] h = refl
  online_count-names ((j, c) ∷ o) h =
      let new : has_key j (names o) ≡ false = ground arith in
      let rest = online_count-names o (ground arith) in
      let others =
        count-congr (λ k. is_online_at (get k o)) (λ k. is_online_at (get k ((j, c) ∷ o))) (names o)
          (λ i u e.
            ap (λ (b : Bool). is_online_at (if b then some c else get u o))
              (sym (has_key-get_elem? j u (names o) i new e))) in
      rw (text_eq_self j, rest ∙ others) refl

  -- A key that is there is written in its place.
  names-set :
      (k : Text) (card : Card Num) (o : Object (Card Num))
      → has_key k (names o) ≡ true
      → names (set k card o) ≡ names o
  unfolding set has_key
  names-set k card [] h = absurd (cc)
  names-set k card ((j, c) ∷ o) h = elim (Bool-cases (text_eq j k)) [
    | inl e ↦ rw (e, set) refl
    | inr e ↦ rw (e, set) (ap (◌∷◌ j) (names-set k card o (ground arith)))
  ]

  -- The page has a card for exactly these.
  abbrev HasKeys : Object (Card Num) → Type 0
  HasKeys o = names o ≡ map (λ (svc : Service). svc.key) services

  set-HasKeys :
      (k : Text) (card : Card Num) (o : Object (Card Num))
      → has_key k (map (λ (svc : Service). svc.key) services) ≡ true
      → HasKeys o
      → HasKeys (set k card o)
  set-HasKeys k card o here h = names-set k card o (ap (has_key k) h ∙ here) ∙ h

  assign-HasKeys_from :
      (f : Service → Option (Card Num)) (vs : List Service) (o : Object (Card Num))
      → All IsKey vs
      → HasKeys o
      → HasKeys (assign f vs o)
  unfolding assign
  assign-HasKeys_from f [] o a h = h
  assign-HasKeys_from f (v ∷ vs) o a h = elim (Option-cases (f v)) [
    | inl e ↦ rw (e, assign) (assign-HasKeys_from f vs o a.1 h)
    | inr (card, e) ↦
        rw (e, assign)
          (assign-HasKeys_from f vs (set v.key card o) a.1 (set-HasKeys v.key card o a.0 h))
  ]

  assign-HasKeys :
      (f : Service → Option (Card Num)) (o : Object (Card Num))
      → HasKeys o
      → HasKeys (assign f services o)
  assign-HasKeys f o h = assign-HasKeys_from f services o services-IsKey h

  fetch_status-HasKeys : (w : Page Num) → HasKeys w.statuses → HasKeys (fetch_status w).statuses
  unfolding fetch_status
  fetch_status-HasKeys w h = assign-HasKeys (λ svc. some loading_card) w.statuses h

  module _ (show : Num → Text) where
    new_page-HasKeys : HasKeys (new_page {Num = Num}).statuses
    unfolding new_page services assign set text_eq
    new_page-HasKeys = refl

    write-HasKeys : (f : Settled Num) (o : Object (Card Num)) → HasKeys o → HasKeys (write show f o)
    unfolding write fail_aggregate apply_aggregate
    write-HasKeys (aggregate rejected) o h = assign-HasKeys offline_entry o h
    write-HasKeys (aggregate (answered status none)) o h = assign-HasKeys offline_entry o h
    write-HasKeys (aggregate (answered status (some remotes))) o h =
        elim (Bool-cases (is_ok status)) [
          | inl good ↦ rw good (assign-HasKeys (remote_entry show (or_empty remotes)) o h)
          | inr bad ↦ rw bad (assign-HasKeys offline_entry o h)
        ]
    write-HasKeys (go_hub ms r) o h = set-HasKeys (codes "go") (hub_card show ms r) o go_here h
    write-HasKeys (artifact a ms r) o h =
        set-HasKeys (artifact_key a) (artifact_card show ms r) o (artifact_here a) h

    settle_earlier-HasKeys :
        (k : ℕ) (f : Settled Num) (w : Page Num)
        → HasKeys w.statuses
        → HasKeys (settle_earlier show k f w).statuses
    unfolding settle_earlier
    settle_earlier-HasKeys k f w h = elim (Option-cases (get_elem? w.earlier k)) [
      | inl e ↦ rw (e, settle_earlier) h
      | inr (us, e) ↦ elim (Bool-cases (has_text (source f) us)) [
        | inl b ↦ rw (e, b, settle_earlier) (write-HasKeys f w.statuses h)
        | inr b ↦ rw (e, b, settle_earlier) h
      ]
    ]

    step-HasKeys :
        (w : Page Num) (e : PageEvent Num)
        → HasKeys w.statuses
        → HasKeys (step_page show w e).statuses
    unfolding step_page fetch_status settle_page settle_earlier
    step-HasKeys w click h = elim (Bool-cases w.loading) [
      | inl b ↦ rw (b, step_page) h
      | inr b ↦ rw (b, step_page) (assign-HasKeys (λ svc. some loading_card) w.statuses h)
    ]
    step-HasKeys w (settled f) h = elim (Bool-cases (has_text (source f) w.in_flight)) [
      | inl b ↦ rw (b, step_page) (write-HasKeys f w.statuses h)
      | inr b ↦ rw (b, step_page) h
    ]
    step-HasKeys w (settled_earlier k f) h = settle_earlier-HasKeys k f w h

    run-HasKeys :
        (events : List (PageEvent Num)) (w : Page Num)
        → HasKeys w.statuses
        → HasKeys (run_page show w events).statuses
    unfolding run_page
    run-HasKeys [] w h = h
    run-HasKeys (e ∷ events) w h = run-HasKeys events (step_page show w e) (step-HasKeys w e h)

    online_count-services :
        (o : Object (Card Num))
        → HasKeys o
        → online_count o ≡ count (λ (svc : Service). is_online_at (get svc.key o)) services
    online_count-services o h =
        online_count-names o (ap distinct h ∙ keys_distinct)
        ∙ ap (count (λ k. is_online_at (get k o))) h
        ∙ count-map (λ (svc : Service). svc.key) (λ k. is_online_at (get k o)) services

    -- In the fetch cycle that the mount starts, in whatever order its fetches settle and however
    -- many have, the header counts the services whose card, by the fetch that it waits for, is
    -- online.
    pub online_count-run :
        (fs : List (Settled Num))
        → online_count (run_page show mounted_page (map settled fs)).statuses
          ≡ count (λ (svc : Service). is_online (shown show fs svc)) services
    unfolding mounted_page
    online_count-run fs =
        let w = run_page show (fetch_status new_page) (map settled fs) in
        online_count-services w.statuses (
          run-HasKeys (map settled fs) (fetch_status new_page)
            (fetch_status-HasKeys new_page new_page-HasKeys))
        ∙ count-congr (λ (svc : Service). is_online_at (get svc.key w.statuses))
            (λ (svc : Service). is_online (shown show fs svc)) services
            (λ i svc e. ap is_online_at (run-shown show fs new_page i svc e))
