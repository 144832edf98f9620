-- ===== src/Portal/Cycle/Cards.antt =====
-- What the cards show in the course of a fetch cycle.
use polyglot_infinity.Prelude.{
  ℕ, ◌≡◌, refl, ap, ◌∙◌, inl, inr, Bool, true, false, not, ◌&&◌, Option, none, some, List, [], ◌∷◌,
  map, arith, if◌then◌else◌, get_elem?, All, All-get_elem?, Text, text_eq, text_eq_iff, Bool-cases,
}
use polyglot_infinity.Js.Object.{get}
use polyglot_infinity.Portal.Services.{Service, services}
use polyglot_infinity.Portal.Statuses.{Card, Settled, source, sources, loading_card}
use polyglot_infinity.Portal.Statuses.Own.{
  or_else, owner, written, get-assign_own, get-write, written-other,
}
use polyglot_infinity.Portal.Cycle.{
  Page, settled, has_text, without_text, fetch_status, settle_page, step_page, run_page,
}

has_text-without_text :
    (t u : Text) (ts : List Text)
    → has_text t (without_text u ts) ≡ (has_text t ts && not (text_eq u t))
unfolding has_text without_text
has_text-without_text t u [] = refl
has_text-without_text t u (v ∷ vs) =
    ground (arith, has_text-without_text t u vs, text_eq_iff u t, text_eq_iff v t, text_eq_iff v u)

services-has_text : All (λ (svc : Service). has_text (owner svc) sources ≡ true) services
unfolding services has_text text_eq
services-has_text = ground arith

has_text-owner :
    (i : ℕ) (svc : Service) → get_elem? services i ≡ some svc → has_text (owner svc) sources ≡ true
has_text-owner i svc e =
    All-get_elem? (λ (v : Service). has_text (owner v) sources ≡ true) services i svc
      services-has_text e

module _ {Num : Type 0} where
  -- The first of the fetches with that name.
  abbrev pub first_of : Text → List (Settled Num) → Option (Settled Num)
  first_of t [] = none
  first_of t (f ∷ fs) = if text_eq (source f) t then some f else first_of t fs

  module _ (show : Num → Text) where
    abbrev written_by : Option (Settled Num) → Service → Option (Card Num)
    written_by none svc = none
    written_by (some f) svc = written show f svc

    abbrev or_loading : Option (Card Num) → Card Num
    or_loading none = loading_card
    or_loading (some card) = card

    -- The card of a service, by the first fetch that it waits for: what this writes, and loading as
    -- long as there is none or where it writes nothing.
    abbrev pub shown : List (Settled Num) → Service → Card Num
    shown fs svc = or_loading (written_by (first_of (owner svc) fs) svc)

    abbrev if_waiting : Bool → Option (Card Num) → Option (Card Num) → Option (Card Num)
    if_waiting b c d = or_else (if b then c else none) d

    if_waiting-none : (b : Bool) (g : Option (Card Num)) → g ≡ if_waiting b none g
    if_waiting-none true g = refl
    if_waiting-none false g = refl

    -- What one fetch changes.
    pub step-waits :
        (f : Settled Num) (w : Page Num) (t : Text)
        → has_text t (step_page show w (settled f)).in_flight
          ≡ (has_text t w.in_flight && not (text_eq (source f) t))
    unfolding step_page settle_page
    step-waits f w t = elim (Bool-cases (has_text (source f) w.in_flight)) [
      | inl e ↦ rw (e, step_page) (has_text-without_text t (source f) w.in_flight)
      | inr e ↦ rw (e, step_page) (ground (arith, text_eq_iff (source f) t))
    ]

    step-get_own :
        (f : Settled Num) (w : Page Num) (i : ℕ) (svc : Service)
        → get_elem? services i ≡ some svc
        → source f ≡ owner svc
        → get svc.key (step_page show w (settled f)).statuses
          ≡ if_waiting
              (has_text (owner svc) w.in_flight)
              (written show f svc)
              (get svc.key w.statuses)
    unfolding step_page settle_page
    step-get_own f w i svc e same =
        let tests = ap (λ t. has_text t w.in_flight) same in
        elim (Bool-cases (has_text (owner svc) w.in_flight)) [
          | inl b ↦ rw (b, tests ∙ b, step_page) (get-write show f i svc w.statuses e)
          | inr b ↦ rw (b, tests ∙ b, step_page) refl
        ]

    step-get_other :
        (f : Settled Num) (w : Page Num) (i : ℕ) (svc : Service)
        → get_elem? services i ≡ some svc
        → text_eq (source f) (owner svc) ≡ false
        → get svc.key (step_page show w (settled f)).statuses
          ≡ if_waiting (has_text (owner svc) w.in_flight) none (get svc.key w.statuses)
    unfolding step_page settle_page
    step-get_other f w i svc e other = elim (Bool-cases (has_text (source f) w.in_flight)) [
      | inl b ↦
          rw (b, step_page)
            (get-write show f i svc w.statuses e
              ∙ ap (λ d. or_else d (get svc.key w.statuses)) (written-other show f i svc e other)
              ∙ if_waiting-none (has_text (owner svc) w.in_flight) (get svc.key w.statuses))
      | inr b ↦
          rw (b, step_page)
            (if_waiting-none (has_text (owner svc) w.in_flight) (get svc.key w.statuses))
    ]

    step-get :
        (f : Settled Num) (w : Page Num) (i : ℕ) (svc : Service)
        → get_elem? services i ≡ some svc
        → get svc.key (step_page show w (settled f)).statuses
          ≡ if_waiting
              (has_text (owner svc) w.in_flight)
              (if text_eq (source f) (owner svc) then written show f svc else none)
              (get svc.key w.statuses)
    unfolding step_page settle_page
    step-get f w i svc e = elim (Bool-cases (text_eq (source f) (owner svc))) [
      | inl own ↦
          let same = (text_eq_iff (source f) (owner svc)).0 own in
          rw own (step-get_own f w i svc e same)
      | inr other ↦ rw other (step-get_other f w i svc e other)
    ]

    combine :
        (b t : Bool) (f : Settled Num) (o : Option (Settled Num)) (svc : Service)
        (g : Option (Card Num))
        → if_waiting
            (b && not t)
            (written_by o svc)
            (if_waiting b (if t then written show f svc else none) g)
          ≡ if_waiting b (written_by (if t then some f else o) svc) g
    combine true true f o svc g = refl
    combine true false f o svc g = refl
    combine false true f o svc g = refl
    combine false false f o svc g = refl

    run-get :
        (fs : List (Settled Num)) (w : Page Num) (i : ℕ) (svc : Service)
        → get_elem? services i ≡ some svc
        → get svc.key (run_page show w (map settled fs)).statuses
          ≡ if_waiting
              (has_text (owner svc) w.in_flight)
              (written_by (first_of (owner svc) fs) svc)
              (get svc.key w.statuses)
    unfolding run_page
    run-get [] w i svc e = ground arith
    run-get (f ∷ fs) w i svc e =
        run-get fs (step_page show w (settled f)) i svc e
        ∙ ap
            (λ b.
              if_waiting b (written_by (first_of (owner svc) fs) svc)
                (get svc.key (step_page show w (settled f)).statuses))
            (step-waits f w (owner svc))
        ∙ ap
            (if_waiting (has_text (owner svc) w.in_flight && not (text_eq (source f) (owner svc)))
              (written_by (first_of (owner svc) fs) svc))
            (step-get f w i svc e)
        ∙ combine (has_text (owner svc) w.in_flight) (text_eq (source f) (owner svc)) f
            (first_of (owner svc) fs) svc (get svc.key w.statuses)

    all_waiting :
        (b : Bool) (c : Option (Card Num))
        → b ≡ true
        → if_waiting b c (some loading_card) ≡ some (or_loading c)
    all_waiting true none h = refl
    all_waiting true (some card) h = refl
    all_waiting false c h = absurd (cc)

    -- In a fetch cycle, in whatever order its fetches settle and however many have, the card of
    -- every service shows what the fetch that it waits for has written, and is loading as long as
    -- that fetch is out, or where it writes nothing: an aggregate that does not name the service.
    pub run-shown :
        (fs : List (Settled Num)) (w : Page Num) (i : ℕ) (svc : Service)
        → get_elem? services i ≡ some svc
        → get svc.key (run_page show (fetch_status w) (map settled fs)).statuses
          ≡ some (shown fs svc)
    unfolding fetch_status
    run-shown fs w i svc e =
        run-get fs (fetch_status w) i svc e
        ∙ ap (if_waiting (has_text (owner svc) sources) (written_by (first_of (owner svc) fs) svc))
            (get-assign_own show (λ v. some loading_card) i svc w.statuses e)
        ∙ all_waiting (has_text (owner svc) sources) (written_by (first_of (owner svc) fs) svc)
            (has_text-owner i svc e)
