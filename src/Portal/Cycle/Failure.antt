-- ===== src/Portal/Cycle/Failure.antt =====
-- The error that the dashboard page shows: `fetchError`.
use polyglot_infinity.Prelude.{
  ◌≡◌, refl, ap, ◌∙◌, inl, inr, Bool, true, false, not, ◌&&◌, Option, none, some, List, [], ◌∷◌,
  map, arith, if◌then◌else◌, Text, text_eq, text_eq_iff, codes, Bool-cases, leb,
}
use polyglot_infinity.Portal.Statuses.{
  rejected, answered, Settled, aggregate, go_hub, artifact, source,
}
use polyglot_infinity.Portal.Cycle.{
  Page, settled, has_text, fetch_status, error_after, settle_page, step_page, run_page,
}
use polyglot_infinity.Portal.Cycle.Cards.{first_of, step-waits}

abbrev aggregate_source : Text
aggregate_source = codes "aggregate"

never : (b : Bool) (d e : Option Text) → e ≡ (if b && false then d else e)
never true d e = refl
never false d e = refl

module _ {Num : Type 0} where
  abbrev error_from : Option (Settled Num) → Option Text → Option Text
  error_from none e = e
  error_from (some f) e = error_after f e

  -- A fetch brings services: the aggregate was answered with a status from 200 to 299 and with JSON.
  -- The other fetches have none to bring.
  abbrev pub brings_services : Settled Num → Bool
  brings_services (aggregate (answered status (some remotes))) = leb 200 status && leb status 299
  brings_services (aggregate _) = false
  brings_services _ = true

  -- The error that there is to show, given how the fetch of the aggregate has settled, if it has.
  abbrev pub error_by : Option (Settled Num) → Option Text
  error_by none = none
  error_by (some f) = if brings_services f then none else some (codes "Gateway unreachable")

  error_from-none : (o : Option (Settled Num)) → error_from o none ≡ error_by o
  error_from-none none = refl
  error_from-none (some (aggregate rejected)) = refl
  error_from-none (some (aggregate (answered status none))) = refl
  error_from-none (some (aggregate (answered status (some remotes)))) = refl
  error_from-none (some (go_hub ms r)) = refl
  error_from-none (some (artifact a ms r)) = refl

  error_after-other :
      (f : Settled Num) (e : Option Text)
      → text_eq (source f) aggregate_source ≡ false
      → error_after f e ≡ e
  unfolding text_eq
  error_after-other (aggregate r) e h = absurd (cc)
  error_after-other (go_hub ms r) e h = refl
  error_after-other (artifact a ms r) e h = refl

  module _ (show : Num → Text) where
    step-error :
        (f : Settled Num) (w : Page Num)
        → (step_page show w (settled f)).fetch_error ≡ (
            if has_text aggregate_source w.in_flight && text_eq (source f) aggregate_source
            then error_after f w.fetch_error
            else w.fetch_error)
    unfolding step_page settle_page
    step-error f w = elim (Bool-cases (text_eq (source f) aggregate_source)) [
      | inl own ↦
          let same = (text_eq_iff (source f) aggregate_source).0 own in
          let tests = ap (λ t. has_text t w.in_flight) same in
          elim (Bool-cases (has_text aggregate_source w.in_flight)) [
            | inl b ↦ rw (b, tests ∙ b, own, step_page) refl
            | inr b ↦ rw (b, tests ∙ b, step_page) refl
          ]
      | inr other ↦ elim (Bool-cases (has_text (source f) w.in_flight)) [
        | inl b ↦
            rw (b, other, step_page)
              (error_after-other f w.fetch_error other
                ∙ never (has_text aggregate_source w.in_flight) (error_after f w.fetch_error)
                    w.fetch_error)
        | inr b ↦
            rw (b, other, step_page)
              (never (has_text aggregate_source w.in_flight) (error_after f w.fetch_error)
                w.fetch_error)
      ]
    ]

    combine :
        (b t : Bool) (f : Settled Num) (o : Option (Settled Num)) (e : Option Text)
        → (if b && not t
            then error_from o (if b && t then error_after f e else e)
            else (if b && t then error_after f e else e))
          ≡ (if b then error_from (if t then some f else o) e else e)
    combine true true f o e = refl
    combine true false f o e = refl
    combine false t f o e = refl

    run-error :
        (fs : List (Settled Num)) (w : Page Num)
        → (run_page show w (map settled fs)).fetch_error ≡ (
            if has_text aggregate_source w.in_flight
            then error_from (first_of aggregate_source fs) w.fetch_error
            else w.fetch_error)
    unfolding run_page
    run-error [] w = ground arith
    run-error (f ∷ fs) w =
        let first = first_of aggregate_source fs in
        let b = has_text aggregate_source w.in_flight in
        run-error fs (step_page show w (settled f))
        ∙ ap
            (λ (c : Bool).
              if c
              then error_from first (step_page show w (settled f)).fetch_error
              else (step_page show w (settled f)).fetch_error)
            (step-waits show f w aggregate_source)
        ∙ ap
            (λ (e : Option Text).
              if b && not (text_eq (source f) aggregate_source) then error_from first e else e)
            (step-error f w)
        ∙ combine b (text_eq (source f) aggregate_source) f first w.fetch_error

    -- In a fetch cycle, in whatever order its fetches settle and however many have, the page shows
    -- the error exactly if its fetch of the aggregate has settled and brought no services: it was
    -- not answered, or with a status other than 200 to 299, or with no JSON. The other fetches,
    -- failed or not, show none.
    pub cycle-fetch_error :
        (fs : List (Settled Num)) (w : Page Num)
        → (run_page show (fetch_status w) (map settled fs)).fetch_error
          ≡ error_by (first_of aggregate_source fs)
    unfolding fetch_status has_text text_eq
    cycle-fetch_error fs w =
        run-error fs (fetch_status w) ∙ error_from-none (first_of aggregate_source fs)
