-- ===== src/Portal/Cycle/Loading.antt =====
-- When the dashboard page is loading: `loading` against the fetches that are out.
use polyglot_infinity.Prelude.{
  ◌≡◌, refl, subst, ℕ, ap, ◌∙◌, sym, inl, inr, Bool, true, false, not, ◌&&◌, List, [], ◌∷◌, map,
  arith, Text, if◌then◌else◌, text_eq_iff, Bool-cases,
}
use polyglot_infinity.Portal.Statuses.{Settled, source, sources}
use polyglot_infinity.Portal.Cycle.{
  Page, PageEvent, click, settled, settled_earlier, settle_earlier, keep, has_text, without_text,
  some_left, mounted_page, fetch_status, settle_page, step_page, run_page,
}

-- Whether all texts of the first list are in the second.
unfoldable pub has_all : List Text → List Text → Bool
unfolding has_text
has_all [] us = true
has_all (t ∷ ts) us = has_text t us && has_all ts us

has_all-cons : (u : Text) (ts us : List Text) → has_all (without_text u ts) us ≡ has_all ts (u ∷ us)
unfolding has_all has_text without_text
has_all-cons u [] us = refl
has_all-cons u (t ∷ ts) us = ground (arith, has_all-cons u ts us, text_eq_iff u t, text_eq_iff t u)

has_all-cons_other :
    (u : Text) (ts us : List Text) → has_text u ts ≡ false → has_all ts (u ∷ us) ≡ has_all ts us
unfolding has_all has_text
has_all-cons_other u [] us h = refl
has_all-cons_other u (t ∷ ts) us h =
    ground (arith, has_all-cons_other u ts us, text_eq_iff u t, text_eq_iff t u)

some_left-has_all : (ts : List Text) → some_left ts ≡ not (has_all ts [])
unfolding has_all has_text
some_left-has_all [] = refl
some_left-has_all (t ∷ ts) = refl

has_text-some_left : (t : Text) (us : List Text) → has_text t us ≡ true → some_left us ≡ true
unfolding has_text
has_text-some_left t [] h = absurd (cc)
has_text-some_left t (u ∷ us) h = refl

if_left : (b loading : Bool) → loading ≡ true → (if b then loading else false) ≡ b
if_left true loading h = h
if_left false loading h = refl

keep-none :
    (us : List Text) (cycles : List (List Text)) → some_left us ≡ false → keep us cycles ≡ cycles
keep-none us cycles h = rw h refl

module _ {Num : Type 0} (show : Num → Text) where
  -- A fetch of the last cycle settles.
  settled-loading :
      (w : Page Num) (f : Settled Num)
      → w.loading ≡ some_left w.in_flight
      → let v = step_page show w (settled f) in v.loading ≡ some_left v.in_flight
  unfolding step_page settle_page
  settled-loading w f h = elim (Bool-cases (has_text (source f) w.in_flight)) [
    | inl b ↦
        rw (b, step_page)
          (if_left (some_left (without_text (source f) w.in_flight)) w.loading
            (h ∙ has_text-some_left (source f) w.in_flight b))
    | inr b ↦ rw (b, step_page) h
  ]

  settled-earlier :
      (w : Page Num) (f : Settled Num) → (step_page show w (settled f)).earlier ≡ w.earlier
  unfolding step_page settle_page
  settled-earlier w f = elim (Bool-cases (has_text (source f) w.in_flight)) [
    | inl b ↦ rw (b, step_page) refl
    | inr b ↦ rw (b, step_page) refl
  ]

  settle_earlier-none :
      (w : Page Num) (k : ℕ) (f : Settled Num) → w.earlier ≡ [] → settle_earlier show k f w ≡ w
  unfolding settle_earlier
  settle_earlier-none w k f h = simp (h, settle_earlier)

  abbrev IsWaiting : Page Num → Type 0
  IsWaiting w = (w.loading ≡ some_left w.in_flight) × (w.earlier ≡ [])

  step-IsWaiting : (w : Page Num) (e : PageEvent Num) → IsWaiting w → IsWaiting (step_page show w e)
  unfolding step_page fetch_status settle_page settle_earlier
  step-IsWaiting w click h = elim (Bool-cases w.loading) [
    | inl b ↦ rw (b, step_page) (sym b ∙ h.0, h.1)
    | inr b ↦ rw (b, step_page) (refl, keep-none w.in_flight w.earlier (sym h.0 ∙ b) ∙ h.1)
  ]
  step-IsWaiting w (settled f) h = (settled-loading w f h.0, settled-earlier w f ∙ h.1)
  step-IsWaiting w (settled_earlier k f) h = subst IsWaiting (sym (settle_earlier-none w k f h.1)) h

  run-IsWaiting :
      (events : List (PageEvent Num)) (w : Page Num)
      → IsWaiting w
      → IsWaiting (run_page show w events)
  unfolding run_page
  run-IsWaiting [] w h = h
  run-IsWaiting (e ∷ events) w h = run-IsWaiting events (step_page show w e) (step-IsWaiting w e h)

  run-loading_from :
      (fs : List (Settled Num)) (w : Page Num)
      → w.loading ≡ some_left w.in_flight
      → let v = run_page show w (map settled fs) in v.loading ≡ some_left v.in_flight
  unfolding run_page
  run-loading_from [] w h = h
  run-loading_from (f ∷ fs) w h =
      run-loading_from fs (step_page show w (settled f)) (settled-loading w f h)

  -- From the mount on, whatever settles, of this cycle or an earlier one, and however often the
  -- button is pressed: the page is loading exactly while some fetch of the last cycle is out, and
  -- no earlier cycle is still waiting.
  pub run-loading :
      (events : List (PageEvent Num))
      → let w = run_page show mounted_page events in
        (w.loading ≡ some_left w.in_flight) × (w.earlier ≡ [])
  unfolding mounted_page fetch_status
  run-loading events = run-IsWaiting events mounted_page (refl, refl)

  step-has_all :
      (f : Settled Num) (w : Page Num) (ts : List Text)
      → has_all (step_page show w (settled f)).in_flight ts ≡ has_all w.in_flight (source f ∷ ts)
  unfolding step_page settle_page
  step-has_all f w ts = elim (Bool-cases (has_text (source f) w.in_flight)) [
    | inl b ↦ rw (b, step_page) (has_all-cons (source f) w.in_flight ts)
    | inr b ↦ rw (b, step_page) (sym (has_all-cons_other (source f) w.in_flight ts b))
  ]

  run-some_left :
      (fs : List (Settled Num)) (w : Page Num)
      → some_left (run_page show w (map settled fs)).in_flight
        ≡ not (has_all w.in_flight (map source fs))
  unfolding run_page
  run-some_left [] w = some_left-has_all w.in_flight
  run-some_left (f ∷ fs) w =
      run-some_left fs (step_page show w (settled f)) ∙ ap not (step-has_all f w (map source fs))

  -- A fetch cycle is over exactly once all five fetches have settled, in whatever order.
  pub cycle-loading :
      (fs : List (Settled Num)) (w : Page Num)
      → (run_page show (fetch_status w) (map settled fs)).loading
        ≡ not (has_all sources (map source fs))
  unfolding fetch_status
  cycle-loading fs w = run-loading_from fs (fetch_status w) refl ∙ run-some_left fs (fetch_status w)
