-- ===== src/Portal/Cycle.antt =====
-- The dashboard page around its cards: `statuses`, `loading` and `fetchError` from the mount on,
-- while fetches settle in any order and the refresh button is pressed.
pub mod Cards
pub mod Loading
pub mod Online
pub mod Failure
use polyglot_infinity.Prelude.{
  ℕ, zero, suc, get_elem?, Bool, true, false, not, ◌&&◌, ◌||◌, Option, none, some, List, [], ◌∷◌,
  if◌then◌else◌, Text, text_eq, codes,
}
use polyglot_infinity.Js.Object.{Object, set}
use polyglot_infinity.Portal.Services.{Service, services}
use polyglot_infinity.Portal.Statuses.{
  Card, Fetched, rejected, answered, Settled, aggregate, go_hub, artifact, source, sources, is_ok,
  loading_card, assign, write,
}

-- `in_flight` are the fetches that `Promise.allSettled` waits for in the cycle that began last, and
-- `earlier` those of each cycle that was not over when the next began.
pub record Page (Num : Type 0) : Type 0 where
  pub statuses : Object (Card Num)
  pub loading : Bool
  pub fetch_error : Option Text
  pub in_flight : List Text
  pub earlier : List (List Text)

pub data PageEvent (Num : Type 0) : Type 0 where
  click : PageEvent Num
  settled : Settled Num → PageEvent Num
  -- A fetch of the cycle with this place in `earlier` settles.
  settled_earlier : ℕ → Settled Num → PageEvent Num

unfoldable pub has_text : Text → List Text → Bool
has_text t [] = false
has_text t (u ∷ us) = text_eq u t || has_text t us

unfoldable pub without_text : Text → List Text → List Text
without_text t [] = []
without_text t (u ∷ us) = if text_eq u t then without_text t us else u ∷ without_text t us

abbrev pub some_left : List Text → Bool
some_left [] = false
some_left (t ∷ ts) = true

abbrev pub keep : List Text → List (List Text) → List (List Text)
keep us cycles = if some_left us then us ∷ cycles else cycles

abbrev put_at : ℕ → List Text → List (List Text) → List (List Text)
put_at k us [] = []
put_at zero us (c ∷ cs) = us ∷ cs
put_at (suc k) us (c ∷ cs) = c ∷ put_at k us cs

module _ {Num : Type 0} where
  -- The state before the mount.
  unfoldable pub new_page : Page Num
  unfolding assign
  new_page = record {
    statuses = assign (λ svc. some loading_card) services [];
    loading = true;
    fetch_error = none;
    in_flight = [];
    earlier = [];
  }

  -- `fetchStatus` up to its await.
  unfoldable pub fetch_status : Page Num → Page Num
  unfolding assign
  fetch_status w = record {
    statuses = assign (λ svc. some loading_card) services w.statuses;
    loading = true;
    fetch_error = none;
    in_flight = sources;
    earlier = keep w.in_flight w.earlier;
  }

  unfoldable pub mounted_page : Page Num
  unfolding fetch_status new_page
  mounted_page = fetch_status new_page

  -- The catch of `fetchAggregate` sets `fetchError`.
  abbrev pub error_after : Settled Num → Option Text → Option Text
  error_after (aggregate rejected) e = some (codes "Gateway unreachable")
  error_after (aggregate (answered status none)) e = some (codes "Gateway unreachable")
  error_after (aggregate (answered status (some remotes))) e =
      if is_ok status then e else some (codes "Gateway unreachable")
  error_after (go_hub ms r) e = e
  error_after (artifact a ms r) e = e

  -- `${…}` of a number is a parameter.
  module _ (show : Num → Text) where
    -- A fetch of the last cycle settles; when none is left, the await returns and `loading` is reset.
    unfoldable pub settle_page : Settled Num → Page Num → Page Num
    unfolding write without_text
    settle_page f w =
        let left = without_text (source f) w.in_flight in
        record {
          statuses = write show f w.statuses;
          loading = if some_left left then w.loading else false;
          fetch_error = error_after f w.fetch_error;
          in_flight = left;
          earlier = w.earlier;
        }

    -- So does a fetch of a cycle that began before: it writes to the same page.
    unfoldable pub settle_earlier : ℕ → Settled Num → Page Num → Page Num
    unfolding write without_text has_text
    settle_earlier k f w = elim (get_elem? w.earlier k) [
      | none ↦ w
      | some us ↦
          let left = without_text (source f) us in
          if has_text (source f) us
          then record {
            statuses = write show f w.statuses;
            loading = if some_left left then w.loading else false;
            fetch_error = error_after f w.fetch_error;
            in_flight = w.in_flight;
            earlier = put_at k left w.earlier;
          }
          else w
    ]

    -- The refresh button is disabled while the page is loading; a fetch settles once.
    unfoldable pub step_page : Page Num → PageEvent Num → Page Num
    unfolding fetch_status settle_page settle_earlier has_text
    step_page w click = if w.loading then w else fetch_status w
    step_page w (settled f) = if has_text (source f) w.in_flight then settle_page f w else w
    step_page w (settled_earlier k f) = settle_earlier k f w

    unfoldable pub run_page : Page Num → List (PageEvent Num) → Page Num
    unfolding step_page
    run_page w [] = w
    run_page w (e ∷ events) = run_page (step_page w e) events
