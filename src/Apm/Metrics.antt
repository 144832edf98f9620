-- ===== src/Apm/Metrics.antt =====
-- apm-server/server.js, `buildMetrics`: grouping the buffered events by service, the statistics of
-- each group and of all, and the most recent events.
pub mod Samples
pub mod Report
use polyglot_infinity.Prelude.{
  ℕ, ◌-◌, true, false, Option, none, some, List, [], ◌∷◌, ◌++◌, min, max, length, drop, Text, codes,
}
use polyglot_infinity.Js.Completion.{Completion, ok, throw, ◌>>=◌}
use polyglot_infinity.Js.Number.{Numbers}
use polyglot_infinity.Js.Object.{Object, get, set, keys}
use polyglot_infinity.Js.Value.{Json, as_text, as_number, truthy, read}
use polyglot_infinity.Apm.Stats.{Stats, compute_stats}

abbrev pub service_key : Text
service_key = codes "service"

abbrev pub response_key : Text
response_key = codes "responseMs"

abbrev pub unknown : Text
unknown = codes "unknown"

-- `Math.min(Math.max(limit, 1), 1000)`.
unfoldable pub clamped_limit : ℕ → ℕ
clamped_limit limit = min (max limit 1) 1000

-- `xs.slice(-k)` for a positive `k`.
unfoldable pub slice_last {ℓ} : {A : Type ℓ} → ℕ → List A → List A
slice_last k xs = drop (length xs - k) xs

abbrev pub or_unknown : Option Text → Text
or_unknown none = unknown
or_unknown (some s) = s

-- The two variables of the grouping loop.
pub record Groups (Num : Type 0) : Type 0 where
  pub by_service : Object (List Num)
  pub all_resp : List Num

abbrev pub no_groups : {Num : Type 0} → Groups Num
no_groups = record { by_service = []; all_resp = [] }

pub record Metrics (Num : Type 0) : Type 0 where
  pub total_ingested : ℕ
  pub overall_stats : Stats Num
  pub service_stats : Object (Stats Num)
  pub recent_events : List (Json Num)

abbrev pub or_empty : {Num : Type 0} → Option (List Num) → List Num
or_empty none = []
or_empty (some xs) = xs

-- `if (!byService[svc]) byService[svc] = []`, then a push to that list and to the list of all.
unfoldable pub add_response : {Num : Type 0} → Text → Num → Groups Num → Groups Num
unfolding get set
add_response svc ms g = record {
  by_service = set svc (or_empty (get svc g.by_service) ++ ms ∷ []) g.by_service;
  all_resp = g.all_resp ++ ms ∷ [];
}

-- The branch on `typeof e.responseMs === 'number'`.
abbrev pub add_sample : {Num : Type 0} → Text → Option Num → Groups Num → Groups Num
add_sample svc none g = g
add_sample svc (some ms) g = add_response svc ms g

module _ {Num : Type 0} (n : Numbers Num) where
  -- `(e && typeof e.service === 'string') ? e.service : 'unknown'`.
  unfoldable pub service_of : Json Num → Completion Text
  unfolding truthy read
  service_of e = elim (truthy n e) [
    | true ↦ do p ← read e service_key; ok (or_unknown (as_text p))
    | false ↦ ok unknown
  ]

  -- One round of the grouping loop.
  unfoldable pub add_event : Groups Num → Json Num → Completion (Groups Num)
  unfolding service_of read
  add_event g e = do
    svc ← service_of e
    p ← read e response_key
    ok (add_sample svc (as_number p) g)

  unfoldable pub group : Groups Num → List (Json Num) → Completion (Groups Num)
  unfolding add_event
  group g [] = ok g
  group g (e ∷ events) = do g' ← add_event g e; group g' events

  -- `computeStats(byService[name])`; `undefined` has no `length`.
  abbrev pub stats_of : Option (List Num) → Completion (Stats Num)
  stats_of none = throw (codes "Cannot read properties of undefined (reading 'length')")
  stats_of (some values) = ok (compute_stats n values)

  -- The loop over the names of the services.
  unfoldable pub service_stats_loop :
      Object (List Num) → List Text → Object (Stats Num) → Completion (Object (Stats Num))
  unfolding get set
  service_stats_loop by_service [] stats = ok stats
  service_stats_loop by_service (k ∷ ks) stats = do
    s ← stats_of (get k by_service)
    service_stats_loop by_service ks (set k s stats)

  -- The object that is returned.
  abbrev pub metrics_of : List (Json Num) → ℕ → Groups Num → Object (Stats Num) → Metrics Num
  metrics_of buffer limit g stats = record {
    total_ingested = length buffer;
    overall_stats = compute_stats n g.all_resp;
    service_stats = stats;
    recent_events = slice_last (clamped_limit limit) buffer;
  }

  unfoldable pub build_metrics : List (Json Num) → ℕ → Completion (Metrics Num)
  unfolding group service_stats_loop keys compute_stats slice_last clamped_limit
  build_metrics buffer limit = do
    g ← group no_groups buffer
    stats ← service_stats_loop g.by_service (keys g.by_service) []
    ok (metrics_of buffer limit g stats)
