-- ===== src/Apm/Tests.antt =====
-- Runs of the server on small inputs, over whole milliseconds, and its theorems at such inputs.
use polyglot_infinity.Prelude.{
  ℕ, ◌+◌, ◌*◌, ◌≤◌, ◌<◌, ◌≡◌, ◌↔◌, refl, true, Option, none, some, List, [], ◌∷◌, ◌++◌, min, max,
  arith, length, replicate, length-replicate, Text, text_eq, codes, if◌then◌else◌,
}
use polyglot_infinity.Js.Completion.{ok, throw}
use polyglot_infinity.Js.Number.{whole_numbers}
use polyglot_infinity.Js.Sort.{sort}
use polyglot_infinity.Js.Value.{Json, null, num, str, arr, obj, nil, cons, end, field, null_message}
use polyglot_infinity.Apm.Buffer.{max_buffer, ingest, ingest_all}
use polyglot_infinity.Apm.Buffer.Bounds.{length-ingest, ingest_oversized}
use polyglot_infinity.Apm.Buffer.History.{last, history, last-ingest_all, ingest_all-eq-last}
use polyglot_infinity.Apm.Stats.{compute_stats}
use polyglot_infinity.Apm.Stats.Order.{IsSummary, compute_stats-IsSummary}
use polyglot_infinity.Apm.Stats.Mean.{avg_bounds}
use polyglot_infinity.Apm.Metrics.{response_key, Metrics, build_metrics}
use polyglot_infinity.Apm.Metrics.Samples.{has_null}
use polyglot_infinity.Apm.Metrics.Report.{IsReport, build_metrics-IsReport, build_metrics-has_null}
use polyglot_infinity.Apm.Query.{requested_limit}
use polyglot_infinity.Js.Decimal.{decimal_onto}
use polyglot_infinity.Apm.Query.Laws.{more_params, requested_limit_lem}
use polyglot_infinity.Apm.Router.{received, Request, serve, serve_all}
use polyglot_infinity.Apm.Router.Frame.{batch, ingest_if, serve-buffer}
use polyglot_infinity.Apm.Router.Status.{crashes, serve-eq-500_iff}
use polyglot_infinity.Apm.Router.Poison.{get_metrics, batches, metrics_fail_iff}
use polyglot_infinity.Apm.Connections.{Event, arrive, chunk, finish, answer, run}
use polyglot_infinity.Apm.Connections.Pending.{find}
use polyglot_infinity.Apm.Connections.Atomic.{requests, view, run-atomic}
use polyglot_infinity.Apm.Connections.Answers.{arrivals, opens, answers, answers_once}

-- Every definition that the runs compute with.
server : Unit {0}
unfolding serve_all serve run answer find text_eq sort build_metrics ingest_all has_null
server = tt

abbrev timed : Text → ℕ → Json ℕ
timed s ms = obj (field (codes "service") (str s) (field response_key (num ms) end))

abbrev go : Text
go = codes "go-hub"

-- A stand-in for `JSON.parse` that knows three texts.
abbrev parse : Text → Option (Json ℕ)
parse t =
    if text_eq t (codes "[null]")
    then some (arr (cons null nil))
    else if text_eq t (codes "[a]")
    then some (arr (cons (timed go 12) nil))
    else if text_eq t (codes "{}")
    then some (obj end)
    else none

-- A decoder for ASCII.
abbrev decode : List ℕ → Text
decode bytes = bytes

abbrev post : Text → Request
post t = record { method = codes "POST"; url = codes "/ingest"; body = received t }

abbrev three : List (Json ℕ)
three = timed go 30 ∷ timed (codes "java") 10 ∷ timed go 20 ∷ []

abbrev two_batches : List (List (Json ℕ))
two_batches = three ∷ (null ∷ []) ∷ []

abbrev times : List ℕ
times = 30 ∷ 10 ∷ 20 ∷ 20 ∷ []

sorted_times : sort whole_numbers times ≡ 10 ∷ 20 ∷ 20 ∷ 30 ∷ []
unfolding server
sorted_times = refl

abbrev big : List (Json ℕ)
big = replicate 100001 null

big-oversized : max_buffer < length big
big-oversized = omega (arith, length-replicate {A = Json ℕ} 100001 null)

length-ingest_example : length (ingest three (null ∷ [])) ≡ max 1 (min max_buffer (3 + 1))
length-ingest_example = length-ingest three (null ∷ [])

ingest_oversized_example : (ingest three big ≡ big) × (max_buffer < length (ingest three big))
ingest_oversized_example = ingest_oversized three big big-oversized

last-ingest_all_example :
    last max_buffer (ingest_all [] two_batches) ≡ last max_buffer (history [] two_batches)
last-ingest_all_example = last-ingest_all two_batches

ingest_all-eq-last_example : ingest_all [] two_batches ≡ last max_buffer (history [] two_batches)
ingest_all-eq-last_example = ingest_all-eq-last two_batches (omega arith)

compute_stats-IsSummary_example : IsSummary whole_numbers times (compute_stats whole_numbers times)
compute_stats-IsSummary_example = compute_stats-IsSummary whole_numbers times (omega arith)

avg_bounds_example :
    (avg : ℕ) × ((compute_stats whole_numbers times).avg ≡ avg)
    × (10 ≤ avg)
    × (avg ≤ 30)
    × (2 * 4 * avg ≤ 2 * 80 + 4)
    × (2 * 80 < 2 * 4 * avg + 4)
avg_bounds_example =
    avg_bounds whole_numbers (λ a b h. refl) (λ s l h k. refl) 10 30 times (omega arith)
      (omega arith) (omega arith) (omega arith)

build_metrics-IsReport_example :
    (m : Metrics ℕ) × (build_metrics whole_numbers three 2 ≡ ok m)
    × IsReport whole_numbers three 2 m
unfolding has_null
build_metrics-IsReport_example = build_metrics-IsReport whole_numbers three 2 refl

build_metrics-has_null_example :
    build_metrics whole_numbers (null ∷ three) 2 ≡ throw (null_message response_key)
unfolding has_null
build_metrics-has_null_example = build_metrics-has_null whole_numbers (null ∷ three) 2 refl

requested_limit_lem_example :
    (requested_limit (codes "/metrics") ≡ 100)
    × (requested_limit
          (codes "/metrics" ++ b'?' ∷ (codes "limit=" ++ decimal_onto 26 25 (more_params none)))
        ≡ 25)
requested_limit_lem_example = requested_limit_lem (codes "/metrics") 25 none (ground arith)

serve-buffer_example :
    (serve whole_numbers parse three (post (codes "{}"))).0
    ≡ ingest_if whole_numbers parse three (batch whole_numbers parse (post (codes "{}")))
serve-buffer_example = serve-buffer whole_numbers parse three (post (codes "{}"))

serve-eq-500_iff_example :
    ((serve whole_numbers parse (null ∷ []) (get_metrics [] (received []))).1.status ≡ 500)
    ↔ (crashes whole_numbers parse (null ∷ []) (get_metrics [] (received [])) ≡ true)
serve-eq-500_iff_example =
    serve-eq-500_iff whole_numbers parse (null ∷ []) (get_metrics [] (received []))

metrics_fail_iff_example :
    ((serve whole_numbers parse
        (serve_all whole_numbers parse [] (post (codes "[null]") ∷ [])).0
        (get_metrics [] (received []))).1.status
      ≡ 500)
    ↔ (has_null
          (last max_buffer (history [] (batches whole_numbers parse (post (codes "[null]") ∷ []))))
        ≡ true)
unfolding text_eq
metrics_fail_iff_example =
    metrics_fail_iff whole_numbers parse (post (codes "[null]") ∷ []) [] (received []) (omega arith)

-- One request with a `null`, accepted, and the metrics are gone.
poisoned :
    (serve whole_numbers parse
      (serve_all whole_numbers parse [] (post (codes "[null]") ∷ [])).0
      (get_metrics [] (received []))).1.status
    ≡ 500
unfolding server
poisoned = refl

-- Two bodies in pieces, interleaved; the second ends first.
abbrev interleaved : List Event
interleaved =
    arrive 1 (codes "POST") (codes "/ingest")
    ∷ arrive 2 (codes "POST") (codes "/ingest")
    ∷ chunk 1 (codes "[a")
    ∷ chunk 2 (codes "{}")
    ∷ finish 2
    ∷ chunk 1 (codes "]")
    ∷ finish 1
    ∷ []

run-atomic_example :
    view whole_numbers parse decode
      (run whole_numbers parse decode (record { buffer = []; pending = [] }) interleaved)
    ≡ serve_all whole_numbers parse [] (requests decode [] interleaved)
run-atomic_example = run-atomic whole_numbers parse decode [] interleaved

reassembled :
    (run whole_numbers parse decode (record { buffer = []; pending = [] }) interleaved).0.buffer
    ≡ timed go 12 ∷ []
unfolding server
reassembled = refl

answers_once_example :
    let r = run whole_numbers parse decode (record { buffer = []; pending = [] }) interleaved in
    answers 1 r.1 + opens (find 1 r.0.pending) ≡ arrivals 1 interleaved
unfolding text_eq
answers_once_example = answers_once whole_numbers parse decode [] interleaved 1 (ground arith)
