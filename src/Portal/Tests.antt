-- ===== src/Portal/Tests.antt =====
-- Runs of the dashboard page, and its theorems at such inputs.
use polyglot_infinity.Prelude.{
  ℕ, ◌≡◌, refl, not, Option, none, some, List, [], ◌∷◌, map, take, Text, text_eq, codes,
  if◌then◌else◌,
}
use polyglot_infinity.Js.Decimal.{decimal}
use polyglot_infinity.Js.Object.{get}
use polyglot_infinity.Portal.Feed.{
  connected, FeedEvent, on_open, on_message, on_close, on_error, timeout, leave, mounted, run,
}
use polyglot_infinity.Portal.Feed.Alive.{IsAlive, run-IsAlive}
use polyglot_infinity.Portal.Feed.History.{history, run-order_events}
use polyglot_infinity.Portal.Feed.Left.{leave-reconnects}
use polyglot_infinity.Portal.Services.{Service, services}
use polyglot_infinity.Portal.Statuses.{
  Card, Remote, rejected, answered, cpp, zig, wasm, Settled, aggregate, go_hub, artifact, source,
  sources,
}
use polyglot_infinity.Portal.Cycle.{
  click, settled, new_page, mounted_page, fetch_status, some_left, run_page,
}
use polyglot_infinity.Portal.Cycle.Cards.{first_of, shown, run-shown}
use polyglot_infinity.Portal.Cycle.Loading.{has_all, run-loading, cycle-loading}
use polyglot_infinity.Prelude.Counting.{count}
use polyglot_infinity.Portal.Cycle.Online.{is_online, online_count, online_count-run}
use polyglot_infinity.Portal.Cycle.Failure.{error_by, cycle-fetch_error}

-- Every definition that the runs compute with.
page : Unit {0}
unfolding run mounted text_eq decimal get services new_page mounted_page run_page has_all
page = tt

-- A stand-in for `JSON.parse` that knows no text but one.
abbrev parse : Text → Option Text
parse t = if text_eq t (codes "{}") then some t else none

abbrev events : List FeedEvent
events =
    on_open 0
    ∷ on_message 0 (codes "{}")
    ∷ on_message 0 (codes "?")
    ∷ on_error 0
    ∷ on_close 0
    ∷ on_message 0 (codes "{}")
    ∷ timeout
    ∷ on_open 1
    ∷ []

feed_run : (run parse mounted events).order_events ≡ codes "{}" ∷ []
unfolding page
feed_run = refl

feed_status : (run parse mounted events).ws_status ≡ connected
unfolding page
feed_status = refl

run-IsAlive_example : IsAlive (run parse mounted events)
run-IsAlive_example = run-IsAlive parse events

run-order_events_example :
    (run parse mounted events).order_events ≡ take 50 (history parse mounted events [])
run-order_events_example = run-order_events parse events

-- The socket sends twice after the page is left.
leave-reconnects_example :
    let w = run parse mounted events in
    let after = run parse w (
      leave
      ∷ on_message 1 (codes "?")
      ∷ on_message 1 (codes "{}")
      ∷ on_close 1
      ∷ timeout
      ∷ on_open 2
      ∷ on_message 2 (codes "{}")
      ∷ []) in
    (after.live ≡ 2 ∷ [])
    × (after.ws_status ≡ connected)
    × (after.order_events ≡ codes "{}" ∷ codes "{}" ∷ [])
unfolding page
leave-reconnects_example =
    leave-reconnects parse events (codes "?" ∷ codes "{}" ∷ []) (codes "{}") (codes "{}")
      (record { socket = 1; live = refl; ws_conn = refl; timers = refl; ws_status = cc }) refl

abbrev remote : Text → ℕ → Remote ℕ
remote name ms = record { name = name; port = 1; status = codes "online"; latency_ms = ms }

-- The aggregate names two services.
abbrev fetches : List (Settled ℕ)
fetches =
    artifact zig 4 (answered 405 none)
    ∷ aggregate (
        answered 200
          (some (some (remote (codes "Nim-Analytics") 7 ∷ remote (codes "V-Quant") 8 ∷ []))))
    ∷ artifact cpp 3 rejected
    ∷ go_hub 5 (answered 200 (some (record { database = some (codes "up") })))
    ∷ artifact wasm 9 (answered 500 none)
    ∷ []

abbrev status_of : Option (Card ℕ) → Option Text
status_of none = none
status_of (some c) = some c.status

abbrev status_at : Text → Option Text
status_at k = status_of (get k (run_page decimal mounted_page (map settled fetches)).statuses)

-- A service that the aggregate does not name stays loading when all is over.
dashboard :
    map status_at (codes "nim" ∷ codes "ruby" ∷ codes "cpp" ∷ codes "go" ∷ [])
    ≡ some (codes "online")
      ∷ some (codes "loading")
      ∷ some (codes "offline")
      ∷ some (codes "online")
      ∷ []
unfolding page
dashboard = refl

abbrev zig_core : Service
zig_core = record {
  key = codes "zig";
  name = codes "Zig-Core";
  aggregate_name = none;
  lang = codes "Zig";
  port = 8013;
  role = codes "Systems Core (FFI)";
}

run-shown_example :
    get (codes "zig") (run_page decimal (fetch_status new_page) (map settled fetches)).statuses
    ≡ some (record { status = codes "online"; latency_ms = some 4; result = some (codes "4ms") })
unfolding page
run-shown_example = run-shown decimal fetches new_page 24 zig_core refl

run-loading_example :
    let w = run_page decimal mounted_page (click ∷ map settled fetches) in
    (w.loading ≡ some_left w.in_flight) × (w.earlier ≡ [])
run-loading_example = run-loading decimal (click ∷ map settled fetches)

cycle-loading_example :
    (run_page decimal (fetch_status new_page) (map settled fetches)).loading
    ≡ not (has_all sources (map source fetches))
cycle-loading_example = cycle-loading decimal fetches new_page

four_online : online_count (run_page decimal mounted_page (map settled fetches)).statuses ≡ 4
unfolding page
four_online = refl

online_count-run_example :
    online_count (run_page decimal mounted_page (map settled fetches)).statuses
    ≡ count (λ (svc : Service). is_online (shown decimal fetches svc)) services
online_count-run_example = online_count-run decimal fetches

no_error : (run_page decimal mounted_page (map settled fetches)).fetch_error ≡ none
unfolding page
no_error = refl

cycle-fetch_error_example :
    (run_page decimal (fetch_status new_page) (map settled fetches)).fetch_error
    ≡ error_by (first_of (codes "aggregate") fetches)
cycle-fetch_error_example = cycle-fetch_error decimal fetches new_page
