-- ===== src/Panels/Tests.antt =====
-- Runs of the panels, and the theorems on them at such inputs.
use polyglot_infinity.Prelude.{
  ℕ, ◌+◌, ◌*◌, ◌≡◌, refl, true, false, Option, none, some, List, [], ◌∷◌, Text, text_eq, codes,
  ◌++◌, ltb, arith, map,
}
use polyglot_infinity.Js.Decimal.{decimal}
use polyglot_infinity.Js.Value.{truthy, Json, null, bool, obj, field, end}
use polyglot_infinity.Js.Spread.{maybe_read}
use polyglot_infinity.Js.Async.{bind, Response}
use polyglot_infinity.Js.Number.{whole_numbers}
use polyglot_infinity.Panels.Setting.{Setting, api}
use polyglot_infinity.Panels.Machine.{
  Answer, finished, PanelEvent, click, answer, flag_at, new_world, run,
}
use polyglot_infinity.Panels.Machine.Busy.{one_if}
use polyglot_infinity.Panels.Machine.Invariant.{running}
use polyglot_infinity.Panels.Machine.Settled.{answers}
use polyglot_infinity.Panels.Shape.{error_value, with_loading, fetch_or, fetch_all_or}
use polyglot_infinity.Panels.Shape.Outcome.{drive, fetch_or-outcome}
use polyglot_infinity.Panels.Crystal.{
  run_crystal_stats, on_run_crystal, on_run_crystal_stats, crystal_initial,
}
use polyglot_infinity.Panels.Ruby.{
  on_run_ruby, on_load_custom_rule, ruby_panel, load_custom_rule, run_ruby,
}
use polyglot_infinity.Panels.Dashboard.{crystal, panel_of, panel_of-running, panel_of-settles}
use polyglot_infinity.Panels.DependencyMap.{nodes, edges}
use polyglot_infinity.Panels.DependencyMap.Laws.{IsDrawn, edges-IsDrawn}
use polyglot_infinity.Panels.Elixir.{
  ready_open, closing, Elixir, ElixirEvent, click_toggle, click_connect, on_open, on_close, timeout,
  interval, leave, new_elixir, step as elixir_step, run as elixir_run,
}
use polyglot_infinity.Panels.Elixir.Laws.{IsSound}
use polyglot_infinity.Panels.Elixir.Readiness.{NoneLive}
use polyglot_infinity.Panels.Elixir.Sockets.{elixir-IsSound, left-still, late_close}
use polyglot_infinity.Panels.SystemStatus.{
  StatusEvent, click_auto_sync, click_sse, on_error as status_error, interval as status_interval,
  leave as status_leave, new_status, run as status_run,
}
use polyglot_infinity.Panels.SystemStatus.Laws.{IsSteady, run-IsSteady}
use polyglot_infinity.Panels.ClojureStm.{clojure_initial, do_transfer}
use polyglot_infinity.Panels.ClojureStm.Transfer.{ends_in, do_transfer-transferred}

abbrev setting : Setting ℕ
setting = record {
  base = codes "http://hub";
  numbers = whole_numbers;
  literal = λ t. 1;
  show = decimal;
  add = λ a b. a + b;
  times = λ a b. a * b;
  round = λ a. a;
  less = ltb;
  to_fixed = λ k a. decimal a;
  parse_float_or = λ t d. d;
  to_lower_case = λ t. t;
  encode_uri_component = λ t. t;
}

-- The network is down, or answers everything in the same way.
abbrev down : Answer ℕ
down [] = tt
down (c ∷ cs) = (none, down cs)

abbrev always : Response ℕ → Answer ℕ
always res [] = tt
always res (c ∷ cs) = (some res, always res cs)

abbrev loaded : Response ℕ
loaded = record { status = 200; body = some (obj (field (codes "loaded") (bool true) end)) }

-- Every definition that the runs compute with.
panels : Unit {0}
unfolding run run_ruby load_custom_rule run_crystal_stats with_loading fetch_all_or fetch_or bind
    maybe_read truthy text_eq drive elixir_run decimal
panels = tt

abbrev clicks : List (PanelEvent ℕ (panel_of setting crystal))
clicks =
    click on_run_crystal ∷ click on_run_crystal ∷ click on_run_crystal_stats ∷ answer 0 down ∷ []

panel_of-running_example :
    let p = panel_of setting crystal in
    let w = run p (new_world p) clicks in
    (running p 1 w ≡ one_if (flag_at 1 (p.flags w.state))) × (w.uncaught ≡ [])
panel_of-running_example = panel_of-running setting crystal clicks 1

-- A rule is loaded while the scores are: two functions run, of which the first to end takes the
-- flag down for the other.
abbrev loads : List (PanelEvent ℕ (ruby_panel setting))
loads =
    click on_run_ruby
    ∷ click on_load_custom_rule
    ∷ answer 1 (always loaded)
    ∷ answer 1 (always loaded)
    ∷ answer 0 down
    ∷ []

ruby_running :
    map (λ t. t.0) (run (ruby_panel setting) (new_world (ruby_panel setting)) loads).tasks
    ≡ some 1 ∷ []
unfolding panels
ruby_running = refl

ruby_flag :
    (run (ruby_panel setting) (new_world (ruby_panel setting)) loads).state.ruby_loading ≡ false
unfolding panels
ruby_flag = refl

-- The statistics of the Crystal panel, from a server that has none of them.
fetch_or-outcome_example :
    drive (run_crystal_stats setting) (crystal_initial setting) (always loaded ∷ down ∷ []) ≡ (
      record (crystal_initial setting) {
        crystal_stats = obj (field (codes "loaded") (bool true) end);
      },
      finished,
    )
unfolding run_crystal_stats
fetch_or-outcome_example =
    fetch_or-outcome (λ b s. record s { stats_loading = b })
      (λ s. record s { crystal_stats = null }) (λ v s. record s { crystal_stats = v })
      (λ s. record s { crystal_stats = error_value (codes "Crystal 서버 접속 불가 (:9002)") })
      (codes "Crystal stats offline") (api setting (codes "/api/crystal/stats" ∷ []))
      (crystal_initial setting) (always loaded) down

-- The second edge of the table.
edges-IsDrawn_example : IsDrawn nodes edges 1 (record {
  source = codes "svelte";
  target = codes "wasm";
  label = some (codes "WASM");
  style = some (codes "dashed");
})
edges-IsDrawn_example = edges-IsDrawn 1 _ refl

no_json : Text → Option (Json ℕ)
no_json t = none

-- Connected by hand, then with auto-reconnect on: the old socket is still closing when the new one
-- is open.
abbrev toggled : List (ElixirEvent ℕ)
toggled = click_connect ∷ on_open 0 ∷ click_toggle ∷ on_open 1 ∷ []

abbrev hub : List (ElixirEvent ℕ) → Elixir ℕ
hub = elixir_run setting no_json new_elixir

hub_flaps :
    let w = hub (toggled ++ on_close 0 ∷ timeout 3 ∷ on_open 2 ∷ on_close 1 ∷ timeout 5 ∷ []) in
    (w.made ≡ 4) × (w.ready 2 ≡ closing) × (w.ws_connected ≡ false)
unfolding panels
hub_flaps = (refl, refl, refl)

-- The heartbeat of a socket that was replaced goes on when the page is left.
hub_leaks : (hub (toggled ++ leave ∷ on_close 0 ∷ on_close 1 ∷ [])).intervals ≡ 1 ∷ []
unfolding panels
hub_leaks = refl

elixir-IsSound_example : IsSound (hub toggled)
elixir-IsSound_example = elixir-IsSound setting no_json toggled

left-still_example :
    let w = hub (click_connect ∷ on_open 0 ∷ leave ∷ []) in
    let v = elixir_run setting no_json w (on_close 0 ∷ interval 1 ∷ timeout 0 ∷ []) in
    (v.made ≡ w.made) × (v.sent ≡ w.sent) × NoneLive v.ready
unfolding panels
left-still_example =
    left-still setting no_json (click_connect ∷ on_open 0 ∷ leave ∷ [])
      (on_close 0 ∷ interval 1 ∷ timeout 0 ∷ []) refl

late_close_example :
    let v = elixir_step setting no_json (hub toggled) (on_close 0) in
    let u = elixir_step setting no_json v (timeout 3) in
    (v.ws_connected ≡ false) × (v.ready 1 ≡ ready_open) × (u.ready 1 ≡ closing) × (u.ws ≡ some 2)
unfolding panels
late_close_example =
    late_close setting no_json (hub toggled) 0 1 refl refl refl refl refl (omega arith)

-- The stream fails while the panel synchronises, and then the panel is left.
abbrev stream : List (StatusEvent ℕ)
stream =
    click_auto_sync ∷ click_sse ∷ status_error 0 ∷ click_sse ∷ status_interval 1 ∷ status_leave ∷ []

stream_sources : (status_run setting no_json new_status stream).made ≡ 2
unfolding status_run
stream_sources = refl

run-IsSteady_example : IsSteady (status_run setting no_json new_status stream)
run-IsSteady_example = run-IsSteady setting no_json stream

-- A transfer that went through, with the refresh of the balances unanswered.
do_transfer-transferred_example :
    drive
      (do_transfer setting)
      (clojure_initial setting)
      (ends_in (some loaded) ∷ ends_in none ∷ ends_in none ∷ [])
    ≡ (
      record (clojure_initial setting) {
        transfer_res = error_value (codes "Clojure 서버 접속 불가 (:8009)");
      },
      finished,
    )
do_transfer-transferred_example =
    do_transfer-transferred setting (clojure_initial setting) (some loaded) none none

panel_of-settles_example :
    (n : ℕ) × (let p = panel_of setting crystal in
      let w = run p (new_world p) (clicks ++ answers p (always loaded) n) in
      (w.tasks ≡ []) × ((f : ℕ) → flag_at f (p.flags w.state) ≡ false))
panel_of-settles_example = panel_of-settles setting crystal (always loaded) clicks
