-- ===== src/Load/Tests.antt =====
-- Runs of the load test with a simple environment, and its theorems at such inputs.
use polyglot_infinity.Prelude.{
  ℕ, zero, suc, ◌+◌, ◌≤◌, ◌<◌, ◌≡◌, ◌≢◌, ◌↔◌, refl, Option, none, some, [], ◌∷◌, min, arith, map,
  take, drop, text_eq, codes, true, false,
}
use polyglot_infinity.Js.Decimal.{decimal, to_fixed}
use polyglot_infinity.Load.User.{Call, Response, Env, Vu, new_vu}
use polyglot_infinity.Load.Scenario.{
  history, report, pipeline_trigger, workflow_risk, workflow_option, haskell_mc, run_scenario,
}
use polyglot_infinity.Load.Scenario.Writes.{scenario_order_submit, scenario_clojure_transfer}
use polyglot_infinity.Load.Table.{choose, scenarios, iterations}
use polyglot_infinity.Load.Shares.{choose_iff, dead_scenarios}
use polyglot_infinity.Load.Payloads.{
  HasSent, IsOrder, IsTransfer, scenario_order_submit-IsOrder, scenario_clojure_transfer-IsTransfer,
}
use polyglot_infinity.Load.Redraws.{scenario_clojure_transfer-total}
use polyglot_infinity.Load.Runs.{IsRun, iterations-IsRun}

-- Every definition that the runs compute with.
user : Unit {0}
unfolding choose run_scenario iterations text_eq decimal to_fixed
user = tt

-- The draws rise; every answer is a 200 with an object that has no field, but that of the second
-- request, which is a 503.
abbrev answer : ℕ → Call → Response
answer (suc zero) c = record { status = 503; json = λ name. none; is_object = some false }
answer _ c = record { status = 200; json = λ name. none; is_object = some true }

abbrev rising : Env
rising = record {
  random = λ k lo hi. min hi (lo + k);
  random_bounds = λ k lo hi h. (omega arith, omega arith);
  clock = λ k. k;
  respond = answer;
}

abbrev state : Option (Unit {0} × Vu) → Vu
state none = new_vu
state (some (u, v)) = v

abbrev after_two : Vu
after_two = state (iterations rising 9 2 new_vu)

two_hits : after_two.hits ≡ 2
unfolding user
two_hits = refl

two_errors : after_two.errors ≡ false ∷ true ∷ []
unfolding user
two_errors = refl

two_pauses : after_two.sleeps ≡ 101 ∷ 103 ∷ []
unfolding user
two_pauses = refl

two_urls :
    map (λ (c : Call × Response). c.0.url) after_two.calls
    ≡ codes "http://localhost:8080/api/status" ∷ codes "http://localhost:8080/api/status" ∷ []
unfolding user
two_urls = refl

haskell_url :
    map (λ (c : Call × Response). c.0.url) (state (run_scenario rising 9 haskell_mc new_vu)).calls
    ≡ codes "http://localhost:8080/api/haskell/montecarlo?s=80&vol=0.2&mu=0.05&n=101&days=252" ∷ []
unfolding user
haskell_url = refl

iterations-IsRun_example : IsRun 2 new_vu after_two
unfolding user
iterations-IsRun_example = iterations-IsRun rising 9 2 new_vu after_two refl

choose_iff_example : (choose scenarios 80 ≡ some workflow_option) ↔ ((79 ≤ 80) × (80 < 81))
choose_iff_example =
    choose_iff 81 workflow_option (take 21 scenarios) (drop 22 scenarios) 80 (ground arith)
      (ground arith) (ground arith)

dead_scenarios_example :
    (choose scenarios 36 ≢ some history)
    × (choose scenarios 36 ≢ some pipeline_trigger)
    × ((choose scenarios 36 ≡ some report) ↔ ((36 ≤ 36) × (36 < 46)))
    × ((choose scenarios 36 ≡ some workflow_risk) ↔ ((76 ≤ 36) × (36 < 79)))
dead_scenarios_example = dead_scenarios 36

scenario_order_submit-IsOrder_example :
    (v' : Vu) × (scenario_order_submit rising new_vu ≡ some (tt, v')) × HasSent new_vu v' IsOrder
scenario_order_submit-IsOrder_example = scenario_order_submit-IsOrder rising new_vu

scenario_clojure_transfer-IsTransfer_example :
    HasSent new_vu (state (scenario_clojure_transfer rising 9 new_vu)) IsTransfer
unfolding user
scenario_clojure_transfer-IsTransfer_example =
    scenario_clojure_transfer-IsTransfer rising 9 new_vu
      (state (scenario_clojure_transfer rising 9 new_vu)) refl

scenario_clojure_transfer-total_example :
    (v' : Vu) × (scenario_clojure_transfer rising 2 new_vu ≡ some (tt, v'))
unfolding user
scenario_clojure_transfer-total_example =
    scenario_clojure_transfer-total rising 0 2 new_vu refl (omega arith)
