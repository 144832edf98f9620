-- ===== src/Load/Scenario/Queries.antt =====
-- The scenarios of tests/load-test.js that draw the parameters of a query or measure a latency.
use polyglot_infinity.Prelude.{◌*◌, ◌&&◌, some, [], ◌∷◌, codes}
use polyglot_infinity.Js.Decimal.{decimal, to_fixed}
use polyglot_infinity.Load.User.{
  Env, workflow_latency, aggregate_latency, M, ◌>>=◌, ◌>>◌, random_int_between, now, get_with,
  http_get, add_latency,
}
use polyglot_infinity.Load.Scenario.Verdict.{is_200, is_array, join, verdict}

module _ (env : Env) where
  unfoldable pub scenario_aggregate : M (Unit {0})
  scenario_aggregate = do
    start ← now env
    res ← http_get env (codes "/api/aggregate")
    stop ← now env
    add_latency aggregate_latency stop start
    verdict res (
        (codes "aggregate 200", is_200 res)
        ∷ (codes "has services array", is_200 res && is_array (res.json (codes "services")))
        ∷ [])

  unfoldable pub scenario_fsharp_iv : M (Unit {0})
  scenario_fsharp_iv = do
    s ← random_int_between env 90 110
    k ← random_int_between env 95 115
    res ← http_get env (
        join (
          codes "/api/fsharp/iv?s="
          ∷ decimal s
          ∷ codes "&k="
          ∷ decimal k
          ∷ codes "&r=0.05&t=0.25&market_price=5.0"
          ∷ []))
    verdict res ((codes "fsharp iv 200", is_200 res) ∷ [])

  unfoldable pub scenario_nim_garch : M (Unit {0})
  scenario_nim_garch = do
    omega ← random_int_between env 1 10
    alpha ← random_int_between env 5 20
    beta ← random_int_between env 75 90
    res ← http_get env (
        join (
          codes "/api/nim/garch?omega="
          ∷ to_fixed 7 (omega * 10)
          ∷ codes "&alpha="
          ∷ to_fixed 2 alpha
          ∷ codes "&beta="
          ∷ to_fixed 2 beta
          ∷ codes "&n=252"
          ∷ []))
    verdict res ((codes "nim garch 200", is_200 res) ∷ [])

  unfoldable pub scenario_julia_simulate : M (Unit {0})
  scenario_julia_simulate = do
    vol ← random_int_between env 10 40
    paths ← random_int_between env 10 100
    res ← http_get env (
        join (
          codes "/api/julia/simulate?paths="
          ∷ decimal paths
          ∷ codes "&days=252&vol="
          ∷ to_fixed 2 vol
          ∷ codes "&mu=0.07"
          ∷ []))
    verdict res ((codes "julia simulate 200", is_200 res) ∷ [])

  unfoldable pub scenario_haskell_mc : M (Unit {0})
  scenario_haskell_mc = do
    s ← random_int_between env 80 120
    n ← random_int_between env 100 500
    res ← http_get env (
        join (
          codes "/api/haskell/montecarlo?s="
          ∷ decimal s
          ∷ codes "&vol=0.2&mu=0.05&n="
          ∷ decimal n
          ∷ codes "&days=252"
          ∷ []))
    verdict res ((codes "haskell mc 200", is_200 res) ∷ [])

  unfoldable pub scenario_workflow_risk : M (Unit {0})
  scenario_workflow_risk = do
    start ← now env
    res ← get_with env (some (codes "15s")) (codes "/api/workflow/risk-full")
    stop ← now env
    add_latency workflow_latency stop start
    verdict res (
        (codes "workflow risk 200", is_200 res)
        ∷ (codes "has steps", is_200 res && is_array (res.json (codes "steps")))
        ∷ [])

  unfoldable pub scenario_workflow_option : M (Unit {0})
  scenario_workflow_option = do
    s ← random_int_between env 90 110
    k ← random_int_between env 95 115
    start ← now env
    res ← get_with env (some (codes "15s")) (
        join (
          codes "/api/workflow/option-compare?s="
          ∷ decimal s
          ∷ codes "&k="
          ∷ decimal k
          ∷ codes "&r=0.05&t=0.25&vol=0.2"
          ∷ []))
    stop ← now env
    add_latency workflow_latency stop start
    verdict res ((codes "workflow option 200", is_200 res) ∷ [])

  unfoldable pub scenario_r_stats : M (Unit {0})
  scenario_r_stats = do
    n ← random_int_between env 100 1000
    seed ← random_int_between env 1 9999
    res ←
        get_with env (some (codes "15s"))
          (join (codes "/api/r/fit?n=" ∷ decimal n ∷ codes "&seed=" ∷ decimal seed ∷ []))
    verdict res ((codes "r fit 200", is_200 res) ∷ [])

  unfoldable pub scenario_crystal_portfolio : M (Unit {0})
  scenario_crystal_portfolio = do
    mu ← random_int_between env 5 25
    sigma ← random_int_between env 10 35
    seed ← random_int_between env 1 9999
    res ← http_get env (
        join (
          codes "/api/crystal/portfolio?mu="
          ∷ to_fixed 2 mu
          ∷ codes "&sigma="
          ∷ to_fixed 2 sigma
          ∷ codes "&days=252&seed="
          ∷ decimal seed
          ∷ []))
    verdict res ((codes "crystal portfolio 200", is_200 res) ∷ [])

  unfoldable pub scenario_scala_aggregate : M (Unit {0})
  scenario_scala_aggregate = do
    n ← random_int_between env 50 500
    mu ← random_int_between env 3 15
    sigma ← random_int_between env 10 30
    seed ← random_int_between env 1 9999
    res ← http_get env (
        join (
          codes "/api/scala/aggregate?n="
          ∷ decimal n
          ∷ codes "&mu="
          ∷ to_fixed 2 mu
          ∷ codes "&sigma="
          ∷ to_fixed 2 sigma
          ∷ codes "&seed="
          ∷ decimal seed
          ∷ []))
    verdict res ((codes "scala aggregate 200", is_200 res) ∷ [])

  unfoldable pub scenario_ruby_score : M (Unit {0})
  scenario_ruby_score = do
    dr ← random_int_between env 10 80
    ltv ← random_int_between env 30 95
    nd ← random_int_between env 0 5
    inc ← random_int_between env 30 500
    res ← http_get env (
        join (
          codes "/api/ruby/score?debt_ratio="
          ∷ to_fixed 2 dr
          ∷ codes "&ltv="
          ∷ to_fixed 2 ltv
          ∷ codes "&num_defaults="
          ∷ decimal nd
          ∷ codes "&annual_income_k="
          ∷ decimal inc
          ∷ []))
    verdict res ((codes "ruby score 200", is_200 res) ∷ [])

  unfoldable pub scenario_dart_bond : M (Unit {0})
  scenario_dart_bond = do
    coupon ← random_int_between env 2 10
    rate ← random_int_between env 1 12
    n ← random_int_between env 3 30
    face ← random_int_between env 100 10000
    res ← http_get env (
        join (
          codes "/api/dart/bond?coupon="
          ∷ to_fixed 3 (coupon * 10)
          ∷ codes "&face="
          ∷ decimal (face * 10)
          ∷ codes "&rate="
          ∷ to_fixed 3 (rate * 10)
          ∷ codes "&n="
          ∷ decimal n
          ∷ []))
    verdict res ((codes "dart bond 200", is_200 res) ∷ [])

  unfoldable pub scenario_v_backtest : M (Unit {0})
  scenario_v_backtest = do
    ticks ← random_int_between env 500 5000
    fast ← random_int_between env 5 20
    slow ← random_int_between env 30 80
    seed ← random_int_between env 1 9999
    res ← get_with env (some (codes "15s")) (
        join (
          codes "/api/v/backtest?ticks="
          ∷ decimal ticks
          ∷ codes "&fast="
          ∷ decimal fast
          ∷ codes "&slow="
          ∷ decimal slow
          ∷ codes "&seed="
          ∷ decimal seed
          ∷ []))
    verdict res ((codes "v backtest 200", is_200 res) ∷ [])
