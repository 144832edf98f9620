-- ===== src/Load/Runs.antt =====
-- The main loop of tests/load-test.js: what any number of iterations adds up to.
use polyglot_infinity.Prelude.{
  ℕ, zero, suc, ◌+◌, ◌≤◌, ◌≡◌, ◌≢◌, refl, ap, sym, subst, ◌∙◌, Option, none, some, List, [], ◌∷◌,
  ◌++◌, append_assoc, append-nil, map, map-append, arith, length, length-append, All, All-append,
}
use polyglot_infinity.Load.User.{
  Call, Response, Env, Vu, M, ◌>>=◌, ◌>>◌, is_error, random_int_between, add_hit, sleep_ms,
}
use polyglot_infinity.Load.Scenario.{Scenario, run_scenario}
use polyglot_infinity.Load.Table.{choose, scenarios, hit, iterate, iterations}
use polyglot_infinity.Load.Shares.{choose-scenarios}
use polyglot_infinity.Load.Calls.{>>=-eq-some, >>=-eq-some_intro, some-pair, run_scenario-IsOneCall}

abbrev pub IsPause : ℕ → Type 0
IsPause ms = (100 ≤ ms) × (ms ≤ 500)

-- Between two states of the user lie `k` iterations: `k` requests, one sample of the error rate for
-- each, in order, that says whether its status was 400 or above, `k` counted scenarios, and `k`
-- pauses of 100 to 500 milliseconds.
pub record IsRun (k : ℕ) (v v' : Vu) : Type 0 where
  pub sent : List (Call × Response)
  pub paused : List ℕ
  pub calls : v'.calls ≡ v.calls ++ sent
  pub counted : length sent ≡ k
  pub errors : v'.errors ≡ v.errors ++ map (λ c. is_error c.1) sent
  pub hits : v'.hits ≡ v.hits + k
  pub sleeps : v'.sleeps ≡ v.sleeps ++ paused
  pub pauses : length paused ≡ k
  pub pause_bounds : All IsPause paused

IsRun-zero : (v : Vu) → IsRun 0 v v
IsRun-zero v = record {
  sent = [];
  paused = [];
  calls = sym (append-nil v.calls);
  counted = refl;
  errors = sym (append-nil v.errors);
  hits = omega arith;
  sleeps = sym (append-nil v.sleeps);
  pauses = refl;
  pause_bounds = tt;
}

IsRun-append : (j k : ℕ) (u v w : Vu) → IsRun j u v → IsRun k v w → IsRun (j + k) u w
IsRun-append j k u v w a b = record {
  sent = a.sent ++ b.sent;
  paused = a.paused ++ b.paused;
  calls = b.calls ∙ ap (λ l. l ++ b.sent) a.calls ∙ append_assoc u.calls a.sent b.sent;
  counted = omega (arith, length-append a.sent b.sent, a.counted, b.counted);
  errors =
      b.errors
      ∙ ap (λ l. l ++ map (λ c. is_error c.1) b.sent) a.errors
      ∙ append_assoc u.errors (map (λ c. is_error c.1) a.sent) (map (λ c. is_error c.1) b.sent)
      ∙ ap (λ l. u.errors ++ l) (sym (map-append (λ c. is_error c.1) a.sent b.sent));
  hits = omega (arith, a.hits, b.hits);
  sleeps = b.sleeps ∙ ap (λ l. l ++ b.paused) a.sleeps ∙ append_assoc u.sleeps a.paused b.paused;
  pauses = omega (arith, length-append a.paused b.paused, a.pauses, b.pauses);
  pause_bounds = All-append IsPause a.paused b.paused a.pause_bounds b.pause_bounds;
}

module _ (env : Env) (rounds : ℕ) where
  abbrev pause_here : Vu → ℕ
  pause_here v = env.random v.draws 100 500

  abbrev rest : M (Unit {0})
  rest = do pause ← random_int_between env 100 500; sleep_ms pause

  IsRun-one :
      (s : Scenario) (v₁ v₂ v' : Vu)
      → run_scenario env rounds s v₁ ≡ some (tt, v₂)
      → (add_hit >> rest) v₂ ≡ some (tt, v')
      → IsRun 1 v₁ v'
  IsRun-one s v₁ v₂ v' ran ended =
      let one = run_scenario-IsOneCall env rounds s v₁ v₂ ran in
      let slept = record v₂ {
        draws = suc v₂.draws;
        hits = suc v₂.hits;
        sleeps = v₂.sleeps ++ pause_here v₂ ∷ [];
      } in
      let (_, last) = some-pair tt tt slept v' ended in
      subst (IsRun 1 v₁) last (record {
        sent = one.call ∷ [];
        paused = pause_here v₂ ∷ [];
        calls = one.calls;
        counted = refl;
        errors = one.errors;
        hits = omega (arith, one.hits);
        sleeps = ap (λ l. l ++ pause_here v₂ ∷ []) one.sleeps;
        pauses = refl;
        pause_bounds = (env.random_bounds v₂.draws 100 500 (omega arith), tt);
      })

  hit-IsRun :
      (o : Option Scenario) (v v' : Vu)
      → o ≢ none
      → (hit env rounds o >> rest) v ≡ some (tt, v')
      → IsRun 1 v v'
  unfolding hit
  hit-IsRun none v v' h e = absurd (h refl)
  hit-IsRun (some s) v v' h e =
      let (out, counted, rested) = >>=-eq-some (hit env rounds (some s)) (λ _. rest) v (tt, v') e in
      let (out₂, ran, added) =
        >>=-eq-some (run_scenario env rounds s) (λ _. add_hit) v out counted in
      IsRun-one s v out₂.1 v' ran
        (>>=-eq-some_intro add_hit (λ _. rest) out₂.1 out (tt, v') added rested)

  -- What one iteration does, whatever the roll.
  pub iterate-IsRun : (v v' : Vu) → iterate env rounds v ≡ some (tt, v') → IsRun 1 v v'
  unfolding iterate
  iterate-IsRun v v' h =
      let roll = env.random v.draws 0 99 in
      let drawn = record v { draws = suc v.draws } in
      let (_, below) = env.random_bounds v.draws 0 99 (omega arith) in
      let r = hit-IsRun (choose scenarios roll) drawn v' (choose-scenarios roll (omega arith)) h in
      record {
        sent = r.sent;
        paused = r.paused;
        calls = r.calls;
        counted = r.counted;
        errors = r.errors;
        hits = r.hits;
        sleeps = r.sleeps;
        pauses = r.pauses;
        pause_bounds = r.pause_bounds;
      }

  -- Iterations that return are a run: as many requests, each with one sample of the error rate
  -- that says whether its status was 400 or above, as many counted scenarios, and as many pauses
  -- of 100 to 500 milliseconds.
  pub iterations-IsRun :
      (k : ℕ) (v v' : Vu) → iterations env rounds k v ≡ some (tt, v') → IsRun k v v'
  unfolding iterations
  iterations-IsRun zero v v' h =
      let (_, same) = some-pair tt tt v v' h in subst (IsRun 0 v) same (IsRun-zero v)
  iterations-IsRun (suc k) v v' h =
      let (out, first, others) =
        >>=-eq-some (iterate env rounds) (λ _. iterations env rounds k) v (tt, v') h in
      let total : 1 + k ≡ suc k = omega arith in
      subst (λ n. IsRun n v v') total
        (IsRun-append 1 k v out.1 v' (iterate-IsRun v out.1 first)
          (iterations-IsRun k out.1 v' others))
