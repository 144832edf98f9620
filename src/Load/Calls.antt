-- ===== src/Load/Calls.antt =====
-- The requests of a scenario of tests/load-test.js, and its samples of the error rate.
use polyglot_infinity.Prelude.{
  ℕ, zero, suc, ◌≡◌, ◌≢◌, refl, ap, sym, subst, ◌∙◌, inl, inr, Bool, true, false, if◌then◌else◌,
  codes, Option, none, some, [], ◌∷◌, ◌++◌, get_elem?, Text, Bool-cases, length,
}
use polyglot_infinity.Load.User.{Call, Response, Env, Vu, M, ◌>>=◌, pure, base, is_error}
use polyglot_infinity.Load.Scenario.{
  Scenario, clojure_transfer, circuit_status, status, run_scenario,
}
use polyglot_infinity.Load.Scenario.Verdict.{is_200, returned, object_test, verdict}
use polyglot_infinity.Load.Scenario.Plain.{scenario_circuit_status}
use polyglot_infinity.Load.Scenario.Writes.{
  accounts, same, redraw, send_transfer, scenario_clojure_transfer,
}

-- Between two states of the user lies one request with its error sample; nothing was counted and
-- nobody slept.
pub record IsOneCall (v v' : Vu) : Type 0 where
  pub call : Call × Response
  pub calls : v'.calls ≡ v.calls ++ call ∷ []
  pub errors : v'.errors ≡ v.errors ++ is_error call.1 ∷ []
  pub hits : v'.hits ≡ v.hits
  pub sleeps : v'.sleeps ≡ v.sleeps

-- What drawing does not touch.
pub record IsQuiet (v v' : Vu) : Type 0 where
  pub calls : v'.calls ≡ v.calls
  pub errors : v'.errors ≡ v.errors
  pub hits : v'.hits ≡ v.hits
  pub sleeps : v'.sleeps ≡ v.sleeps

pub some-pair :
    {A : Type 0} (a b : A) (v v' : Vu)
    → ◌≡◌ {A = Option (A × Vu)} (some (a, v)) (some (b, v'))
    → (a ≡ b) × (v ≡ v')
some-pair a b v v' h = (cc, cc)

elim-eq-some :
    {A B : Type 0} (o : Option (A × Vu)) (f : A → M B) (w : B × Vu)
    → ◌≡◌ {A = Option (B × Vu)} (elim o [ none ↦ none | some (a, v') ↦ f a v' ]) (some w)
    → (r : A × Vu) × (o ≡ some r) × (f r.0 r.1 ≡ some w)
elim-eq-some none f w h = absurd (cc)
elim-eq-some (some r) f w h = (r, refl, h)

-- A bind that returns: both of its parts do.
pub >>=-eq-some :
    {A B : Type 0} (m : M A) (f : A → M B) (v : Vu) (w : B × Vu)
    → (m >>= f) v ≡ some w
    → (r : A × Vu) × (m v ≡ some r) × (f r.0 r.1 ≡ some w)
>>=-eq-some m f v w h = elim-eq-some (m v) f w h

elim-eq-some_intro :
    {A B : Type 0} (o : Option (A × Vu)) (f : A → M B) (r : A × Vu) (w : B × Vu)
    → o ≡ some r
    → f r.0 r.1 ≡ some w
    → ◌≡◌ {A = Option (B × Vu)} (elim o [ none ↦ none | some (a, v') ↦ f a v' ]) (some w)
elim-eq-some_intro {A} none f r w e h = absurd (cc)
elim-eq-some_intro {A} (some q) f r w e h =
    let same_pair : q ≡ r = cc in ap (λ (p : A × Vu). f p.0 p.1) same_pair ∙ h

-- And the other way round.
pub >>=-eq-some_intro :
    {A B : Type 0} (m : M A) (f : A → M B) (v : Vu) (r : A × Vu) (w : B × Vu)
    → m v ≡ some r
    → f r.0 r.1 ≡ some w
    → (m >>= f) v ≡ some w
>>=-eq-some_intro m f v r w e h = elim-eq-some_intro (m v) f r w e h

IsOneCall-of_quiet : (u v w : Vu) → IsQuiet u v → IsOneCall v w → IsOneCall u w
IsOneCall-of_quiet u v w q o = record {
  call = o.call;
  calls = o.calls ∙ ap (λ l. l ++ o.call ∷ []) q.calls;
  errors = o.errors ∙ ap (λ l. l ++ is_error o.call.1 ∷ []) q.errors;
  hits = o.hits ∙ q.hits;
  sleeps = o.sleeps ∙ q.sleeps;
}

-- The test of the body leaves the state alone.
object_test-state :
    (res : Response) (v : Vu) (b : Bool) (w : Vu) → object_test res v ≡ some (b, w) → v ≡ w
object_test-state res v b w h = tested (is_200 res) res.is_object h
  where
    tested :
        (ok : Bool) (o : Option Bool)
        → (if ok then returned o else pure false) v ≡ some (b, w)
        → v ≡ w
    tested true none h = absurd (cc)
    tested true (some c) h = (some-pair c b v w h).1
    tested false o h = (some-pair false b v w h).1

-- The state after the verdict on the circuit breaker.
abbrev after_verdict : Response → Bool → Vu → Vu
after_verdict res shape v = record v {
  checks = v.checks ++ (codes "circuit status 200", is_200 res) ∷ (codes "is object", shape) ∷ [];
  errors = v.errors ++ is_error res ∷ [];
}

module _ (env : Env) where
  -- All scenarios but the transfer and the circuit breaker's return, with one request.
  run_scenario-total :
      (rounds : ℕ) (s : Scenario) (v : Vu)
      → s ≢ clojure_transfer
      → s ≢ circuit_status
      → (v' : Vu) × (run_scenario env rounds s v ≡ some (tt, v')) × IsOneCall v v'
  unfolding run_scenario
  run_scenario-total rounds clojure_transfer v h k = absurd (h refl)
  run_scenario-total rounds circuit_status v h k = absurd (k refl)
  run_scenario-total rounds status v h k =
      (_, refl, record { call = _; calls = refl; errors = refl; hits = refl; sleeps = refl })
  run_scenario-total rounds _ v h k =
      (_, refl, record { call = _; calls = refl; errors = refl; hits = refl; sleeps = refl })

  by_total :
      (rounds : ℕ) (s : Scenario) (v v' : Vu)
      → run_scenario env rounds s v ≡ some (tt, v')
      → s ≢ clojure_transfer
      → s ≢ circuit_status
      → IsOneCall v v'
  by_total rounds s v v' h other another =
      let (w, returns, one) = run_scenario-total rounds s v other another in
      let (_, last) = some-pair tt tt w v' (sym returns ∙ h) in subst (IsOneCall v) last one

  -- The redraws, if they end, end at another account.
  pub redraw-IsQuiet :
      (rounds : ℕ) (from to o : Option Text) (v v' : Vu)
      → redraw env rounds from to v ≡ some (o, v')
      → IsQuiet v v' × (same o from ≡ false)
  unfolding redraw
  redraw-IsQuiet zero from to o v v' h = absurd (cc)
  redraw-IsQuiet (suc rounds) from to o v v' h = elim (Bool-cases (same to from)) [
    | inl e ↦
        let drawn = record v { draws = suc v.draws } in
        let (quiet, other) =
          redraw-IsQuiet rounds from (get_elem? accounts (env.random v.draws 0 4)) o drawn v'
            (rw (e, redraw) at h) in
        (
          record {
            calls = quiet.calls;
            errors = quiet.errors;
            hits = quiet.hits;
            sleeps = quiet.sleeps;
          },
          other,
        )
    | inr e ↦
        let (same_o, same_v) = some-pair to o v v' (rw (e, redraw) at h) in
        (
          record {
            calls = ap (λ (u : Vu). u.calls) (sym same_v);
            errors = ap (λ (u : Vu). u.errors) (sym same_v);
            hits = ap (λ (u : Vu). u.hits) (sym same_v);
            sleeps = ap (λ (u : Vu). u.sleeps) (sym same_v);
          },
          subst (λ p. same p from ≡ false) same_o e,
        )
  ]

  pub send_transfer-total :
      (from to : Option Text) (v : Vu)
      → (v' : Vu) × (send_transfer env from to v ≡ some (tt, v')) × IsOneCall v v'
  unfolding send_transfer
  send_transfer-total from to v =
      (_, refl, record { call = _; calls = refl; errors = refl; hits = refl; sleeps = refl })

  scenario_clojure_transfer-IsOneCall :
      (rounds : ℕ) (v v' : Vu)
      → scenario_clojure_transfer env rounds v ≡ some (tt, v')
      → IsOneCall v v'
  unfolding scenario_clojure_transfer
  scenario_clojure_transfer-IsOneCall rounds v v' h =
      let from = get_elem? accounts (env.random v.draws 0 4) in
      let drawn = record v { draws = suc v.draws } in
      let (out, drew, sent) =
        >>=-eq-some (redraw env rounds from from) (send_transfer env from) drawn (tt, v') h in
      let (to, v₂) = out in
      let (quiet, other) = redraw-IsQuiet rounds from from to drawn v₂ drew in
      let (w, sends, one) = send_transfer-total from to v₂ in
      let (_, last) = some-pair tt tt w v' (sym sends ∙ sent) in
      subst (IsOneCall v) last (
        IsOneCall-of_quiet v v₂ w
          (record {
            calls = quiet.calls;
            errors = quiet.errors;
            hits = quiet.hits;
            sleeps = quiet.sleeps;
          })
          one)

  -- So does the circuit breaker's, if it returns.
  scenario_circuit_status-IsOneCall :
      (v v' : Vu) → scenario_circuit_status env v ≡ some (tt, v') → IsOneCall v v'
  unfolding scenario_circuit_status
  scenario_circuit_status-IsOneCall v v' h =
      let call : Call = record {
        method = codes "GET";
        url = base ++ codes "/api/circuit/status";
        payload = none;
        headers = [];
        timeout = none;
      } in
      let res = env.respond (length v.calls) call in
      let asked = record v { calls = v.calls ++ (call, res) ∷ [] } in
      let judge = λ (shape : Bool).
        verdict res ((codes "circuit status 200", is_200 res) ∷ (codes "is object", shape) ∷ []) in
      let (out, tested, judged) = >>=-eq-some (object_test res) judge asked (tt, v') h in
      let (shape, w) = out in
      let unchanged = object_test-state res asked shape w tested in
      let (z, last) = some-pair tt tt (after_verdict res shape w) v' judged in
      subst (IsOneCall v) last (
        subst (λ (u : Vu). IsOneCall v (after_verdict res shape u)) unchanged
          (record { call = (call, res); calls = refl; errors = refl; hits = refl; sleeps = refl }))

  -- A scenario that returns has made exactly one request, and recorded for the error rate whether
  -- its status was 400 or above.
  pub run_scenario-IsOneCall :
      (rounds : ℕ) (s : Scenario) (v v' : Vu)
      → run_scenario env rounds s v ≡ some (tt, v')
      → IsOneCall v v'
  unfolding run_scenario
  run_scenario-IsOneCall rounds clojure_transfer v v' h =
      scenario_clojure_transfer-IsOneCall rounds v v' h
  run_scenario-IsOneCall rounds circuit_status v v' h = scenario_circuit_status-IsOneCall v v' h
  run_scenario-IsOneCall rounds status v v' h = by_total rounds status v v' h (cc) (cc)
  run_scenario-IsOneCall rounds s v v' h = by_total rounds s v v' h (cc) (cc)
