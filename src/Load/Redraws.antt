-- ===== src/Load/Redraws.antt =====
-- When the loop of the transfer scenario ends.
use polyglot_infinity.Prelude.{
  ℕ, zero, suc, ◌+◌, ◌≤◌, ◌≡◌, ◌∙◌, inl, inr, true, false, Option, some, arith, get_elem?,
  Bool-cases, Text,
}
use native.Mathlib.Nat.{add-zero}
use polyglot_infinity.Load.Calls.{send_transfer-total, >>=-eq-some_intro}
use polyglot_infinity.Load.User.{Env, Vu}
use polyglot_infinity.Load.Scenario.Writes.{
  accounts, same, redraw, send_transfer, scenario_clojure_transfer,
}

module _ (env : Env) where
  redraw-now :
      (rounds : ℕ) (from to : Option Text) (v : Vu)
      → same to from ≡ false
      → redraw env (suc rounds) from to v ≡ some (to, v)
  unfolding redraw
  redraw-now rounds from to v h = rw (h, redraw)

  abbrev drawn : Vu → Vu
  drawn v = record v { draws = suc v.draws }

  redraw-again :
      (rounds : ℕ) (from to : Option Text) (v : Vu)
      → same to from ≡ true
      → redraw env (suc rounds) from to v
        ≡ redraw env rounds from (get_elem? accounts (env.random v.draws 0 4)) (drawn v)
  unfolding redraw
  redraw-again rounds from to v h = rw (h, redraw)

  redraw-total :
      (j rounds : ℕ) (from to : Option Text) (v : Vu)
      → same (get_elem? accounts (env.random (v.draws + j) 0 4)) from ≡ false
      → j + 2 ≤ rounds
      → (r : Option Text × Vu) × (redraw env rounds from to v ≡ some r)
  redraw-total j zero from to v h k = absurd (omega arith)
  redraw-total j (suc zero) from to v h k = absurd (omega arith)
  redraw-total zero (suc (suc rounds)) from to v h k = elim (Bool-cases (same to from)) [
    | inr e ↦ (_, redraw-now (suc rounds) from to v e)
    | inl e ↦
        let other : same (get_elem? accounts (env.random v.draws 0 4)) from ≡ false =
          rw (← add-zero v.draws) h in
        (
          _,
          redraw-again (suc rounds) from to v e
              ∙ redraw-now rounds from (get_elem? accounts (env.random v.draws 0 4)) (drawn v)
                  other,
        )
  ]
  redraw-total (suc j) (suc (suc rounds)) from to v h k = elim (Bool-cases (same to from)) [
    | inr e ↦ (_, redraw-now (suc rounds) from to v e)
    | inl e ↦
        let index : suc v.draws + j ≡ v.draws + suc j = omega arith in
        let (r, later) =
          redraw-total j (suc rounds) from (get_elem? accounts (env.random v.draws 0 4)) (drawn v)
            (rw index h) (omega arith) in
        (r, redraw-again (suc rounds) from to v e ∙ later)
  ]

  -- The transfer scenario returns if, of the draws behind its first, one of the first rounds - 1
  -- gives another account than the first did.
  pub scenario_clojure_transfer-total :
      (j rounds : ℕ) (v : Vu)
      → same
          (get_elem? accounts (env.random (suc v.draws + j) 0 4))
          (get_elem? accounts (env.random v.draws 0 4))
        ≡ false
      → j + 2 ≤ rounds
      → (v' : Vu) × (scenario_clojure_transfer env rounds v ≡ some (tt, v'))
  unfolding scenario_clojure_transfer
  scenario_clojure_transfer-total j rounds v h k =
      let from = get_elem? accounts (env.random v.draws 0 4) in
      let (out, drew) = redraw-total j rounds from from (drawn v) h k in
      let (to, v₂) = out in
      let (w, sends, _) = send_transfer-total env from to v₂ in
      (
        w,
        >>=-eq-some_intro (redraw env rounds from from) (send_transfer env from) (drawn v) (to, v₂)
            (tt, w) drew sends,
      )
