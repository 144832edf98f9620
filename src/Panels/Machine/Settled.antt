-- ===== src/Panels/Machine/Settled.antt =====
-- Functions that wait come to an end as the network answers.
use polyglot_infinity.Prelude.{
  ℕ, zero, suc, ◌+◌, ◌≡◌, refl, ap, sym, subst, ◌∙◌, Bool, true, false, Option, List, [], ◌∷◌, ◌++◌,
  get_elem?, arith,
}
use polyglot_infinity.Prelude.Counting.{count}
use polyglot_infinity.Js.Async.{Async, ret, raise, act, look, await, pause}
use polyglot_infinity.Panels.Machine.{
  Panel, waiting, Task, advance, Answer, resume, remove_at, set_elem, flag_at, World, PanelEvent,
  answer, new_world, settle, step, run,
}
use polyglot_infinity.Panels.Machine.Laws.{IsLawful}
use polyglot_infinity.Panels.Machine.Busy.{one_if, has_flag}
use polyglot_infinity.Panels.Machine.Invariant.{run-running}

module _ {Num : Type 0} (p : Panel Num) (a : Answer Num) where
  -- The network answers the first function in the list, again and again.
  abbrev pub answers : ℕ → List (PanelEvent Num p)
  answers zero = []
  answers (suc n) = answer 0 a ∷ answers n

  run-answers :
      (m n : ℕ) (w : World Num p.State)
      → run p (run p w (answers m)) (answers n) ≡ run p w (answers (m + n))
  unfolding run
  run-answers zero n w = let same : n ≡ 0 + n = omega arith in ap (λ k. run p w (answers k)) same
  run-answers (suc m) n w =
      let shifted : suc (m + n) ≡ suc m + n = omega arith in
      run-answers m n (step p w (answer 0 a)) ∙ ap (λ k. run p w (answers k)) shifted

  -- So many answers leave the given functions.
  abbrev Leaves : World Num p.State → List (Task Num p.State) → Type 0
  Leaves w rest = (n : ℕ) × ((run p w (answers n)).tasks ≡ rest)

  after_step :
      (w : World Num p.State) (rest : List (Task Num p.State))
      → Leaves (step p w (answer 0 a)) rest
      → Leaves w rest
  unfolding run
  after_step w rest (n, h) = (suc n, h)

  step-first :
      (o : Option ℕ) (t : Async Num p.State (Unit {0})) (rest : List (Task Num p.State))
      (w : World Num p.State)
      → w.tasks ≡ (o, t) ∷ rest
      → step p w (answer 0 a) ≡ settle p 0 o (advance (resume t a) w.state) w
  unfolding step
  step-first o t rest w h = rw (step, ap (λ ts. get_elem? ts 0) h) refl

  -- The first function in the list ends, whatever it still has to do.
  settle-Leaves :
      (t : Async Num p.State (Unit {0})) (s : p.State) (o : Option ℕ)
      (u : Async Num p.State (Unit {0})) (rest : List (Task Num p.State)) (w : World Num p.State)
      → w.tasks ≡ (o, u) ∷ rest
      → Leaves (settle p 0 o (advance t s) w) rest
  unfolding settle advance resume run
  settle-Leaves (ret v) s o u rest w h = (0, ap (remove_at 0) h)
  settle-Leaves (raise m) s o u rest w h = (0, ap (remove_at 0) h)
  settle-Leaves (act g t) s o u rest w h = settle-Leaves t (g s) o u rest w h
  settle-Leaves (look g) s o u rest w h = settle-Leaves (g s) s o u rest w h
  settle-Leaves (await cs k) s o u rest w h =
      let v = settle p 0 o (s, waiting (await cs k)) w in
      let held = ap (set_elem 0 (o, await cs k)) h in
      after_step v rest (
        subst (λ x. Leaves x rest) (sym (step-first o (await cs k) rest v held))
          (settle-Leaves (k (a cs)) s o (await cs k) rest v held))
  settle-Leaves (pause t) s o u rest w h =
      let v = settle p 0 o (s, waiting (pause t)) w in
      let held = ap (set_elem 0 (o, pause t)) h in
      after_step v rest (
        subst (λ x. Leaves x rest) (sym (step-first o (pause t) rest v held))
          (settle-Leaves t s o (pause t) rest v held))

  -- All of them end.
  all-Leaves : (ts : List (Task Num p.State)) (w : World Num p.State) → w.tasks ≡ ts → Leaves w []
  unfolding run
  all-Leaves [] w h = (0, h)
  all-Leaves ((o, t) ∷ rest) w h =
      let (m, first) = after_step w rest (
        subst (λ x. Leaves x rest) (sym (step-first o t rest w h))
          (settle-Leaves (resume t a) w.state o t rest w h)) in
      let (n, later) = all-Leaves rest (run p w (answers m)) first in
      (m + n, ap (λ (x : World Num p.State). x.tasks) (sym (run-answers m n w)) ∙ later)

  run-append :
      (xs ys : List (PanelEvent Num p)) (w : World Num p.State)
      → run p w (xs ++ ys) ≡ run p (run p w xs) ys
  unfolding run
  run-append [] ys w = refl
  run-append (x ∷ xs) ys w = run-append xs ys (step p w x)

  flag-down : (b : Bool) → 0 ≡ one_if b → b ≡ false
  flag-down true h = absurd (omega arith)
  flag-down false h = refl

  -- Settled
  pub flags-settle :
      IsLawful p
      → (events : List (PanelEvent Num p))
      → (n : ℕ) × (let w = run p (new_world p) (events ++ answers n) in
          (w.tasks ≡ []) × ((f : ℕ) → flag_at f (p.flags w.state) ≡ false))
  flags-settle lawful events =
      let w = run p (new_world p) events in
      let (n, none_left) = all-Leaves w.tasks w refl in
      let over =
        ap (λ (x : World Num p.State). x.tasks) (run-append events (answers n) (new_world p))
        ∙ none_left in
      (
        n,
        (
          over,
          λ f. flag-down _ (
              sym (ap (count (λ (t : Task Num p.State). has_flag f t.0)) over)
              ∙ (run-running p lawful (events ++ answers n) f).0),
        ),
      )
