-- ===== src/Panels/Machine/Invariant.antt =====
-- A lawful panel's flags tell at every moment which of its functions run.
use polyglot_infinity.Prelude.{
  ℕ, zero, suc, ◌+◌, ◌<◌, ◌≡◌, inl, inr, refl, ap, sym, subst, ◌∙◌, Bool, true, false, Option, none,
  some, List, [], ◌∷◌, if◌then◌else◌, length, get_elem?, ◌==◌, arith, All, All-append,
  All-get_elem?, Bool-cases, Option-cases,
}
use polyglot_infinity.Prelude.Counting.{count, count-append}
use polyglot_infinity.Js.Async.{Async}
use polyglot_infinity.Panels.Machine.{
  Panel, Rest, finished, crashed, waiting, Task, advance, resume, remove_at, set_elem, flag_at,
  World, PanelEvent, click, input, answer, new_world, launch, settle, step, run,
}
use polyglot_infinity.Panels.Machine.Laws.{IsTask, IsDown, IsLawful}
use polyglot_infinity.Panels.Machine.Busy.{
  has_flag, one_if, lowered, Outcome, Started, advance-IsTask, resume-IsTask, advance-Starts,
  flag_at-set_elem, set_elem-set_elem, count-remove_at, count-set_elem,
}

module _ {ℓ κ} {A : Type ℓ} (P : A → Type κ) where
  All-remove_at : (i : ℕ) (xs : List A) → All P xs → All P (remove_at i xs)
  All-remove_at i [] h = h
  All-remove_at zero (x ∷ xs) h = h.1
  All-remove_at (suc i) (x ∷ xs) h = (h.0, All-remove_at i xs h.1)

  All-set_elem : (i : ℕ) (y : A) (xs : List A) → P y → All P xs → All P (set_elem i y xs)
  All-set_elem i y [] k h = h
  All-set_elem zero y (x ∷ xs) k h = (k, h.1)
  All-set_elem (suc i) y (x ∷ xs) k h = (h.0, All-set_elem i y xs k h.1)

flag_at-set_elem-false :
    (g f : ℕ) (bs : List Bool)
    → flag_at g (set_elem f false bs) ≡ (if g == f then false else flag_at g bs)
flag_at-set_elem-false g f [] = ground arith
flag_at-set_elem-false zero zero (c ∷ bs) = refl
flag_at-set_elem-false zero (suc f) (c ∷ bs) = ground arith
flag_at-set_elem-false (suc g) zero (c ∷ bs) = ground arith
flag_at-set_elem-false (suc g) (suc f) (c ∷ bs) = ground (arith, flag_at-set_elem-false g f bs)

same-eq : (f g : ℕ) → (f == g) ≡ true → f ≡ g
same-eq f g h = ground arith

count_lowered : (k : ℕ) (b c : Bool) → k + one_if b ≡ one_if c → k ≡ one_if (if b then false else c)
count_lowered k true true h = omega arith
count_lowered k true false h = absurd (omega arith)
count_lowered k false c h = omega arith

-- Up and down again.
lowered_raised :
    (f g : ℕ) (bs : List Bool)
    → flag_at g bs ≡ false
    → flag_at f bs ≡ flag_at f (set_elem g false (set_elem g true bs))
lowered_raised f g bs h = elim (Bool-cases (f == g)) [
  | inl e ↦
      rw (set_elem-set_elem g false true bs)
        (rw (flag_at-set_elem-false f g bs) (rw e (ap (λ i. flag_at i bs) (same-eq f g e) ∙ h)))
  | inr e ↦ rw (set_elem-set_elem g false true bs) (rw (flag_at-set_elem-false f g bs) (rw e refl))
]

count_raised :
    (f g k : ℕ) (bs : List Bool)
    → k ≡ one_if (flag_at f bs)
    → flag_at g bs ≡ false
    → g < length bs
    → k + (if f == g then 1 else 0) ≡ one_if (flag_at f (set_elem g true bs))
count_raised f g k bs h low inside = elim (Bool-cases (f == g)) [
  | inl e ↦
      let none_runs : one_if (flag_at f bs) ≡ 0 =
        ap (λ i. one_if (flag_at i bs)) (same-eq f g e) ∙ ap one_if low in
      rw (flag_at-set_elem f g true bs inside) (rw e (omega (arith, none_runs)))
  | inr e ↦ rw (flag_at-set_elem f g true bs inside) (rw e (omega arith))
]

IsDown-some :
    (o : Option ℕ) (bs : List Bool)
    → IsDown o bs
    → (f : ℕ) → o ≡ some f
    → (flag_at f bs ≡ false) × (f < length bs)
IsDown-some none bs h f e = absurd (cc)
IsDown-some (some g) bs h f e =
    let same : g ≡ f = cc in subst (λ i. (flag_at i bs ≡ false) × (i < length bs)) same h

flag_at-idle : (f : ℕ) (bs : List Bool) → All (λ b. b ≡ false) bs → flag_at f bs ≡ false
flag_at-idle f [] h = refl
flag_at-idle zero (b ∷ bs) h = h.0
flag_at-idle (suc f) (b ∷ bs) h = flag_at-idle f bs h.1

module _ {Num : Type 0} (p : Panel Num) where
  -- The number of running functions that have the flag.
  abbrev pub running : ℕ → World Num p.State → ℕ
  running f w = count (λ (t : Task Num p.State). has_flag f t.0) w.tasks

  pub record IsConsistent (w : World Num p.State) : Type 0 where
    pub tasks : All (λ (t : Task Num p.State). IsTask p.flags t.0 t.1) w.tasks
    pub uncaught : w.uncaught ≡ []
    pub flags : (f : ℕ) → running f w ≡ one_if (flag_at f (p.flags w.state))

  -- The flag goes down with the function.
  lowered-count :
      (o : Option ℕ) (f k : ℕ) (bs : List Bool)
      → k + one_if (has_flag f o) ≡ one_if (flag_at f bs)
      → k ≡ one_if (flag_at f (lowered o bs))
  lowered-count none f k bs h = omega (arith, h)
  lowered-count (some g) f k bs h =
      count_lowered k (f == g) (flag_at f bs) h ∙ ap one_if (sym (flag_at-set_elem-false f g bs))

  settle-IsConsistent :
      (i : ℕ) (o : Option ℕ) (t : Async Num p.State (Unit {0})) (r : p.State × Rest Num p.State)
      (w : World Num p.State)
      → get_elem? w.tasks i ≡ some (o, t)
      → Outcome p.flags o w.state r
      → IsConsistent w
      → IsConsistent (settle p i o r w)
  unfolding settle
  settle-IsConsistent i o t (s, finished) w e h c = record {
    tasks = All-remove_at (λ (u : Task Num p.State). IsTask p.flags u.0 u.1) i w.tasks c.tasks;
    uncaught = c.uncaught;
    flags = λ f.
        lowered-count o f (count (λ (u : Task Num p.State). has_flag f u.0) (remove_at i w.tasks))
          (p.flags w.state)
          (count-remove_at (λ (u : Task Num p.State). has_flag f u.0) i w.tasks (o, t) e
            ∙ c.flags f)
        ∙ ap (λ bs. one_if (flag_at f bs)) (sym h);
  }
  settle-IsConsistent i o t (s, crashed m) w e h c = elim h [ ]
  settle-IsConsistent i o t (s, waiting u) w e h c = record {
    tasks =
        All-set_elem (λ (v : Task Num p.State). IsTask p.flags v.0 v.1) i (o, u) w.tasks h.1
          c.tasks;
    uncaught = c.uncaught;
    flags = λ f.
        count-set_elem (λ (v : Task Num p.State). has_flag f v.0) i w.tasks (o, t) (o, u) e refl
        ∙ c.flags f
        ∙ ap (λ bs. one_if (flag_at f bs)) (sym h.0);
  }

  launch-IsConsistent :
      (o : Option ℕ) (r : p.State × Rest Num p.State) (w : World Num p.State)
      → ((f : ℕ)
          → o ≡ some f
          → (flag_at f (p.flags w.state) ≡ false) × (f < length (p.flags w.state)))
      → Started p.flags o w.state r
      → IsConsistent w
      → IsConsistent (launch p o r w)
  unfolding launch
  launch-IsConsistent none (s, finished) w k h c = record {
    tasks = c.tasks;
    uncaught = c.uncaught;
    flags = λ f. c.flags f ∙ ap (λ bs. one_if (flag_at f bs)) (sym h);
  }
  launch-IsConsistent none (s, crashed m) w k h c = elim h [ ]
  launch-IsConsistent none (s, waiting t) w k h c = record {
    tasks =
        All-append (λ (v : Task Num p.State). IsTask p.flags v.0 v.1) w.tasks ((none, t) ∷ [])
          c.tasks (h.1, tt);
    uncaught = c.uncaught;
    flags = λ f. omega (
      arith,
      count-append (λ (v : Task Num p.State). has_flag f v.0) w.tasks ((none, t) ∷ []),
      c.flags f,
      ap (λ bs. one_if (flag_at f bs)) (sym h.0),
    );
  }
  launch-IsConsistent (some g) (s, finished) w k h c = record {
    tasks = c.tasks;
    uncaught = c.uncaught;
    flags = λ f.
        c.flags f
        ∙ ap one_if (lowered_raised f g (p.flags w.state) (k g refl).0)
        ∙ ap (λ bs. one_if (flag_at f bs)) (sym h);
  }
  launch-IsConsistent (some g) (s, crashed m) w k h c = elim h [ ]
  launch-IsConsistent (some g) (s, waiting t) w k h c = record {
    tasks =
        All-append (λ (v : Task Num p.State). IsTask p.flags v.0 v.1) w.tasks ((some g, t) ∷ [])
          c.tasks (h.1, tt);
    uncaught = c.uncaught;
    flags = λ f.
        count-append (λ (v : Task Num p.State). has_flag f v.0) w.tasks ((some g, t) ∷ [])
        ∙ count_raised f g (running f w) (p.flags w.state) (c.flags f) (k g refl).0 (k g refl).1
        ∙ ap (λ bs. one_if (flag_at f bs)) (sym h.0);
  }

  module _ (lawful : IsLawful p) where
    step-IsConsistent :
        (w : World Num p.State) (e : PanelEvent Num p) → IsConsistent w → IsConsistent (step p w e)
    unfolding step
    step-IsConsistent w (click a) c = elim (Bool-cases (p.enabled a w.state)) [
      | inl e ↦
          rw (e, step)
            (launch-IsConsistent (p.flag_of a) (advance (p.body a) w.state) w
              (IsDown-some (p.flag_of a) (p.flags w.state) (lawful.disabled a w.state e))
              (advance-Starts p.flags (p.flag_of a) (p.body a) w.state (lawful.starts a)) c)
      | inr e ↦ rw (e, step) c
    ]
    step-IsConsistent w (input e) c = record {
      tasks = c.tasks;
      uncaught = c.uncaught;
      flags = λ f. c.flags f ∙ ap (λ bs. one_if (flag_at f bs)) (sym (lawful.edits e w.state));
    }
    step-IsConsistent w (answer i answers) c = elim (Option-cases (get_elem? w.tasks i)) [
      | inl e ↦ rw (e, step) c
      | inr ((o, t), e) ↦
          rw (e, step)
            (settle-IsConsistent i o t (advance (resume t answers) w.state) w e
              (advance-IsTask p.flags o (resume t answers) w.state (
                resume-IsTask p.flags o t answers (
                  All-get_elem? (λ (u : Task Num p.State). IsTask p.flags u.0 u.1) w.tasks i (o, t)
                    c.tasks e)))
              c)
    ]

    run-IsConsistent :
        (events : List (PanelEvent Num p)) (w : World Num p.State)
        → IsConsistent w
        → IsConsistent (run p w events)
    unfolding run
    run-IsConsistent [] w c = c
    run-IsConsistent (e ∷ events) w c =
        run-IsConsistent events (step p w e) (step-IsConsistent w e c)

    new_world-IsConsistent : IsConsistent (new_world p)
    new_world-IsConsistent = record {
      tasks = tt;
      uncaught = refl;
      flags = λ f. ap one_if (sym (flag_at-idle f (p.flags p.initial) lawful.idle));
    }

    -- In a lawful panel, after any clicks, inputs and answers of the network, in any order, each
    -- loading flag is up exactly if a function with that flag runs, no two with the same flag run,
    -- and no exception was left uncaught.
    pub run-running :
        (events : List (PanelEvent Num p)) (f : ℕ)
        → let w = run p (new_world p) events in
          (running f w ≡ one_if (flag_at f (p.flags w.state))) × (w.uncaught ≡ [])
    run-running events f =
        let c = run-IsConsistent events (new_world p) new_world-IsConsistent in
        (c.flags f, c.uncaught)
