-- ===== src/Apm/Connections/Answers.antt =====
-- Every request is answered exactly once.
use polyglot_infinity.Prelude.{
  ℕ, ◌+◌, ◌≡◌, ◌⊎◌, refl, ap, sym, ◌∙◌, inl, inr, Bool, true, false, Option, none, some, List, [],
  ◌∷◌, ◌++◌, arith, if◌then◌else◌, ◌==◌, ==_iff, Text, Bool-cases,
}
use polyglot_infinity.Js.Number.{Numbers}
use polyglot_infinity.Js.Value.{Json}
use polyglot_infinity.Apm.Router.{Request}
use polyglot_infinity.Apm.Connections.{
  Event, arrive, chunk, finish, fail, World, Answer, push_answer, step, run,
}
use polyglot_infinity.Apm.Connections.Pending.{Conn, find}
use polyglot_infinity.Apm.Connections.Atomic.{
  of_request, own_step, own, own-append, completed, effect, find-step, step-effect,
}

-- No request arrives under the number of one whose body is still open.
abbrev pub IsFresh : List Event → List Event → Type 0
IsFresh past [] = Unit
IsFresh past (arrive i m u ∷ events) =
    (own i none past ≡ none) × IsFresh (past ++ arrive i m u ∷ []) events
IsFresh past (chunk i b ∷ events) = IsFresh (past ++ chunk i b ∷ []) events
IsFresh past (finish i ∷ events) = IsFresh (past ++ finish i ∷ []) events
IsFresh past (fail i m ∷ events) = IsFresh (past ++ fail i m ∷ []) events

abbrev one_if : Bool → ℕ
one_if b = if b then 1 else 0

-- How many requests arrived under a number.
abbrev arrived : ℕ → Event → ℕ
arrived i (arrive j m u) = one_if (j == i)
arrived i _ = 0

abbrev pub arrivals : ℕ → List Event → ℕ
arrivals i [] = 0
arrivals i (e ∷ events) = arrived i e + arrivals i events

abbrev pub opens : Option Conn → ℕ
opens none = 0
opens (some c) = 1

module _ {Num : Type 0} where
  abbrev answered : ℕ → Option (Answer Num) → ℕ
  answered i none = 0
  answered i (some a) = one_if (a.0 == i)

  -- How many answers went out under a number.
  abbrev pub answers : ℕ → List (Answer Num) → ℕ
  answers i [] = 0
  answers i (a ∷ rest) = one_if (a.0 == i) + answers i rest

  answers-push :
      (i : ℕ) (o : Option (Answer Num)) (rest : List (Answer Num))
      → answers i (push_answer o rest) ≡ answered i o + answers i rest
  answers-push i none rest = omega arith
  answers-push i (some a) rest = refl

abbrev came : Option Request → ℕ
came none = 0
came (some req) = 1

self : (i : ℕ) → (i == i) ≡ true
self i = (==_iff i i).1 refl

-- An event's balance for its request: what arrives or was open is answered or stays open.
own_balance :
    (decode : List ℕ → Text) (o : Option Conn) (e : Event)
    → (o ≡ none) ⊎ (arrived (of_request e) e ≡ 0)
    → came (completed decode o e) + opens (own_step o e) ≡ arrived (of_request e) e + opens o
own_balance decode o (arrive i m u) h = ground (arith, self i)
own_balance decode none (chunk i b) h = refl
own_balance decode (some c) (chunk i b) h = refl
own_balance decode none (finish i) h = refl
own_balance decode (some c) (finish i) h = refl
own_balance decode none (fail i m) h = refl
own_balance decode (some c) (fail i m) h = refl

IsFresh-here :
    (past : List Event) (e : Event) (events : List Event)
    → IsFresh past (e ∷ events)
    → (own (of_request e) none past ≡ none) ⊎ (arrived (of_request e) e ≡ 0)
IsFresh-here past (arrive i m u) events h = inl h.0
IsFresh-here past (chunk i b) events h = inr refl
IsFresh-here past (finish i) events h = inr refl
IsFresh-here past (fail i m) events h = inr refl

IsFresh-later :
    (past : List Event) (e : Event) (events : List Event)
    → IsFresh past (e ∷ events)
    → IsFresh (past ++ e ∷ []) events
IsFresh-later past (arrive i m u) events h = h.1
IsFresh-later past (chunk i b) events h = h
IsFresh-later past (finish i) events h = h
IsFresh-later past (fail i m) events h = h

arrived-other : (i : ℕ) (e : Event) → (of_request e == i) ≡ false → arrived i e ≡ 0
arrived-other i (arrive j m u) h = rw h
arrived-other i (chunk j b) h = refl
arrived-other i (finish j) h = refl
arrived-other i (fail j m) h = refl

module _ {Num : Type 0} (n : Numbers Num) (parse : Text → Option (Json Num))
    (decode : List ℕ → Text) where
  answered-effect :
      (i j : ℕ) (o : Option Request) (buffer : List (Json Num))
      → answered i (effect n parse decode j o buffer).1 ≡ (if j == i then came o else 0)
  answered-effect i j none buffer = ground arith
  answered-effect i j (some req) buffer = refl

  step_balance :
      (i : ℕ) (w : World Num) (e : Event)
      → (find (of_request e) w.pending ≡ none) ⊎ (arrived (of_request e) e ≡ 0)
      → answered i (step n parse decode w e).1 + opens (find i (step n parse decode w e).0.pending)
        ≡ arrived i e + opens (find i w.pending)
  step_balance i w e h =
      let j = of_request e in
      let o = find j w.pending in
      let sent : answered i (step n parse decode w e).1
          ≡ (if j == i then came (completed decode o e) else 0) =
        ap (λ p. answered i p.1) (step-effect n parse decode w e)
        ∙ answered-effect i j (completed decode o e) w.buffer in
      elim (Bool-cases (j == i)) [
        | inl here ↦
            let same : j ≡ i = (==_iff j i).0 here in
            let now = ap opens (rw here at (find-step n parse decode i w e)) in
            omega (
              arith,
              (rw here at sent),
              now,
              own_balance decode o e h,
              ap (λ k. opens (own_step (find k w.pending) e)) same,
              ap (λ k. opens (find k w.pending)) same,
              ap (λ k. arrived k e) same,
            )
        | inr other ↦
            let now = ap opens (rw other at (find-step n parse decode i w e)) in
            omega (arith, (rw other at sent), now, arrived-other i e other)
      ]

  run_balance :
      (i : ℕ) (w : World Num) (past events : List Event)
      → ((j : ℕ) → find j w.pending ≡ own j none past)
      → IsFresh past events
      → answers i (run n parse decode w events).1
          + opens (find i (run n parse decode w events).0.pending)
        ≡ arrivals i events + opens (find i w.pending)
  unfolding run
  run_balance i w past [] open_now fresh = refl
  run_balance i w past (e ∷ events) open_now fresh =
      let w' = (step n parse decode w e).0 in
      let later =
        run_balance i w' (past ++ e ∷ []) events
          (λ j.
            find-step n parse decode j w e
            ∙ ap (λ c. if of_request e == j then own_step c e else c) (open_now j)
            ∙ sym (own-append j none past e))
          (IsFresh-later past e events fresh) in
      let here =
        step_balance i w e (rw (open_now (of_request e)) (IsFresh-here past e events fresh)) in
      omega (
        arith,
        later,
        here,
        answers-push i (step n parse decode w e).1 (run n parse decode w' events).1,
      )

  -- From a start with no open body, and with no number used twice at a time, the answers to each
  -- number and its open body together are exactly as many as the requests that arrived under it.
  pub answers_once :
      (buffer : List (Json Num)) (events : List Event) (i : ℕ)
      → IsFresh [] events
      → let r = run n parse decode (record { buffer = buffer; pending = [] }) events in
        answers i r.1 + opens (find i r.0.pending) ≡ arrivals i events
  unfolding find
  answers_once buffer events i fresh =
      run_balance i (record { buffer = buffer; pending = [] }) [] events (λ j. refl) fresh
      ∙ (omega arith)
