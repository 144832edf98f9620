-- ===== src/Panels/Machine.antt =====
-- A dashboard panel and the browser's event loop: buttons start async functions, which run until
-- they wait; an answer lets one of them run on. Inputs change bound variables.
pub mod Laws
pub mod Busy
pub mod Invariant
pub mod Settled
use polyglot_infinity.Prelude.{
  ℕ, zero, suc, Bool, true, false, Option, none, some, List, [], ◌∷◌, ◌++◌, if◌then◌else◌,
  get_elem?, Text, ◌==◌,
}
use polyglot_infinity.Js.Async.{Call, Replies, Async, ret, raise, act, look, await, pause}

-- A panel: the variables of its script, its buttons with their `disabled` attributes, what they
-- start, its bound inputs, and its loading flags, of which some functions have one of their own.
pub record Panel (Num : Type 0) : Type 1 where
  pub State : Type 0
  pub Action : Type 0
  pub Edit : Type 0
  pub initial : State
  pub flags : State → List Bool
  pub flag_of : Action → Option ℕ
  pub enabled : Action → State → Bool
  pub body : Action → Async Num State (Unit {0})
  pub edit : Edit → State → State

-- The inputs of a panel that has none.
pub data NoEdit : Type 0 where

-- How far a function runs before the event loop has its turn again.
pub data Rest (Num S : Type 0) : Type 0 where
  finished : Rest Num S
  crashed : Text → Rest Num S
  waiting : Async Num S (Unit {0}) → Rest Num S

abbrev pub Task : Type 0 → Type 0 → Type 0
Task Num S = Option ℕ × Async Num S (Unit {0})

-- What the network answers to any requests.
abbrev pub Answer : Type 0 → Type 0
Answer Num = (cs : List Call) → Replies Num cs

module _ {Num S : Type 0} where
  unfoldable pub advance : Async Num S (Unit {0}) → S → S × Rest Num S
  advance (ret a) s = (s, finished)
  advance (raise m) s = (s, crashed m)
  advance (act h t) s = advance t (h s)
  advance (look g) s = advance (g s) s
  advance (await cs k) s = (s, waiting (await cs k))
  advance (pause t) s = (s, waiting (pause t))

  unfoldable pub resume : Async Num S (Unit {0}) → Answer Num → Async Num S (Unit {0})
  resume (await cs k) answer = k (answer cs)
  resume (pause t) answer = t
  resume t answer = t

abbrev pub remove_at {ℓ} : {A : Type ℓ} → ℕ → List A → List A
remove_at i [] = []
remove_at zero (x ∷ xs) = xs
remove_at (suc i) (x ∷ xs) = x ∷ remove_at i xs

abbrev pub set_elem {ℓ} : {A : Type ℓ} → ℕ → A → List A → List A
set_elem i y [] = []
set_elem zero y (x ∷ xs) = y ∷ xs
set_elem (suc i) y (x ∷ xs) = x ∷ set_elem i y xs

-- A variable of the list of flags.
abbrev pub flag_at : ℕ → List Bool → Bool
flag_at i [] = false
flag_at zero (b ∷ bs) = b
flag_at (suc i) (b ∷ bs) = flag_at i bs

-- The functions that wait, with the flag that each has, and the exceptions that nobody caught.
pub record World (Num S : Type 0) : Type 0 where
  pub state : S
  pub tasks : List (Task Num S)
  pub uncaught : List Text

pub data PanelEvent (Num : Type 0) (p : Panel Num) : Type 0 where
  click : p.Action → PanelEvent Num p
  input : p.Edit → PanelEvent Num p
  answer : ℕ → Answer Num → PanelEvent Num p

module _ {Num : Type 0} (p : Panel Num) where
  abbrev pub new_world : World Num p.State
  new_world = record { state = p.initial; tasks = []; uncaught = [] }

  -- A function that was started.
  unfoldable pub launch :
      Option ℕ → p.State × Rest Num p.State → World Num p.State → World Num p.State
  launch f (s, finished) w = record w { state = s }
  launch f (s, crashed m) w = record w { state = s; uncaught = m ∷ w.uncaught }
  launch f (s, waiting t) w = record w { state = s; tasks = w.tasks ++ (f, t) ∷ [] }

  -- The function at a place ran on.
  unfoldable pub settle :
      ℕ → Option ℕ → p.State × Rest Num p.State → World Num p.State → World Num p.State
  settle i f (s, finished) w = record w { state = s; tasks = remove_at i w.tasks }
  settle i f (s, crashed m) w = record w {
    state = s;
    tasks = remove_at i w.tasks;
    uncaught = m ∷ w.uncaught;
  }
  settle i f (s, waiting t) w = record w { state = s; tasks = set_elem i (f, t) w.tasks }

  unfoldable pub step : World Num p.State → PanelEvent Num p → World Num p.State
  unfolding advance resume launch settle
  step w (click a) =
      if p.enabled a w.state then launch (p.flag_of a) (advance (p.body a) w.state) w else w
  step w (input e) = record w { state = p.edit e w.state }
  step w (answer i answers) = elim (get_elem? w.tasks i) [
    | none ↦ w
    | some (f, t) ↦ settle i f (advance (resume t answers) w.state) w
  ]

  unfoldable pub run : World Num p.State → List (PanelEvent Num p) → World Num p.State
  unfolding step
  run w [] = w
  run w (e ∷ events) = run (step w e) events
