-- ===== src/Panels/Machine/Laws.antt =====
-- What a panel's handlers owe to its loading flags.
use polyglot_infinity.Prelude.{
  ℕ, ◌<◌, ◌≡◌, ◌⊎◌, inl, inr, Bool, true, false, Option, none, some, List, length, All,
}
use polyglot_infinity.Js.Async.{Replies, Async, ret, raise, act, look, await, pause, finally_do}
use polyglot_infinity.Js.Async.Laws.{Keeps, IsCalm}
use polyglot_infinity.Panels.Machine.{Panel, set_elem, flag_at}

-- An assignment to one flag.
abbrev pub Sets : {S : Type 0} → (S → List Bool) → ℕ → Bool → (S → S) → Type 0
Sets {S} flags f b h = (s : S) → flags (h s) ≡ set_elem f b (flags s)

module _ {Num S : Type 0} (flags : S → List Bool) where
  abbrev pub IsOver : {A : Type 0} → Async Num S A → Type 0
  IsOver (ret a) = Unit
  IsOver _ = ⊥

  -- A function with its flag up: it leaves the flags alone until it takes its own one down, which is
  -- the last thing that it does, and it comes to that on every way.
  unfoldable pub Ends : ℕ → Async Num S (Unit {0}) → Type 0
  Ends f (ret a) = ⊥
  Ends f (raise m) = ⊥
  Ends f (act h t) = (Keeps flags h × Ends f t) ⊎ (Sets flags f false h × IsOver t)
  Ends f (look g) = (s : S) → Ends f (g s)
  Ends f (await cs k) = (r : Replies Num cs) → Ends f (k r)
  Ends f (pause t) = Ends f t

  -- A function by its flag.
  abbrev pub IsTask : Option ℕ → Async Num S (Unit {0}) → Type 0
  IsTask none t = IsCalm flags t
  IsTask (some f) t = Ends f t

  -- A handler starts by putting its flag up; one with no flag leaves them all alone.
  abbrev pub RaisesFlag : ℕ → Async Num S (Unit {0}) → Type 0
  RaisesFlag f (act h t) = Sets flags f true h × Ends f t
  RaisesFlag f _ = ⊥

  abbrev pub Starts : Option ℕ → Async Num S (Unit {0}) → Type 0
  Starts none t = IsCalm flags t
  Starts (some f) t = RaisesFlag f t

  pub finally_do-Ends :
      (f : ℕ) (t : Async Num S (Unit {0})) (h : S → S)
      → IsCalm flags t
      → Sets flags f false h
      → Ends f (finally_do t h)
  unfolding finally_do Ends IsCalm
  finally_do-Ends f (ret a) h c e = inr (e, tt)
  finally_do-Ends f (raise m) h c e = elim c [ ]
  finally_do-Ends f (act g t) h c e = inl (c.0, finally_do-Ends f t h c.1 e)
  finally_do-Ends f (look g) h c e = λ s. finally_do-Ends f (g s) h (c s) e
  finally_do-Ends f (await cs k) h c e = λ r. finally_do-Ends f (k r) h (c r) e
  finally_do-Ends f (pause t) h c e = finally_do-Ends f t h c e

-- The flag of a function is down.
abbrev pub IsDown : Option ℕ → List Bool → Type 0
IsDown none bs = Unit
IsDown (some f) bs = (flag_at f bs ≡ false) × (f < length bs)

-- The laws of a panel.
pub record IsLawful {Num : Type 0} (p : Panel Num) : Type 0 where
  -- A button whose function has a flag is disabled while the flag is up.
  pub disabled :
      (a : p.Action) (s : p.State) → p.enabled a s ≡ true → IsDown (p.flag_of a) (p.flags s)
  pub idle : All (λ b. b ≡ false) (p.flags p.initial)
  pub edits : (e : p.Edit) → Keeps p.flags (p.edit e)
  pub starts : (a : p.Action) → Starts p.flags (p.flag_of a) (p.body a)
