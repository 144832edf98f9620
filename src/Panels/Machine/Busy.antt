-- ===== src/Panels/Machine/Busy.antt =====
-- Loading flags and the functions that run.
use polyglot_infinity.Prelude.{
  ℕ, zero, suc, ◌+◌, ◌<◌, ◌≡◌, inl, inr, refl, ap, ◌∙◌, Bool, true, false, Option, none, some, List,
  [], ◌∷◌, if◌then◌else◌, length, get_elem?, ◌==◌, arith,
}
use polyglot_infinity.Prelude.Counting.{count}
use polyglot_infinity.Js.Async.{Async, ret, raise, act, look, await, pause}
use polyglot_infinity.Js.Async.Laws.{IsCalm}
use polyglot_infinity.Panels.Machine.{
  Rest, finished, crashed, waiting, advance, Answer, resume, remove_at, set_elem, flag_at,
}
use polyglot_infinity.Panels.Machine.Laws.{Ends, IsOver, RaisesFlag, IsTask, Starts}

abbrev pub has_flag : ℕ → Option ℕ → Bool
has_flag f none = false
has_flag f (some g) = f == g

abbrev pub one_if : Bool → ℕ
one_if true = 1
one_if false = 0

-- The flags after a function with a flag is done, or where it has none.
abbrev pub lowered : Option ℕ → List Bool → List Bool
lowered none bs = bs
lowered (some f) bs = set_elem f false bs

module _ {Num S : Type 0} (flags : S → List Bool) where
  abbrev pub Outcome : Option ℕ → S → S × Rest Num S → Type 0
  Outcome o s (s', finished) = flags s' ≡ lowered o (flags s)
  Outcome o s (s', crashed m) = ⊥
  Outcome o s (s', waiting t) = (flags s' ≡ flags s) × IsTask flags o t

  through :
      (o : Option ℕ) (s s₂ : S) (r : S × Rest Num S)
      → flags s₂ ≡ flags s
      → Outcome o s₂ r
      → Outcome o s r
  through o s s₂ (s', finished) e h = h ∙ ap (lowered o) e
  through o s s₂ (s', crashed m) e h = h
  through o s s₂ (s', waiting t) e h = (h.0 ∙ e, h.1)

  -- What running on does to the flags.
  advance-calm :
      (t : Async Num S (Unit {0})) (s : S) → IsCalm flags t → Outcome none s (advance t s)
  unfolding advance IsCalm
  advance-calm (ret a) s h = refl
  advance-calm (raise m) s h = h
  advance-calm (act g t) s h =
      through none s (g s) (advance t (g s)) (h.0 s) (advance-calm t (g s) h.1)
  advance-calm (look g) s h = advance-calm (g s) s (h s)
  advance-calm (await cs k) s h = (refl, h)
  advance-calm (pause t) s h = (refl, h)

  advance-over :
      (f : ℕ) (t : Async Num S (Unit {0})) (s s₂ : S)
      → flags s₂ ≡ set_elem f false (flags s)
      → IsOver flags t
      → Outcome (some f) s (advance t s₂)
  unfolding advance
  advance-over f (ret a) s s₂ e h = e
  advance-over f (raise m) s s₂ e h = elim h [ ]
  advance-over f (act g t) s s₂ e h = elim h [ ]
  advance-over f (look g) s s₂ e h = elim h [ ]
  advance-over f (await cs k) s s₂ e h = elim h [ ]
  advance-over f (pause t) s s₂ e h = elim h [ ]

  advance-Ends :
      (f : ℕ) (t : Async Num S (Unit {0})) (s : S)
      → Ends flags f t
      → Outcome (some f) s (advance t s)
  unfolding advance Ends
  advance-Ends f (ret a) s h = elim h [ ]
  advance-Ends f (raise m) s h = elim h [ ]
  advance-Ends f (act g t) s (inl h) =
      through (some f) s (g s) (advance t (g s)) (h.0 s) (advance-Ends f t (g s) h.1)
  advance-Ends f (act g t) s (inr h) = advance-over f t s (g s) (h.0 s) h.1
  advance-Ends f (look g) s h = advance-Ends f (g s) s (h s)
  advance-Ends f (await cs k) s h = (refl, h)
  advance-Ends f (pause t) s h = (refl, h)

  pub advance-IsTask :
      (o : Option ℕ) (t : Async Num S (Unit {0})) (s : S)
      → IsTask flags o t
      → Outcome o s (advance t s)
  advance-IsTask none t s h = advance-calm t s h
  advance-IsTask (some f) t s h = advance-Ends f t s h

  pub resume-IsTask :
      (o : Option ℕ) (t : Async Num S (Unit {0})) (answers : Answer Num)
      → IsTask flags o t
      → IsTask flags o (resume t answers)
  unfolding resume IsCalm Ends
  resume-IsTask none (ret a) answers h = h
  resume-IsTask none (raise m) answers h = h
  resume-IsTask none (act g t) answers h = h
  resume-IsTask none (look g) answers h = h
  resume-IsTask none (await cs k) answers h = h (answers cs)
  resume-IsTask none (pause t) answers h = h
  resume-IsTask (some f) (ret a) answers h = h
  resume-IsTask (some f) (raise m) answers h = h
  resume-IsTask (some f) (act g t) answers h = h
  resume-IsTask (some f) (look g) answers h = h
  resume-IsTask (some f) (await cs k) answers h = h (answers cs)
  resume-IsTask (some f) (pause t) answers h = h

  -- A start, by the flags before it.
  abbrev pub Started : Option ℕ → S → S × Rest Num S → Type 0
  Started none s r = Outcome none s r
  Started (some f) s (s', finished) = flags s' ≡ set_elem f false (set_elem f true (flags s))
  Started (some f) s (s', crashed m) = ⊥
  Started (some f) s (s', waiting t) =
      (flags s' ≡ set_elem f true (flags s)) × IsTask flags (some f) t

  started :
      (f : ℕ) (s s₂ : S) (r : S × Rest Num S)
      → flags s₂ ≡ set_elem f true (flags s)
      → Outcome (some f) s₂ r
      → Started (some f) s r
  started f s s₂ (s', finished) e h = h ∙ ap (set_elem f false) e
  started f s s₂ (s', crashed m) e h = h
  started f s s₂ (s', waiting t) e h = (h.0 ∙ e, h.1)

  advance-RaisesFlag :
      (f : ℕ) (t : Async Num S (Unit {0})) (s : S)
      → RaisesFlag flags f t
      → Started (some f) s (advance t s)
  unfolding advance
  advance-RaisesFlag f (ret a) s h = elim h [ ]
  advance-RaisesFlag f (raise m) s h = elim h [ ]
  advance-RaisesFlag f (act g t) s h =
      started f s (g s) (advance t (g s)) (h.0 s) (advance-Ends f t (g s) h.1)
  advance-RaisesFlag f (look g) s h = elim h [ ]
  advance-RaisesFlag f (await cs k) s h = elim h [ ]
  advance-RaisesFlag f (pause t) s h = elim h [ ]

  pub advance-Starts :
      (o : Option ℕ) (t : Async Num S (Unit {0})) (s : S)
      → Starts flags o t
      → Started o s (advance t s)
  advance-Starts none t s h = advance-calm t s h
  advance-Starts (some f) t s h = advance-RaisesFlag f t s h

-- Flags as a list.
pub flag_at-set_elem :
    (g f : ℕ) (b : Bool) (bs : List Bool)
    → f < length bs
    → flag_at g (set_elem f b bs) ≡ (if g == f then b else flag_at g bs)
flag_at-set_elem g f b [] h = absurd (omega arith)
flag_at-set_elem zero zero b (c ∷ bs) h = refl
flag_at-set_elem zero (suc f) b (c ∷ bs) h = ground arith
flag_at-set_elem (suc g) zero b (c ∷ bs) h = ground arith
flag_at-set_elem (suc g) (suc f) b (c ∷ bs) h =
    ground (arith, flag_at-set_elem g f b bs (omega arith))

pub set_elem-set_elem :
    (f : ℕ) (b c : Bool) (bs : List Bool) → set_elem f b (set_elem f c bs) ≡ set_elem f b bs
set_elem-set_elem f b c [] = refl
set_elem-set_elem zero b c (d ∷ bs) = refl
set_elem-set_elem (suc f) b c (d ∷ bs) = ap (◌∷◌ d) (set_elem-set_elem f b c bs)

-- Counting after a change at one place.
module _ {ℓ} {A : Type ℓ} (p : A → Bool) where
  pub count-remove_at :
      (i : ℕ) (xs : List A) (x : A)
      → get_elem? xs i ≡ some x
      → count p (remove_at i xs) + one_if (p x) ≡ count p xs
  count-remove_at i [] x h = absurd (cc)
  count-remove_at zero (y ∷ xs) x h = let same : y ≡ x = cc in rw same (ground arith)
  count-remove_at (suc i) (y ∷ xs) x h = ground (arith, count-remove_at i xs x h)

  pub count-set_elem :
      (i : ℕ) (xs : List A) (x y : A)
      → get_elem? xs i ≡ some x
      → p y ≡ p x
      → count p (set_elem i y xs) ≡ count p xs
  count-set_elem i [] x y h e = refl
  count-set_elem zero (z ∷ xs) x y h e = let same : z ≡ x = cc in rw (same, e) refl
  count-set_elem (suc i) (z ∷ xs) x y h e = ground (arith, count-set_elem i xs x y h e)
