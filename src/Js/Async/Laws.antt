-- ===== src/Js/Async/Laws.antt =====
-- Async functions that leave a view of the state alone.
use polyglot_infinity.Prelude.{◌≡◌, Option, none, some, List, Text}
use polyglot_infinity.Js.Async.{
  Call, Response, Replies, Async, ret, raise, act, look, await, pause, bind, try_catch, responses,
  or_raise, assign, fetch_all, fetch, json,
}

abbrev pub Keeps : {S V : Type 0} → (S → V) → (S → S) → Type 0
Keeps {S} view h = (s : S) → view (h s) ≡ view s

module _ {Num S : Type 0} {V : Type 0} (view : S → V) where
  -- All of its assignments keep the view.
  unfoldable pub IsQuiet : {A : Type 0} → Async Num S A → Type 0
  IsQuiet (ret a) = Unit
  IsQuiet (raise m) = Unit
  IsQuiet (act h t) = Keeps view h × IsQuiet t
  IsQuiet (look g) = (s : S) → IsQuiet (g s)
  IsQuiet (await cs k) = (r : Replies Num cs) → IsQuiet (k r)
  IsQuiet (pause t) = IsQuiet t

  -- And it does not end by an exception.
  unfoldable pub IsCalm : {A : Type 0} → Async Num S A → Type 0
  IsCalm (ret a) = Unit
  IsCalm (raise m) = ⊥
  IsCalm (act h t) = Keeps view h × IsCalm t
  IsCalm (look g) = (s : S) → IsCalm (g s)
  IsCalm (await cs k) = (r : Replies Num cs) → IsCalm (k r)
  IsCalm (pause t) = IsCalm t

  pub look-IsQuiet :
      {A : Type 0} (g : S → Async Num S A) → ((s : S) → IsQuiet (g s)) → IsQuiet (look g)
  unfolding IsQuiet
  look-IsQuiet g h = h

  pub bind-IsQuiet :
      {A B : Type 0} (t : Async Num S A) (f : A → Async Num S B)
      → IsQuiet t
      → ((a : A) → IsQuiet (f a))
      → IsQuiet (bind t f)
  unfolding bind IsQuiet
  bind-IsQuiet (ret a) f h k = k a
  bind-IsQuiet (raise m) f h k = tt
  bind-IsQuiet (act g t) f h k = (h.0, bind-IsQuiet t f h.1 k)
  bind-IsQuiet (look g) f h k = λ s. bind-IsQuiet (g s) f (h s) k
  bind-IsQuiet (await cs g) f h k = λ r. bind-IsQuiet (g r) f (h r) k
  bind-IsQuiet (pause t) f h k = bind-IsQuiet t f h k

  pub try_catch-IsQuiet :
      {A : Type 0} (t : Async Num S A) (c : Text → Async Num S A)
      → IsQuiet t
      → ((m : Text) → IsQuiet (c m))
      → IsQuiet (try_catch t c)
  unfolding try_catch IsQuiet
  try_catch-IsQuiet (ret a) c h k = tt
  try_catch-IsQuiet (raise m) c h k = k m
  try_catch-IsQuiet (act g t) c h k = (h.0, try_catch-IsQuiet t c h.1 k)
  try_catch-IsQuiet (look g) c h k = λ s. try_catch-IsQuiet (g s) c (h s) k
  try_catch-IsQuiet (await cs g) c h k = λ r. try_catch-IsQuiet (g r) c (h r) k
  try_catch-IsQuiet (pause t) c h k = try_catch-IsQuiet t c h k

  pub try_catch-IsCalm :
      {A : Type 0} (t : Async Num S A) (c : Text → Async Num S A)
      → IsQuiet t
      → ((m : Text) → IsCalm (c m))
      → IsCalm (try_catch t c)
  unfolding try_catch IsQuiet IsCalm
  try_catch-IsCalm (ret a) c h k = tt
  try_catch-IsCalm (raise m) c h k = k m
  try_catch-IsCalm (act g t) c h k = (h.0, try_catch-IsCalm t c h.1 k)
  try_catch-IsCalm (look g) c h k = λ s. try_catch-IsCalm (g s) c (h s) k
  try_catch-IsCalm (await cs g) c h k = λ r. try_catch-IsCalm (g r) c (h r) k
  try_catch-IsCalm (pause t) c h k = try_catch-IsCalm t c h k

  pub bind-IsCalm :
      {A B : Type 0} (t : Async Num S A) (f : A → Async Num S B)
      → IsCalm t
      → ((a : A) → IsCalm (f a))
      → IsCalm (bind t f)
  unfolding bind IsCalm
  bind-IsCalm (ret a) f h k = k a
  bind-IsCalm (raise m) f h k = elim h [ ]
  bind-IsCalm (act g t) f h k = (h.0, bind-IsCalm t f h.1 k)
  bind-IsCalm (look g) f h k = λ s. bind-IsCalm (g s) f (h s) k
  bind-IsCalm (await cs g) f h k = λ r. bind-IsCalm (g r) f (h r) k
  bind-IsCalm (pause t) f h k = bind-IsCalm t f h k

-- The pieces of which the functions are made.
module _ (Num : Type 0) {S : Type 0} {V : Type 0} (view : S → V) where
  pub assign-IsQuiet : (h : S → S) → Keeps view h → IsQuiet {Num = Num} view (assign h)
  unfolding IsQuiet
  assign-IsQuiet h k = (k, tt)

  pub assign-IsCalm : (h : S → S) → Keeps view h → IsCalm {Num = Num} view (assign h)
  unfolding IsCalm
  assign-IsCalm h k = (k, tt)

  pub or_raise-IsQuiet :
      {A : Type 0} (o : Option A) (m : Text) → IsQuiet {Num = Num} view (or_raise o m)
  unfolding IsQuiet
  or_raise-IsQuiet none m = tt
  or_raise-IsQuiet (some a) m = tt

  pub fetch_all-IsQuiet : (cs : List Call) → IsQuiet {Num = Num} view (fetch_all cs)
  unfolding IsQuiet
  fetch_all-IsQuiet cs = λ r. or_raise-IsQuiet (responses cs r) _

  pub fetch-IsQuiet : (c : Call) → IsQuiet {Num = Num} view (fetch c)
  unfolding IsQuiet
  fetch-IsQuiet c = λ r. or_raise-IsQuiet r.0 _

  pub json-IsQuiet : (a : Response Num) → IsQuiet {Num = Num} view (json a)
  unfolding IsQuiet
  json-IsQuiet a = or_raise-IsQuiet a.body _
