-- ===== src/Js/Completion.antt =====
-- How a function call ends: with a value, or by an exception, of which the message is kept.
use polyglot_infinity.Prelude.{Text}

pub data Completion {ℓ} (A : Type ℓ) : Type ℓ where
  ok : A → Completion A
  throw : Text → Completion A

infixl 5 ◌>>=◌
abbrev pub ◌>>=◌ {ℓ κ} :
    {A : Type ℓ} {B : Type κ} → Completion A → (A → Completion B) → Completion B
ok a >>= f = f a
throw m >>= f = throw m
