-- ===== src/Panels/Elixir/Readiness.antt =====
-- States of sockets, refs and delays.
use polyglot_infinity.Prelude.{
  ℕ, suc, ◌*◌, ◌/◌, ◌≤◌, ◌<◌, min, ◌≡◌, refl, ◌⊎◌, inl, inr, Bool, true, false, Option, none, some,
  List, [], ◌∷◌, if◌then◌else◌, ◌==◌, arith, Bool-cases,
}
use polyglot_infinity.Panels.Elixir.{
  Ready, opening, ready_open, closing, closed, Message, phx_join, heartbeat, is_opening, is_open,
  after_close, close_socket, with_message,
}

abbrev pub is_live : Ready → Bool
is_live opening = true
is_live ready_open = true
is_live _ = false

-- Milliseconds that the backoff waits: at least 3 and at most 30 seconds, and whole ones.
pub record IsDelay (n : ℕ) : Type 0 where
  pub low : 3000 ≤ n
  pub high : n ≤ 30000
  pub whole : n / 1000 * 1000 ≡ n

abbrev pub ref_of : Message → ℕ
ref_of (phx_join n) = n
ref_of (heartbeat n) = n

-- Every ref is below the one that was sent next, and the newest below the bound.
abbrev pub IsNumbered : ℕ → List Message → Type 0
IsNumbered n [] = Unit
IsNumbered n (m ∷ ms) = (ref_of m < n) × IsNumbered (ref_of m) ms

abbrev pub NoneLive : (ℕ → Ready) → Type 0
NoneLive ready = (i : ℕ) → is_live (ready i) ≡ false

pub record Sound (ready : ℕ → Ready) (ws : Option ℕ) (delay ref : ℕ) (sent : List Message)
    (intentional on_page : Bool) : Type 0 where
  -- A socket that is opening or open is the panel's.
  pub only : (i : ℕ) → is_live (ready i) ≡ true → ws ≡ some i
  pub delays : IsDelay delay
  pub refs : IsNumbered ref sent
  pub left : on_page ≡ false → (intentional ≡ true) × NoneLive ready

pub IsNumbered-le : (m n : ℕ) (ms : List Message) → m ≤ n → IsNumbered m ms → IsNumbered n ms
IsNumbered-le m n [] h k = tt
IsNumbered-le m n (a ∷ ms) h k = (omega arith, k.1)

pub IsDelay-doubled : (n : ℕ) → IsDelay n → IsDelay (min (n * 2) 30000)
IsDelay-doubled n h =
    let low = h.low in
    let whole = h.whole in record { low = omega arith; high = omega arith; whole = omega arith }

pub after_close-live : (r : Ready) → is_live (after_close r) ≡ false
after_close-live opening = refl
after_close-live ready_open = refl
after_close-live closing = refl
after_close-live closed = refl

-- Whatever `ws` is, if it is the live one, then closing it leaves none.
pub close_socket-NoneLive :
    (o : Option ℕ) (ready : ℕ → Ready)
    → ((i : ℕ) → is_live (ready i) ≡ true → o ≡ some i)
    → NoneLive (close_socket o ready)
unfolding close_socket
close_socket-NoneLive none ready h i = elim (Bool-cases (is_live (ready i))) [
  | inl e ↦ absurd (let no = h i e in cc)
  | inr e ↦ e
]
close_socket-NoneLive (some k) ready h i = elim (Bool-cases (i == k)) [
  | inl e ↦ rw e (after_close-live (ready k))
  | inr e ↦ rw e (elim (Bool-cases (is_live (ready i))) [
    | inl l ↦ absurd (let found = h i l in let same : k ≡ i = cc in ground (arith, same, e))
    | inr l ↦ l
  ])
]

pub set-live :
    (ready : ℕ → Ready) (i j : ℕ) (r : Ready)
    → is_live (if j == i then r else ready j) ≡ true
    → (i ≡ j) ⊎ (is_live (ready j) ≡ true)
set-live ready i j r h = elim (Bool-cases (j == i)) [
  | inl e ↦ inl (ground (arith, e))
  | inr e ↦ inr (rw e at h)
]

pub set-dead :
    (ready : ℕ → Ready) (i : ℕ) (r : Ready)
    → is_live r ≡ false
    → NoneLive ready
    → NoneLive (λ j. if j == i then r else ready j)
set-dead ready i r h dead j = elim (Bool-cases (j == i)) [ inl e ↦ rw e h | inr e ↦ rw e (dead j) ]

pub is_opening-live : (r : Ready) → is_opening r ≡ true → is_live r ≡ true
is_opening-live opening h = refl
is_opening-live ready_open h = refl
is_opening-live closing h = absurd (cc)
is_opening-live closed h = absurd (cc)

pub is_opening-dead : (r : Ready) → is_live r ≡ false → is_opening r ≡ false
is_opening-dead opening h = absurd (cc)
is_opening-dead ready_open h = refl
is_opening-dead closing h = refl
is_opening-dead closed h = refl

pub is_open-dead : (r : Ready) → is_live r ≡ false → is_open r ≡ false
is_open-dead opening h = refl
is_open-dead ready_open h = absurd (cc)
is_open-dead closing h = refl
is_open-dead closed h = refl

pub with_message-IsNumbered :
    (o : Option ℕ) (ready : ℕ → Ready) (m : Message) (sent : List Message)
    → IsNumbered (ref_of m) sent
    → IsNumbered (suc (ref_of m)) (with_message o ready m sent)
unfolding with_message
with_message-IsNumbered none ready m sent h = IsNumbered-le _ _ sent (omega arith) h
with_message-IsNumbered (some i) ready m sent h = elim (Bool-cases (is_open (ready i))) [
  | inl e ↦ rw e (omega arith, h)
  | inr e ↦ rw e (IsNumbered-le _ _ sent (omega arith) h)
]
