-- ===== src/Panels/Shape.antt =====
-- The shapes that the handlers of the panels share: a loading flag around a body that cannot fail
-- outside, and the ways in which the bodies fetch.
pub mod Laws
pub mod Outcome
use polyglot_infinity.Prelude.{
  ℕ, Bool, true, false, Option, none, some, List, [], ◌∷◌, if◌then◌else◌, Text, codes, ◌&&◌,
}
use polyglot_infinity.Js.Value.{Json, Fields, str, obj, end, field}
use polyglot_infinity.Js.Completion.{Completion, ok, throw}
use polyglot_infinity.Js.Async.{
  Call, Response, Async, raise, ret, act, ◌>>=◌, ◌>>◌, try_catch, finally_do, is_ok, assign, fetch,
  fetch_all, json, fetch_jsons, fetch_json,
}

-- `{ error: … }`.
abbrev pub error_value : {Num : Type 0} → Text → Json Num
error_value m = obj (field (codes "error") (str m) end)

abbrev pub all_ok : {Num : Type 0} → List (Response Num) → Bool
all_ok [] = true
all_ok (a ∷ rs) = is_ok a && all_ok rs

module _ {Num S : Type 0} where
  -- `loading = true; …; try { … } catch { … } finally { loading = false; }`
  unfoldable pub with_loading :
      (Bool → S → S) → (S → S) → Async Num S (Unit {0}) → (S → S) → Async Num S (Unit {0})
  unfolding try_catch finally_do
  with_loading set_loading reset body fail =
      act (set_loading true)
        (act reset (finally_do (try_catch body (λ m. assign fail)) (set_loading false)))

  -- `const res = await fetch(…); if (res.ok) x = await res.json(); else x = { error: … };`
  unfoldable pub fetch_or : (Json Num → S → S) → Call → Text → Async Num S (Unit {0})
  fetch_or set_value call offline = do
    res ← fetch call
    if is_ok res
        then (json res >>= λ v. assign (set_value v))
        else assign (set_value (error_value offline))

  -- The value of an expression, which may throw.
  abbrev pub value_of : {A : Type 0} → Completion A → Async Num S A
  value_of (ok a) = ret a
  value_of (throw m) = raise m

  -- `await r.json()` for one response after the other.
  unfoldable pub read_all : List (Response Num) → Async Num S (List (Json Num))
  read_all [] = ret []
  read_all (a ∷ rs) = do v ← json a; vs ← read_all rs; ret (v ∷ vs)

  -- `const [a, b] = await Promise.all([fetch(…), …]); if (a.ok && b.ok) { …json()…; x = …; } else
  -- { x = { error: … }; }`
  unfoldable pub fetch_all_or :
      (Json Num → S → S)
      → List Call
      → (List (Json Num) → Completion (Json Num))
      → Text
      → Async Num S (Unit {0})
  unfolding read_all
  fetch_all_or set_value calls combine offline = do
    rs ← fetch_all calls
    if all_ok rs
        then (read_all rs >>= λ vs. value_of (combine vs) >>= λ v. assign (set_value v))
        else assign (set_value (error_value offline))

  -- `const [a, b] = await Promise.all([fetch(…).then((r) => r.json()), …]); x = …;`
  unfoldable pub fetch_jsons_into :
      (Json Num → S → S)
      → List Call
      → (List (Json Num) → Completion (Json Num))
      → Async Num S (Unit {0})
  fetch_jsons_into set_value calls combine = do
    vs ← fetch_jsons calls
    v ← value_of (combine vs)
    assign (set_value v)

  -- `x = await fetch(…).then((r) => r.json());`
  unfoldable pub fetch_json_into : (Json Num → S → S) → Call → Async Num S (Unit {0})
  fetch_json_into set_value call = do v ← fetch_json call; assign (set_value v)

  -- `const res = await fetch(…); if (res.ok) x = await res.json();`
  unfoldable pub fetch_if_ok : (Json Num → S → S) → Call → Async Num S (Unit {0})
  fetch_if_ok set_value call = do
    res ← fetch call
    if is_ok res then (json res >>= λ v. assign (set_value v)) else ret tt
