-- ===== src/Js/Async.antt =====
-- Async functions of a component: trees of assignments to its variables, a state `S`, and of the
-- points at which they wait for the network.
pub mod Laws
use polyglot_infinity.Prelude.{
  ℕ, Bool, Option, none, some, List, [], ◌∷◌, if◌then◌else◌, leb, ◌&&◌, Text, codes,
}
use polyglot_infinity.Js.Value.{Json}

-- A request: method, URL, headers and the text of the body.
pub record Call : Type 0 where
  pub method : Text
  pub url : Text
  pub headers : List (Text × Text)
  pub body : Option Text

-- A response: its status, and what `json()` gives, or `none` where it throws.
pub record Response (Num : Type 0) : Type 0 where
  pub status : ℕ
  pub body : Option (Json Num)

-- How a request ends, where `none` is a rejected promise.
abbrev pub Reply : Type 0 → Type 0
Reply Num = Option (Response Num)

abbrev pub Replies : Type 0 → List Call → Type 0
Replies Num [] = Unit
Replies Num (c ∷ cs) = Reply Num × Replies Num cs

pub data Async (Num S A : Type 0) : Type 0 where
  ret : A → Async Num S A
  raise : Text → Async Num S A
  -- Variables are assigned to; variables are read.
  act : (S → S) → Async Num S A → Async Num S A
  look : (S → Async Num S A) → Async Num S A
  -- Requests are sent at once, and their ends awaited.
  await : (cs : List Call) → (Replies Num cs → Async Num S A) → Async Num S A
  -- An await of a promise that the environment knows already, such as a body.
  pause : Async Num S A → Async Num S A

module _ {Num S : Type 0} where
  unfoldable pub bind : {A B : Type 0} → Async Num S A → (A → Async Num S B) → Async Num S B
  bind (ret a) f = f a
  bind (raise m) f = raise m
  bind (act h t) f = act h (bind t f)
  bind (look g) f = look (λ s. bind (g s) f)
  bind (await cs k) f = await cs (λ r. bind (k r) f)
  bind (pause t) f = pause (bind t f)

  -- `try { … } catch (e) { … }`, with the message of `e`.
  unfoldable pub try_catch : {A : Type 0} → Async Num S A → (Text → Async Num S A) → Async Num S A
  try_catch (ret a) c = ret a
  try_catch (raise m) c = c m
  try_catch (act h t) c = act h (try_catch t c)
  try_catch (look g) c = look (λ s. try_catch (g s) c)
  try_catch (await cs k) c = await cs (λ r. try_catch (k r) c)
  try_catch (pause t) c = pause (try_catch t c)

  -- `… finally { … }` with assignments in the block.
  unfoldable pub finally_do : {A : Type 0} → Async Num S A → (S → S) → Async Num S A
  finally_do (ret a) h = act h (ret a)
  finally_do (raise m) h = act h (raise m)
  finally_do (act g t) h = act g (finally_do t h)
  finally_do (look g) h = look (λ s. finally_do (g s) h)
  finally_do (await cs k) h = await cs (λ r. finally_do (k r) h)
  finally_do (pause t) h = pause (finally_do t h)

infixl 5 ◌>>=◌ ◌>>◌
abbrev pub ◌>>=◌ : {Num S A B : Type 0} → Async Num S A → (A → Async Num S B) → Async Num S B
t >>= f = bind t f

abbrev pub ◌>>◌ : {Num S B : Type 0} → Async Num S (Unit {0}) → Async Num S B → Async Num S B
t >> u = bind t (λ v. u)

abbrev pub get_call : Text → Call
get_call url = record { method = codes "GET"; url = url; headers = []; body = none }

-- `res.ok`.
abbrev pub is_ok : {Num : Type 0} → Response Num → Bool
is_ok r = leb 200 r.status && leb r.status 299

abbrev pub failed_fetch : Text
failed_fetch = codes "Failed to fetch"

abbrev pub bad_json : Text
bad_json = codes "Unexpected token in JSON"

module _ {Num : Type 0} where
  -- `Promise.all` of requests: rejected as soon as one is.
  abbrev pub responses : (cs : List Call) → Replies Num cs → Option (List (Response Num))
  responses [] r = some []
  responses (c ∷ cs) (none, r) = none
  responses (c ∷ cs) (some a, r) = elim (responses cs r) [
    | none ↦ none
    | some more ↦ some (a ∷ more)
  ]

  -- The bodies of responses, if all of them parse.
  abbrev pub bodies : List (Response Num) → Option (List (Json Num))
  bodies [] = some []
  bodies (a ∷ rs) = elim a.body [
    | none ↦ none
    | some v ↦ elim (bodies rs) [ none ↦ none | some vs ↦ some (v ∷ vs) ]
  ]

  module _ {S : Type 0} where
    abbrev pub or_raise : {A : Type 0} → Option A → Text → Async Num S A
    or_raise none m = raise m
    or_raise (some a) m = ret a

    -- A variable is assigned to.
    abbrev pub assign : (S → S) → Async Num S (Unit {0})
    assign h = act h (ret tt)

    -- `await Promise.all([fetch(…), …])`.
    abbrev pub fetch_all : List Call → Async Num S (List (Response Num))
    fetch_all cs = await cs (λ r. or_raise (responses cs r) failed_fetch)

    -- `await fetch(…)`.
    abbrev pub fetch : Call → Async Num S (Response Num)
    fetch c = await (c ∷ []) (λ r. or_raise r.0 failed_fetch)

    -- `await res.json()`.
    abbrev pub json : Response Num → Async Num S (Json Num)
    json a = pause (or_raise a.body bad_json)

    abbrev jsons_of : Option (List (Response Num)) → Async Num S (List (Json Num))
    jsons_of none = raise failed_fetch
    jsons_of (some rs) = or_raise (bodies rs) bad_json

    -- `await Promise.all([fetch(…).then((r) => r.json()), …])`.
    abbrev pub fetch_jsons : List Call → Async Num S (List (Json Num))
    fetch_jsons cs = await cs (λ r. jsons_of (responses cs r))

    abbrev json_of : Reply Num → Async Num S (Json Num)
    json_of none = raise failed_fetch
    json_of (some a) = or_raise a.body bad_json

    -- `await fetch(…).then((r) => r.json())`.
    abbrev pub fetch_json : Call → Async Num S (Json Num)
    fetch_json c = await (c ∷ []) (λ r. json_of r.0)
