-- ===== src/Panels/Shape/Laws.antt =====
-- The shapes of the handlers keep the laws of a panel.
use polyglot_infinity.Prelude.{
  ℕ, Bool, true, false, none, some, List, [], ◌∷◌, if◌then◌else◌, Text, Option-cases, inl, inr,
}
use polyglot_infinity.Js.Value.{Json}
use polyglot_infinity.Js.Completion.{Completion, ok, throw}
use polyglot_infinity.Js.Async.{
  Call, Response, Async, bind, try_catch, is_ok, assign, fetch, fetch_all, json, fetch_jsons,
  fetch_json, responses, bodies,
}
use polyglot_infinity.Js.Async.Laws.{
  Keeps, IsQuiet, bind-IsQuiet, try_catch-IsCalm, assign-IsQuiet, assign-IsCalm, or_raise-IsQuiet,
  fetch_all-IsQuiet, fetch-IsQuiet, json-IsQuiet,
}
use polyglot_infinity.Panels.Machine.Laws.{Sets, Ends, Starts, finally_do-Ends}
use polyglot_infinity.Panels.Shape.{
  error_value, with_loading, fetch_or, value_of, all_ok, read_all, fetch_all_or, fetch_jsons_into,
  fetch_json_into, fetch_if_ok,
}

module _ (Num : Type 0) {S : Type 0} (flags : S → List Bool) where
  pub with_loading-Starts :
      (f : ℕ) (set_loading : Bool → S → S) (reset : S → S) (body : Async Num S (Unit {0}))
      (fail : S → S)
      → ((b : Bool) → Sets flags f b (set_loading b))
      → Keeps flags reset
      → IsQuiet flags body
      → Keeps flags fail
      → Starts flags (some f) (with_loading set_loading reset body fail)
  unfolding with_loading Ends
  with_loading-Starts f set_loading reset body fail sets kept quiet failed = (
    sets true,
    inl (
      kept,
      finally_do-Ends flags f (try_catch body (λ m. assign fail)) (set_loading false)
          (try_catch-IsCalm flags body (λ m. assign fail) quiet
            (λ m. assign-IsCalm Num flags fail failed))
          (sets false),
    ),
  )

  -- Both branches of a test.
  pub if-IsQuiet :
      {A : Type 0} (b : Bool) (t u : Async Num S A)
      → IsQuiet flags t
      → IsQuiet flags u
      → IsQuiet flags (if b then t else u)
  if-IsQuiet true t u h k = h
  if-IsQuiet false t u h k = k

  pub value_of-IsQuiet : {A : Type 0} (c : Completion A) → IsQuiet {Num = Num} flags (value_of c)
  unfolding IsQuiet
  value_of-IsQuiet (ok a) = tt
  value_of-IsQuiet (throw m) = tt

  pub fetch_or-IsQuiet :
      (set_value : Json Num → S → S) (call : Call) (offline : Text)
      → ((v : Json Num) → Keeps flags (set_value v))
      → IsQuiet flags (fetch_or set_value call offline)
  unfolding fetch_or
  fetch_or-IsQuiet set_value call offline keeps =
      bind-IsQuiet flags (fetch call) _ (fetch-IsQuiet Num flags call) (λ res.
        if-IsQuiet (is_ok res) _ _
          (bind-IsQuiet flags (json res) _ (json-IsQuiet Num flags res)
            (λ v. assign-IsQuiet Num flags (set_value v) (keeps v)))
          (assign-IsQuiet Num flags _ (keeps (error_value offline))))

  read_all-IsQuiet : (rs : List (Response Num)) → IsQuiet flags (read_all rs)
  unfolding read_all IsQuiet
  read_all-IsQuiet [] = tt
  read_all-IsQuiet (a ∷ rs) =
      bind-IsQuiet flags (json a) _ (json-IsQuiet Num flags a)
        (λ v. bind-IsQuiet flags (read_all rs) _ (read_all-IsQuiet rs) (λ vs. tt))

  value_into-IsQuiet :
      (set_value : Json Num → S → S) (c : Completion (Json Num))
      → ((v : Json Num) → Keeps flags (set_value v))
      → IsQuiet {Num = Num} flags (bind (value_of c) (λ v. assign (set_value v)))
  value_into-IsQuiet set_value c keeps =
      bind-IsQuiet flags (value_of c) _ (value_of-IsQuiet c)
        (λ v. assign-IsQuiet Num flags (set_value v) (keeps v))

  pub fetch_all_or-IsQuiet :
      (set_value : Json Num → S → S) (calls : List Call)
      (combine : List (Json Num) → Completion (Json Num)) (offline : Text)
      → ((v : Json Num) → Keeps flags (set_value v))
      → IsQuiet flags (fetch_all_or set_value calls combine offline)
  unfolding fetch_all_or
  fetch_all_or-IsQuiet set_value calls combine offline keeps =
      bind-IsQuiet flags (fetch_all calls) _ (fetch_all-IsQuiet Num flags calls) (λ rs.
        if-IsQuiet (all_ok rs) _ _
          (bind-IsQuiet flags (read_all rs) _ (read_all-IsQuiet rs)
            (λ vs. value_into-IsQuiet set_value (combine vs) keeps))
          (assign-IsQuiet Num flags _ (keeps (error_value offline))))

  pub jsons-IsQuiet : (calls : List Call) → IsQuiet {Num = Num} flags (fetch_jsons calls)
  unfolding IsQuiet
  jsons-IsQuiet calls r = elim (Option-cases (responses calls r)) [
    | inl e ↦ rw e tt
    | inr (rs, e) ↦ rw e (or_raise-IsQuiet Num flags (bodies rs) _)
  ]

  pub fetch_json-IsQuiet : (call : Call) → IsQuiet {Num = Num} flags (fetch_json call)
  unfolding IsQuiet
  fetch_json-IsQuiet call (none, r) = tt
  fetch_json-IsQuiet call (some a, r) = or_raise-IsQuiet Num flags a.body _

  pub fetch_jsons_into-IsQuiet :
      (set_value : Json Num → S → S) (calls : List Call)
      (combine : List (Json Num) → Completion (Json Num))
      → ((v : Json Num) → Keeps flags (set_value v))
      → IsQuiet flags (fetch_jsons_into set_value calls combine)
  unfolding fetch_jsons_into
  fetch_jsons_into-IsQuiet set_value calls combine keeps =
      bind-IsQuiet flags (fetch_jsons calls) _ (jsons-IsQuiet calls)
        (λ vs. value_into-IsQuiet set_value (combine vs) keeps)

  pub fetch_json_into-IsQuiet :
      (set_value : Json Num → S → S) (call : Call)
      → ((v : Json Num) → Keeps flags (set_value v))
      → IsQuiet flags (fetch_json_into set_value call)
  unfolding fetch_json_into
  fetch_json_into-IsQuiet set_value call keeps =
      bind-IsQuiet flags (fetch_json call) _ (fetch_json-IsQuiet call)
        (λ v. assign-IsQuiet Num flags (set_value v) (keeps v))

  pub fetch_if_ok-IsQuiet :
      (set_value : Json Num → S → S) (call : Call)
      → ((v : Json Num) → Keeps flags (set_value v))
      → IsQuiet flags (fetch_if_ok set_value call)
  unfolding fetch_if_ok IsQuiet
  fetch_if_ok-IsQuiet set_value call keeps =
      bind-IsQuiet flags (fetch call) _ (fetch-IsQuiet Num flags call) (λ res.
        if-IsQuiet (is_ok res) _ _
          (bind-IsQuiet flags (json res) _ (json-IsQuiet Num flags res)
            (λ v. assign-IsQuiet Num flags (set_value v) (keeps v)))
          tt)
