-- ===== src/Panels/Shape/Outcome.antt =====
-- What a handler with one request leaves in its panel, for every answer of the network.
use polyglot_infinity.Prelude.{
  ◌≡◌, refl, Bool, true, false, Option, none, some, List, [], ◌∷◌, if◌then◌else◌, Text,
}
use polyglot_infinity.Js.Value.{Json}
use polyglot_infinity.Js.Async.{
  Call, Response, Reply, Async, bind, try_catch, finally_do, is_ok, or_raise, bad_json,
  failed_fetch, assign, json,
}
use polyglot_infinity.Panels.Machine.{Rest, finished, crashed, waiting, advance, Answer, resume}
use polyglot_infinity.Panels.Shape.{error_value, with_loading, fetch_or}

module _ {Num S : Type 0} where
  -- The answers come in as long as the function waits.
  unfoldable pub follow : S × Rest Num S → List (Answer Num) → S × Rest Num S
  unfolding advance resume
  follow (s, finished) answers = (s, finished)
  follow (s, crashed m) answers = (s, crashed m)
  follow (s, waiting t) [] = (s, waiting t)
  follow (s, waiting t) (a ∷ answers) = follow (advance (resume t a) s) answers

  -- A function alone with the event loop.
  unfoldable pub drive : Async Num S (Unit {0}) → S → List (Answer Num) → S × Rest Num S
  unfolding advance follow
  drive t s answers = follow (advance t s) answers

  module _ (set_loading : Bool → S → S) (reset : S → S) (set_value : Json Num → S → S)
      (fail : S → S) (offline : Text) where
    -- What one answer to the request makes of the panel's result.
    abbrev pub outcome : Reply Num → S → S
    outcome none s = fail s
    outcome (some res) s =
        if is_ok res
        then (elim res.body [ none ↦ fail s | some v ↦ set_value v s ])
        else set_value (error_value offline) s

    -- The handler around what is left of its body.
    abbrev guarded : Async Num S (Unit {0}) → Async Num S (Unit {0})
    guarded t = finally_do (try_catch t (λ m. assign fail)) (set_loading false)

    parsed :
        (o : Option (Json Num)) (s : S)
        → follow (advance (guarded (bind (or_raise o bad_json) (λ v. assign (set_value v)))) s) []
          ≡ (set_loading false (elim o [ none ↦ fail s | some v ↦ set_value v s ]), finished)
    unfolding follow advance bind try_catch finally_do
    parsed none s = refl
    parsed (some v) s = refl

    checked :
        (b : Bool) (res : Response Num) (s : S) (answer : Answer Num)
        → follow
            (advance
              (guarded (
                if b
                then bind (json res) (λ v. assign (set_value v))
                else assign (set_value (error_value offline))))
              s)
            (answer ∷ [])
          ≡ (
            set_loading false (
                if b
                then (elim res.body [ none ↦ fail s | some v ↦ set_value v s ])
                else set_value (error_value offline) s),
            finished,
          )
    unfolding follow advance resume bind try_catch finally_do
    checked true res s answer = parsed res.body s
    checked false res s answer = refl

    received :
        (o : Reply Num) (s : S) (answer : Answer Num)
        → follow
            (advance
              (guarded (
                bind (or_raise o failed_fetch) (λ res.
                  if is_ok res
                  then bind (json res) (λ v. assign (set_value v))
                  else assign (set_value (error_value offline)))))
              s)
            (answer ∷ [])
          ≡ (set_loading false (outcome o s), finished)
    unfolding follow advance bind try_catch finally_do
    received none s answer = refl
    received (some res) s answer = checked (is_ok res) res s answer

    -- What a handler with one request leaves, whatever the network answers: the flag is down and
    -- the function is over, and the result is the failure's if the request failed or the body is
    -- no JSON, the offline error if the status is no success, and else the body.
    pub fetch_or-outcome :
        (call : Call) (s : S) (first second : Answer Num)
        → drive
            (with_loading set_loading reset (fetch_or set_value call offline) fail)
            s
            (first ∷ second ∷ [])
          ≡ (
            set_loading false (outcome (first (call ∷ [])).0 (reset (set_loading true s))),
            finished,
          )
    unfolding drive follow advance resume with_loading fetch_or bind try_catch finally_do
    fetch_or-outcome call s first second =
        received (first (call ∷ [])).0 (reset (set_loading true s)) second
