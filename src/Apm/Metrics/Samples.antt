-- ===== src/Apm/Metrics/Samples.antt =====
-- What an event contributes to the statistics, as a function of the event alone, and the grouping
-- loop against it.
use polyglot_infinity.Prelude.{
  ◌≡◌, refl, ap, sym, ◌∙◌, inl, inr, Bool, true, false, ◌||◌, Option, none, some, List, [], ◌∷◌,
  ◌++◌, append-nil, append_assoc, arith, Text, text_eq, text_eq_iff, if◌then◌else◌, Bool-cases,
}
use polyglot_infinity.Js.Completion.{ok, throw, ◌>>=◌}
use polyglot_infinity.Js.Number.{Numbers}
use polyglot_infinity.Js.Object.{get}
use polyglot_infinity.Js.Object.Laws.{get-set}
use polyglot_infinity.Js.Value.{
  Json, null, bool, num, str, arr, obj, property, as_text, as_number, null_message,
}
use polyglot_infinity.Apm.Metrics.{
  service_key, response_key, or_unknown, or_empty, Groups, add_response, add_event, group,
}

module _ {Num : Type 0} where
  abbrev pub is_null : Json Num → Bool
  is_null null = true
  is_null _ = false

  is_null-eq : (e : Json Num) → is_null e ≡ true → e ≡ null
  is_null-eq null h = refl
  is_null-eq (bool b) h = cc
  is_null-eq (num x) h = cc
  is_null-eq (str s) h = cc
  is_null-eq (arr vs) h = cc
  is_null-eq (obj fs) h = cc

  -- Whether some event is `null`.
  unfoldable pub has_null : List (Json Num) → Bool
  has_null [] = false
  has_null (e ∷ events) = is_null e || has_null events

  -- A number under `responseMs` counts, for the service that the event names.
  abbrev pub sample : Json Num → Option (Text × Num)
  sample (obj fs) = elim (as_number (property response_key fs)) [
    | none ↦ none
    | some ms ↦ some (or_unknown (as_text (property service_key fs)), ms)
  ]
  sample _ = none

  abbrev pub keep : Option (Text × Num) → List (Text × Num) → List (Text × Num)
  keep none ss = ss
  keep (some s) ss = s ∷ ss

  unfoldable pub samples : List (Json Num) → List (Text × Num)
  samples [] = []
  samples (e ∷ events) = keep (sample e) (samples events)

  -- The response times of one service, oldest first.
  unfoldable pub responses : Text → List (Text × Num) → List Num
  responses k [] = []
  responses k ((j, ms) ∷ ss) = if text_eq j k then ms ∷ responses k ss else responses k ss

  abbrev pub all_responses : List (Text × Num) → List Num
  all_responses [] = []
  all_responses ((j, ms) ∷ ss) = ms ∷ all_responses ss

  abbrev pub add_samples : Groups Num → List (Text × Num) → Groups Num
  add_samples g [] = g
  add_samples g ((k, ms) ∷ ss) = add_samples (add_response k ms g) ss

  -- A group's list once more values were pushed; no list is made for no value.
  abbrev pub extended : Option (List Num) → List Num → Option (List Num)
  extended none [] = none
  extended none (x ∷ xs) = some (x ∷ xs)
  extended (some ys) xs = some (ys ++ xs)

  extended-push :
      (o : Option (List Num)) (x : Num) (xs : List Num)
      → extended (some (or_empty o ++ x ∷ [])) xs ≡ extended o (x ∷ xs)
  extended-push none x xs = refl
  extended-push (some ys) x xs = ap some (append_assoc ys (x ∷ []) xs)

  extended-nil : (o : Option (List Num)) → extended o [] ≡ o
  extended-nil none = refl
  extended-nil (some ys) = ap some (append-nil ys)

  get-add_response :
      (k j : Text) (ms : Num) (g : Groups Num)
      → get j (add_response k ms g).by_service ≡ (
          if text_eq k j
          then some (or_empty (get k g.by_service) ++ ms ∷ [])
          else get j g.by_service)
  unfolding add_response
  get-add_response k j ms g = get-set k j _ g.by_service

  -- Each group holds the response times of its service.
  pub get-add_samples :
      (k : Text) (g : Groups Num) (ss : List (Text × Num))
      → get k (add_samples g ss).by_service ≡ extended (get k g.by_service) (responses k ss)
  unfolding responses
  get-add_samples k g [] = sym (extended-nil _)
  get-add_samples k g ((j, ms) ∷ ss) = elim (Bool-cases (text_eq j k)) [
    | inl e ↦
        let same : j ≡ k = (text_eq_iff j k).0 e in
        get-add_samples k (add_response j ms g) ss
        ∙ ap (λ o. extended o (responses k ss)) (get-add_response j k ms g)
        ∙ rw e (rw same (extended-push (get k g.by_service) ms (responses k ss)))
    | inr e ↦
        get-add_samples k (add_response j ms g) ss
        ∙ ap (λ o. extended o (responses k ss)) (get-add_response j k ms g)
        ∙ rw e
  ]

  pub all_resp-add_samples :
      (g : Groups Num) (ss : List (Text × Num))
      → (add_samples g ss).all_resp ≡ g.all_resp ++ all_responses ss
  unfolding add_response
  all_resp-add_samples g [] = sym (append-nil g.all_resp)
  all_resp-add_samples g ((k, ms) ∷ ss) =
      all_resp-add_samples (add_response k ms g) ss
      ∙ append_assoc g.all_resp (ms ∷ []) (all_responses ss)

module _ {Num : Type 0} (n : Numbers Num) where
  add_event-sample :
      (g : Groups Num) (e : Json Num)
      → is_null e ≡ false
      → add_event n g e ≡ ok (add_samples g (keep (sample e) []))
  unfolding add_event
  add_event-sample g null h = cc
  add_event-sample g (bool b) h = ground arith
  add_event-sample g (num x) h = ground arith
  add_event-sample g (str []) h = refl
  add_event-sample g (str (c ∷ s)) h = refl
  add_event-sample g (arr vs) h = refl
  add_event-sample g (obj fs) h = ground arith

  add_event-null : (g : Groups Num) → add_event n g null ≡ throw (null_message response_key)
  unfolding add_event
  add_event-null g = refl

  add_samples-keep :
      (g : Groups Num) (s : Option (Text × Num)) (ss : List (Text × Num))
      → add_samples (add_samples g (keep s [])) ss ≡ add_samples g (keep s ss)
  add_samples-keep g none ss = refl
  add_samples-keep g (some s) ss = refl

  -- With no `null` among them the events are grouped by their samples.
  pub group-samples :
      (g : Groups Num) (events : List (Json Num))
      → has_null events ≡ false
      → group n g events ≡ ok (add_samples g (samples events))
  unfolding group has_null samples
  group-samples g [] h = refl
  group-samples g (e ∷ events) h =
      ap (λ c. c >>= λ g'. group n g' events) (add_event-sample g e (ground arith))
      ∙ group-samples (add_samples g (keep (sample e) [])) events (ground arith)
      ∙ ap ok (add_samples-keep g (sample e) (samples events))

  -- The first `null` ends the loop by an exception.
  pub group-has_null :
      (g : Groups Num) (events : List (Json Num))
      → has_null events ≡ true
      → group n g events ≡ throw (null_message response_key)
  unfolding group has_null
  group-has_null g [] h = cc
  group-has_null g (e ∷ events) h = elim (Bool-cases (is_null e)) [
    | inl null_here ↦
        rw (is_null-eq e null_here) (ap (λ c. c >>= λ g'. group n g' events) (add_event-null g))
    | inr other ↦
        ap (λ c. c >>= λ g'. group n g' events) (add_event-sample g e other)
        ∙ group-has_null (add_samples g (keep (sample e) [])) events (ground arith)
  ]
