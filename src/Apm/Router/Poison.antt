-- ===== src/Apm/Router/Poison.antt =====
-- The whole server over a sequence of requests: the buffer is the window of accepted events, and
-- one `null` in the window makes every metrics request fail.
use polyglot_infinity.Prelude.{
  ◌≤◌, ◌≡◌, ◌↔◌, refl, ap, ◌∙◌, true, Option, none, some, List, [], ◌∷◌, ◌++◌, arith, length, All,
  Text, text_eq, codes,
}
use polyglot_infinity.Js.Number.{Numbers}
use polyglot_infinity.Js.Value.{Json}
use polyglot_infinity.Apm.Buffer.{max_buffer, ingest_all}
use polyglot_infinity.Apm.Buffer.History.{last, history, ingest_all-eq-last}
use polyglot_infinity.Apm.Query.Laws.{starts_with-append}
use polyglot_infinity.Apm.Metrics.Samples.{has_null}
use polyglot_infinity.Apm.Router.{Body, Request, serve, serve_all}
use polyglot_infinity.Apm.Router.Frame.{batch, ingest_if, serve-buffer}
use polyglot_infinity.Apm.Router.Status.{serve-eq-500_iff}

abbrev pub get_metrics : Text → Body → Request
get_metrics rest b = record { method = codes "GET"; url = codes "/metrics" ++ rest; body = b }

module _ {Num : Type 0} (n : Numbers Num) (parse : Text → Option (Json Num)) where
  abbrev pub add_batch : Option (List (Json Num)) → List (List (Json Num)) → List (List (Json Num))
  add_batch none bs = bs
  add_batch (some events) bs = events ∷ bs

  -- The batches that a sequence of requests brings.
  abbrev pub batches : List Request → List (List (Json Num))
  batches [] = []
  batches (req ∷ reqs) = add_batch (batch n parse req) (batches reqs)

  ingest_all-add_batch :
      (buffer : List (Json Num)) (o : Option (List (Json Num))) (bs : List (List (Json Num)))
      → ingest_all (ingest_if n parse buffer o) bs ≡ ingest_all buffer (add_batch o bs)
  unfolding ingest_all
  ingest_all-add_batch buffer none bs = refl
  ingest_all-add_batch buffer (some events) bs = refl

  -- Over any sequence of requests the buffer is what the accepted batches alone make of it.
  serve_all-buffer :
      (buffer : List (Json Num)) (reqs : List Request)
      → (serve_all n parse buffer reqs).0 ≡ ingest_all buffer (batches reqs)
  unfolding serve_all ingest_all
  serve_all-buffer buffer [] = refl
  serve_all-buffer buffer (req ∷ reqs) =
      serve_all-buffer (serve n parse buffer req).0 reqs
      ∙ ap (λ b. ingest_all b (batches reqs)) (serve-buffer n parse buffer req)
      ∙ ingest_all-add_batch buffer (batch n parse req) (batches reqs)

  get_metrics-fails_iff :
      (buffer : List (Json Num)) (rest : Text) (b : Body)
      → ((serve n parse buffer (get_metrics rest b)).1.status ≡ 500) ↔ (has_null buffer ≡ true)
  unfolding text_eq
  get_metrics-fails_iff buffer rest b = ground (
    arith,
    serve-eq-500_iff n parse buffer (get_metrics rest b),
    starts_with-append (codes "/metrics") rest,
  )

  -- After any requests of which none brings more than MAX_BUFFER events, a GET of /metrics, with
  -- any query, is a 500 exactly if one of the last MAX_BUFFER accepted events is null.
  pub metrics_fail_iff :
      (reqs : List Request) (rest : Text) (b : Body)
      → All (λ events. length events ≤ max_buffer) (batches reqs)
      → ((serve n parse (serve_all n parse [] reqs).0 (get_metrics rest b)).1.status ≡ 500)
        ↔ (has_null (last max_buffer (history [] (batches reqs))) ≡ true)
  metrics_fail_iff reqs rest b fits =
      rw (← serve_all-buffer [] reqs ∙ ingest_all-eq-last (batches reqs) fits)
        (get_metrics-fails_iff (serve_all n parse [] reqs).0 rest b)
