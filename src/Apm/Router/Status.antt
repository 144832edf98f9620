-- ===== src/Apm/Router/Status.antt =====
-- Which status each request is answered with, and the headers of every reply.
use polyglot_infinity.Prelude.{
  ℕ, ◌≡◌, ◌≢◌, ◌↔◌, refl, inl, inr, Bool, true, false, ◌&&◌, ◌||◌, Option, none, some, List, arith,
  if◌then◌else◌, Text, text_eq, text_eq_iff, codes, Bool-cases, Option-cases,
}
use polyglot_infinity.Js.Completion.{Completion, ok, throw}
use polyglot_infinity.Js.Number.{Numbers}
use polyglot_infinity.Js.Value.{Json, null, bool, num, str, arr, obj}
use polyglot_infinity.Apm.Query.{starts_with}
use polyglot_infinity.Apm.Metrics.{Metrics, build_metrics}
use polyglot_infinity.Apm.Metrics.Samples.{has_null}
use polyglot_infinity.Apm.Metrics.Report.{build_metrics-IsReport, build_metrics-has_null}
use polyglot_infinity.Apm.Router.{
  Body, received, failed, Request, is_get, is_post, json_headers, cors_headers, metrics_reply,
  batch_of, caught, ingest_parsed, handle_ingest, handle_request, serve,
}
use polyglot_infinity.Apm.Router.Frame.{post-not_options, post-not_get}

-- No URL is both the health probe's and a metrics request's.
health-not_metrics :
    (url : Text) → text_eq url (codes "/health") ≡ true → starts_with url (codes "/metrics") ≡ false
unfolding starts_with
health-not_metrics url h =
    let same : url ≡ codes "/health" = (text_eq_iff url (codes "/health")).0 h in rw same

get-not_options : (m : Text) → text_eq m (codes "GET") ≡ true → text_eq m (codes "OPTIONS") ≡ false
unfolding text_eq
get-not_options m h = let same : m ≡ codes "GET" = (text_eq_iff m (codes "GET")).0 h in rw same

module _ {Num : Type 0} (n : Numbers Num) (parse : Text → Option (Json Num)) where
  abbrev is_failed : Body → Bool
  is_failed (received text) = false
  is_failed (failed m) = true

  -- The two requests that end in an exception: a POST /ingest whose body cannot be read, and a GET
  -- of the metrics while the buffer holds a `null`.
  abbrev pub crashes : List (Json Num) → Request → Bool
  crashes buffer req =
      is_post req && text_eq req.url (codes "/ingest") && is_failed req.body
      || is_get req && starts_with req.url (codes "/metrics") && has_null buffer

  abbrev array_status : Option (Json Num) → ℕ
  array_status (some (arr vs)) = 202
  array_status _ = 400

  abbrev ingest_status : Body → ℕ
  ingest_status (received text) = array_status (parse text)
  ingest_status (failed m) = 500

  -- The table of statuses.
  abbrev table : List (Json Num) → Request → ℕ
  table buffer req =
      if text_eq req.method (codes "OPTIONS")
      then 204
      else if is_get req && text_eq req.url (codes "/health")
      then 200
      else if is_post req && text_eq req.url (codes "/ingest")
      then ingest_status req.body
      else if is_get req && starts_with req.url (codes "/metrics")
      then (if has_null buffer then 500 else 200)
      else 404

  ingest_parsed-status :
      (buffer : List (Json Num)) (o : Option (Json Num))
      → (caught n (ingest_parsed n buffer o).1).status ≡ array_status o
  unfolding ingest_parsed
  ingest_parsed-status buffer none = refl
  ingest_parsed-status buffer (some null) = refl
  ingest_parsed-status buffer (some (bool b)) = refl
  ingest_parsed-status buffer (some (num x)) = refl
  ingest_parsed-status buffer (some (str s)) = refl
  ingest_parsed-status buffer (some (arr vs)) = refl
  ingest_parsed-status buffer (some (obj fs)) = refl

  handle_ingest-status :
      (buffer : List (Json Num)) (b : Body)
      → (caught n (handle_ingest n parse buffer b).1).status ≡ ingest_status b
  unfolding handle_ingest
  handle_ingest-status buffer (received text) = ingest_parsed-status buffer (parse text)
  handle_ingest-status buffer (failed m) = refl

  pub metrics_reply-status :
      (buffer : List (Json Num)) (limit : ℕ)
      → (caught n (metrics_reply n (build_metrics n buffer limit))).status
        ≡ (if has_null buffer then 500 else 200)
  metrics_reply-status buffer limit = elim (Bool-cases (has_null buffer)) [
    | inl h ↦ rw (h, build_metrics-has_null n buffer limit h)
    | inr h ↦ let (m, returned, _) = build_metrics-IsReport n buffer limit h in rw (h, returned)
  ]

  handle_request-status :
      (buffer : List (Json Num)) (req : Request)
      → (caught n (handle_request n parse buffer req).1).status ≡ table buffer req
  unfolding handle_request
  handle_request-status buffer req = elim (Bool-cases (text_eq req.method (codes "OPTIONS"))) [
    | inl o ↦ rw o
    | inr o ↦ elim (Bool-cases (is_get req && text_eq req.url (codes "/health"))) [
      | inl e ↦ rw (o, e)
      | inr e ↦ elim (Bool-cases (is_post req && text_eq req.url (codes "/ingest"))) [
        | inl p ↦ rw (o, e, p) (handle_ingest-status buffer req.body)
        | inr p ↦ elim (Bool-cases (is_get req && starts_with req.url (codes "/metrics"))) [
          | inl f ↦ rw (o, e, p, f) (metrics_reply-status buffer _)
          | inr f ↦ rw (o, e, p, f)
        ]
      ]
    ]
  ]

  serve-status :
      (buffer : List (Json Num)) (req : Request)
      → (serve n parse buffer req).1.status ≡ table buffer req
  unfolding serve
  serve-status buffer req = handle_request-status buffer req

  array_status-ne : (o : Option (Json Num)) → array_status o ≢ 500
  array_status-ne o = ground arith

  ingest_status-ne : (b : Body) → (ingest_status b ≡ 500) ↔ (is_failed b ≡ true)
  ingest_status-ne (received text) = ground (arith, array_status-ne (parse text))
  ingest_status-ne (failed m) = ground arith

  -- A reply is a 500 exactly for a POST /ingest whose body could not be read, and for a GET of a
  -- path that begins with /metrics while an event in the buffer is null.
  pub serve-eq-500_iff :
      (buffer : List (Json Num)) (req : Request)
      → ((serve n parse buffer req).1.status ≡ 500) ↔ (crashes buffer req ≡ true)
  serve-eq-500_iff buffer req = ground (
    arith,
    serve-status buffer req,
    ingest_status-ne req.body,
    post-not_options req.method,
    post-not_get req.method,
    get-not_options req.method,
    health-not_metrics req.url,
  )

  ingest_parsed-headers :
      (buffer : List (Json Num)) (o : Option (Json Num))
      → (caught n (ingest_parsed n buffer o).1).headers ≡ json_headers
  unfolding ingest_parsed
  ingest_parsed-headers buffer none = refl
  ingest_parsed-headers buffer (some v) = elim (Option-cases (batch_of n v)) [
    | inl e ↦ rw (e, ingest_parsed)
    | inr (vs, e) ↦ rw (e, ingest_parsed)
  ]

  handle_ingest-headers :
      (buffer : List (Json Num)) (b : Body)
      → (caught n (handle_ingest n parse buffer b).1).headers ≡ json_headers
  unfolding handle_ingest
  handle_ingest-headers buffer (received text) = ingest_parsed-headers buffer (parse text)
  handle_ingest-headers buffer (failed m) = refl

  metrics_reply-headers :
      (c : Completion (Metrics Num)) → (caught n (metrics_reply n c)).headers ≡ json_headers
  metrics_reply-headers (ok m) = refl
  metrics_reply-headers (throw e) = refl

  -- Every reply has the CORS headers, and all but the preflight's the JSON content type as well.
  serve-headers :
      (buffer : List (Json Num)) (req : Request)
      → (serve n parse buffer req).1.headers
        ≡ (if text_eq req.method (codes "OPTIONS") then cors_headers else json_headers)
  unfolding serve handle_request
  serve-headers buffer req = elim (Bool-cases (text_eq req.method (codes "OPTIONS"))) [
    | inl o ↦ rw o
    | inr o ↦ elim (Bool-cases (is_get req && text_eq req.url (codes "/health"))) [
      | inl e ↦ rw (o, e)
      | inr e ↦ elim (Bool-cases (is_post req && text_eq req.url (codes "/ingest"))) [
        | inl p ↦ rw (o, e, p) (handle_ingest-headers buffer req.body)
        | inr p ↦ elim (Bool-cases (is_get req && starts_with req.url (codes "/metrics"))) [
          | inl f ↦ rw (o, e, p, f) (metrics_reply-headers (build_metrics n buffer _))
          | inr f ↦ rw (o, e, p, f)
        ]
      ]
    ]
  ]
