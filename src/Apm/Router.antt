-- ===== src/Apm/Router.antt =====
-- apm-server/server.js, the request router: `handleRequest`, the catch of `createServer`, and the
-- bodies that they write. A body is the value given to `JSON.stringify`.
pub mod Frame
pub mod Status
pub mod Poison
use polyglot_infinity.Prelude.{
  ℕ, Bool, true, false, ◌&&◌, Option, none, some, List, [], ◌∷◌, ◌++◌, if◌then◌else◌, length, Text,
  text_eq, codes,
}
use polyglot_infinity.Js.Completion.{Completion, ok, throw}
use polyglot_infinity.Js.Number.{Numbers}
use polyglot_infinity.Js.Object.{Object}
use polyglot_infinity.Js.Value.{Json, Fields, num, str, arr, obj, end, field, elements, items}
use polyglot_infinity.Apm.Buffer.{ingest}
use polyglot_infinity.Apm.Stats.{Stats}
use polyglot_infinity.Apm.Metrics.{Metrics, build_metrics}
use polyglot_infinity.Apm.Query.{starts_with, requested_limit}

-- How the promise of `readBody` settles.
pub data Body : Type 0 where
  received : Text → Body
  failed : Text → Body

pub record Request : Type 0 where
  pub method : Text
  pub url : Text
  pub body : Body

pub record Reply (Num : Type 0) : Type 0 where
  pub status : ℕ
  pub headers : List (Text × Text)
  pub body : Option (Json Num)

abbrev pub cors_headers : List (Text × Text)
cors_headers =
    (codes "Access-Control-Allow-Origin", codes "*")
    ∷ (codes "Access-Control-Allow-Methods", codes "GET, POST, OPTIONS")
    ∷ (codes "Access-Control-Allow-Headers", codes "Content-Type, X-Correlation-Id")
    ∷ []

abbrev pub json_headers : List (Text × Text)
json_headers = (codes "Content-Type", codes "application/json") ∷ cors_headers

abbrev pub is_get : Request → Bool
is_get req = text_eq req.method (codes "GET")

abbrev pub is_post : Request → Bool
is_post req = text_eq req.method (codes "POST")

module _ {Num : Type 0} (n : Numbers Num) where
  abbrev pub count_json : ℕ → Json Num
  count_json k = num (n.of_ℕ k)

  -- `JSON.stringify` leaves out a field that is `undefined`.
  abbrev pub opt_field : Text → Option Num → Fields Num → Fields Num
  opt_field k none fs = fs
  opt_field k (some v) fs = field k (num v) fs

  abbrev pub stats_json : Stats Num → Json Num
  stats_json s = obj (
      field (codes "count") (count_json s.count) (
        opt_field (codes "p50") s.p50 (
          opt_field (codes "p95") s.p95 (
            opt_field (codes "p99") s.p99
              (field (codes "avg") (num s.avg) (opt_field (codes "max") s.max end))))))

  abbrev pub services_json : Object (Stats Num) → Fields Num
  services_json [] = end
  services_json ((k, s) ∷ o) = field k (stats_json s) (services_json o)

  abbrev pub metrics_json : Metrics Num → Json Num
  metrics_json m = obj (
      field (codes "total_ingested") (count_json m.total_ingested) (
        field (codes "overall_stats") (stats_json m.overall_stats) (
          field (codes "service_stats") (obj (services_json m.service_stats))
            (field (codes "recent_events") (arr (items m.recent_events)) end))))

  abbrev pub json_reply : ℕ → Json Num → Reply Num
  json_reply status v = record { status = status; headers = json_headers; body = some v }

  abbrev pub error_json : Text → Json Num
  error_json m = obj (field (codes "error") (str m) end)

  -- The CORS preflight has the CORS headers alone, and no body.
  abbrev pub preflight : Reply Num
  preflight = record { status = 204; headers = cors_headers; body = none }

  abbrev pub health : List (Json Num) → Reply Num
  health buffer = json_reply 200 (
      obj (
        field (codes "status") (str (codes "ok"))
          (field (codes "buffered") (count_json (length buffer)) end)))

  -- The reply to GET /metrics, unless `buildMetrics` throws.
  abbrev pub metrics_reply : Completion (Metrics Num) → Completion (Reply Num)
  metrics_reply (ok m) = ok (json_reply 200 (metrics_json m))
  metrics_reply (throw e) = throw e

  abbrev pub accepted_json : ℕ → ℕ → Json Num
  accepted_json accepted total = obj (
      field (codes "accepted") (count_json accepted) (field (codes "total") (count_json total) end))

  -- `Array.isArray(events)`, and the batch.
  abbrev pub batch_of : Json Num → Option (List (Json Num))
  batch_of (arr vs) = some (elements vs)
  batch_of _ = none

  -- POST /ingest behind `JSON.parse`; `none` where that throws.
  unfoldable pub ingest_parsed :
      List (Json Num) → Option (Json Num) → List (Json Num) × Completion (Reply Num)
  unfolding ingest
  ingest_parsed buffer none =
      (buffer, ok (json_reply 400 (error_json (codes "request body must be valid JSON"))))
  ingest_parsed buffer (some v) = elim (batch_of v) [
    | none ↦ (buffer, ok (json_reply 400 (error_json (codes "request body must be a JSON array"))))
    | some events ↦
        let buffer' = ingest buffer events in
        (buffer', ok (json_reply 202 (accepted_json (length events) (length buffer'))))
  ]

  abbrev pub not_found : Text → Reply Num
  not_found url =
      json_reply 404
        (obj (field (codes "error") (str (codes "not found")) (field (codes "path") (str url) end)))

  -- `handleRequest(req, res).catch(…)`. No branch throws behind `writeHead`, so `headersSent` is
  -- false here.
  abbrev pub caught : Completion (Reply Num) → Reply Num
  caught (ok r) = r
  caught (throw m) = json_reply 500 (error_json m)

  -- `JSON.parse` is a parameter.
  module _ (parse : Text → Option (Json Num)) where
    unfoldable pub handle_ingest : List (Json Num) → Body → List (Json Num) × Completion (Reply Num)
    unfolding ingest_parsed
    handle_ingest buffer (received text) = ingest_parsed buffer (parse text)
    handle_ingest buffer (failed m) = (buffer, throw m)

    unfoldable pub handle_request :
        List (Json Num) → Request → List (Json Num) × Completion (Reply Num)
    unfolding handle_ingest build_metrics starts_with requested_limit
    handle_request buffer req =
        if text_eq req.method (codes "OPTIONS")
        then (buffer, ok preflight)
        else if is_get req && text_eq req.url (codes "/health")
        then (buffer, ok (health buffer))
        else if is_post req && text_eq req.url (codes "/ingest")
        then handle_ingest buffer req.body
        else if is_get req && starts_with req.url (codes "/metrics")
        then (buffer, metrics_reply (build_metrics n buffer (requested_limit req.url)))
        else (buffer, ok (not_found req.url))

    unfoldable pub serve : List (Json Num) → Request → List (Json Num) × Reply Num
    unfolding handle_request
    serve buffer req = let (buffer', c) = handle_request buffer req in (buffer', caught c)

    -- The process over requests, in the order in which their handlers reach the buffer.
    unfoldable pub serve_all : List (Json Num) → List Request → List (Json Num) × List (Reply Num)
    unfolding serve
    serve_all buffer [] = (buffer, [])
    serve_all buffer (req ∷ reqs) =
        let (buffer', r) = serve buffer req in
        let (final, rs) = serve_all buffer' reqs in (final, r ∷ rs)
