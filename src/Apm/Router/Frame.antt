-- ===== src/Apm/Router/Frame.antt =====
-- What a request does to the buffer.
use polyglot_infinity.Prelude.{
  ◌≡◌, refl, ap, ◌∙◌, inl, inr, Bool, true, false, ◌&&◌, Option, none, some, List, arith,
  if◌then◌else◌, Text, text_eq, text_eq_iff, codes, Bool-cases,
}
use polyglot_infinity.Js.Number.{Numbers}
use polyglot_infinity.Js.Value.{Json, null, bool, num, str, arr, obj}
use polyglot_infinity.Apm.Buffer.{ingest}
use polyglot_infinity.Apm.Query.{starts_with}
use polyglot_infinity.Apm.Router.{
  Body, received, failed, Request, is_get, is_post, batch_of, ingest_parsed, handle_ingest,
  handle_request, serve,
}

-- The methods are distinct.
pub post-not_options :
    (m : Text) → text_eq m (codes "POST") ≡ true → text_eq m (codes "OPTIONS") ≡ false
unfolding text_eq
post-not_options m h = let same : m ≡ codes "POST" = (text_eq_iff m (codes "POST")).0 h in rw same

pub post-not_get : (m : Text) → text_eq m (codes "POST") ≡ true → text_eq m (codes "GET") ≡ false
unfolding text_eq
post-not_get m h = let same : m ≡ codes "POST" = (text_eq_iff m (codes "POST")).0 h in rw same

pub both : (a b : Bool) → (a && b) ≡ true → (a ≡ true) × (b ≡ true)
both a b h = ground arith

module _ {Num : Type 0} (n : Numbers Num) (parse : Text → Option (Json Num)) where
  abbrev array_of : Option (Json Num) → Option (List (Json Num))
  array_of none = none
  array_of (some v) = batch_of n v

  abbrev batch_in : Body → Option (List (Json Num))
  batch_in (received text) = array_of (parse text)
  batch_in (failed m) = none

  -- The batch that a request brings: the elements of the JSON array in the body of a POST /ingest
  -- that was read to its end.
  abbrev pub batch : Request → Option (List (Json Num))
  batch req = if is_post req && text_eq req.url (codes "/ingest") then batch_in req.body else none

  abbrev pub ingest_if : List (Json Num) → Option (List (Json Num)) → List (Json Num)
  ingest_if buffer none = buffer
  ingest_if buffer (some events) = ingest buffer events

  ingest_parsed-buffer :
      (buffer : List (Json Num)) (o : Option (Json Num))
      → (ingest_parsed n buffer o).0 ≡ ingest_if buffer (array_of o)
  unfolding ingest_parsed
  ingest_parsed-buffer buffer none = refl
  ingest_parsed-buffer buffer (some null) = refl
  ingest_parsed-buffer buffer (some (bool b)) = refl
  ingest_parsed-buffer buffer (some (num x)) = refl
  ingest_parsed-buffer buffer (some (str s)) = refl
  ingest_parsed-buffer buffer (some (arr vs)) = refl
  ingest_parsed-buffer buffer (some (obj fs)) = refl

  handle_ingest-buffer :
      (buffer : List (Json Num)) (b : Body)
      → (handle_ingest n parse buffer b).0 ≡ ingest_if buffer (batch_in b)
  unfolding handle_ingest
  handle_ingest-buffer buffer (received text) = ingest_parsed-buffer buffer (parse text)
  handle_ingest-buffer buffer (failed m) = refl

  -- A POST to /ingest is handled by the ingest branch.
  pub handle_request-ingest :
      (buffer : List (Json Num)) (req : Request)
      → is_post req ≡ true
      → text_eq req.url (codes "/ingest") ≡ true
      → handle_request n parse buffer req ≡ handle_ingest n parse buffer req.body
  unfolding handle_request
  handle_request-ingest buffer req p u =
      rw (post-not_options req.method p, post-not_get req.method p, p, u)

  -- Every other request leaves the buffer as it was.
  handle_request-other :
      (buffer : List (Json Num)) (req : Request)
      → (is_post req && text_eq req.url (codes "/ingest")) ≡ false
      → (handle_request n parse buffer req).0 ≡ buffer
  unfolding handle_request
  handle_request-other buffer req h = elim (Bool-cases (text_eq req.method (codes "OPTIONS"))) [
    | inl o ↦ rw o
    | inr o ↦ elim (Bool-cases (is_get req && text_eq req.url (codes "/health"))) [
      | inl e ↦ rw (o, e)
      | inr e ↦ elim (Bool-cases (is_get req && starts_with req.url (codes "/metrics"))) [
        | inl f ↦ rw (o, e, h, f)
        | inr f ↦ rw (o, e, h, f)
      ]
    ]
  ]

  handle_request-buffer :
      (buffer : List (Json Num)) (req : Request)
      → (handle_request n parse buffer req).0 ≡ ingest_if buffer (batch req)
  handle_request-buffer buffer req =
      elim (Bool-cases (is_post req && text_eq req.url (codes "/ingest"))) [
        | inl h ↦
            let (p, u) = both (is_post req) (text_eq req.url (codes "/ingest")) h in
            rw h (
              ap (λ r. r.0) (handle_request-ingest buffer req p u)
              ∙ handle_ingest-buffer buffer req.body)
        | inr h ↦ rw h (handle_request-other buffer req h)
      ]

  -- The buffer after any request: the batch of an accepted POST /ingest is ingested, and nothing
  -- else changes it, whether the request succeeds or fails.
  pub serve-buffer :
      (buffer : List (Json Num)) (req : Request)
      → (serve n parse buffer req).0 ≡ ingest_if buffer (batch req)
  unfolding serve
  serve-buffer buffer req = handle_request-buffer buffer req
