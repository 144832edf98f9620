-- ===== src/Apm/Connections.antt =====
-- apm-server/server.js, the event loop: `createServer`'s callback, `readBody`'s listeners, and the
-- handler's continuation once a body has arrived. Each step is one event, with the microtasks that
-- it starts. Requests are told apart by a number.
pub mod Pending
pub mod Atomic
pub mod Answers
use polyglot_infinity.Prelude.{
  ℕ, Bool, true, false, not, ◌&&◌, Option, none, some, List, [], ◌∷◌, ◌++◌, if◌then◌else◌, ◌==◌,
  Text, text_eq, codes,
}
use polyglot_infinity.Js.Number.{Numbers}
use polyglot_infinity.Js.Value.{Json}
use polyglot_infinity.Apm.Router.{Body, received, failed, Request, Reply, serve}
use Pending.{Conn, Table, find, put, remove, add_chunk}

pub data Event : Type 0 where
  -- A request with its method and URL.
  arrive : ℕ → Text → Text → Event
  -- `data`, `end` and `error` of a request's stream.
  chunk : ℕ → List ℕ → Event
  finish : ℕ → Event
  fail : ℕ → Text → Event

-- Whether the handler waits for `readBody`: only in its POST /ingest branch.
abbrev pub reads_body : Text → Text → Bool
reads_body m u = text_eq m (codes "POST") && text_eq u (codes "/ingest")

-- `Buffer.concat(chunks)`.
unfoldable pub concat : List (List ℕ) → List ℕ
concat [] = []
concat (c ∷ cs) = c ++ concat cs

pub record World (Num : Type 0) : Type 0 where
  pub buffer : List (Json Num)
  pub pending : Table

abbrev pub Answer : Type 0 → Type 0
Answer Num = ℕ × Reply Num

abbrev pub request : Conn → Body → Request
request c b = record { method = c.method; url = c.url; body = b }

-- What `readBody` resolves with, from the chunks so far.
abbrev pub body_text : (List ℕ → Text) → Conn → Body
body_text decode c = received (decode (concat c.chunks))

abbrev pub push_answer {ℓ} : {A : Type ℓ} → Option A → List A → List A
push_answer none rest = rest
push_answer (some a) rest = a ∷ rest

-- `JSON.parse` and `Buffer.toString('utf8')` are parameters.
module _ {Num : Type 0} (n : Numbers Num) (parse : Text → Option (Json Num))
    (decode : List ℕ → Text) where
  -- The handler runs to its end on a request.
  unfoldable pub answer : ℕ → Request → List (Json Num) → Table → World Num × Option (Answer Num)
  answer i req buffer pending =
      let (buffer', r) = serve n parse buffer req in
      (record { buffer = buffer'; pending = pending }, some (i, r))

  -- The promise of an open body settles; one that is settled already does not.
  unfoldable pub settle :
      ℕ → Option Conn → (Conn → Body) → World Num → World Num × Option (Answer Num)
  unfolding remove
  settle i none body w = (w, none)
  settle i (some c) body w = answer i (request c (body c)) w.buffer (remove i w.pending)

  abbrev pub grow : ℕ → List ℕ → Option Conn → World Num → World Num
  grow i b none w = w
  grow i b (some c) w = record w { pending = put i (add_chunk b c) w.pending }

  -- A handler that does not wait for the body runs to its end at once; `readBody` is not called, so
  -- that its request has no body that matters.
  unfoldable pub step : World Num → Event → World Num × Option (Answer Num)
  unfolding settle find put concat
  step w (arrive i m u) =
      if reads_body m u
      then (
        record w { pending = put i (record { method = m; url = u; chunks = [] }) w.pending },
        none,
      )
      else answer i (record { method = m; url = u; body = received [] }) w.buffer w.pending
  step w (chunk i b) = (grow i b (find i w.pending) w, none)
  step w (finish i) = settle i (find i w.pending) (body_text decode) w
  step w (fail i m) = settle i (find i w.pending) (λ c. failed m) w

  unfoldable pub run : World Num → List Event → World Num × List (Answer Num)
  unfolding step
  run w [] = (w, [])
  run w (e ∷ events) =
      let (w', o) = step w e in let (w'', rest) = run w' events in (w'', push_answer o rest)
