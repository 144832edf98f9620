-- ===== src/Apm/Connections/Atomic.antt =====
-- Interleaved connections behave like requests that are handled one at a time, each at the moment
-- when its handler reaches the buffer, and each with a body that depends on its own events alone.
use polyglot_infinity.Prelude.{
  ℕ, ◌≡◌, refl, ap, sym, ◌∙◌, inl, inr, Bool, true, false, Option, none, some, List, [], ◌∷◌, ◌++◌,
  map, arith, if◌then◌else◌, ◌==◌, ==_iff, Text, Bool-cases,
}
use polyglot_infinity.Js.Number.{Numbers}
use polyglot_infinity.Js.Value.{Json}
use polyglot_infinity.Apm.Router.{Body, received, failed, Request, Reply, serve, serve_all}
use polyglot_infinity.Apm.Connections.{
  Event, arrive, chunk, finish, fail, reads_body, World, Answer, request, body_text, push_answer,
  answer, settle, grow, step, run,
}
use polyglot_infinity.Apm.Connections.Pending.{Conn, find, add_chunk, find-put, find-remove}

abbrev pub of_request : Event → ℕ
of_request (arrive i m u) = i
of_request (chunk i b) = i
of_request (finish i) = i
of_request (fail i m) = i

-- What an event of its own does to a request whose body may be open.
abbrev pub own_step : Option Conn → Event → Option Conn
own_step o (arrive i m u) =
    if reads_body m u then some (record { method = m; url = u; chunks = [] }) else o
own_step none (chunk i b) = none
own_step (some c) (chunk i b) = some (add_chunk b c)
own_step o (finish i) = none
own_step o (fail i m) = none

-- A request's open body from its own events in a trace, oldest first.
abbrev pub own : ℕ → Option Conn → List Event → Option Conn
own i o [] = o
own i o (e ∷ events) = own i (if of_request e == i then own_step o e else o) events

abbrev pub settled : (Conn → Body) → Option Conn → Option Request
settled body none = none
settled body (some c) = some (request c (body c))

-- The request that reaches the buffer at an event, given its own events before.
abbrev pub completed : (List ℕ → Text) → Option Conn → Event → Option Request
completed decode o (arrive i m u) =
    if reads_body m u then none else some (record { method = m; url = u; body = received [] })
completed decode o (chunk i b) = none
completed decode o (finish i) = settled (body_text decode) o
completed decode o (fail i m) = settled (λ c. failed m) o

-- The requests in the order in which they reach the buffer. The body of each is found from its own
-- events among those that went before.
abbrev pub requests : (List ℕ → Text) → List Event → List Event → List Request
requests decode past [] = []
requests decode past (e ∷ events) =
    push_answer (completed decode (own (of_request e) none past) e)
      (requests decode (past ++ e ∷ []) events)

pub own-append :
    (i : ℕ) (o : Option Conn) (past : List Event) (e : Event)
    → own i o (past ++ e ∷ [])
      ≡ (if of_request e == i then own_step (own i o past) e else own i o past)
own-append i o [] e = refl
own-append i o (f ∷ past) e = own-append i (if of_request f == i then own_step o f else o) past e

if-same {ℓ} : {A : Type ℓ} (b : Bool) (x : A) → x ≡ (if b then x else x)
if-same true x = refl
if-same false x = refl

-- Under the test that two numbers are equal one may stand for the other.
if_at {ℓ} :
    {A : Type ℓ} (i j : ℕ) (f : ℕ → A) (y : A)
    → (if j == i then f j else y) ≡ (if j == i then f i else y)
if_at i j f y = elim (Bool-cases (j == i)) [
  | inl e ↦ ap (λ k. if j == i then f k else y) ((==_iff j i).0 e)
  | inr e ↦ rw e
]

module _ {Num : Type 0} (n : Numbers Num) (parse : Text → Option (Json Num))
    (decode : List ℕ → Text) where
  find-grow :
      (i j : ℕ) (b : List ℕ) (w : World Num) (o : Option Conn)
      → find j w.pending ≡ o
      → find i (grow n parse decode j b o w).pending
        ≡ (if j == i then own_step o (chunk j b) else find i w.pending)
  find-grow i j b w none h = ground (arith, ==_iff j i)
  find-grow i j b w (some c) h = find-put j i (add_chunk b c) w.pending

  find-settle :
      (i j : ℕ) (body : Conn → Body) (w : World Num) (o : Option Conn)
      → find j w.pending ≡ o
      → find i (settle n parse decode j o body w).0.pending
        ≡ (if j == i then none else find i w.pending)
  unfolding settle answer
  find-settle i j body w none h = ground (arith, ==_iff j i)
  find-settle i j body w (some c) h = find-remove j i w.pending

  -- The table after a step, at any request: events of other requests do not touch it.
  pub find-step :
      (i : ℕ) (w : World Num) (e : Event)
      → find i (step n parse decode w e).0.pending
        ≡ (if of_request e == i then own_step (find i w.pending) e else find i w.pending)
  unfolding step answer
  find-step i w (arrive j m u) = elim (Bool-cases (reads_body m u)) [
    | inl r ↦ rw r (find-put j i _ w.pending)
    | inr r ↦ rw r (if-same (j == i) (find i w.pending))
  ]
  find-step i w (chunk j b) =
      find-grow i j b w (find j w.pending) refl
      ∙ if_at i j (λ k. own_step (find k w.pending) (chunk j b)) (find i w.pending)
  find-step i w (finish j) = find-settle i j _ w (find j w.pending) refl
  find-step i w (fail j m) = find-settle i j _ w (find j w.pending) refl

  -- A request, if one reaches the buffer, is served.
  abbrev pub effect : ℕ → Option Request → List (Json Num) → List (Json Num) × Option (Answer Num)
  effect i none buffer = (buffer, none)
  effect i (some req) buffer =
      ((serve n parse buffer req).0, some (i, (serve n parse buffer req).1))

  settle-effect :
      (i : ℕ) (body : Conn → Body) (w : World Num) (o : Option Conn)
      → ((settle n parse decode i o body w).0.buffer, (settle n parse decode i o body w).1)
        ≡ effect i (settled body o) w.buffer
  unfolding settle answer
  settle-effect i body w none = refl
  settle-effect i body w (some c) = refl

  grow-effect :
      (i : ℕ) (b : List ℕ) (w : World Num) (o : Option Conn)
      → (grow n parse decode i b o w).buffer ≡ w.buffer
  grow-effect i b w none = refl
  grow-effect i b w (some c) = refl

  pub step-effect :
      (w : World Num) (e : Event)
      → ((step n parse decode w e).0.buffer, (step n parse decode w e).1)
        ≡ effect (of_request e) (completed decode (find (of_request e) w.pending) e) w.buffer
  unfolding step answer
  step-effect w (arrive i m u) = elim (Bool-cases (reads_body m u)) [ inl r ↦ rw r | inr r ↦ rw r ]
  step-effect w (chunk i b) = ap (λ l. (l, none)) (grow-effect i b w (find i w.pending))
  step-effect w (finish i) = settle-effect i (body_text decode) w (find i w.pending)
  step-effect w (fail i m) = settle-effect i (λ c. failed m) w (find i w.pending)

  -- What a client and the buffer see: the numbers of the requests left out.
  abbrev pub view : World Num × List (Answer Num) → List (Json Num) × List (Reply Num)
  view r = (r.0.buffer, map (λ a. a.1) r.1)

  abbrev joined :
      List (Json Num) × Option (Answer Num)
      → (List (Json Num) → List (Json Num) × List (Reply Num))
      → List (Json Num) × List (Reply Num)
  joined (b, none) k = k b
  joined (b, some a) k = ((k b).0, a.1 ∷ (k b).1)

  serve_all-joined :
      (i : ℕ) (o : Option Request) (buffer : List (Json Num)) (reqs : List Request)
      → serve_all n parse buffer (push_answer o reqs)
        ≡ joined (effect i o buffer) (λ b. serve_all n parse b reqs)
  unfolding serve_all
  serve_all-joined i none buffer reqs = refl
  serve_all-joined i (some req) buffer reqs = refl

  joined-at :
      (b : List (Json Num)) (o : Option (Answer Num))
      (k : List (Json Num) → List (Json Num) × List (Reply Num))
      → joined (b, o) (λ _. k b) ≡ joined (b, o) k
  joined-at b none k = refl
  joined-at b (some a) k = refl

  serve_all-nil : (buffer : List (Json Num)) → serve_all n parse buffer [] ≡ (buffer, [])
  unfolding serve_all
  serve_all-nil buffer = refl

  view-push :
      (r : World Num × List (Answer Num)) (b : List (Json Num)) (o : Option (Answer Num))
      → view (r.0, push_answer o r.1) ≡ joined (b, o) (λ _. view r)
  view-push r b none = refl
  view-push r b (some a) = refl

  run-atomic_from :
      (w : World Num) (past events : List Event)
      → ((i : ℕ) → find i w.pending ≡ own i none past)
      → view (run n parse decode w events)
        ≡ serve_all n parse w.buffer (requests decode past events)
  unfolding run
  run-atomic_from w past [] open_now = sym (serve_all-nil w.buffer)
  run-atomic_from w past (e ∷ events) open_now =
      let w' = (step n parse decode w e).0 in
      let o = (step n parse decode w e).1 in
      let i = of_request e in
      let reqs = requests decode (past ++ e ∷ []) events in
      let later = run-atomic_from w' (past ++ e ∷ []) events (λ j.
        find-step j w e
        ∙ ap (λ c. if of_request e == j then own_step c e else c) (open_now j)
        ∙ sym (own-append j none past e)) in
      view-push (run n parse decode w' events) w'.buffer o
      ∙ ap (λ v. joined (w'.buffer, o) (λ _. v)) later
      ∙ joined-at w'.buffer o (λ b. serve_all n parse b reqs)
      ∙ ap (λ p. joined p (λ b. serve_all n parse b reqs)) (step-effect w e)
      ∙ ap (λ c. joined (effect i (completed decode c e) w.buffer) (λ b. serve_all n parse b reqs))
          (open_now i)
      ∙ sym (serve_all-joined i (completed decode (own i none past) e) w.buffer reqs)

  -- Whatever way the events of the connections interleave, the buffer at the end and the replies
  -- in their order are those of handling whole requests one after the other, where each POST
  -- /ingest takes its turn when its body ends or fails, and its body is what its own chunks make
  -- up.
  pub run-atomic :
      (buffer : List (Json Num)) (events : List Event)
      → view (run n parse decode (record { buffer = buffer; pending = [] }) events)
        ≡ serve_all n parse buffer (requests decode [] events)
  unfolding find
  run-atomic buffer events =
      run-atomic_from (record { buffer = buffer; pending = [] }) [] events (λ i. refl)
