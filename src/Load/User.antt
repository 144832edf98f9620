-- ===== src/Load/User.antt =====
-- A virtual user: what the k6 library does for a script, as operations on a record of all that the
-- user has done.
use polyglot_infinity.Prelude.{
  ℕ, suc, ◌≤◌, Bool, Option, none, some, List, [], ◌∷◌, ◌++◌, length, Text, codes, leb,
}
use polyglot_infinity.Js.Value.{Json}

-- The numbers of the payloads: whole, or hundredths.
pub data Amount : Type 0 where
  whole : ℕ → Amount
  hundredths : ℕ → Amount

-- A request: method, URL, the value given to `JSON.stringify`, headers and timeout.
pub record Call : Type 0 where
  pub method : Text
  pub url : Text
  pub payload : Option (Json Amount)
  pub headers : List (Text × Text)
  pub timeout : Option Text

-- A response: its status, `json(field)` with `none` for undefined, as it is of a body that is no JSON,
-- and whether `json()` is an object, with `none` where it throws.
pub record Response : Type 0 where
  pub status : ℕ
  pub json : Text → Option (Json Amount)
  pub is_object : Option Bool

-- The environment, in the order in which the user turns to it: the draw with a number between two
-- bounds, the reading of the clock, and the response to a request.
pub record Env : Type 0 where
  pub random : ℕ → ℕ → ℕ → ℕ
  pub random_bounds : (k lo hi : ℕ) → lo ≤ hi → (lo ≤ random k lo hi) × (random k lo hi ≤ hi)
  pub clock : ℕ → ℕ
  pub respond : ℕ → Call → Response

pub data Trend : Type 0 where
  order_latency workflow_latency aggregate_latency : Trend

pub record Vu : Type 0 where
  -- How many random numbers were drawn, and how often the clock was read.
  pub draws : ℕ
  pub ticks : ℕ
  -- The requests with their responses, oldest first.
  pub calls : List (Call × Response)
  pub checks : List (Text × Bool)
  -- The samples of `custom_error_rate`, of the latencies (end and start), and the scenario counter.
  pub errors : List Bool
  pub latencies : List (Trend × ℕ × ℕ)
  pub hits : ℕ
  pub sleeps : List ℕ

abbrev pub new_vu : Vu
new_vu = record {
  draws = 0;
  ticks = 0;
  calls = [];
  checks = [];
  errors = [];
  latencies = [];
  hits = 0;
  sleeps = [];
}

-- `none` is an iteration that does not come to its end: it draws for too long, or an exception ends it.
abbrev pub M : Type 0 → Type 0
M A = Vu → Option (A × Vu)

infixl 5 ◌>>=◌ ◌>>◌
abbrev pub ◌>>=◌ : {A B : Type 0} → M A → (A → M B) → M B
◌>>=◌ m f v = elim (m v) [ none ↦ none | some (a, v') ↦ f a v' ]

abbrev pub ◌>>◌ : {B : Type 0} → M (Unit {0}) → M B → M B
◌>>◌ m k v = elim (m v) [ none ↦ none | some (a, v') ↦ k v' ]

abbrev pub pure : {A : Type 0} → A → M A
pure a v = some (a, v)

abbrev pub done : M (Unit {0})
done = pure tt

abbrev pub base : Text
base = codes "http://localhost:8080"

abbrev pub json_headers : List (Text × Text)
json_headers = (codes "Content-Type", codes "application/json") ∷ []

-- `res.status >= 400`.
abbrev pub is_error : Response → Bool
is_error r = leb 400 r.status

module _ (env : Env) where
  abbrev pub random_int_between : ℕ → ℕ → M ℕ
  random_int_between lo hi v = some (env.random v.draws lo hi, record v { draws = suc v.draws })

  -- `Date.now()`.
  abbrev pub now : M ℕ
  now v = some (env.clock v.ticks, record v { ticks = suc v.ticks })

  abbrev pub send : Call → M Response
  send c v =
      let r = env.respond (length v.calls) c in
      some (r, record v { calls = v.calls ++ (c, r) ∷ [] })

  abbrev pub get_with : Option Text → Text → M Response
  get_with timeout path = send (record {
    method = codes "GET";
    url = base ++ path;
    payload = none;
    headers = [];
    timeout = timeout;
  })

  abbrev pub http_get : Text → M Response
  http_get = get_with none

  abbrev pub http_post : Text → Option (Json Amount) → Option Text → M Response
  http_post path payload timeout = send (record {
    method = codes "POST";
    url = base ++ path;
    payload = payload;
    headers = json_headers;
    timeout = timeout;
  })

-- `check(res, …)` with the outcome of each named test.
abbrev pub check : List (Text × Bool) → M (Unit {0})
check tests v = some (tt, record v { checks = v.checks ++ tests })

abbrev pub add_error : Bool → M (Unit {0})
add_error b v = some (tt, record v { errors = v.errors ++ b ∷ [] })

abbrev pub add_latency : Trend → ℕ → ℕ → M (Unit {0})
add_latency t stop start v =
    some (tt, record v { latencies = v.latencies ++ (t, stop, start) ∷ [] })

abbrev pub add_hit : M (Unit {0})
add_hit v = some (tt, record v { hits = suc v.hits })

-- `sleep(ms / 1000)`.
abbrev pub sleep_ms : ℕ → M (Unit {0})
sleep_ms ms v = some (tt, record v { sleeps = v.sleeps ++ ms ∷ [] })
