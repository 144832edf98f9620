-- ===== src/Portal/Statuses.antt =====
-- The service cards of the dashboard page: `statuses`, `fetchStatus` and the fetches that it starts.
-- A fetch's writes stand in one block behind its last await, so that each settles in one step.
pub mod Own
use polyglot_infinity.Prelude.{
  ℕ, Bool, true, false, ◌&&◌, ◌||◌, Option, none, some, List, [], ◌∷◌, ◌++◌, if◌then◌else◌, leb,
  ◌==◌, Text, text_eq, codes,
}
use polyglot_infinity.Js.Object.{Object, get, set}
use polyglot_infinity.Portal.Services.{Service, services}

-- A value of `statuses`; the numbers are of any type.
pub record Card (Num : Type 0) : Type 0 where
  pub status : Text
  pub latency_ms : Option Num
  pub result : Option Text

-- The bodies of the two endpoints, as the source declares them.
pub record Remote (Num : Type 0) : Type 0 where
  pub name : Text
  pub port : ℕ
  pub status : Text
  pub latency_ms : Num

pub record StatusBody : Type 0 where
  pub database : Option Text

-- How a request ends: it is rejected, or there is a response with its status, of which `json()`
-- gives a value or (`none`) throws.
pub data Fetched (B : Type 0) : Type 0 where
  rejected : Fetched B
  answered : ℕ → Option B → Fetched B

pub data Artifact : Type 0 where
  cpp zig wasm : Artifact

-- A fetch that has ended, with the round-trip time where one is taken. The body of the aggregate is
-- its field `services`.
pub data Settled (Num : Type 0) : Type 0 where
  aggregate : Fetched (Option (List (Remote Num))) → Settled Num
  go_hub : Num → Fetched StatusBody → Settled Num
  artifact : Artifact → Num → Fetched (Unit {0}) → Settled Num

abbrev pub artifact_key : Artifact → Text
artifact_key cpp = codes "cpp"
artifact_key zig = codes "zig"
artifact_key wasm = codes "wasm"

-- Which of the fetches it is.
abbrev pub source : {Num : Type 0} → Settled Num → Text
source (aggregate r) = codes "aggregate"
source (go_hub ms r) = codes "go"
source (artifact a ms r) = artifact_key a

abbrev pub sources : List Text
sources = codes "aggregate" ∷ codes "go" ∷ codes "cpp" ∷ codes "zig" ∷ codes "wasm" ∷ []

abbrev pub online : Text
online = codes "online"

-- `res.ok`.
abbrev pub is_ok : ℕ → Bool
is_ok status = leb 200 status && leb status 299

abbrev pub loading_card : {Num : Type 0} → Card Num
loading_card = record { status = codes "loading"; latency_ms = none; result = none }

abbrev pub offline_card : {Num : Type 0} → Card Num
offline_card = record { status = codes "offline"; latency_ms = none; result = none }

abbrev pub or_empty : {Num : Type 0} → Option (List (Remote Num)) → List (Remote Num)
or_empty none = []
or_empty (some remotes) = remotes

module _ {Num : Type 0} where
  -- `byName.get(name)`: of remotes with the same name, the last.
  unfoldable pub by_name : Text → List (Remote Num) → Option (Remote Num)
  by_name n [] = none
  by_name n (r ∷ rs) = elim (by_name n rs) [
    | none ↦ if text_eq r.name n then some r else none
    | some later ↦ some later
  ]

  -- A loop over the services that gives some of them a card.
  unfoldable pub assign :
      (Service → Option (Card Num)) → List Service → Object (Card Num) → Object (Card Num)
  unfolding set
  assign f [] statuses = statuses
  assign f (svc ∷ svcs) statuses = elim (f svc) [
    | none ↦ assign f svcs statuses
    | some card ↦ assign f svcs (set svc.key card statuses)
  ]

  -- `if (!svc.aggregateName) continue;`.
  abbrev pub if_aggregated : (Text → Option (Card Num)) → Option Text → Option (Card Num)
  if_aggregated f none = none
  if_aggregated f (some n) = f n

  abbrev pub offline_entry : Service → Option (Card Num)
  offline_entry svc = if_aggregated (λ n. some offline_card) svc.aggregate_name

  unfoldable pub fail_aggregate : Object (Card Num) → Object (Card Num)
  unfolding assign
  fail_aggregate = assign offline_entry services

-- `${…}` of a number is a parameter.
module _ {Num : Type 0} (show : Num → Text) where
  abbrev pub ms_text : Num → Text
  ms_text ms = show ms ++ codes "ms"

  abbrev pub remote_card : Remote Num → Card Num
  remote_card r = record {
    status = r.status;
    latency_ms = some r.latency_ms;
    result = if text_eq r.status online then some (ms_text r.latency_ms) else none;
  }

  abbrev pub card_of : Option (Remote Num) → Option (Card Num)
  card_of none = none
  card_of (some r) = some (remote_card r)

  abbrev pub remote_entry : List (Remote Num) → Service → Option (Card Num)
  remote_entry remotes svc = if_aggregated (λ n. card_of (by_name n remotes)) svc.aggregate_name

  unfoldable pub apply_aggregate : List (Remote Num) → Object (Card Num) → Object (Card Num)
  unfolding assign by_name
  apply_aggregate remotes = assign (remote_entry remotes) services

  -- `data.database ? … : …`; an empty text is false.
  abbrev pub hub_result : Num → Option Text → Text
  hub_result ms none = ms_text ms
  hub_result ms (some []) = ms_text ms
  hub_result ms (some (c ∷ s)) = codes "db: " ++ c ∷ s

  abbrev pub hub_card : Num → Fetched StatusBody → Card Num
  hub_card ms rejected = offline_card
  hub_card ms (answered status body) =
      if is_ok status
      then elim body [
        | none ↦ offline_card
        | some parsed ↦ record {
          status = online;
          latency_ms = some ms;
          result = some (hub_result ms parsed.database);
        }
      ]
      else record { status = codes "offline"; latency_ms = some ms; result = none }

  abbrev pub artifact_card : Num → Fetched (Unit {0}) → Card Num
  artifact_card ms rejected = offline_card
  artifact_card ms (answered status body) =
      if is_ok status || status == 405
      then record { status = online; latency_ms = some ms; result = some (ms_text ms) }
      else offline_card

  -- What a fetch writes to `statuses`.
  unfoldable pub write : Settled Num → Object (Card Num) → Object (Card Num)
  unfolding apply_aggregate fail_aggregate set
  write (aggregate rejected) statuses = fail_aggregate statuses
  write (aggregate (answered status none)) statuses = fail_aggregate statuses
  write (aggregate (answered status (some remotes))) statuses =
      if is_ok status then apply_aggregate (or_empty remotes) statuses else fail_aggregate statuses
  write (go_hub ms r) statuses = set (codes "go") (hub_card ms r) statuses
  write (artifact a ms r) statuses = set (artifact_key a) (artifact_card ms r) statuses
