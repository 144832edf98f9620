-- ===== src/Apm/Buffer.antt =====
-- apm-server/server.js, the circular buffer: `MAX_BUFFER` and `ingest`. The events are of any type.
pub mod Bounds
pub mod History
use polyglot_infinity.Prelude.{ℕ, ◌+◌, ◌-◌, List, [], ◌∷◌, ◌++◌, if◌then◌else◌, ltb, length, drop}

abbrev pub max_buffer : ℕ
max_buffer = 100000

module _ {ℓ} {E : Type ℓ} where
  -- The loop `buffer.push(events[i])`.
  unfoldable pub push_all : List E → List E → List E
  push_all buffer [] = buffer
  push_all buffer (e ∷ events) = push_all (buffer ++ e ∷ []) events

  -- `splice(0, k)` removes the first `k` elements, or all. The source's `overflow` may be negative,
  -- and is only used where it is positive, so that subtraction may stop at 0.
  unfoldable pub ingest : List E → List E → List E
  unfolding push_all
  ingest buffer events =
      let overflow = length buffer + length events - max_buffer in
      let kept = if ltb 0 overflow then drop overflow buffer else buffer in push_all kept events

  -- The state of the module after batches, in the order in which they were ingested.
  unfoldable pub ingest_all : List E → List (List E) → List E
  unfolding ingest
  ingest_all buffer [] = buffer
  ingest_all buffer (events ∷ batches) = ingest_all (ingest buffer events) batches
