-- ===== src/Apm/Buffer/Bounds.antt =====
-- What `ingest` keeps, and when the buffer stays within its capacity.
use polyglot_infinity.Prelude.{
  ◌+◌, ◌-◌, ◌≤◌, ◌<◌, ◌≡◌, ◌↔◌, ap, sym, ◌∙◌, inl, inr, List, [], ◌∷◌, ◌++◌, append-nil,
  append_assoc, arith, tests, ltb, length, drop, length-append, length-drop, drop-all, Bool-cases,
  min, max,
}
use polyglot_infinity.Apm.Buffer.{max_buffer, push_all, ingest}

module _ {ℓ} {E : Type ℓ} where
  push_all-append : (buffer events : List E) → push_all buffer events ≡ buffer ++ events
  unfolding push_all
  push_all-append buffer [] = rw append-nil
  push_all-append buffer (e ∷ events) =
      push_all-append (buffer ++ e ∷ []) events ∙ append_assoc buffer (e ∷ []) events

  -- After a batch the buffer is what is left of the old one behind the overflow, then the batch.
  pub ingest-eq-drop :
      (buffer events : List E)
      → ingest buffer events ≡ drop (length buffer + length events - max_buffer) buffer ++ events
  unfolding ingest
  ingest-eq-drop buffer events =
      elim (Bool-cases (ltb 0 (length buffer + length events - max_buffer))) [
        | inl e ↦ rw e (push_all-append _ events)
        | inr e ↦
            let none_over : length buffer + length events - max_buffer ≡ 0 = omega tests in
            rw e (push_all-append buffer events ∙ ap (λ k. drop k buffer ++ events) (sym none_over))
      ]

  -- The buffer's length after a batch: all events that were there and came, at most the capacity,
  -- but never fewer than the batch.
  pub length-ingest :
      (buffer events : List E)
      → length (ingest buffer events)
        ≡ max (length events) (min max_buffer (length buffer + length events))
  length-ingest buffer events = omega (
    arith,
    ap length (ingest-eq-drop buffer events),
    length-append (drop (length buffer + length events - max_buffer) buffer) events,
    length-drop (length buffer + length events - max_buffer) buffer,
  )

  -- Whatever the buffer held, it is within its capacity after a batch exactly when the batch is.
  ingest-le-max_buffer_iff :
      (buffer events : List E)
      → (length (ingest buffer events) ≤ max_buffer) ↔ (length events ≤ max_buffer)
  ingest-le-max_buffer_iff buffer events = (
    λ h. omega (arith, length-ingest buffer events),
    λ h. omega (arith, length-ingest buffer events),
  )

  -- A batch above the capacity replaces the whole buffer and stays there whole, so that the buffer
  -- is above its capacity.
  pub ingest_oversized :
      (buffer events : List E)
      → max_buffer < length events
      → (ingest buffer events ≡ events) × (max_buffer < length (ingest buffer events))
  ingest_oversized buffer events h = (
    ingest-eq-drop buffer events
        ∙ ap (λ l. l ++ events)
            (drop-all (length buffer + length events - max_buffer) buffer (omega arith)),
    omega (arith, length-ingest buffer events),
  )
