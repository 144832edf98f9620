-- ===== src/Apm/Buffer/History.antt =====
-- The buffer against its abstract view: the whole history of events, of which the most recent ones
-- are kept.
use polyglot_infinity.Prelude.{
  ℕ, ◌+◌, ◌-◌, ◌≤◌, ◌≡◌, refl, ap, sym, ◌∙◌, inl, inr, ◌⊎◌, List, [], ◌∷◌, ◌++◌, arith, length,
  drop, length-append, length-drop, drop-all, drop-append_left, drop-drop, drop-append_length, All,
}
use polyglot_infinity.Apm.Buffer.{max_buffer, ingest, ingest_all}
use polyglot_infinity.Apm.Buffer.Bounds.{ingest-eq-drop}

le_or_le : (a b : ℕ) → (a ≤ b) ⊎ (b ≤ a)
le_or_le a b = grind arith

module _ {ℓ} {E : Type ℓ} where
  -- The last `n` elements, all if there are fewer.
  abbrev pub last : ℕ → List E → List E
  last n xs = drop (length xs - n) xs

  -- All events, oldest first.
  abbrev pub history : List E → List (List E) → List E
  history old [] = old
  history old (events ∷ batches) = history (old ++ events) batches

  last-last_append :
      (n : ℕ) (old events : List E) → last n (last n old ++ events) ≡ last n (old ++ events)
  last-last_append n old events =
      let j = length old - n in
      let front : last n old ++ events ≡ drop j (old ++ events) =
        sym (drop-append_left j old events (omega arith)) in
      ap (last n) front
      ∙ drop-drop (length (drop j (old ++ events)) - n) j (old ++ events)
      ∙ ap (λ k. drop k (old ++ events))
          (omega (arith, length-drop j (old ++ events), length-append old events))

  last-append_congr :
      (n : ℕ) (buffer old events : List E)
      → last n buffer ≡ last n old
      → last n (buffer ++ events) ≡ last n (old ++ events)
  last-append_congr n buffer old events e =
      sym (last-last_append n buffer events)
      ∙ ap (λ l. last n (l ++ events)) e
      ∙ last-last_append n old events

  ingest_fits :
      (buffer events : List E)
      → length events ≤ max_buffer
      → ingest buffer events ≡ last max_buffer (buffer ++ events)
  ingest_fits buffer events h =
      ingest-eq-drop buffer events
      ∙ sym (
          drop-append_left (length buffer + length events - max_buffer) buffer events (omega arith))
      ∙ ap (λ k. drop k (buffer ++ events)) (omega (arith, length-append buffer events))

  ingest_over :
      (buffer events : List E)
      → max_buffer ≤ length events
      → last max_buffer (ingest buffer events) ≡ last max_buffer (buffer ++ events)
  ingest_over buffer events h =
      let gone = drop-all (length buffer + length events - max_buffer) buffer (omega arith) in
      ap (last max_buffer) (ingest-eq-drop buffer events ∙ ap (λ l. l ++ events) gone)
      ∙ sym (drop-append_length (length events - max_buffer) buffer events)
      ∙ ap (λ k. drop k (buffer ++ events)) (omega (arith, length-append buffer events))

  last-last : (n : ℕ) (xs : List E) → last n (last n xs) ≡ last n xs
  last-last n xs =
      drop-drop (length (last n xs) - n) (length xs - n) xs
      ∙ ap (λ k. drop k xs) (omega (arith, length-drop (length xs - n) xs))

  last-ingest :
      (buffer events : List E)
      → last max_buffer (ingest buffer events) ≡ last max_buffer (buffer ++ events)
  last-ingest buffer events = elim (le_or_le (length events) max_buffer) [
    | inl h ↦
        ap (last max_buffer) (ingest_fits buffer events h) ∙ last-last max_buffer (buffer ++ events)
    | inr h ↦ ingest_over buffer events h
  ]

  last-ingest_all_from :
      (buffer old : List E) (batches : List (List E))
      → last max_buffer buffer ≡ last max_buffer old
      → last max_buffer (ingest_all buffer batches) ≡ last max_buffer (history old batches)
  unfolding ingest_all
  last-ingest_all_from buffer old [] e = e
  last-ingest_all_from buffer old (events ∷ batches) e =
      last-ingest_all_from (ingest buffer events) (old ++ events) batches
        (last-ingest buffer events ∙ last-append_congr max_buffer buffer old events e)

  -- For any batches, of any sizes, the last MAX_BUFFER events of the buffer are those of the
  -- history.
  pub last-ingest_all :
      (batches : List (List E))
      → last max_buffer (ingest_all [] batches) ≡ last max_buffer (history [] batches)
  last-ingest_all batches = last-ingest_all_from [] [] batches refl

  ingest_all-refines_from :
      (old : List E) (batches : List (List E))
      → All (λ events. length events ≤ max_buffer) batches
      → ingest_all (last max_buffer old) batches ≡ last max_buffer (history old batches)
  unfolding ingest_all
  ingest_all-refines_from old [] h = refl
  ingest_all-refines_from old (events ∷ batches) h =
      ap (λ b. ingest_all b batches)
        (ingest_fits (last max_buffer old) events h.0 ∙ last-last_append max_buffer old events)
      ∙ ingest_all-refines_from (old ++ events) batches h.1

  -- If no batch is above the capacity, the buffer that starts empty is at every moment exactly the
  -- last MAX_BUFFER events of the history, in order.
  pub ingest_all-eq-last :
      (batches : List (List E))
      → All (λ events. length events ≤ max_buffer) batches
      → ingest_all [] batches ≡ last max_buffer (history [] batches)
  ingest_all-eq-last batches h = ingest_all-refines_from [] batches h
