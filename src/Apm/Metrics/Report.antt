-- ===== src/Apm/Metrics/Report.antt =====
-- What `buildMetrics` returns, and when it throws.
use polyglot_infinity.Prelude.{
  ℕ, ◌-◌, ◌≡◌, refl, ap, sym, ◌∙◌, inl, inr, true, false, ◌||◌, Option, none, some, List, [], ◌∷◌,
  ◌++◌, min, max, arith, length, take, take-append-drop, length-drop, Text, text_eq, text_eq_iff,
  text_eq_self, ◌⊎◌, if◌then◌else◌, Bool-cases,
}
use polyglot_infinity.Js.Completion.{ok, throw, ◌>>=◌}
use polyglot_infinity.Js.Number.{Numbers}
use polyglot_infinity.Js.Object.{Object, get, set, keys, has_key}
use polyglot_infinity.Js.Object.Laws.{get-set, get-eq-none, get-of_has_key, has_key-keys}
use polyglot_infinity.Js.Value.{Json, null_message}
use polyglot_infinity.Apm.Stats.{Stats, compute_stats}
use polyglot_infinity.Apm.Metrics.{
  no_groups, Metrics, response_key, clamped_limit, slice_last, stats_of, service_stats_loop,
  metrics_of, build_metrics,
}
use polyglot_infinity.Apm.Metrics.Samples.{
  has_null, samples, responses, all_responses, add_samples, extended, get-add_samples,
  all_resp-add_samples, group-samples, group-has_null,
}

module _ {Num : Type 0} (n : Numbers Num) where
  abbrev opt_stats : Option (List Num) → Option (Stats Num)
  opt_stats none = none
  opt_stats (some values) = some (compute_stats n values)

  -- The statistics of a service's values; a service without values has no entry.
  abbrev pub stats_if_any : List Num → Option (Stats Num)
  stats_if_any [] = none
  stats_if_any (x ∷ xs) = some (compute_stats n (x ∷ xs))

  opt_stats-extended : (xs : List Num) → opt_stats (extended none xs) ≡ stats_if_any xs
  opt_stats-extended [] = refl
  opt_stats-extended (x ∷ xs) = refl

  -- What a loop over present keys adds to the object of statistics.
  record Filled (by_service : Object (List Num)) (ks : List Text) (stats : Object (Stats Num))
      : Type 0 where
    result : Object (Stats Num)
    returned : service_stats_loop n by_service ks stats ≡ ok result
    at_key :
        (j : Text)
        → get j result ≡ (if has_key j ks then opt_stats (get j by_service) else get j stats)

  service_stats_loop-Filled :
      (by_service : Object (List Num)) (ks : List Text) (stats : Object (Stats Num))
      → ((k : Text) → has_key k ks ≡ true → (v : List Num) × (get k by_service ≡ some v))
      → Filled by_service ks stats
  unfolding service_stats_loop has_key
  service_stats_loop-Filled by_service [] stats present = record {
    result = stats;
    returned = refl;
    at_key = λ j. refl;
  }
  service_stats_loop-Filled by_service (k ∷ ks) stats present =
      let (v, found) = present k (rw (text_eq_self k)) in
      let s = compute_stats n v in
      let rest =
        service_stats_loop-Filled by_service ks (set k s stats) (λ j h. present j (ground arith)) in
      record {
        result = rest.result;
        returned =
            ap (λ o. stats_of n o >>= λ s'. service_stats_loop n by_service ks (set k s' stats))
              found
            ∙ rest.returned;
        at_key = λ j.
            rest.at_key j
            ∙ at_step j v found (Bool-cases (has_key j ks)) (Bool-cases (text_eq k j));
      }
    where
      at_step :
          (j : Text) (v : List Num)
          → get k by_service ≡ some v
          → (has_key j ks ≡ true) ⊎ (has_key j ks ≡ false)
          → (text_eq k j ≡ true) ⊎ (text_eq k j ≡ false)
          → (if has_key j ks
              then opt_stats (get j by_service)
              else get j (set k (compute_stats n v) stats))
            ≡ (if text_eq k j || has_key j ks then opt_stats (get j by_service) else get j stats)
      at_step j v found (inl e) (inl f) = rw (e, f)
      at_step j v found (inl e) (inr f) = rw (e, f)
      at_step j v found (inr e) (inl f) =
          let same : k ≡ j = (text_eq_iff k j).0 f in
          rw (e, f) (get-set k j _ stats ∙ rw f (sym (ap opt_stats (rw same at found))))
      at_step j v found (inr e) (inr f) = rw (e, f) (get-set k j _ stats ∙ rw f)

  all_present :
      (o : Object (List Num)) (k : Text)
      → has_key k (keys o) ≡ true
      → (v : List Num) × (get k o ≡ some v)
  all_present o k h = get-of_has_key k o (sym (has_key-keys k o) ∙ h)

  Filled-keys :
      (o : Object (List Num)) (f : Filled o (keys o) []) (j : Text)
      → get j f.result ≡ opt_stats (get j o)
  unfolding get
  Filled-keys o f j = elim (Bool-cases (has_key j (keys o))) [
    | inl e ↦ f.at_key j ∙ rw e
    | inr e ↦
        let absent = get-eq-none j o (sym (has_key-keys j o) ∙ e) in
        f.at_key j ∙ rw e (sym (ap opt_stats absent))
  ]

  -- A report of the buffer.
  pub record IsReport (buffer : List (Json Num)) (limit : ℕ) (m : Metrics Num) : Type 0 where
    pub total : m.total_ingested ≡ length buffer
    pub overall : m.overall_stats ≡ compute_stats n (all_responses (samples buffer))
    pub service : (k : Text) → get k m.service_stats ≡ stats_if_any (responses k (samples buffer))
    pub older : List (Json Num)
    pub recent : buffer ≡ older ++ m.recent_events
    pub shown : length m.recent_events ≡ min (min (max limit 1) 1000) (length buffer)

  length-slice_last :
      {A : Type 0} (k : ℕ) (xs : List A) → length (slice_last k xs) ≡ min k (length xs)
  unfolding slice_last
  length-slice_last k xs = omega (arith, length-drop (length xs - k) xs)

  -- If no buffered event is null, buildMetrics returns a report: the number of buffered events,
  -- the statistics of all response times and of each service's, in which exactly the services with
  -- a response time occur, and the most recent events, as many as the limit clamped to 1..1000.
  pub build_metrics-IsReport :
      (buffer : List (Json Num)) (limit : ℕ)
      → has_null buffer ≡ false
      → (m : Metrics Num) × (build_metrics n buffer limit ≡ ok m) × IsReport buffer limit m
  unfolding build_metrics slice_last clamped_limit
  build_metrics-IsReport buffer limit clean =
      let g = add_samples no_groups (samples buffer) in
      let filled =
        service_stats_loop-Filled g.by_service (keys g.by_service) [] (all_present g.by_service) in
      let shown = min (max limit 1) 1000 in
      let m = metrics_of n buffer limit g filled.result in
      (
        m,
        ap
              (λ c. c >>= λ g'. service_stats_loop n g'.by_service (keys g'.by_service) [] >>= λ s.
                ok (metrics_of n buffer limit g' s))
              (group-samples n no_groups buffer clean)
            ∙ ap (λ c. c >>= λ s. ok (metrics_of n buffer limit g s)) filled.returned,
        record {
          total = refl;
          overall = ap (compute_stats n) (all_resp-add_samples no_groups (samples buffer));
          service = λ k.
              Filled-keys g.by_service filled k
              ∙ ap opt_stats (get-add_samples k no_groups (samples buffer))
              ∙ opt_stats-extended (responses k (samples buffer));
          older = take (length buffer - shown) buffer;
          recent = sym (take-append-drop (length buffer - shown) buffer);
          shown = length-slice_last shown buffer;
        },
      )

  -- One `null` among the buffered events makes `buildMetrics` throw, whatever the limit.
  pub build_metrics-has_null :
      (buffer : List (Json Num)) (limit : ℕ)
      → has_null buffer ≡ true
      → build_metrics n buffer limit ≡ throw (null_message response_key)
  unfolding build_metrics
  build_metrics-has_null buffer limit h = rw (group-has_null n no_groups buffer h)
