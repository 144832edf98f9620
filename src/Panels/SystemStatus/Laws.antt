-- ===== src/Panels/SystemStatus/Laws.antt =====
-- The interval and the event source of the status panel.
use polyglot_infinity.Prelude.{
  ℕ, ◌≡◌, refl, ap, ◌∙◌, ◌⊎◌, inl, inr, Bool, true, false, not, ◌&&◌, Option, none, some, List, [],
  ◌∷◌, if◌then◌else◌, ◌==◌, get_elem?, Text, arith, Bool-cases, Option-cases,
}
use polyglot_infinity.Js.Value.{Json}
use polyglot_infinity.Panels.Setting.{Setting}
use polyglot_infinity.Portal.Feed.{member, without}
use polyglot_infinity.Panels.SystemStatus.{
  SystemStatus, StatusEvent, click_auto_sync, click_sync, click_sse, click_report, answer, interval,
  on_error, on_message, leave, close_source, clear_interval, new_status, toggle_sse, aggregate,
  failed, toggle_auto_sync, destroy, step, run,
}

abbrev pub listed : Option ℕ → List ℕ
listed none = []
listed (some t) = t ∷ []

abbrev pub is_set : Option ℕ → Bool
is_set none = false
is_set (some t) = true

pub record Steady (auto : Bool) (timer : Option ℕ) (intervals : List ℕ) (source : Option ℕ)
    (connected : Bool) (opens : ℕ → Bool) (on_page : Bool) : Type 0 where
  -- On the page, the interval that runs is the panel's, and it has one exactly if it syncs.
  pub timed : on_page ≡ true → (intervals ≡ listed timer) × (auto ≡ is_set timer)
  -- A source that is open is the panel's, and shown as connected.
  pub only : (i : ℕ) → opens i ≡ true → (source ≡ some i) × (connected ≡ true)
  -- What is shown as connected is open.
  pub shown : on_page ≡ true → connected ≡ true → (i : ℕ) × (source ≡ some i) × (opens i ≡ true)
  pub left : on_page ≡ false → (intervals ≡ []) × ((i : ℕ) → opens i ≡ false)

clear-listed : (o : Option ℕ) → clear_interval o (listed o) ≡ []
unfolding clear_interval without
clear-listed none = refl
clear-listed (some t) = ground arith

close_source-own :
    (o : Option ℕ) (opens : ℕ → Bool)
    → ((i : ℕ) → opens i ≡ true → o ≡ some i)
    → (i : ℕ) → close_source o opens i ≡ false
unfolding close_source
close_source-own none opens h i = elim (Bool-cases (opens i)) [
  | inl e ↦ absurd (let no = h i e in cc)
  | inr e ↦ e
]
close_source-own (some k) opens h i = elim (Bool-cases (i == k)) [
  | inl e ↦ rw e refl
  | inr e ↦ rw e (elim (Bool-cases (opens i)) [
    | inl l ↦ absurd (let found = h i l in let same : k ≡ i = cc in ground (arith, same, e))
    | inr l ↦ l
  ])
]

set_open :
    (opens : ℕ → Bool) (k i : ℕ)
    → (if i == k then true else opens i) ≡ true
    → (k ≡ i) ⊎ (opens i ≡ true)
set_open opens k i h = elim (Bool-cases (i == k)) [
  | inl e ↦ inl (ground (arith, e))
  | inr e ↦ inr (rw e at h)
]

set_open-own : (opens : ℕ → Bool) (k : ℕ) → (if k == k then true else opens k) ≡ true
set_open-own opens k = ground arith

module _ {Num : Type 0} where
  abbrev pub IsSteady : SystemStatus Num → Type 0
  IsSteady w =
      Steady w.auto_sync w.auto_sync_interval w.intervals w.sse_source w.sse_connected w.is_open
        w.on_page

  if_when :
      (b : Bool) (v w : SystemStatus Num)
      → (b ≡ true → IsSteady v)
      → (b ≡ false → IsSteady w)
      → IsSteady (if b then v else w)
  if_when true v w h k = h refl
  if_when false v w h k = k refl

  none_open :
      (w : SystemStatus Num) → IsSteady w → (i : ℕ) → close_source w.sse_source w.is_open i ≡ false
  none_open w c = close_source-own w.sse_source w.is_open (λ i e. (c.only i e).0)

  toggle_sse-IsSteady :
      (w : SystemStatus Num) → w.on_page ≡ true → IsSteady w → IsSteady (toggle_sse w)
  unfolding toggle_sse
  toggle_sse-IsSteady w here c =
      if_when w.sse_connected _ _
        (λ e. record {
          timed = c.timed;
          only = λ i h. absurd (let no = none_open w c i in cc);
          shown = λ h k. absurd (cc);
          left = λ h. absurd (let no = here in cc);
        })
        (λ e. record {
          timed = c.timed;
          only = λ i h. elim (set_open w.is_open w.made i h) [
            | inl same ↦ (ap some same, refl)
            | inr l ↦ absurd (let no = (c.only i l).1 in cc)
          ];
          shown = λ h k. (w.made, refl, set_open-own w.is_open w.made);
          left = λ h. absurd (let no = here in cc);
        })

  failed-IsSteady : (w : SystemStatus Num) → IsSteady w → IsSteady (failed w)
  unfolding failed
  failed-IsSteady w c = record {
    timed = c.timed;
    only = λ i h. absurd (let no = none_open w c i in cc);
    shown = λ h k. absurd (cc);
    left = λ h. ((c.left h).0, none_open w c);
  }

  destroy-IsSteady : (w : SystemStatus Num) → w.on_page ≡ true → IsSteady w → IsSteady (destroy w)
  unfolding destroy
  destroy-IsSteady w here c = record {
    timed = λ h. absurd (cc);
    only = λ i h. absurd (let no = none_open w c i in cc);
    shown = λ h k. absurd (cc);
    left = λ h. (
      ap (clear_interval w.auto_sync_interval) (c.timed here).0 ∙ clear-listed w.auto_sync_interval,
      none_open w c,
    );
  }

  toggle_auto_sync-IsSteady :
      (js : Setting Num) (w : SystemStatus Num)
      → w.on_page ≡ true
      → IsSteady w
      → IsSteady (toggle_auto_sync js w)
  unfolding toggle_auto_sync
  toggle_auto_sync-IsSteady js w here c =
      if_when (not w.auto_sync) _ _
        (λ e. record {
          timed = λ h. (
            ap (λ ts. w.next_timer ∷ ts)
                ((c.timed here).0 ∙ idle w.auto_sync w.auto_sync_interval (c.timed here).1 e),
            refl,
          );
          only = c.only;
          shown = c.shown;
          left = λ h. absurd (let no = here in cc);
        })
        (λ e. record {
          timed = λ h. (
            ap (clear_interval w.auto_sync_interval) (c.timed here).0
                ∙ clear-listed w.auto_sync_interval,
            refl,
          );
          only = c.only;
          shown = c.shown;
          left = λ h. absurd (let no = here in cc);
        })
    where
      idle : (b : Bool) (o : Option ℕ) → b ≡ is_set o → not b ≡ true → listed o ≡ []
      idle b none h e = refl
      idle b (some t) h e = absurd (ground (arith, h, e))

  aggregate-IsSteady :
      (o : Option (Json Num)) (w : SystemStatus Num) → IsSteady w → IsSteady (aggregate o w)
  unfolding aggregate
  aggregate-IsSteady none w c = c
  aggregate-IsSteady (some v) w c = c

  module _ (js : Setting Num) (parse : Text → Option (Json Num)) where
    step-IsSteady :
        (w : SystemStatus Num) (e : StatusEvent Num) → IsSteady w → IsSteady (step js parse w e)
    unfolding step
    step-IsSteady w click_auto_sync c =
        if_when w.on_page _ _ (λ h. toggle_auto_sync-IsSteady js w h c) (λ h. c)
    step-IsSteady w click_sync c = if_when w.on_page _ _ (λ h. c) (λ h. c)
    step-IsSteady w click_sse c = if_when w.on_page _ _ (λ h. toggle_sse-IsSteady w h c) (λ h. c)
    step-IsSteady w click_report c =
        if_when (w.on_page && not w.fetched.report_loading) _ _ (λ h. c) (λ h. c)
    step-IsSteady w (answer i answers) c = elim (Option-cases (get_elem? w.tasks i)) [
      | inl e ↦ rw (e, step) c
      | inr (t, e) ↦ rw (e, step) c
    ]
    step-IsSteady w (interval t) c = if_when (member t w.intervals) _ _ (λ h. c) (λ h. c)
    step-IsSteady w (on_message i text) c =
        if_when (w.is_open i) _ _ (λ h. aggregate-IsSteady (parse text) w c) (λ h. c)
    step-IsSteady w (on_error i) c = if_when (w.is_open i) _ _ (λ h. failed-IsSteady w c) (λ h. c)
    step-IsSteady w leave c = if_when w.on_page _ _ (λ h. destroy-IsSteady w h c) (λ h. c)

    run-IsSteady_from :
        (events : List (StatusEvent Num)) (w : SystemStatus Num)
        → IsSteady w
        → IsSteady (run js parse w events)
    unfolding run
    run-IsSteady_from [] w c = c
    run-IsSteady_from (e ∷ events) w c =
        run-IsSteady_from events (step js parse w e) (step-IsSteady w e c)

    -- After any events: on the page, one interval is set if auto-sync is on and none else, and the
    -- stream is shown as connected exactly if an event source is open, which is the only one; once
    -- the panel is left, no interval is set and no source is open.
    pub run-IsSteady : (events : List (StatusEvent Num)) → IsSteady (run js parse new_status events)
    run-IsSteady events = run-IsSteady_from events new_status (record {
      timed = λ h. (refl, refl);
      only = λ i h. absurd (cc);
      shown = λ h k. absurd (cc);
      left = λ h. absurd (cc);
    })
