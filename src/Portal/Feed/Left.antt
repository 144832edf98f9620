-- ===== src/Portal/Feed/Left.antt =====
-- What happens to the order feed once the page is left: the cleanup closes its socket, whose close
-- event makes the page connect again.
use polyglot_infinity.Prelude.{
  ℕ, zero, suc, ◌≡◌, ◌<◌, ◌==◌, inl, inr, refl, true, false, Option, none, some, List, [], ◌∷◌,
  ◌++◌, map, arith, Text, Bool-cases, ap, ◌∙◌, sym, subst, take,
}
use polyglot_infinity.Portal.Feed.{
  connected, Feed, FeedEvent, on_open, on_message, on_close, on_error, timeout, leave, member,
  without, connect_order_feed, mounted, hears, receive, close_conn, fire, closed, step, run,
}
use polyglot_infinity.Portal.Feed.Alive.{HasSocket}

module _ {E : Type 0} where
  -- No socket that is still to be made has been told to close, or is the page's.
  abbrev IsFresh : Feed E → Type 0
  IsFresh w =
      ((i : ℕ) → member i w.closing ≡ true → i < w.made)
      × ((i : ℕ) → w.ws_conn ≡ some i → i < w.made)

mounted-IsFresh : (E : Type 0) → IsFresh (mounted {E = E})
unfolding mounted connect_order_feed member
mounted-IsFresh E = (λ i h. absurd (cc), λ i h. let same : 0 ≡ i = cc in omega (arith, same))

module _ {E : Type 0} where
  receive-IsFresh : (o : Option E) (w : Feed E) → IsFresh w → IsFresh (receive o w)
  unfolding receive
  receive-IsFresh none w h = h
  receive-IsFresh (some parsed) w h = h

  close_conn-IsFresh :
      (o : Option ℕ) (w : Feed E) → o ≡ w.ws_conn → IsFresh w → IsFresh (close_conn o w)
  unfolding close_conn member
  close_conn-IsFresh none w e h = h
  close_conn-IsFresh (some i) w e h = (told, h.1)
    where
      told : (j : ℕ) → member j (i ∷ w.closing) ≡ true → j < w.made
      told j here = elim (Bool-cases (member j w.closing)) [
        | inl b ↦ h.0 j b
        | inr b ↦ let bound = h.1 i (sym e) in ground (arith, here, b, bound)
      ]

  fire-IsFresh : (k : ℕ) (w : Feed E) → IsFresh w → IsFresh (fire k w)
  unfolding fire connect_order_feed
  fire-IsFresh zero w h = h
  fire-IsFresh (suc k) w h = (
    λ i here. let bound = h.0 i here in omega (arith, bound),
    λ i e. let same : w.made ≡ i = cc in omega (arith, same),
  )

  closed-IsFresh : (i : ℕ) (w : Feed E) → IsFresh w → IsFresh (closed i w)
  unfolding closed
  closed-IsFresh i w h = (h.0, λ j e. absurd (cc))

  fresh_made :
      (w : Feed E) (i : ℕ) → IsFresh w → w.ws_conn ≡ some i → member w.made (i ∷ w.closing) ≡ false
  unfolding member
  fresh_made w i h e =
      let bound = h.1 i e in
      elim (Bool-cases (member w.made w.closing)) [
        | inl b ↦ let told = h.0 w.made b in absurd (omega (arith, told))
        | inr b ↦ ground (arith, bound, b)
      ]

  -- A socket that was told to close is not heard.
  deaf : (w : Feed E) (i : ℕ) → hears (record w { closing = i ∷ w.closing }) i ≡ false
  unfolding hears member
  deaf w i = ground arith

  module _ (parse : Text → Option E) where
    step-IsFresh : (w : Feed E) (e : FeedEvent) → IsFresh w → IsFresh (step parse w e)
    unfolding step
    step-IsFresh w (on_open i) h = elim (Bool-cases (hears w i)) [
      | inl e ↦ rw (e, step) h
      | inr e ↦ rw (e, step) h
    ]
    step-IsFresh w (on_message i text) h = elim (Bool-cases (hears w i)) [
      | inl e ↦ rw (e, step) (receive-IsFresh (parse text) w h)
      | inr e ↦ rw (e, step) h
    ]
    step-IsFresh w (on_close i) h = elim (Bool-cases (member i w.live)) [
      | inl e ↦ rw (e, step) (closed-IsFresh i w h)
      | inr e ↦ rw (e, step) h
    ]
    step-IsFresh w (on_error i) h = elim (Bool-cases (member i w.live)) [
      | inl e ↦ rw (e, step) h
      | inr e ↦ rw (e, step) h
    ]
    step-IsFresh w timeout h = fire-IsFresh w.timers w h
    step-IsFresh w leave h = close_conn-IsFresh w.ws_conn w refl h

    run-IsFresh : (w : Feed E) (events : List FeedEvent) → IsFresh w → IsFresh (run parse w events)
    unfolding run
    run-IsFresh w [] h = h
    run-IsFresh w (e ∷ events) h = run-IsFresh (step parse w e) events (step-IsFresh w e h)

    -- Messages of a socket that is not heard change nothing.
    run-late :
        (w : Feed E) (i : ℕ) (late : List Text) (events : List FeedEvent)
        → hears w i ≡ false
        → run parse w (map (on_message i) late ++ events) ≡ run parse w events
    unfolding run step
    run-late w i [] events h = refl
    run-late w i (text ∷ late) events h =
        ap (λ v. run parse v (map (on_message i) late ++ events)) (rw (h, step) refl)
        ∙ run-late w i late events h

    -- The page's socket was told to close, and does: the page connects again and hears the socket
    -- that it makes.
    reconnects :
        (w : Feed E) (i : ℕ) (text : Text) (e : E)
        → w.live ≡ i ∷ []
        → member w.made w.closing ≡ false
        → parse text ≡ some e
        → let after =
            run parse w (on_close i ∷ timeout ∷ on_open w.made ∷ on_message w.made text ∷ []) in
          (after.live ≡ w.made ∷ [])
          × (after.ws_status ≡ connected)
          × (after.order_events ≡ take 50 (e ∷ w.order_events))
    unfolding run step closed fire connect_order_feed hears receive member without
    reconnects w i text e one new parsed =
        let here : member i (i ∷ []) ≡ true = ground arith in
        let emptied : without i (i ∷ []) ≡ [] = ground arith in
        let own : (w.made == w.made) ≡ true = ground arith in
        simp
          (
            one, here, emptied, own, new, parsed, step, closed, fire, connect_order_feed, hears,
            receive,
          )
          (refl, refl, refl)

    -- If the page is left while a socket is live, after any events, whatever messages this still
    -- sends are ignored; its close event, the timer and the open event of the socket that is then
    -- made lead to a page that was left with this new socket live, connected, and its next message
    -- that can be parsed in the feed on top of what was there.
    pub leave-reconnects :
        (before : List FeedEvent) (late : List Text) (text : Text) (e : E)
        → (s : HasSocket (run parse mounted before)) → parse text ≡ some e
        → let w = run parse mounted before in
          let after = run parse w (
            leave ∷ map (on_message s.socket) late
            ++ on_close s.socket ∷ timeout ∷ on_open w.made ∷ on_message w.made text ∷ []) in
          (after.live ≡ w.made ∷ [])
          × (after.ws_status ≡ connected)
          × (after.order_events ≡ take 50 (e ∷ w.order_events))
    unfolding run step close_conn member hears
    leave-reconnects before late text e s parsed =
        let w = run parse mounted before in
        let left : Feed E = record w { closing = s.socket ∷ w.closing } in
        let fresh = run-IsFresh mounted before (mounted-IsFresh E) in
        let new : member w.made (s.socket ∷ w.closing) ≡ false =
          fresh_made w s.socket fresh s.ws_conn in
        let unheard : hears left s.socket ≡ false = deaf w s.socket in
        let leaves : step parse w leave ≡ left = ap (λ o. close_conn o w) s.ws_conn in
        let later = on_close s.socket ∷ timeout ∷ on_open w.made ∷ on_message w.made text ∷ [] in
        let same = run-late left s.socket late later unheard in
        let again = reconnects left s.socket text e s.live new parsed in
        let whole = ap (λ v. run parse v (map (on_message s.socket) late ++ later)) leaves ∙ same in
        subst
          (λ (after : Feed E).
            (after.live ≡ w.made ∷ [])
            × (after.ws_status ≡ connected)
            × (after.order_events ≡ take 50 (e ∷ w.order_events)))
          (sym whole) again
