-- ===== src/Portal/Feed/History.antt =====
-- What the order feed shows, and what happens once the page is left.
use polyglot_infinity.Prelude.{
  ℕ, zero, suc, ◌≡◌, ◌≤◌, inl, inr, refl, Option, none, some, List, [], ◌∷◌, if◌then◌else◌, arith,
  Text, Bool-cases, ap, ◌∙◌, take,
}
use polyglot_infinity.Portal.Feed.{
  Feed, FeedEvent, on_open, on_message, on_close, on_error, timeout, leave, connect_order_feed,
  mounted, hears, receive, close_conn, fire, closed, step, run,
}

module _ {E : Type 0} where
  take-take : (n m : ℕ) (xs : List E) → n ≤ m → take n (take m xs) ≡ take n xs
  take-take zero m xs h = refl
  take-take (suc n) zero xs h = absurd (omega arith)
  take-take (suc n) (suc m) [] h = refl
  take-take (suc n) (suc m) (x ∷ xs) h = ap (◌∷◌ x) (take-take n m xs (omega arith))

  take-cons :
      (n : ℕ) (x : E) (xs ys : List E)
      → xs ≡ take (suc n) ys
      → take (suc n) (x ∷ xs) ≡ take (suc n) (x ∷ ys)
  take-cons n x xs ys h =
      ap (λ zs. x ∷ take n zs) h ∙ ap (◌∷◌ x) (take-take n (suc n) ys (omega arith))

  abbrev onto : Option E → List E → List E
  onto none seen = seen
  onto (some parsed) seen = parsed ∷ seen

  module _ (parse : Text → Option E) where
    -- What an event brings on top of what came before, if its socket is heard and its text parses.
    abbrev pub news : Feed E → FeedEvent → List E → List E
    news w (on_message i text) seen = if hears w i then onto (parse text) seen else seen
    news w _ seen = seen

    -- All that came, newest first, with no bound.
    abbrev pub history : Feed E → List FeedEvent → List E → List E
    history w [] seen = seen
    history w (e ∷ events) seen = history (step parse w e) events (news w e seen)

    receive-history :
        (o : Option E) (w : Feed E) (seen : List E)
        → w.order_events ≡ take 50 seen
        → (receive o w).order_events ≡ take 50 (onto o seen)
    unfolding receive
    receive-history none w seen h = h
    receive-history (some parsed) w seen h = take-cons 49 parsed w.order_events seen h

    fire-order_events : (k : ℕ) (w : Feed E) → (fire k w).order_events ≡ w.order_events
    unfolding fire connect_order_feed
    fire-order_events zero w = refl
    fire-order_events (suc k) w = refl

    close_conn-order_events :
        (o : Option ℕ) (w : Feed E) → (close_conn o w).order_events ≡ w.order_events
    unfolding close_conn
    close_conn-order_events none w = refl
    close_conn-order_events (some i) w = refl

    step-history :
        (w : Feed E) (e : FeedEvent) (seen : List E)
        → w.order_events ≡ take 50 seen
        → (step parse w e).order_events ≡ take 50 (news w e seen)
    unfolding step closed
    step-history w (on_open i) seen h = ground arith
    step-history w (on_message i text) seen h = elim (Bool-cases (hears w i)) [
      | inl e ↦ rw (e, step) (receive-history (parse text) w seen h)
      | inr e ↦ rw (e, step) h
    ]
    step-history w (on_close i) seen h = ground arith
    step-history w (on_error i) seen h = ground arith
    step-history w timeout seen h = fire-order_events w.timers w ∙ h
    step-history w leave seen h = close_conn-order_events w.ws_conn w ∙ h

    run-history_from :
        (w : Feed E) (events : List FeedEvent) (seen : List E)
        → w.order_events ≡ take 50 seen
        → (run parse w events).order_events ≡ take 50 (history w events seen)
    unfolding run
    run-history_from w [] seen h = h
    run-history_from w (e ∷ events) seen h =
        run-history_from (step parse w e) events (news w e seen) (step-history w e seen h)

    -- After the mount and any events, the feed shows the 50 newest of all orders that came over an
    -- open socket and could be parsed, newest first.
    pub run-order_events :
        (events : List FeedEvent)
        → (run parse mounted events).order_events ≡ take 50 (history mounted events [])
    unfolding mounted connect_order_feed
    run-order_events events = run-history_from mounted events [] refl
