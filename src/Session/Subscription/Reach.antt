-- ===== src/Session/Subscription/Reach.antt =====
-- How far a subscriber has come of what its Feed published (gotato/subscription.go, gotato/feed.go).
use gotato.Base.{
  ℕ, ◌+◌, ◌≤◌, Option, Bool, true, false, not, ◌&&◌, ◌||◌, ◌==◌, ltb, leb, if_cases, option_cases,
  none, some, List, [], ◌∷◌, length, u64, ◌≡◌, refl, arith, Bool-cases, inl, inr,
}
use gotato.Session.Subscription.{
  EventClass, is_stored, is_delta, Subscription, offer, offer_locked, offer_numbered, enqueue, push,
  no_room, make_room, drop_delta, fall_behind, caught, rejoin, look_over, look_locked, pop_queued,
}
use gotato.Session.Subscription.Stream.{StreamState}

module _ {E : Type 0} where
  -- The subscriber has number k behind it, or will read it or is over.
  abbrev pub reaches : ℕ → Subscription E → Bool
  reaches k s = s.behind || (s.ending || (s.finished || leb k s.cursor))

module _ {E : Type 0} (number : E → ℕ) (class : E → EventClass) (bound : ℕ) (keep : E → Bool) where
  push-reaches :
      (k : ℕ) (e : E) (s : Subscription E)
      → (is_stored (class e) ≡ true → k ≤ number e)
      → (is_stored (class e) ≡ false → reaches k s ≡ true)
      → reaches k (push number class false bound e s) ≡ true
  unfolding push
  push-reaches k e s a b = elim (Bool-cases (is_stored (class e))) [
    | inl st ↦ ground (arith, st, a st)
    | inr st ↦ ground (arith, st, b st)
  ]

  no_room-reaches :
      (k : ℕ) (e : E) (s : Subscription E)
      → (is_delta (class e) ≡ true → reaches k s ≡ true)
      → reaches k (no_room number class false bound e s) ≡ true
  unfolding no_room fall_behind
  no_room-reaches k e s a = elim (Bool-cases (is_delta (class e))) [
    | inl d ↦ ground (arith, d, a d)
    | inr d ↦ ground (arith, d)
  ]

  enqueue-reaches :
      (k : ℕ) (e : E) (s : Subscription E)
      → (is_stored (class e) ≡ true → k ≤ number e)
      → (is_stored (class e) ≡ false → reaches k s ≡ true)
      → reaches k (enqueue number class false bound e s) ≡ true
  unfolding enqueue make_room
  enqueue-reaches k e s a b =
      if_cases (λ (s : Subscription E). reaches k s ≡ true) (leb bound (length s.queue)) _ _
        (λ _.
          option_cases (λ (s : Subscription E). reaches k s ≡ true)
            (drop_delta number class false bound s.queue) _ _
            (λ _. no_room-reaches k e s (λ d. b (delta_only (class e) d)))
            (λ q d. push-reaches k e (record s { queue = q }) a b))
        (λ _. push-reaches k e s a b)
    where
      delta_only : (c : EventClass) → is_delta c ≡ true → is_stored c ≡ false
      delta_only EventClass.stored d = ground arith
      delta_only EventClass.delta d = refl
      delta_only EventClass.instance_class d = refl
      delta_only EventClass.no_class d = refl

  numbered-reaches :
      (k : ℕ) (e : E) (s : Subscription E)
      → s.cursor_set ≡ true
      → is_stored (class e) ≡ true
      → leb k (number e) || leb k s.cursor ≡ true
      → reaches k (offer_numbered number class false bound e (keep e) s) ≡ true
  unfolding offer_numbered fall_behind
  numbered-reaches k e s set st h =
      if_cases (λ (s : Subscription E). reaches k s ≡ true)
        (s.cursor_set && leb (number e) s.cursor) _ _ (λ old. ground (arith, set, h, old))
        λ new.
          let up : k ≤ number e = ground (arith, set, h, new) in
          if_cases (λ (s : Subscription E). reaches k s ≡ true)
            (s.cursor_set && ltb (u64 (s.cursor + 1)) (number e)) _ _ (λ gap. refl)
            λ gap.
              if_cases (λ (s : Subscription E). reaches k s ≡ true) (not (keep e)) _ _
                (λ no. ground (arith, up))
                (λ yes.
                  enqueue-reaches k e s (λ _. up) (λ other. absurd (ground (arith, st, other))))

  pub offer-reaches :
      (k : ℕ) (e : E) (s : Subscription E)
      → s.cursor_set ≡ true
      → is_stored (class e) && leb k (number e) || reaches k s ≡ true
      → reaches k (offer number class false bound e (some (keep e)) s) ≡ true
  unfolding offer offer_locked
  offer-reaches k e s set h =
      if_cases (λ (s : Subscription E). reaches k s ≡ true) s.finished _ _ (λ f. ground (arith, f))
        λ f.
          if_cases (λ (s : Subscription E). reaches k s ≡ true) (s.ending && not s.behind) _ _
            (λ x. ground (arith, x))
            λ x.
              if_cases (λ (s : Subscription E). reaches k s ≡ true) s.behind _ _
                (λ b. ground (arith, b))
                λ b.
                  if_cases (λ (s : Subscription E). reaches k s ≡ true)
                    (is_stored (class e) && true) _ _
                    (λ st.
                      numbered-reaches k e s set (ground (arith, st)) (ground (arith, h, f, x, b)))
                    (λ st.
                      let old : reaches k s ≡ true = ground (arith, h, st) in
                      if_cases (λ (s : Subscription E). reaches k s ≡ true) (not (keep e)) _ _
                        (λ _. old)
                        (λ _.
                          enqueue-reaches k e s (λ i. absurd (ground (arith, st, i))) (λ _. old)))

  look_over-reaches :
      (k : ℕ) (es : List E) (s : Subscription E)
      → reaches k s ≡ true
      → reaches k (look_over number keep es s) ≡ true
  unfolding look_over fall_behind
  look_over-reaches k [] s h = h
  look_over-reaches k (e ∷ es) s h =
      if_cases (λ (s : Subscription E). reaches k s ≡ true) (leb (number e) s.cursor) _ _
        (λ _. look_over-reaches k es s h)
        λ new.
          if_cases (λ (s : Subscription E). reaches k s ≡ true)
            (not (number e == u64 (s.cursor + 1))) _ _ (λ _. refl)
            λ next. look_over-reaches k es _ (ground (arith, h, new))

  pub look_locked-reaches :
      (k : ℕ) (es : List E) (s : Subscription E)
      → reaches k s ≡ true
      → reaches k (look_locked number keep es s) ≡ true
  unfolding look_locked
  look_locked-reaches k es s h =
      if_cases (λ (s : Subscription E). reaches k s ≡ true) s.behind _ _ (λ _. h)
        (λ _. look_over-reaches k es s h)

  -- The Event that is being offered has number k or one after it.
  abbrev pub carries : ℕ → Option E → Bool
  carries k none = false
  carries k (some e) = is_stored (class e) && leb k (number e)

  abbrev pub keeps_up : StreamState E → Bool
  keeps_up w = carries w.last w.in_flight || reaches w.last w.sub

  -- The reader's own moves of the subscription.
  pub caught-reaches :
      (k : ℕ) (es : List E) (s : Subscription E)
      → reaches k s ≡ true
      → reaches k (caught number es s) ≡ true
  unfolding caught
  caught-reaches k es s h = ground (arith, h)

  pub rejoin-reaches :
      (k : ℕ) (s : Subscription E)
      → (s.behind ≡ true → s.resume ≡ s.cursor)
      → reaches k s ≡ true
      → reaches k (rejoin k s) ≡ true
  unfolding rejoin
  rejoin-reaches k s back h = elim (Bool-cases s.behind) [
    | inl b ↦ ground (arith, b, back b, h)
    | inr b ↦ ground (arith, b, h)
  ]

  pub popped-reaches :
      (k : ℕ) (s : Subscription E) → reaches k s ≡ true → reaches k (pop_queued s).0 ≡ true
  unfolding pop_queued
  popped-reaches k s h = ground (arith, h)
