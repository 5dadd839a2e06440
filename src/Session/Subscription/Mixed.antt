-- ===== src/Session/Subscription/Mixed.antt =====
-- A subscriber of the Feed of an Instance, which mixes Sessions (gotato/subscription.go).
use gotato.Base.{
  ℕ, suc, ◌+◌, Bool, true, false, ◌||◌, leb, if◌then◌else◌, if_cases, option_cases, Option-cases,
  some, List, [], ◌∷◌, length, length-append, ◌≡◌, arith, inl, inr, Bool-cases,
}
use gotato.Session.Subscription.{
  EventClass, Subscription, offer, offer_locked, enqueue, push, no_room, make_room, drop_delta,
}

module _ {E : Type 0} (number : E → ℕ) (class : E → EventClass) (bound : ℕ) where
  -- What the subscriber has yet to get: Events, and those that an EventsSkipped will count.
  abbrev pub due : Subscription E → ℕ
  due s = length s.queue + s.skipped

  length-drop_delta :
      (queue q : List E)
      → drop_delta number class true bound queue ≡ some q
      → length queue ≡ suc (length q)
  unfolding drop_delta
  length-drop_delta [] q e = ground (arith, e)
  length-drop_delta (x ∷ xs) q e = elim (Option-cases (drop_delta number class true bound xs)) [
    | inl z ↦ ground (arith, e, z)
    | inr (q', z) ↦ ground (arith, e, z, length-drop_delta xs q' z)
  ]

  due-push : (e : E) (s : Subscription E) → due (push number class true bound e s) ≡ suc (due s)
  unfolding push
  due-push e s = ground (arith, length-append s.queue (e ∷ []))

  due-enqueue :
      (e : E) (s : Subscription E) → due (enqueue number class true bound e s) ≡ suc (due s)
  unfolding enqueue no_room make_room
  due-enqueue e s =
      if_cases (λ (t : Subscription E). due t ≡ suc (due s)) (leb bound (length s.queue)) _ _
        (λ _.
          option_cases (λ (t : Subscription E). due t ≡ suc (due s))
            (drop_delta number class true bound s.queue) _ _ (λ _. ground arith)
            (λ q d. ground (
              arith,
              length-drop_delta s.queue q d,
              due-push e (make_room number class true bound q s),
            )))
        (λ _. due-push e s)

  -- On the Feed of an Instance an offer to a stream that is not over adds one to what it has yet to get
  -- if the filter keeps the Event, and nothing otherwise: an Event that had to go is counted.
  offer_due_lem :
      (e : E) (keep : Bool) (s : Subscription E)
      → s.behind || (s.ending || s.finished) ≡ false
      → due (offer number class true bound e (some keep) s) ≡ due s + (if keep then 1 else 0)
  unfolding offer offer_locked
  offer_due_lem e keep s live = elim (Bool-cases keep) [
    | inl k ↦ ground (arith, live, k, due-enqueue e s)
    | inr k ↦ ground (arith, live, k)
  ]
