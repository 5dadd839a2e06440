-- ===== src/Session/Subscription/Once.antt =====
-- What a stream keeps at every place of its goroutine (gotato/subscription.go).
use gotato.Base.{
  ℕ, ◌<◌, Bool, true, false, ◌&&◌, ◌||◌, ◌==◌, Bool-cases, inl, inr, Option, none, some, List, [],
  ◌∷◌, ◌++◌, ◌≡◌, refl, arith,
}
use gotato.Session.Subscription.{EventClass, is_stored, Subscription, offer, offer_locked}
use gotato.Session.Subscription.Stream.{
  Place, taking, awaiting, catching, looking, StreamState, Step, sends, publishes, reads,
}
use gotato.Session.Subscription.Log.{range}
use gotato.Session.Subscription.Exact.{IsExact, OfLog, offer-IsExact}

abbrev pub is_nil {ℓ} : {A : Type ℓ} → List A → Bool
is_nil [] = true
is_nil (x ∷ xs) = false

pub nil_of : {E : Type 0} (xs : List E) → is_nil xs ≡ true → xs ≡ []
nil_of [] h = refl
nil_of (x ∷ xs) h = absurd (ground arith)

module _ {E : Type 0} (number : E → ℕ) (class : E → EventClass) (bound : ℕ) (log : ℕ → E)
    (keep : E → Bool) where
  -- Where a read may start, and that nothing waits beside a batch that is read.
  abbrev pub fits : Place → Subscription E → List E → Bool
  fits taking s pending = true
  fits awaiting s pending = is_nil pending
  fits (looking a) s pending = is_nil pending
  fits (catching a) s pending = s.behind && is_nil s.queue && is_nil pending && a == s.resume

  abbrev pub FlightOfLog : Option E → Type 0
  FlightOfLog none = Unit {0}
  FlightOfLog (some e) = OfLog number class bound log keep e

  pub record IsOnce (n : ℕ) (w : StreamState E) : Type 0 where
    pub exact : IsExact number class bound log keep n (w.delivered ++ w.pending) w.sub
    pub alone : is_nil w.pending || (w.sub.behind && is_nil w.sub.queue) ≡ true
    pub placed : fits w.place w.sub w.pending ≡ true
    pub flying : FlightOfLog w.in_flight

  -- What the source returns after the number of the place: the Events that follow it, some of them.
  abbrev pub BatchAt : Place → List E → Type 0
  BatchAt (catching a) batch = (m : ℕ) × (batch ≡ range log a m)
  BatchAt (looking a) batch = (m : ℕ) × (batch ≡ range log a m)
  BatchAt _ batch = Unit {0}

  -- The steps that the Feed and the source can make.
  abbrev pub Allowed : Step E → StreamState E → Type 0
  Allowed (sends e) w = is_stored (class e) ≡ false
  Allowed (publishes e) w =
      (w.in_flight ≡ none)
      × (is_stored (class e) ≡ true)
      × (e ≡ log (number e))
      × (number e < 18446744073709551616)
  Allowed (reads batch) w = BatchAt w.place batch
  Allowed _ w = Unit {0}

  offer_behind :
      (e : E) (k : Bool) (s : Subscription E)
      → s.behind ≡ true
      → offer number class false bound e (some k) s ≡ s
  unfolding offer offer_locked
  offer_behind e k s b = ground (arith, b)

  fits_live :
      (p : Place) (s s' : Subscription E) (pending : List E)
      → s.behind ≡ false
      → fits p s pending ≡ true
      → fits p s' pending ≡ true
  fits_live taking s s' pending b h = refl
  fits_live awaiting s s' pending b h = h
  fits_live (looking a) s s' pending b h = h
  fits_live (catching a) s s' pending b h = absurd (ground arith)

  pub same_fits :
      (p : Place) (s s' : Subscription E) (pending : List E)
      → s'.behind ≡ s.behind
      → s'.queue ≡ s.queue
      → s'.resume ≡ s.resume
      → fits p s pending ≡ true
      → fits p s' pending ≡ true
  same_fits taking s s' pending b q r h = refl
  same_fits awaiting s s' pending b q r h = h
  same_fits (looking a) s s' pending b q r h = h
  same_fits (catching a) s s' pending b q r h = ground (arith, b, q, r, h)

  -- What an offer changes of a world.
  pub offered-IsOnce :
      (n : ℕ) (e : E) (w : StreamState E)
      → IsOnce n w
      → OfLog number class bound log keep e
      → IsOnce n (record w { sub = offer number class false bound e (some (keep e)) w.sub })
  offered-IsOnce n e w h of_log = elim (Bool-cases w.sub.behind) [
    | inl b ↦ rw (offer_behind e (keep e) w.sub b) h
    | inr b ↦ record {
      exact =
          offer-IsExact number class bound log keep n (w.delivered ++ w.pending) e w.sub h.exact
            of_log;
      alone = ground (arith, h.alone, b);
      placed = fits_live w.place w.sub _ w.pending b h.placed;
      flying = h.flying;
    }
  ]
