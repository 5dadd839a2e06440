-- ===== src/Session/Subscription/Taking.antt =====
-- take of gotato/subscription.go, by what it finds.
use gotato.Base.{
  List-cases, ℕ, Bool, true, false, ltb, if_cases, Bool-cases, inl, inr, List, [], ◌∷◌, ◌++◌,
  append_assoc, append-nil, ◌≡◌, refl, sym, ap, ◌∙◌, arith, subst,
}
use gotato.Session.Subscription.{EventClass, Subscription, finish, pop_queued, skips, pops, nothing}
use gotato.Session.Subscription.Stream.{
  Place, taking, awaiting, catching, looking, StreamState, idle_take, take_event, popped, is_taking,
}
use gotato.Session.Subscription.Log.{kept_ones}
use gotato.Session.Subscription.Exact.{IsExact}
use gotato.Session.Subscription.Once.{IsOnce, fits}

module _ {E : Type 0} (number : E → ℕ) (class : E → EventClass) (bound : ℕ) (log : ℕ → E)
    (keep : E → Bool) where
  fits_taking :
      (p : Place) (s : Subscription E) (pending : List E)
      → is_taking p ≡ true
      → fits number class bound log keep p s pending ≡ true
  fits_taking taking s pending h = refl
  fits_taking awaiting s pending h = ground arith
  fits_taking (looking a) s pending h = ground arith
  fits_taking (catching a) s pending h = ground arith

  take_waiting :
      (e : E) (es : List E) (w : StreamState E)
      → w.pending ≡ e ∷ es
      → take_event number class false bound keep w
        ≡ record w { pending = es; delivered = w.delivered ++ e ∷ [] }
  unfolding take_event
  take_waiting e es w q = ground (arith, q)

  take_popped :
      (w : StreamState E)
      → w.pending ≡ []
      → take_event number class false bound keep w
        ≡ popped number class false bound keep (pop_queued w.sub).0 (pop_queued w.sub).1 w
  unfolding take_event
  take_popped w q = ground (arith, q)

  take_waiting-IsOnce :
      (n : ℕ) (e : E) (es : List E) (w : StreamState E)
      → IsOnce number class bound log keep n w
      → is_taking w.place ≡ true
      → w.pending ≡ e ∷ es
      → IsOnce number class bound log keep n
          (record w { pending = es; delivered = w.delivered ++ e ∷ [] })
  take_waiting-IsOnce n e es w h t q = record {
    exact =
        subst (λ (x : List E). IsExact number class bound log keep n x w.sub)
          (ap (λ (x : List E). w.delivered ++ x) q ∙ sym (append_assoc w.delivered (e ∷ []) es))
          h.exact;
    alone = ground (arith, h.alone, q);
    placed = fits_taking w.place w.sub es t;
    flying = h.flying;
  }

  idle_take-IsOnce :
      (n : ℕ) (w : StreamState E)
      → IsOnce number class bound log keep n w
      → is_taking w.place ≡ true
      → w.pending ≡ []
      → w.sub.queue ≡ []
      → IsOnce number class bound log keep n (idle_take number class false bound keep w)
  unfolding idle_take finish
  idle_take-IsOnce n w h t p q =
      if_cases (IsOnce number class bound log keep n) w.sub.behind _ _
        (λ b. record {
          exact = h.exact;
          alone = h.alone;
          placed = ground (arith, b, p, q);
          flying = h.flying;
        })
        (λ b.
          if_cases (IsOnce number class bound log keep n) w.sub.ending _ _
            (λ _. record {
              exact = record {
                whole = h.exact.whole;
                from = h.exact.from;
                is_set = h.exact.is_set;
                back = h.exact.back;
              };
              alone = h.alone;
              placed = fits_taking w.place _ w.pending t;
              flying = h.flying;
            })
            (λ _. record {
              exact = h.exact;
              alone = h.alone;
              placed = ground (arith, p);
              flying = h.flying;
            }))

  regroup :
      (front mid queue es : List E) (e : E)
      → mid ≡ []
      → queue ≡ e ∷ es
      → ((front ++ e ∷ []) ++ mid) ++ es ≡ (front ++ mid) ++ queue
  regroup front mid queue es e p q =
      ap (λ (t : List E). ((front ++ e ∷ []) ++ t) ++ es) p
      ∙ ap (λ (t : List E). t ++ es) (append-nil (front ++ e ∷ []))
      ∙ append_assoc front (e ∷ []) es
      ∙ ap (λ (t : List E). front ++ t) (sym q)
      ∙ ap (λ (t : List E). t ++ queue)
          (sym (append-nil front) ∙ ap (λ (t : List E). front ++ t) (sym p))

  -- The head of the queue goes to Next.
  popped-IsExact :
      (n : ℕ) (e : E) (es : List E) (w : StreamState E)
      → IsOnce number class bound log keep n w
      → w.pending ≡ []
      → w.sub.queue ≡ e ∷ es
      → IsExact number class bound log keep n
          ((w.delivered ++ e ∷ []) ++ w.pending)
          (record w.sub { queue = es })
  popped-IsExact n e es w h p q = record {
    whole =
        ap (kept_ones class) (regroup w.delivered w.pending w.sub.queue es e p q) ∙ h.exact.whole;
    from = h.exact.from;
    is_set = h.exact.is_set;
    back = h.exact.back;
  }

  pop_skips :
      (s : Subscription E)
      → ltb 0 s.skipped ≡ true
      → pop_queued s ≡ (record s { skipped = 0 }, skips s.skipped)
  unfolding pop_queued
  pop_skips s h = ground (arith, h)

  pop_none :
      (s : Subscription E) → ltb 0 s.skipped ≡ false → s.queue ≡ [] → pop_queued s ≡ (s, nothing)
  unfolding pop_queued
  pop_none s h q = ground (arith, h, q)

  pop_head :
      (s : Subscription E) (e : E) (es : List E)
      → ltb 0 s.skipped ≡ false
      → s.queue ≡ e ∷ es
      → pop_queued s ≡ (record s { queue = es }, pops e)
  unfolding pop_queued
  pop_head s e es h q = ground (arith, h, q)

  take_queue-IsOnce :
      (n : ℕ) (w : StreamState E)
      → IsOnce number class bound log keep n w
      → is_taking w.place ≡ true
      → w.pending ≡ []
      → IsOnce number class bound log keep n (take_event number class false bound keep w)
  take_queue-IsOnce n w h t p = elim (Bool-cases (ltb 0 w.sub.skipped)) [
    | inl k ↦
        rw (take_popped w p, pop_skips w.sub k)
          (record {
            exact = record {
              whole = h.exact.whole;
              from = h.exact.from;
              is_set = h.exact.is_set;
              back = h.exact.back;
            };
            alone = h.alone;
            placed = fits_taking w.place _ w.pending t;
            flying = h.flying;
          })
    | inr k ↦ elim (List-cases w.sub.queue) [
      | inl q ↦ rw (take_popped w p, pop_none w.sub k q) (idle_take-IsOnce n w h t p q)
      | inr (e, es, q) ↦
          rw (take_popped w p, pop_head w.sub e es k q)
            (record {
              exact = popped-IsExact n e es w h p q;
              alone = ground (arith, p);
              placed = fits_taking w.place _ w.pending t;
              flying = h.flying;
            })
    ]
  ]

  pub take_event-IsOnce :
      (n : ℕ) (w : StreamState E)
      → IsOnce number class bound log keep n w
      → is_taking w.place ≡ true
      → IsOnce number class bound log keep n (take_event number class false bound keep w)
  take_event-IsOnce n w h t = elim (List-cases w.pending) [
    | inl p ↦ take_queue-IsOnce n w h t p
    | inr (e, es, q) ↦ rw (take_waiting e es w q) (take_waiting-IsOnce n e es w h t q)
  ]
