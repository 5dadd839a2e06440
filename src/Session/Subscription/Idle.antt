-- ===== src/Session/Subscription/Idle.antt =====
-- A stream that waits with nothing queued (gotato/subscription.go, gotato/feed.go).
use gotato.Base.{
  ℕ, ◌≤◌, Option, Bool, true, false, not, ◌||◌, if_cases, none, some, List, [], ◌∷◌, ◌++◌,
  append-nil, append_assoc, subst, ◌≡◌, refl, sym, ap, ◌∙◌, arith, Bool-cases, inl, inr,
}
use gotato.Session.Subscription.{
  EventClass, Subscription, offer, caught, end, finish, rejoin, look_locked, pop_queued, Popped,
  skips, pops, nothing,
}
use gotato.Session.Subscription.Stream.{
  Place, taking, awaiting, catching, looking, StreamState, Step, sends, publishes, offers, takes,
  wakes, ticks, reads, ends, closes, start, publish, catch_up, look, step, run, read_at,
  offer_flying, is_taking, is_awaiting, take_event, idle_take, popped,
}
use gotato.Session.Subscription.Log.{kept_ones, visible}
use gotato.Session.Subscription.Reading.{IsLog}
use gotato.Session.Subscription.Once.{IsOnce, Allowed}
use gotato.Session.Subscription.Course.{IsCourse, step-IsOnce, start-IsOnce, run-IsOnce}
use gotato.Session.Subscription.Reach.{
  reaches, offer-reaches, look_locked-reaches, carries, keeps_up, caught-reaches, rejoin-reaches,
  popped-reaches,
}

module _ {E : Type 0} (number : E → ℕ) (class : E → EventClass) (bound : ℕ) (log : ℕ → E)
    (keep : E → Bool) where
  abbrev KeepsUp : StreamState E → Type 0
  KeepsUp w = keeps_up number class bound keep w ≡ true

  -- A step that leaves what is published alone and lets the subscription reach what it reached.
  same_pace :
      (f : Option E) (k : ℕ) (s s' : Subscription E)
      → (reaches k s ≡ true → reaches k s' ≡ true)
      → carries number class bound keep k f || reaches k s ≡ true
      → carries number class bound keep k f || reaches k s' ≡ true
  same_pace f k s s' m h = elim (Bool-cases (carries number class bound keep k f)) [
    | inl c ↦ ground (arith, c)
    | inr c ↦ ground (arith, c, m (ground (arith, h, c)))
  ]

  idle_take_pace :
      (w : StreamState E) → KeepsUp w → KeepsUp (idle_take number class false bound keep w)
  unfolding idle_take finish
  idle_take_pace w h =
      if_cases KeepsUp w.sub.behind _ _ (λ _. h)
        λ _.
          if_cases KeepsUp w.sub.ending _ _
            (λ e. same_pace w.in_flight w.last w.sub (finish w.sub) (λ r. ground arith) h) (λ _. h)

  popped_pace :
      (s : Subscription E) (p : Popped E) (w : StreamState E)
      → (reaches w.last w.sub ≡ true → reaches w.last s ≡ true)
      → KeepsUp w
      → KeepsUp (popped number class false bound keep s p w)
  popped_pace s (skips n) w m h = same_pace w.in_flight w.last w.sub s m h
  popped_pace s (pops e) w m h = same_pace w.in_flight w.last w.sub s m h
  popped_pace s nothing w m h = idle_take_pace w h

  take_pace : (w : StreamState E) → KeepsUp w → KeepsUp (take_event number class false bound keep w)
  unfolding take_event
  take_pace w h = by_pending w.pending
    where
      by_pending :
          (q : List E)
          → KeepsUp (elim q [
            | e ∷ es ↦ record w { pending = es; delivered = w.delivered ++ e ∷ [] }
            | [] ↦ popped number class false bound keep (pop_queued w.sub).0 (pop_queued w.sub).1 w
          ])
      by_pending [] =
          popped_pace (pop_queued w.sub).0 (pop_queued w.sub).1 w
            (popped-reaches number class bound keep w.last w.sub) h
      by_pending (e ∷ es) = h

  read_pace :
      (p : Place) (batch : List E) (w : StreamState E)
      → (w.sub.behind ≡ true → w.sub.resume ≡ w.sub.cursor)
      → KeepsUp w
      → KeepsUp (read_at number class false bound keep p batch w)
  unfolding catch_up
  read_pace taking batch w back h = h
  read_pace awaiting batch w back h = h
  read_pace (looking a) batch w back h =
      same_pace w.in_flight w.last w.sub (look_locked number keep batch w.sub)
        (look_locked-reaches number class bound keep w.last batch w.sub) h
  read_pace (catching a) [] w back h =
      same_pace w.in_flight w.last w.sub (rejoin w.last w.sub)
        (rejoin-reaches number class bound keep w.last w.sub back) h
  read_pace (catching a) (e ∷ es) w back h =
      same_pace w.in_flight w.last w.sub (caught number (e ∷ es) w.sub)
        (caught-reaches number class bound keep w.last (e ∷ es) w.sub) h

  step_pace :
      (n : ℕ) (x : Step E) (w : StreamState E)
      → IsOnce number class bound log keep n w
      → Allowed number class bound log keep x w
      → KeepsUp w
      → KeepsUp (step number class false bound keep x w)
  unfolding step end finish publish look
  step_pace n (sends e) w i a h =
      same_pace w.in_flight w.last w.sub (offer number class false bound e (some (keep e)) w.sub)
        (λ r.
          offer-reaches number class bound keep w.last e w.sub i.exact.is_set (ground (arith, r)))
        h
  step_pace n (publishes e) w i (free, st, _, _) h =
      let r : reaches w.last w.sub ≡ true = ground (arith, h, free) in ground (arith, st, r)
  step_pace n offers w i a h = lands w.in_flight h
    where
      lands :
          (f : Option E)
          → carries number class bound keep w.last f || reaches w.last w.sub ≡ true
          → reaches w.last (offer_flying number class false bound keep f w.sub) ≡ true
      lands none r = r
      lands (some e) r = offer-reaches number class bound keep w.last e w.sub i.exact.is_set r
  step_pace n takes w i a h = if_cases KeepsUp (is_taking w.place) _ _ (λ _. take_pace w h) (λ _. h)
  step_pace n wakes w i a h = if_cases KeepsUp (is_awaiting w.place) _ _ (λ _. h) (λ _. h)
  step_pace n ticks w i a h =
      if_cases KeepsUp (is_awaiting w.place) _ _
        (λ _.
          if_cases KeepsUp (not w.sub.cursor_set) _ _ (λ _. h)
            (λ _. if_cases KeepsUp w.sub.behind _ _ (λ _. h) (λ _. h)))
        (λ _. h)
  step_pace n (reads batch) w i a h = read_pace w.place batch w i.exact.back h
  step_pace n ends w i a h = same_pace w.in_flight w.last w.sub (end w.sub) (λ r. ground arith) h
  step_pace n closes w i a h =
      same_pace w.in_flight w.last w.sub (finish w.sub) (λ r. ground arith) h

  run_pace :
      IsLog number class bound log keep
      → (n : ℕ) (xs : List (Step E)) (w : StreamState E) → IsOnce number class bound log keep n w
      → IsCourse number class bound log keep xs w
      → KeepsUp w
      → KeepsUp (run number class false bound keep xs w)
  unfolding run
  run_pace i n [] w o c h = h
  run_pace i n (x ∷ xs) w o (a, c) h =
      run_pace i n xs _ (step-IsOnce number class bound log keep i n x w o a) c
        (step_pace n x w o a h)

  -- After any such steps from number n, a stream with no Event in flight that is neither behind nor over
  -- and has nothing queued has a cursor at the last number of the Feed or after it, and has delivered every
  -- stored Event after n and up to its cursor that passes its filter, once and in order.
  pub idle_lem :
      IsLog number class bound log keep
      → (n : ℕ) (xs : List (Step E)) (w : StreamState E)
      → IsCourse number class bound log keep xs (start number class false bound keep (some n))
      → run number class false bound keep xs (start number class false bound keep (some n)) ≡ w
      → w.in_flight ≡ none
      → w.sub.behind || (w.sub.ending || w.sub.finished) ≡ false
      → w.pending ++ w.sub.queue ≡ []
      → (w.last ≤ w.sub.cursor) × (kept_ones class w.delivered ≡ visible log keep n w.sub.cursor)
  idle_lem i n xs w c q free live empty =
      let w0 = start number class false bound keep (some n) in
      let pace =
        subst KeepsUp q
          (run_pace i n xs w0 (start-IsOnce number class bound log keep n) c (start_pace n)) in
      let o = subst (IsOnce number class bound log keep n) q (
        run-IsOnce number class bound log keep i n xs w0
          (start-IsOnce number class bound log keep n) c) in
      (
        reached w free live pace,
        ap (kept_ones class) (
              sym (append-nil w.delivered)
              ∙ ap (λ (t : List E). w.delivered ++ t) (sym empty)
              ∙ sym (append_assoc w.delivered w.pending w.sub.queue))
            ∙ o.exact.whole,
      )
    where
      start_pace : (n : ℕ) → KeepsUp (start number class false bound keep (some n))
      start_pace n = refl

      reached :
          (w : StreamState E)
          → w.in_flight ≡ none
          → w.sub.behind || (w.sub.ending || w.sub.finished) ≡ false
          → KeepsUp w
          → w.last ≤ w.sub.cursor
      reached w free live h = ground (arith, h, free, live)
