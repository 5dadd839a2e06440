-- ===== src/Session/Subscription/Course.antt =====
-- A stream after any steps of its goroutine and of its Feed (gotato/subscription.go).
use gotato.Base.{
  ℕ, zero, suc, Option, Bool, true, false, not, if_cases, none, some, List, [], ◌∷◌, ◌++◌, select,
  append_assoc, ◌≡◌, refl, sym, arith, subst,
}
use gotato.Session.Subscription.{EventClass, Subscription, caught, end, finish, look_locked}
use gotato.Session.Subscription.Stream.{
  Place, taking, awaiting, catching, looking, StreamState, Step, sends, publishes, offers, takes,
  wakes, ticks, reads, ends, closes, start, publish, catch_up, look, step, run, read_at,
  offer_flying, is_taking, is_awaiting,
}
use gotato.Session.Subscription.Log.{kept_ones, range, visible, visible_none}
use gotato.Session.Subscription.Exact.{IsExact}
use gotato.Session.Subscription.Reading.{IsLog, caught-IsExact, rejoin-IsExact, look_over-IsExact}
use gotato.Session.Subscription.Once.{
  IsOnce, fits, is_nil, nil_of, same_fits, BatchAt, Allowed, FlightOfLog, offered-IsOnce,
}
use gotato.Session.Subscription.Taking.{take_event-IsOnce}

module _ {E : Type 0} (number : E → ℕ) (class : E → EventClass) (bound : ℕ) (log : ℕ → E)
    (keep : E → Bool) where
  look_locked-IsExact :
      IsLog number class bound log keep
      → (n a m : ℕ) (before : List E) (s : Subscription E)
      → IsExact number class bound log keep n before s
      → IsExact number class bound log keep n before (look_locked number keep (range log a m) s)
  unfolding look_locked
  look_locked-IsExact i n a m before s h =
      if_cases (IsExact number class bound log keep n before) s.behind _ _ (λ _. h)
        (λ live. look_over-IsExact number class bound log keep i n a m before s h live)

  catch_up-IsOnce :
      IsLog number class bound log keep
      → (n m : ℕ) (w : StreamState E) → IsOnce number class bound log keep n w
      → fits number class bound log keep (catching w.sub.resume) w.sub w.pending ≡ true
      → IsOnce number class bound log keep n
          (catch_up number class false bound keep (range log w.sub.resume m) w)
  unfolding catch_up range
  catch_up-IsOnce i n zero w h f = record {
    exact =
        rejoin-IsExact number class bound log keep n w.last (w.delivered ++ w.pending) w.sub
          h.exact;
    alone = ground (arith, f);
    placed = refl;
    flying = h.flying;
  }
  catch_up-IsOnce i n (suc m) w h f = record {
    exact =
        subst
          (λ (x : List E).
            IsExact number class bound log keep n x
              (caught number (range log w.sub.resume (suc m)) w.sub))
          (append_assoc w.delivered w.pending (select keep (range log w.sub.resume (suc m))))
          (caught-IsExact number class bound log keep i n (suc m) (w.delivered ++ w.pending) w.sub
            h.exact (ground (arith, f)) (nil_of w.sub.queue (ground (arith, f))));
    alone = ground (arith, f);
    placed = refl;
    flying = h.flying;
  }

  look-IsOnce :
      (n : ℕ) (w : StreamState E)
      → IsOnce number class bound log keep n w
      → is_awaiting w.place ≡ true
      → IsOnce number class bound log keep n (look number class false bound keep w)
  unfolding look
  look-IsOnce n w h a =
      let back : IsOnce number class bound log keep n (record w { place = taking }) = record {
        exact = h.exact;
        alone = h.alone;
        placed = refl;
        flying = h.flying;
      } in
      if_cases (IsOnce number class bound log keep n) (not w.sub.cursor_set) _ _ (λ _. back)
        λ _.
          if_cases (IsOnce number class bound log keep n) w.sub.behind _ _ (λ _. back)
            λ _. record {
              exact = h.exact;
              alone = h.alone;
              placed = waits w.place w.sub w.pending a h.placed;
              flying = h.flying;
            }
    where
      waits :
          (p : Place) (s : Subscription E) (pending : List E)
          → is_awaiting p ≡ true
          → fits number class bound log keep p s pending ≡ true
          → is_nil pending ≡ true
      waits taking s pending a f = absurd (ground arith)
      waits awaiting s pending a f = f
      waits (catching k) s pending a f = absurd (ground arith)
      waits (looking k) s pending a f = absurd (ground arith)

  read-IsOnce :
      IsLog number class bound log keep
      → (n : ℕ) (p : Place) (batch : List E) (w : StreamState E)
      → IsOnce number class bound log keep n w
      → fits number class bound log keep p w.sub w.pending ≡ true
      → BatchAt number class bound log keep p batch
      → IsOnce number class bound log keep n (read_at number class false bound keep p batch w)
  read-IsOnce i n taking batch w h f b = h
  read-IsOnce i n awaiting batch w h f b = h
  read-IsOnce i n (looking a) batch w h f (m, q) = rw q (record {
    exact = look_locked-IsExact i n a m (w.delivered ++ w.pending) w.sub h.exact;
    alone = ground (arith, f);
    placed = refl;
    flying = h.flying;
  })
  read-IsOnce i n (catching a) batch w h f (m, q) =
      let here : a ≡ w.sub.resume = ground (arith, f) in
      rw (q, here) (catch_up-IsOnce i n m w h (ground (arith, f)))

  pub step-IsOnce :
      IsLog number class bound log keep
      → (n : ℕ) (x : Step E) (w : StreamState E) → IsOnce number class bound log keep n w
      → Allowed number class bound log keep x w
      → IsOnce number class bound log keep n (step number class false bound keep x w)
  unfolding step end finish publish
  step-IsOnce i n (sends e) w h a =
      offered-IsOnce number class bound log keep n e w h (λ st. absurd (ground arith))
  step-IsOnce i n (publishes e) w h (free, st, l, small) = record {
    exact = h.exact;
    alone = h.alone;
    placed = h.placed;
    flying = λ _. (l, small);
  }
  step-IsOnce i n offers w h a = lands w.in_flight h.flying
    where
      lands :
          (o : Option E)
          → FlightOfLog number class bound log keep o
          → IsOnce number class bound log keep n (record w {
            sub = offer_flying number class false bound keep o w.sub;
            in_flight = none;
          })
      lands none f = record { exact = h.exact; alone = h.alone; placed = h.placed; flying = tt }
      lands (some e) f =
          let p = offered-IsOnce number class bound log keep n e w h f in
          record { exact = p.exact; alone = p.alone; placed = p.placed; flying = tt }
  step-IsOnce i n takes w h a =
      if_cases (IsOnce number class bound log keep n) (is_taking w.place) _ _
        (λ t. take_event-IsOnce number class bound log keep n w h t) (λ _. h)
  step-IsOnce i n wakes w h a =
      if_cases (IsOnce number class bound log keep n) (is_awaiting w.place) _ _
        (λ _. record { exact = h.exact; alone = h.alone; placed = refl; flying = h.flying })
        (λ _. h)
  step-IsOnce i n ticks w h a =
      if_cases (IsOnce number class bound log keep n) (is_awaiting w.place) _ _ (look-IsOnce n w h)
        (λ _. h)
  step-IsOnce i n (reads batch) w h a = read-IsOnce i n w.place batch w h h.placed a
  step-IsOnce i n ends w h a = record {
    exact = record {
      whole = h.exact.whole;
      from = h.exact.from;
      is_set = h.exact.is_set;
      back = h.exact.back;
    };
    alone = h.alone;
    placed =
        same_fits number class bound log keep w.place w.sub _ w.pending refl refl refl h.placed;
    flying = h.flying;
  }
  step-IsOnce i n closes w h a = record {
    exact = record {
      whole = h.exact.whole;
      from = h.exact.from;
      is_set = h.exact.is_set;
      back = h.exact.back;
    };
    alone = h.alone;
    placed =
        same_fits number class bound log keep w.place w.sub _ w.pending refl refl refl h.placed;
    flying = h.flying;
  }

  -- Each step is one that the Feed and the source can make.
  abbrev pub IsCourse : List (Step E) → StreamState E → Type 0
  IsCourse [] w = Unit {0}
  IsCourse (x ∷ xs) w =
      Allowed number class bound log keep x w × IsCourse xs (step number class false bound keep x w)

  pub run-IsOnce :
      IsLog number class bound log keep
      → (n : ℕ) (xs : List (Step E)) (w : StreamState E) → IsOnce number class bound log keep n w
      → IsCourse xs w
      → IsOnce number class bound log keep n (run number class false bound keep xs w)
  unfolding run
  run-IsOnce i n [] w h c = h
  run-IsOnce i n (x ∷ xs) w h (a, c) = run-IsOnce i n xs _ (step-IsOnce i n x w h a) c

  pub start-IsOnce :
      (n : ℕ) → IsOnce number class bound log keep n (start number class false bound keep (some n))
  unfolding select
  start-IsOnce n = record {
    exact = record {
      whole = sym (visible_none log keep n);
      from = omega arith;
      is_set = refl;
      back = λ _. refl;
    };
    alone = refl;
    placed = refl;
    flying = tt;
  }

  -- The one sender of stored Events publishes Events of the log, below 2^64, each after the offer of the
  -- one before, and the source returns a stretch of the log after the number asked for: after any such
  -- steps, what a subscriber from number n has delivered, waiting and queued is, deltas aside, each stored
  -- Event after n that passes its filter, once and in order, up to its cursor.
  pub once_lem :
      IsLog number class bound log keep
      → (n : ℕ) (xs : List (Step E)) → IsCourse xs (start number class false bound keep (some n))
      → kept_ones class (
          ((run number class false bound keep xs
              (start number class false bound keep (some n))).delivered
            ++ (run number class false bound keep xs
                (start number class false bound keep (some n))).pending)
          ++ (run number class false bound keep xs
              (start number class false bound keep (some n))).sub.queue)
        ≡ visible log keep n
            (run number class false bound keep xs
              (start number class false bound keep (some n))).sub.cursor
  once_lem i n xs c = (run-IsOnce i n xs _ (start-IsOnce n) c).exact.whole
