-- ===== src/Session/Subscription/Stream.antt =====
-- A stream as it runs (gotato/subscription.go, gotato/feed.go): the steps of the subscriber's
-- goroutine and of the Feed's publishers, in any order. A read of the source happens between two
-- steps, so it is the list of Events that the next step gets. The one sender of stored Events offers
-- each to the subscriber before it publishes the next.
use gotato.Base.{
  ℕ, ◌+◌, Bool, true, false, not, ◌&&◌, ltb, if◌then◌else◌, Option, none, some, List, [], ◌∷◌, ◌++◌,
  select,
}
use gotato.Session.Subscription.{
  EventClass, is_stored, Subscription, subscribe, offer, end, finish, pop_queued, Popped, skips,
  pops, nothing, caught, rejoin, look_locked,
}

-- Where the goroutine is: in take's loop, at a read of catchUp or of look after a number, or in await.
pub data Place : Type 0 where
  taking awaiting : Place
  catching looking : ℕ → Place

abbrev pub is_taking : Place → Bool
is_taking taking = true
is_taking _ = false

abbrev pub is_awaiting : Place → Bool
is_awaiting awaiting = true
is_awaiting _ = false

pub record StreamState (E : Type 0) : Type 0 where
  pub sub : Subscription E
  pub place : Place
  -- The batch of a catch-up.
  pub pending : List E
  pub delivered : List E
  -- The sum of the counts that EventsSkipped Events reported.
  pub reported : ℕ
  -- Of the Feed: the number of the last stored Event, and the one that is being offered.
  pub last : ℕ
  pub in_flight : Option E

pub data Step (E : Type 0) : Type 0 where
  -- A publisher sends an Event that has no number here, or the next stored Event and then offers it.
  sends : E → Step E
  publishes : E → Step E
  offers : Step E
  -- One round of the goroutine, also when the stream is over: of two ways that are ready a select
  -- takes either.
  takes wakes ticks : Step E
  -- The source returns Events, and take or look goes on.
  reads : List E → Step E
  -- End, and Close or an error.
  ends closes : Step E

module _ {E : Type 0} (number : E → ℕ) (class : E → EventClass) (mixed : Bool) (bound : ℕ)
    (keep : E → Bool) where
  abbrev pub start : Option ℕ → StreamState E
  start after = record {
    sub = subscribe mixed after;
    place = taking;
    pending = [];
    delivered = [];
    reported = 0;
    last = 0;
    in_flight = none;
  }

  -- The first part of publishLabeled.
  unfoldable pub publish : E → StreamState E → StreamState E
  publish e w = record w {
    last = if not mixed && is_stored (class e) && ltb w.last (number e) then number e else w.last;
    in_flight = some e;
  }

  abbrev pub offer_flying : Option E → Subscription E → Subscription E
  offer_flying none s = s
  offer_flying (some e) s = offer number class mixed bound e (some (keep e)) s

  -- take, once nothing is pending and the queue gave nothing.
  unfoldable pub idle_take : StreamState E → StreamState E
  unfolding finish
  idle_take w =
      if w.sub.behind
      then record w { place = catching w.sub.resume }
      else if w.sub.ending
      then record w { sub = finish w.sub }
      else record w { place = awaiting }

  abbrev pub popped : Subscription E → Popped E → StreamState E → StreamState E
  popped s (skips n) w = record w { sub = s; reported = w.reported + n }
  popped s (pops e) w = record w { sub = s; delivered = w.delivered ++ e ∷ [] }
  popped s nothing w = idle_take w

  -- One round of take, and what forward does of an Event: it hands it to Next.
  unfoldable pub take_event : StreamState E → StreamState E
  unfolding pop_queued idle_take
  take_event w = elim w.pending [
    | e ∷ es ↦ record w { pending = es; delivered = w.delivered ++ e ∷ [] }
    | [] ↦ popped (pop_queued w.sub).0 (pop_queued w.sub).1 w
  ]

  -- catchUp after its read.
  unfoldable pub catch_up : List E → StreamState E → StreamState E
  unfolding caught rejoin
  catch_up [] w = record w { sub = rejoin w.last w.sub; place = taking }
  catch_up (e ∷ es) w = record w {
    sub = caught number (e ∷ es) w.sub;
    pending = w.pending ++ select keep (e ∷ es);
    place = taking;
  }

  -- The first section of look, after a tick.
  unfoldable pub look : StreamState E → StreamState E
  look w =
      if not w.sub.cursor_set
      then record w { place = taking }
      else if w.sub.behind
      then record w { place = taking }
      else record w { place = looking w.sub.cursor }

  abbrev pub read_at : Place → List E → StreamState E → StreamState E
  read_at (catching n) batch w = catch_up batch w
  read_at (looking n) batch w = record w {
    sub = look_locked number keep batch w.sub;
    place = taking;
  }
  read_at _ batch w = w

  unfoldable pub step : Step E → StreamState E → StreamState E
  unfolding publish take_event catch_up look look_locked offer end finish
  step (sends e) w = record w { sub = offer number class mixed bound e (some (keep e)) w.sub }
  step (publishes e) w = publish e w
  step offers w = record w { sub = offer_flying w.in_flight w.sub; in_flight = none }
  step takes w = if is_taking w.place then take_event w else w
  step wakes w = if is_awaiting w.place then record w { place = taking } else w
  step ticks w = if is_awaiting w.place then look w else w
  step (reads batch) w = read_at w.place batch w
  step ends w = record w { sub = end w.sub }
  step closes w = record w { sub = finish w.sub }

  unfoldable pub run : List (Step E) → StreamState E → StreamState E
  unfolding step
  run [] w = w
  run (x ∷ xs) w = run xs (step x w)
