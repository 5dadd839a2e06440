-- ===== src/Session/Subscription.antt =====
-- gotato/subscription.go: one subscriber of a Feed. E is an Event, of which the subscriber reads the
-- number and the class. Each section under the subscription's lock is a function of its own. A filter
-- is a test of the Event alone, and its answer is none where it panics.
pub mod Stream
pub mod Log
pub mod Exact
pub mod Reading
pub mod Once
pub mod Taking
pub mod Course
pub mod Reach
pub mod Idle
pub mod Mixed
mod Tests
use gotato.Base.{
  ℕ, ◌+◌, Bool, true, false, not, ◌&&◌, ◌||◌, ◌==◌, ltb, leb, if◌then◌else◌, Option, none, some,
  List, [], ◌∷◌, ◌++◌, length, select, max, u64,
}

pub data EventClass : Type 0 where
  stored delta instance_class : EventClass
  -- Of an Event that this version does not know.
  no_class : EventClass

abbrev pub is_stored : EventClass → Bool
is_stored stored = true
is_stored _ = false

abbrev pub is_delta : EventClass → Bool
is_delta delta = true
is_delta _ = false

pub record Subscription (E : Type 0) : Type 0 where
  pub queue : List E
  pub cursor : ℕ  -- uint64
  pub cursor_set : Bool
  pub behind : Bool
  pub resume : ℕ  -- uint64
  pub skipped : ℕ
  pub ending : Bool
  -- Its done channel is closed.
  pub finished : Bool

-- What Subscribe makes: with SubscribeAfter on the Feed of a Session it is behind from the start.
abbrev pub subscribe : {E : Type 0} → Bool → Option ℕ → Subscription E
subscribe mixed after = elim (if mixed then none else after) [
  | none ↦ record {
    queue = [];
    cursor = 0;
    cursor_set = false;
    behind = false;
    resume = 0;
    skipped = 0;
    ending = false;
    finished = false;
  }
  | some n ↦ record {
    queue = [];
    cursor = n;
    cursor_set = true;
    behind = true;
    resume = n;
    skipped = 0;
    ending = false;
    finished = false;
  }
]

-- What popQueued returns: a count of skipped Events, an Event, or nothing.
pub data Popped (E : Type 0) : Type 0 where
  skips : ℕ → Popped E
  pops : E → Popped E
  nothing : Popped E

module _ {E : Type 0} where
  unfoldable pub fall_behind : Subscription E → Subscription E
  fall_behind s = record s { behind = true; resume = s.cursor }

  unfoldable pub finish : Subscription E → Subscription E
  finish s = record s { finished = true }

  unfoldable pub end : Subscription E → Subscription E
  end s = record s { ending = true }

  unfoldable pub pop_queued : Subscription E → Subscription E × Popped E
  pop_queued s =
      if ltb 0 s.skipped
      then (record s { skipped = 0 }, skips s.skipped)
      else elim s.queue [ [] ↦ (s, nothing) | e ∷ es ↦ (record s { queue = es }, pops e) ]

  -- One that read none: `last` is the number of the last stored Event that the Feed published.
  unfoldable pub rejoin : ℕ → Subscription E → Subscription E
  rejoin last s = if leb last s.resume then record s { behind = false; cursor_set = true } else s

module _ {E : Type 0} (number : E → ℕ) where
  abbrev pub last_number : List E → ℕ → ℕ
  last_number [] n = n
  last_number (e ∷ es) n = last_number es (number e)

  -- A catch-up that read some Events. Those that pass the filter wait in a batch of their own.
  unfoldable pub caught : List E → Subscription E → Subscription E
  caught batch s =
      let r = last_number batch s.resume in record s { resume = r; cursor = max s.cursor r }

  -- The loop of look over the batch.
  unfoldable pub look_over : (E → Bool) → List E → Subscription E → Subscription E
  unfolding fall_behind
  look_over keep [] s = s
  look_over keep (e ∷ es) s =
      let here = record s {
        cursor = number e;
        queue = if keep e then s.queue ++ e ∷ [] else s.queue;
      } in
      if leb (number e) s.cursor
      then look_over keep es s
      else if not (number e == u64 (s.cursor + 1))
      then fall_behind s
      else look_over keep es here

  unfoldable pub look_locked : (E → Bool) → List E → Subscription E → Subscription E
  unfolding look_over
  look_locked keep batch s = if s.behind then s else look_over keep batch s

-- Of the Feed: whether it mixes Sessions. Of the subscriber: how many Events its queue holds.
module _ {E : Type 0} (number : E → ℕ) (class : E → EventClass) (mixed : Bool) (bound : ℕ) where
  -- The queue without its oldest delta, if it holds one.
  unfoldable pub drop_delta : List E → Option (List E)
  drop_delta [] = none
  drop_delta (e ∷ es) =
      if is_delta (class e)
      then some es
      else elim (drop_delta es) [ none ↦ none | some es' ↦ some (e ∷ es') ]

  -- Does the Event have a number in this Feed?
  abbrev pub numbered : E → Bool
  numbered e = is_stored (class e) && not mixed

  unfoldable pub push : E → Subscription E → Subscription E
  push e s =
      if numbered e
      then record s { queue = s.queue ++ e ∷ []; cursor = number e; cursor_set = true }
      else record s { queue = s.queue ++ e ∷ [] }

  -- The queue is full and holds no delta.
  unfoldable pub no_room : E → Subscription E → Subscription E
  unfolding fall_behind
  no_room e s =
      if is_delta (class e)
      then (if mixed then record s { skipped = s.skipped + 1 } else s)
      else if mixed
      then record s { skipped = s.skipped + 1 }
      else fall_behind s

  unfoldable pub make_room : List E → Subscription E → Subscription E
  make_room queue s =
      if mixed
      then record s { queue = queue; skipped = s.skipped + 1 }
      else record s { queue = queue }

  unfoldable pub enqueue : E → Subscription E → Subscription E
  unfolding drop_delta push no_room make_room
  enqueue e s =
      if leb bound (length s.queue)
      then elim (drop_delta s.queue) [ none ↦ no_room e s | some q ↦ push e (make_room q s) ]
      else push e s

  -- An Event with a number: one that was given already, one after a gap, or the next one.
  unfoldable pub offer_numbered : E → Bool → Subscription E → Subscription E
  unfolding fall_behind enqueue
  offer_numbered e keep s =
      if s.cursor_set && leb (number e) s.cursor
      then s
      else if s.cursor_set && ltb (u64 (s.cursor + 1)) (number e)
      then fall_behind s
      else if not keep
      then record s { cursor = number e; cursor_set = true }
      else enqueue e s

  -- The section of offer under the lock.
  unfoldable pub offer_locked : E → Bool → Subscription E → Subscription E
  unfolding offer_numbered enqueue
  offer_locked e keep s =
      if s.ending && not s.behind
      then s
      else if s.behind
      then s
      else if numbered e
      then offer_numbered e keep s
      else if not keep
      then s
      else enqueue e s

  unfoldable pub offer : E → Option Bool → Subscription E → Subscription E
  unfolding offer_locked finish
  offer e keep s =
      if s.finished then s else elim keep [ none ↦ finish s | some k ↦ offer_locked e k s ]
