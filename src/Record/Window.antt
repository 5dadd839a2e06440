-- ===== src/Record/Window.antt =====
-- The window of Events that a Record keeps in memory (record/events.go): a slice that is a ring once
-- it is full. E is an Event without its body. A result of none is Go's panic: an index out of range,
-- or a remainder by 0.
pub mod Ring
pub mod Last
pub mod After
mod Tests
use gotato.Base.{
  ℕ, ◌+◌, ◌-◌, ◌%◌, Bool, true, false, not, ◌&&◌, ◌||◌, ◌==◌, ltb, leb, if◌then◌else◌, Option, none,
  some, List, [], ◌∷◌, ◌++◌, length, set, take, drop, select, u64, Result, ok, err,
}

pub record Window (E : Type 0) : Type 0 where
  pub events : List E
  pub event_head : ℕ
  -- none is a negative limit, under which nothing is kept.
  pub event_limit : Option ℕ

abbrev pub new_window : {E : Type 0} → Option ℕ → Window E
new_window limit = record { events = []; event_head = 0; event_limit = limit }

module _ {E : Type 0} where
  -- The assignment at the head of the ring.
  unfoldable pub overwrite : E → ℕ → Window E → Option (Window E)
  overwrite e limit w =
      if ltb w.event_head (length w.events) && ltb 0 limit
      then some (record w {
        events = set w.events w.event_head e;
        event_head = (w.event_head + 1) % limit;
      })
      else none

  -- A document that was loaded held more Events than the limit.
  unfoldable pub normalized : ℕ → Window E → Window E
  normalized limit w =
      if ltb limit (length w.events)
      then record w { events = drop (length w.events - limit) w.events; event_head = 0 }
      else w

  unfoldable pub retain : E → Window E → Option (Window E)
  unfolding overwrite normalized
  retain e w = elim w.event_limit [
    | none ↦ some w
    | some limit ↦
        if ltb (length w.events) limit
        then some (record w { events = w.events ++ e ∷ [] })
        else overwrite e limit (normalized limit w)
  ]

  unfoldable pub retained_events : Window E → List E
  retained_events w =
      if w.event_head == 0 || leb (length w.events) w.event_head
      then w.events
      else drop w.event_head w.events ++ take w.event_head w.events

pub data EventsLost : Type 0 where
  events_lost : EventsLost

module _ {E : Type 0} (number : E → ℕ) where
  -- Does the window begin after the Event that follows this number?
  unfoldable pub begins_later : ℕ → ℕ → List E → Bool
  begins_later last after [] = ltb after last
  begins_later last after (e ∷ es) = ltb (u64 (after + 1)) (number e)

  -- `last` is the number of the Record's last Event.
  unfoldable pub events_after : ℕ → ℕ → Window E → Result EventsLost (List E)
  unfolding retained_events begins_later
  events_after last after w =
      let window = retained_events w in
      if begins_later last after window
      then err events_lost
      else ok (select (λ e. ltb after (number e)) window)
