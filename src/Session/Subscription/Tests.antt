-- ===== src/Session/Subscription/Tests.antt =====
-- The theorems about a subscriber at one stream: the filter keeps all but Event 3.
use gotato.Base.{
  ℕ, ◌≤◌, Bool, true, false, not, ◌==◌, none, some, List, [], ◌∷◌, ◌++◌, ◌≡◌, refl, arith, select,
}
use gotato.Session.Subscription.{EventClass, stored, delta, Subscription, subscribe}
use gotato.Session.Subscription.Stream.{
  StreamState, Step, sends, publishes, offers, takes, wakes, ticks, reads, start, step, run,
}
use gotato.Session.Subscription.Log.{kept_ones, range, visible}
use gotato.Session.Subscription.Reading.{IsLog}
use gotato.Session.Subscription.Course.{IsCourse, once_lem}
use gotato.Session.Subscription.Idle.{idle_lem}

-- An Event: its number, and whether it is stored.
abbrev SmallEvent : Type 0
SmallEvent = ℕ × Bool

abbrev num : SmallEvent → ℕ
num (n, b) = n

abbrev class_of : SmallEvent → EventClass
class_of (n, true) = stored
class_of (n, false) = delta

abbrev event : ℕ → SmallEvent
event n = (n, true)

abbrev not_3 : SmallEvent → Bool
not_3 e = not (num e == 3)

all_events : IsLog num class_of 1 event not_3
all_events = record { nums = λ k. refl; kinds = λ k. refl }

-- A queue of one: Event 4 finds it full and the stream catches up from the store.
abbrev course : List (Step SmallEvent)
course =
    takes
    ∷ reads (event 2 ∷ [])
    ∷ takes
    ∷ takes
    ∷ reads []
    ∷ takes
    ∷ publishes (event 3)
    ∷ offers
    ∷ sends (9, false)
    ∷ publishes (event 4)
    ∷ offers
    ∷ wakes
    ∷ takes
    ∷ publishes (event 5)
    ∷ offers
    ∷ publishes (event 6)
    ∷ offers
    ∷ takes
    ∷ takes
    ∷ reads (event 6 ∷ [])
    ∷ takes
    ∷ takes
    ∷ reads []
    ∷ takes
    ∷ ticks
    ∷ reads []
    ∷ []

abbrev ended : StreamState SmallEvent
ended = run num class_of false 1 not_3 course (start num class_of false 1 not_3 (some 1))

course_allowed :
    IsCourse num class_of 1 event not_3 course (start num class_of false 1 not_3 (some 1))
unfolding step range select run
course_allowed = (
  tt,
  (
    (1, refl),
    (
      tt,
      (
        tt,
        (
          (0, refl),
          (
            tt,
            (
              (refl, refl, refl, omega arith),
              (
                tt,
                (
                  refl,
                  (
                    (refl, refl, refl, omega arith),
                    (
                      tt,
                      (
                        tt,
                        (
                          tt,
                          (
                            (refl, refl, refl, omega arith),
                            (
                              tt,
                              (
                                (refl, refl, refl, omega arith),
                                (
                                  tt,
                                  (
                                    tt,
                                    (
                                      tt,
                                      (
                                        (1, refl),
                                        (tt, (tt, ((0, refl), (tt, (tt, ((0, refl), tt)))))),
                                      ),
                                    ),
                                  ),
                                ),
                              ),
                            ),
                          ),
                        ),
                      ),
                    ),
                  ),
                ),
              ),
            ),
          ),
        ),
      ),
    ),
  ),
)

once_lem_example :
    kept_ones class_of ((ended.delivered ++ ended.pending) ++ ended.sub.queue)
    ≡ visible event not_3 1 ended.sub.cursor
once_lem_example = once_lem num class_of 1 event not_3 all_events 1 course course_allowed

idle_lem_example :
    (ended.last ≤ ended.sub.cursor)
    × (kept_ones class_of ended.delivered ≡ visible event not_3 1 ended.sub.cursor)
unfolding run step select
idle_lem_example =
    idle_lem num class_of 1 event not_3 all_events 1 course ended course_allowed refl refl refl refl

-- The filter keeps 2, 4, 5 and 6.
ended_delivered : ended.delivered ≡ event 2 ∷ event 4 ∷ event 5 ∷ event 6 ∷ []
unfolding run step select
ended_delivered = refl

-- A full queue of an Instance's Feed with no delta in it.
abbrev full : Subscription SmallEvent
full = record (subscribe {E = SmallEvent} true none) { queue = event 1 ∷ [] }
