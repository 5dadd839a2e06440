-- ===== src/Record/Window/Tests.antt =====
-- The window of record/events.go at a limit of 2 and three Events, which are their numbers here.
use gotato.Base.{
  ℕ, ◌+◌, ltb, leb, if◌then◌else◌, some, List, [], ◌∷◌, length, select, ok, err, ◌≡◌, refl, arith,
}
use gotato.Record.Window.{Window, new_window, retain, events_after, events_lost}
use gotato.Record.Window.Last.{retain_all}
use gotato.Record.Window.After.{events_after_lem}

abbrev three : List ℕ
three = 1 ∷ 2 ∷ 3 ∷ []

abbrev self : ℕ → ℕ
self n = n

events_after_lem_example :
    (w : Window ℕ) × (retain_all three (new_window (some 2)) ≡ some w)
    × (events_after self (length three) 1 w ≡ (
        if leb (length three) (1 + 2)
        then ok (select (λ e. ltb 1 (self e)) three)
        else err events_lost))
events_after_lem_example =
    events_after_lem self 2 1 three (omega arith) (refl, (refl, (refl, tt))) (omega arith)

abbrev wrapped : Window ℕ
wrapped = record { events = 3 ∷ 2 ∷ []; event_head = 1; event_limit = some 2 }

-- The ring holds its newest Event before its oldest.
ring_of_three : retain_all three (new_window (some 2)) ≡ some wrapped
unfolding retain_all retain
ring_of_three = refl

since_one : events_after self 3 1 wrapped ≡ ok (2 ∷ 3 ∷ [])
unfolding events_after select
since_one = refl

since_zero : events_after self 3 0 wrapped ≡ err events_lost
unfolding events_after select
since_zero = refl
