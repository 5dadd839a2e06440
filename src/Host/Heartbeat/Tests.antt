-- ===== src/Host/Heartbeat/Tests.antt =====
-- A Liveness row at concrete inputs (host/internal/heartbeat/heartbeat.go): the first write, a
-- pause in which the row expires, the new name, and the close.
use gotato.Base.{
  ℕ, ◌+◌, true, false, none, is_some, List, [], ◌∷◌, ◌===◌, ◌||◌, bytes_eq, bytes_beq, lookup,
  insert, Bytes, ◌≡◌, refl, arith,
}
use gotato.Store.Memory.{empty_store, beat, instance_state}
use gotato.Store.Memory.Step.{step, beats}
use gotato.Store.Id.{check_id}
use gotato.Host.Heartbeat.{
  Config, Sent, Renewal, World, new_row, new_name, guard, make_live, close, row_named, is_nil,
}
use gotato.Host.Heartbeat.Event.{Event, ticks, lives, guards, others, start, history, happen}
use gotato.Host.Heartbeat.Guard.{guard_alive, says_alive}
use gotato.Host.Heartbeat.Closed.{
  Between, calls, row_closes, meanwhile, renew_among, live_among, close_during_live,
}

abbrev one : Bytes
one = b'1' ∷ []

abbrev two : Bytes
two = b'2' ∷ []

abbrev three : Bytes
three = b'3' ∷ []

abbrev config : Config
config = record { label = b'w' ∷ []; address = b'h' ∷ []; ttl = 100 }

abbrev plain : ℕ → Bytes → Renewal
plain t random = record {
  sent = t;
  call = record { ctx = none; at = t + 1 };
  random = random;
  sent_again = t + 2;
  call_again = record { ctx = none; at = t + 3 };
  call_last = record { ctx = none; at = t + 4 };
}

abbrev answer : Sent
answer = record { ctx = none; at = 15 }

-- The row starts at 10, expires at 111, and a tick at 200 takes a new name.
abbrev paused : List Event
paused =
    lives (plain 10 two) answer
    ∷ guards 60 []
    ∷ others (beats none (row_named two) 100 70)
    ∷ guards 150 (b'w' ∷ b'-' ∷ one)
    ∷ ticks (plain 200 three)
    ∷ []

abbrev survived : World
survived = history paused (start config one empty_store)

guard_alive_example :
    (is_nil [] || [] === survived.row.instance_name ≡ true)
    × (says_alive (instance_state none survived.row.instance_name 270 survived.store) ≡ true)
unfolding history happen guard bytes_beq make_live new_row beat check_id lookup step insert
guard_alive_example =
    guard_alive config one empty_store 5 paused 260 270 [] (omega arith)
      (
        (omega arith, omega arith, omega arith, omega arith, refl),
        (tt, (refl, (tt, ((omega arith, omega arith, omega arith, omega arith, refl), tt)))),
      )
      refl (omega arith)

-- A Close before the Beat of the first renewal reaches the store, which another Instance uses.
abbrev on_its_way : List Between
on_its_way =
    calls (beats none (row_named two) 100 8) ∷ row_closes (record { ctx = none; at = 9 }) ∷ []

close_during_live_example :
    let (w, e) = live_among on_its_way [] [] (plain 10 two) answer (start config one empty_store) in
    (is_some e ≡ true)
    × (w.row.started ≡ false)
    × (w.row.ticking ≡ false)
    × (lookup (b'w' ∷ b'-' ∷ one) w.store.instances ≡ none)
unfolding live_among renew_among meanwhile new_row beat check_id lookup step insert close new_name
    bytes_beq
close_during_live_example =
    close_during_live config one empty_store on_its_way [] [] (plain 10 two) answer refl
      (refl, (tt, tt)) tt tt refl refl refl

-- The name after the pause, and the guard of the old one.
renamed : survived.row.instance_name ≡ b'w' ∷ b'-' ∷ three
unfolding history happen guard bytes_beq make_live new_row beat check_id lookup step insert
renamed = refl
