-- ===== src/Session/Control/Tests.antt =====
-- The theorems about the control queue at queues of a few messages.
use gotato.Base.{ℕ, ◌+◌, ◌≤◌, true, false, none, List, [], ◌∷◌, map, ◌≡◌, refl, arith, ◌==◌}
use gotato.Base.Int.{pos}
use gotato.Session.Types.{Message, user, end_turn, steer_source, follow_up_source, notice_source}
use gotato.Session.Control.{
  Control, ControlQueue, at, steer, follow_up, notice_kind, count, count_if, reserve, release, fill,
  add, put, take, done, put_back, any_wanted, new_control_queue,
}
use gotato.Session.Control.Order.{Ascending}
use gotato.Session.Control.Desk.{
  Desk, Action, reserves, fills, adds, takes, settles, puts_back, act, history, new_desk,
  open_items,
}
use gotato.Session.Control.Ledger.{history_ledger, history-Ascending}
use gotato.Session.Control.Boundary.{take-put_back}
use gotato.Session.Control.Limits.{history_limit}

abbrev hello : Message
hello = record {
  id = b'm' ∷ [];
  run_id = [];
  role = user;
  parts = [];
  tool_calls = [];
  result = none;
  usage = record {
    input_tokens = 0;
    output_tokens = 0;
    total_tokens = 0;
    cache_read_tokens = 0;
    cache_write_tokens = 0;
  };
  stop_reason = end_turn;
  model = [];
  info = none;
}

abbrev steering : Control
steering = record { seq = 0; message = hello; source = steer_source; kind = steer; number = 0 }

abbrev following : Control
following = record steering { source = follow_up_source; kind = follow_up }

abbrev noticing : Control
noticing = record steering { source = notice_source; kind = notice_kind; number = 9 }

-- A FollowUp is accepted, then a Steer, which the Run takes; another arrives; the Run puts the first
-- one back.
abbrev day : List Action
day =
    reserves follow_up
    ∷ fills following
    ∷ adds steering
    ∷ takes false
    ∷ adds steering
    ∷ puts_back
    ∷ []

abbrev fresh_desk : Desk
fresh_desk = new_desk (new_control_queue 8 4 16)

history_ledger_example :
    let d = history day fresh_desk in
    count_if (λ c. c.seq == 2) d.accepted
    ≡ count_if (λ c. c.seq == 2) d.settled
      + count_if (λ c. c.seq == 2) d.dropped
      + count_if (λ c. c.seq == 2) (open_items d.held_lease)
      + count_if (λ c. c.seq == 2) d.queue.items
unfolding act new_control_queue reserve fill release put add count count_if take
history_ledger_example =
    history_ledger 8 4 16 day (λ c. c.seq == 2)
      (tt, (omega arith, (omega arith, (refl, (omega arith, (tt, tt))))))

history-Ascending_example :
    let d = history day fresh_desk in
    Ascending 0 d.queue.items × Ascending 0 (open_items d.held_lease)
unfolding act new_control_queue reserve fill release put add count count_if take
history-Ascending_example =
    history-Ascending 8 4 16 day (tt, (omega arith, (omega arith, (refl, (omega arith, (tt, tt))))))

-- Three messages wait, in order.
abbrev busy_queue : ControlQueue
busy_queue = record {
  items =
      record following { seq = 1 } ∷ record steering { seq = 2 } ∷ record noticing { seq = 3 } ∷ [];
  held = record { of_steer = pos 0; of_follow_up = pos 0; of_notice = pos 0 };
  limit = record { of_steer = 8; of_follow_up = 4; of_notice = 16 };
  sealed = false;
  seq = 3;
}

take-put_back_example :
    (put_back (take false busy_queue).1 (take false busy_queue).0).0 ≡ busy_queue
take-put_back_example =
    take-put_back false 0 busy_queue (omega arith, (omega arith, (omega arith, tt)))

abbrev reserving : List Action
reserving =
    reserves steer ∷ reserves follow_up ∷ fills following ∷ takes true ∷ settles ∷ puts_back ∷ []

history_limit_example :
    let q = (history reserving fresh_desk).queue in
    (h : ℕ) × (at q.held follow_up ≡ pos h) × (count follow_up q + h ≤ 4)
unfolding act new_control_queue reserve fill release put add count count_if take done any_wanted
history_limit_example =
    history_limit follow_up 8 4 16 reserving (tt, (tt, ((0, refl), (tt, (tt, (refl, tt))))))

-- What the calls do to a queue of one Steer at most.
small : (add steering (add steering (new_control_queue 1 4 16)).0).1 ≡ false
unfolding add count count_if put new_control_queue
small = refl

interrupted_order : map (λ c. c.seq) (history day fresh_desk).queue.items ≡ 1 ∷ 2 ∷ 3 ∷ []
unfolding history act new_control_queue reserve fill release put add count count_if take done
    any_wanted put_back
interrupted_order = refl
