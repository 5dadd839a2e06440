-- ===== src/Session/Delivery/Tests.antt =====
-- The theorems about gotato/queue.go at a queue with room for one Steer.
use gotato.Base.{ℕ, true, false, none, List, [], ◌∷◌, ◌≡◌, refl, codes}
use gotato.Session.Types.{
  Message, user, other_stop, steer_source, follow_up_source, interrupt_source, notice_source,
}
use gotato.Session.Control.{
  Control, ControlKind, ControlQueue, steer, follow_up, notice_kind, new_control_queue, put, count,
  count_if, add,
}
use gotato.Session.Delivery.{RunState, Queued, requeue, control_of}

abbrev said : List ℕ → Message
said id = record {
  id = id;
  run_id = [];
  role = user;
  parts = [];
  tool_calls = [];
  result = none;
  usage = record {
    input_tokens = 0;
    output_tokens = 0;
    total_tokens = 0;
    cache_read_tokens = 0;
    cache_write_tokens = 0;
  };
  stop_reason = other_stop [];
  model = [];
  info = none;
}

abbrev between : RunState
between = record { in_run = false; ending = false; keeps = false }

abbrev writing_end : RunState
writing_end = record { in_run = true; ending = true; keeps = false }

abbrev narrow : ControlQueue
narrow = new_control_queue 1 1 4

abbrev cut_in : Control
cut_in = record {
  seq = 0;
  message = said (codes "a");
  source = interrupt_source;
  kind = steer;
  number = 0;
}

abbrev left : List Queued
left =
    record { message = said (codes "a"); source = interrupt_source; number = 0 }
    ∷ record { message = said (codes "b"); source = notice_source; number = 7 }
    ∷ record { message = said (codes "c"); source = steer_source; number = 0 }
    ∷ record { message = said (codes "d"); source = follow_up_source; number = 0 }
    ∷ []

abbrev kinds : List Control → List ControlKind
kinds [] = []
kinds (c ∷ cs) = c.kind ∷ kinds cs

-- The Interrupt takes the Steer's place, the Steer that of the FollowUp, and the last is handed back.
requeued_kinds : kinds (requeue between left narrow).0.items ≡ steer ∷ notice_kind ∷ follow_up ∷ []
unfolding requeue control_of add count count_if new_control_queue put
requeued_kinds = refl
