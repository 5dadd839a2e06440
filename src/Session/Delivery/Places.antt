-- ===== src/Session/Delivery/Places.antt =====
-- The places of gotato/queue.go: a message that was given one gives it back, whatever becomes of it.
use gotato.Base.{zero, suc, Bool, false, not, if◌then◌else◌, ◌≡◌, refl, arith}
use gotato.Base.Int.{ℤ, pos, negsuc, succ, pred}
use gotato.Session.Control.{
  ControlKind, steer, follow_up, notice_kind, Control, ControlQueue, PerKind, change, reserve,
  release, fill, put, full,
}
use gotato.Session.Delivery.{
  RunState, sent_control, control_run_ended, control_session_closed, fill_control, control_gate,
  is_sent,
}

pred-succ : (z : ℤ) → pred (succ z) ≡ z
pred-succ (pos n) = refl
pred-succ (negsuc zero) = refl
pred-succ (negsuc (suc n)) = refl

change-change : (k : ControlKind) (p : PerKind ℤ) → change k pred (change k succ p) ≡ p
change-change steer p = rw (pred-succ p.of_steer) refl
change-change follow_up p = rw (pred-succ p.of_follow_up) refl
change-change notice_kind p = rw (pred-succ p.of_notice) refl

-- A message that got a place at the reserve leaves none held when it is offered to the queue, with
-- no call in between: it stands last in it under the next number, or the queue is as it was. It is refused for a closed
-- Session only if the queue was sealed, and else exactly if the gate says that the Run ended.
pub reserve-fill_control :
    (c : Control) (needs_run : Bool) (run : RunState) (q : ControlQueue)
    → full c.kind q ≡ false
    → fill_control c needs_run run (reserve c.kind q).0 ≡ (
        if not (is_sent (control_gate needs_run run))
        then (q, control_run_ended)
        else if q.sealed
        then (q, control_session_closed)
        else (put c q, sent_control))
unfolding fill_control reserve control_gate fill release put
reserve-fill_control c needs_run run q h = ground (arith, change-change c.kind q.held)
