-- ===== src/Session/Delivery.antt =====
-- gotato/queue.go: how a message gets into the control queue of a Session. `run` is what the caller
-- reads of the Session's Run under run.mu, so the gate and the fill are one step. What enqueueControl
-- checks and writes before it asks for a place is not modelled here.
pub mod Places
pub mod Requeue
mod Tests
use gotato.Base.{ℕ, Bool, true, false, not, ◌&&◌, ◌||◌, if◌then◌else◌, List, [], ◌∷◌}
use gotato.Session.Types.{
  Message, MessageSource, RunStatus, completed, failed_status, steer_source, notice_source,
}
use gotato.Session.Control.{
  ControlKind, steer, follow_up, notice_kind, kind_of, Control, ControlQueue, is_interrupt, release,
  fill, add, drain,
}

pub record RunState : Type 0 where
  pub in_run : Bool
  pub ending : Bool
  pub keeps : Bool

pub data ControlOutcome : Type 0 where
  sent_control control_run_ended control_session_closed : ControlOutcome

unfoldable pub control_gate : Bool → RunState → ControlOutcome
control_gate needs_run run =
    if (needs_run && not run.in_run) || (run.in_run && run.ending && not run.keeps)
    then control_run_ended
    else sent_control

abbrev pub is_sent : ControlOutcome → Bool
is_sent sent_control = true
is_sent _ = false

unfoldable pub fill_control :
    Control → Bool → RunState → ControlQueue → ControlQueue × ControlOutcome
unfolding control_gate
fill_control queued needs_run run q =
    if not (is_sent (control_gate needs_run run))
    then (release queued.kind q, control_gate needs_run run)
    else if not (fill queued q).1
    then ((fill queued q).0, control_session_closed)
    else ((fill queued q).0, sent_control)

-- withQueueHandoff was set, and the Run completed or failed.
unfoldable pub keeps_queued : Bool → RunStatus → Bool
keeps_queued handoff completed = handoff
keeps_queued handoff failed_status = handoff
keeps_queued handoff _ = false

pub record Queued : Type 0 where
  pub message : Message
  pub source : MessageSource
  pub number : ℕ  -- uint64

unfoldable pub queued_of : List Control → List Queued
queued_of [] = []
queued_of (c ∷ cs) =
    record { message = c.message; source = c.source; number = c.number } ∷ queued_of cs

unfoldable pub take_queued : ControlQueue → ControlQueue × List Queued
unfolding queued_of
take_queued q = let (q', taken) = drain true q in (q', queued_of taken)

abbrev pub is_notice_source : MessageSource → Bool
is_notice_source notice_source = true
is_notice_source _ = false

-- An Interrupt becomes a Steer. The queue gives the number by which it is ordered.
unfoldable pub control_of : Queued → Control
control_of m = record {
  seq = 0;
  message = m.message;
  source = if is_interrupt m.source then steer_source else m.source;
  kind = if is_notice_source m.source then notice_kind else steer;
  number = m.number;
}

abbrev pub is_steer : ControlKind → Bool
is_steer steer = true
is_steer _ = false

-- One message that is put back in: as a Steer while those have room, and then as a FollowUp.
unfoldable pub requeue_one : RunState → Queued → ControlQueue → ControlQueue × Bool
unfolding control_gate control_of
requeue_one run m q =
    let c = control_of m in
    if not (is_sent (control_gate false run))
    then (q, false)
    else if (add c q).1
    then ((add c q).0, true)
    else if is_steer c.kind
    then add (record c { kind = follow_up }) (add c q).0
    else ((add c q).0, false)

-- The Run's state is the same at every message, and no other call comes between them.
unfoldable pub requeue : RunState → List Queued → ControlQueue → ControlQueue × List Queued
unfolding requeue_one
requeue run [] q = (q, [])
requeue run (m ∷ ms) q =
    let (q', put) = requeue_one run m q in
    let (q'', rest) = requeue run ms q' in (q'', if put then rest else m ∷ rest)
