-- ===== src/Session/Control/Desk.antt =====
-- A control queue with the Run that takes from it, and the account of its messages: which were
-- accepted, which the Run settled, and which a drain or a seal removed. The Session's goroutine takes
-- one lease at a time and puts it back before the next (consumeControl and commitQueuedNotices).
use gotato.Base.{◌+◌, ◌<◌, Bool, if◌then◌else◌, List, [], ◌∷◌, ◌++◌, drop, ◌≡◌, u64}
use gotato.Session.Control.{
  Control, ControlKind, ControlQueue, Lease, reserve, release, fill, add, take, take_notices, done,
  put_back, drain, seal,
}

pub record Desk : Type 0 where
  pub queue : ControlQueue
  pub held_lease : Lease
  pub accepted : List Control
  pub settled : List Control
  pub dropped : List Control

pub data Action : Type 0 where
  reserves releases : ControlKind → Action
  fills adds : Control → Action
  takes : Bool → Action
  takes_notices settles puts_back : Action
  drains : Bool → Action
  seals : Action

-- The messages of a lease that are not settled.
abbrev pub open_items : Lease → List Control
open_items l = drop l.settled l.items

-- The message as the queue numbers it.
abbrev pub stamp : Control → ControlQueue → Control
stamp c q = record c { seq = u64 (q.seq + 1) }

abbrev pub offered : Control → Desk → ControlQueue × Bool → Desk
offered c d (q, kept) = record d {
  queue = q;
  accepted = if kept then d.accepted ++ stamp c d.queue ∷ [] else d.accepted;
}

abbrev pub removed : Desk → ControlQueue × List Control → Desk
removed d (q, out) = record d { queue = q; dropped = d.dropped ++ out }

abbrev pub taken : Desk → ControlQueue × Lease → Desk
taken d (q, l) = record d { queue = q; held_lease = l }

-- The Run is done with the message it is at.
abbrev pub settle_next : Desk → List Control → Desk
settle_next d [] = d
settle_next d (c ∷ cs) = record d { held_lease = done d.held_lease; settled = d.settled ++ c ∷ [] }

abbrev pub returned : Desk → ControlQueue × Lease → Desk
returned d (q, l) = record d { queue = q; held_lease = l }

unfoldable pub act : Action → Desk → Desk
act (reserves k) d = record d { queue = (reserve k d.queue).0 }
act (releases k) d = record d { queue = release k d.queue }
act (fills c) d = offered c d (fill c d.queue)
act (adds c) d = offered c d (add c d.queue)
act (takes settling) d = taken d (take settling d.queue)
act takes_notices d = taken d (take_notices d.queue)
act settles d = settle_next d (open_items d.held_lease)
act puts_back d = returned d (put_back d.held_lease d.queue)
act (drains with_notices) d = removed d (drain with_notices d.queue)
act seals d = removed d (seal d.queue)

-- A lease is taken when none is open, and the numbers stay below 2^64.
abbrev pub Allowed : Action → Desk → Type 0
Allowed (takes settling) d = open_items d.held_lease ≡ []
Allowed takes_notices d = open_items d.held_lease ≡ []
Allowed (fills c) d = d.queue.seq + 1 < 18446744073709551616
Allowed (adds c) d = d.queue.seq + 1 < 18446744073709551616
Allowed _ d = Unit {0}

unfoldable pub history : List Action → Desk → Desk
history [] d = d
history (a ∷ as') d = history as' (act a d)

abbrev pub AllAllowed : List Action → Desk → Type 0
AllAllowed [] d = Unit {0}
AllAllowed (a ∷ as') d = Allowed a d × AllAllowed as' (act a d)

abbrev pub new_desk : ControlQueue → Desk
new_desk q = record {
  queue = q;
  held_lease = record { items = []; settled = 0 };
  accepted = [];
  settled = [];
  dropped = [];
}
