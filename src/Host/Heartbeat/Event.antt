-- ===== src/Host/Heartbeat/Event.antt =====
-- What can happen to an Instance's Row and to its store (host/internal/heartbeat/heartbeat.go), one
-- whole method at a time: its renewals do not overlap, no Close falls between the parts of one (for
-- that see Closed), and the calls that other Instances make on the store come between the methods.
use gotato.Base.{ℕ, if◌then◌else◌, List, [], ◌∷◌, Bytes}
use gotato.Store.Memory.{MemoryStore}
use gotato.Store.Memory.Step.{Call, step}
use gotato.Host.Heartbeat.{
  Config, World, Sent, Renewal, new_row, renew, make_live, guard, mark_draining, close,
}

pub data Event : Type 0 where
  ticks : Renewal → Event
  lives : Renewal → Sent → Event
  drains : Renewal → Event
  closes : Sent → Event
  guards : ℕ → Bytes → Event
  others : Call → Event

abbrev pub start : Config → Bytes → MemoryStore → World
start cfg random m = record { row = new_row cfg random; store = m }

-- A tick comes only while the ticker runs.
unfoldable pub happen : Event → World → World
happen (ticks n) w = if w.row.ticking then (renew n w).0 else w
happen (lives n c) w = (make_live n c w).0
happen (drains n) w = (mark_draining n w).0
happen (closes c) w = (close c w).0
happen (guards now name) w = record w { row = (guard now name w.row).0 }
happen (others c) w = record w { store = (step c w.store).0 }

unfoldable pub history : List Event → World → World
history [] w = w
history (e ∷ es) w = history es (happen e w)

-- The calls of the others among them.
abbrev pub foreign : List Event → List Call
foreign [] = []
foreign (others c ∷ es) = c ∷ foreign es
foreign (_ ∷ es) = foreign es
