-- ===== src/Host/Heartbeat.antt =====
-- host/internal/heartbeat/heartbeat.go: an Instance's Liveness row, over a store that is the
-- MemoryStore. A part of a method between two releases of the Row's lock is a function of its own
-- (noted, adopted, enter_live), and renew puts them together with the store's calls between them. The
-- clock's readings, the random part of a name and the error of a context that ended are arguments.
pub mod Event
pub mod Fresh
pub mod Guard
pub mod Closed
mod Tests
use gotato.Base.{
  ℕ, ◌+◌, ◌-◌, ◌/◌, Bool, true, false, not, ◌&&◌, ◌||◌, ltb, if◌then◌else◌, Option, none, some,
  List, [], ◌∷◌, ◌++◌, Bytes, bytes_eq, ◌===◌, take, is_some, max,
}
use gotato.Store.Id.{StoreError, expired}
use gotato.Store.Memory.{MemoryStore, InstanceRow, beat}

pub data HeartError : Type 0 where
  lapsed closed_row : HeartError
  of_store : StoreError → HeartError

pub record Config : Type 0 where
  pub label : Bytes
  pub address : Bytes
  pub ttl : ℕ

pub record Row : Type 0 where
  pub cfg : Config
  pub started : Bool
  pub draining : Bool
  pub closed : Bool
  -- none is Go's zero time.
  pub last_sent : Option ℕ
  pub expired : Bool
  pub instance_name : Bytes
  pub reported : Bool
  pub ticking : Bool

abbrev pub is_nil : Bytes → Bool
is_nil [] = true
is_nil (b ∷ bs) = false

-- The label and eight characters of a random id, or the whole of it.
unfoldable pub new_name : Config → Bytes → Bytes
new_name cfg random = if is_nil cfg.label then random else cfg.label ++ b'-' ∷ take 8 random

unfoldable pub new_row : Config → Bytes → Row
unfolding new_name
new_row cfg random = record {
  cfg = cfg;
  started = false;
  draining = false;
  closed = false;
  last_sent = none;
  expired = false;
  instance_name = new_name cfg random;
  reported = false;
  ticking = false;
}

-- Since the zero time it is longer than any duration.
abbrev pub since_over : Option ℕ → ℕ → ℕ → Bool
since_over none now d = true
since_over (some sent) now d = ltb d (now - sent)

unfoldable pub stale : ℕ → Row → Bool
stale now r = since_over r.last_sent now (r.cfg.ttl - r.cfg.ttl / 5)

unfoldable pub is_lapsed : ℕ → Row → Bool
unfolding stale
is_lapsed now r = if not r.started || r.closed then false else r.expired || stale now r

abbrev pub row_of : Row → InstanceRow
row_of r = record { id = r.instance_name; draining = r.draining; address = r.cfg.address }

abbrev pub row_named : Bytes → InstanceRow
row_named name = record { id = name; draining = false; address = [] }

abbrev pub is_expired : Option StoreError → Bool
is_expired (some expired) = true
is_expired _ = false

abbrev pub later : ℕ → Option ℕ → Bool
later sent none = true
later sent (some last) = ltb last sent

-- What renew writes down of the store's answer.
unfoldable pub noted : ℕ → Option StoreError → Row → Row
noted sent e r =
    if is_expired e
    then record r { expired = true }
    else if not (is_some e) && later sent r.last_sent
    then record r { last_sent = some sent }
    else r

-- What reregister does once the new name's row is written, and whether the Row took the name.
unfoldable pub adopted : Bytes → Bytes → ℕ → Row → Row × Bool
adopted old name sent r = if r.closed || not (r.instance_name === old) then (r, false) else (
  record r { instance_name = name; expired = false; reported = false; last_sent = some sent },
  true,
)

pub record World : Type 0 where
  pub row : Row
  pub store : MemoryStore

-- A store's call: its context's error, and the store's clock.
pub record Sent : Type 0 where
  pub ctx : Option StoreError
  pub at : ℕ

unfoldable pub reregister :
    InstanceRow → Bytes → ℕ → Sent → Sent → World → World × Option StoreError
unfolding adopted
reregister old name sent first last w =
    let row' = record old { id = name } in
    let (m, e) = beat first.ctx row' w.row.cfg.ttl first.at w.store in
    if is_some e
    then (record { row = w.row; store = m }, e)
    else let (r, took) = adopted old.id name sent w.row in
      (
        record {
          row = r;
          store =
              if took
              then (beat last.ctx (row_named old.id) 0 last.at m).0
              else (beat last.ctx (row_named name) 0 last.at m).0;
        },
        none,
      )

-- The readings of one renewal: when it was sent, the store's calls, and the name in case the row expired.
pub record Renewal : Type 0 where
  pub sent : ℕ
  pub call : Sent
  pub random : Bytes
  pub sent_again : ℕ
  pub call_again : Sent
  pub call_last : Sent

-- What renew does of the store's answer, when the Row's lock is free again: `row` is what was sent.
unfoldable pub answered :
    Renewal → InstanceRow → Option StoreError → World → World × Option StoreError
unfolding reregister
answered n row e w =
    if is_expired e && not w.row.closed
    then reregister row (new_name w.row.cfg n.random) n.sent_again n.call_again n.call_last w
    else (w, e)

unfoldable pub renew : Renewal → World → World × Option StoreError
unfolding noted answered
renew n w =
    let (m, e) = beat n.call.ctx (row_of w.row) w.row.cfg.ttl n.call.at w.store in
    answered n (row_of w.row) e (record { row = noted n.sent e w.row; store = m })

-- The end of Live, after its first renewal.
unfoldable pub enter_live : Sent → World → World × Option HeartError
enter_live c w =
    if w.row.closed
    then (
      record w { store = (beat c.ctx (row_named w.row.instance_name) 0 c.at w.store).0 },
      some closed_row,
    )
    else if w.row.started
    then (w, none)
    else (record w { row = record w.row { started = true; ticking = true } }, none)

unfoldable pub make_live : Renewal → Sent → World → World × Option HeartError
unfolding renew enter_live
make_live n c w =
    if w.row.closed
    then (w, some closed_row)
    else if w.row.started
    then (w, none)
    else elim (renew n w).1 [
      | some e ↦ ((renew n w).0, some (of_store e))
      | none ↦ enter_live c (renew n w).0
    ]

-- The refusal, and the name for which OnLapse is called.
unfoldable pub guard : ℕ → Bytes → Row → Row × Option HeartError × Option Bytes
unfolding stale
guard now name r =
    if not (is_nil name) && not (name === r.instance_name)
    then (r, some lapsed, none)
    else if not r.expired && not (stale now r)
    then (r, none, none)
    else if not r.reported && not r.closed
    then (record r { reported = true }, some lapsed, some r.instance_name)
    else (r, some lapsed, none)

unfoldable pub mark_draining : Renewal → World → World × Option StoreError
unfolding renew
mark_draining n w =
    let w' : World = record w { row = record w.row { draining = true } } in
    if not w.row.started then (w', none) else renew n w'

unfoldable pub close : Sent → World → World × Option StoreError
close c w =
    let r = record w.row { started = false; closed = true; expired = true } in
    if not w.row.started
    then (record w { row = r }, none)
    else let (m, e) = beat c.ctx (row_named w.row.instance_name) 0 c.at w.store in
      (record { row = record r { ticking = false }; store = m }, if is_expired e then none else e)
