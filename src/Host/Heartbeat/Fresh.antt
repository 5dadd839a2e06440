-- ===== src/Host/Heartbeat/Fresh.antt =====
-- What holds between an Instance's Row and the row that the store keeps for it, whatever happens
-- (host/internal/heartbeat/heartbeat.go).
use gotato.Base.{
  ℕ, ◌+◌, ◌≤◌, Bool, true, false, ◌&&◌, ◌||◌, ◌==◌, leb, Option, none, some, Bytes, is_some,
  bytes_eq, bytes_beq_iff, ◌===◌, lookup, lookup-insert, lookup-delete, ◌≡◌, refl, arith, ◌∙◌, ap,
}
use gotato.Store.Id.{StoreError}
use gotato.Store.Memory.{
  MemoryStore, MemoryInstance, InstanceRow, beat, create, append, delete_record,
}
use gotato.Store.Memory.Step.{creates, appends, deletes, beats, step}
use gotato.Host.Heartbeat.{
  Row, World, Sent, Renewal, new_name, renew, make_live, guard, mark_draining, close, noted,
  adopted, reregister, enter_live, row_of, row_named, answered,
}
use gotato.Host.Heartbeat.Event.{Event, ticks, lives, drains, closes, guards, others, happen}

-- The time of the last renewal is not after `t`, and the row in the store lasts a ttl from it.
abbrev pub lasts : ℕ → ℕ → Option MemoryInstance → Option ℕ → Bool
lasts t ttl o none = true
lasts t ttl none (some s) = false
lasts t ttl (some x) (some s) = leb s t && leb (s + ttl) x.expires

abbrev pub Fresh : ℕ → World → Type 0
Fresh t w =
    w.row.expired
      || lasts t w.row.cfg.ttl (lookup w.row.instance_name w.store.instances) w.row.last_sent
    ≡ true

later-lasts :
    (t t' ttl : ℕ) (o : Option MemoryInstance) (last : Option ℕ)
    → t ≤ t'
    → lasts t ttl o last ≡ true
    → lasts t' ttl o last ≡ true
later-lasts t t' ttl o none le h = refl
later-lasts t t' ttl none (some s) le h = h
later-lasts t t' ttl (some x) (some s) le h = ground arith

later-Fresh : (t t' : ℕ) (w : World) → t ≤ t' → Fresh t w → Fresh t' w
later-Fresh t t' w le h = ground (
  arith,
  later-lasts t t' w.row.cfg.ttl (lookup w.row.instance_name w.store.instances) w.row.last_sent,
)

-- A renewal that was sent at `sent`, once its answer is written down.
noted-Fresh :
    (t sent : ℕ) (c : Sent) (w : World)
    → w.row.cfg.ttl == 0 ≡ false
    → t ≤ sent
    → sent ≤ c.at
    → Fresh t w
    → let (m, e) = beat c.ctx (row_of w.row) w.row.cfg.ttl c.at w.store in
      Fresh sent (record { row = noted sent e w.row; store = m })
unfolding noted beat
noted-Fresh t sent c w kept le at h = ground (
  arith,
  lookup-insert w.row.instance_name w.row.instance_name
      (record { row = row_of w.row; expires = c.at + w.row.cfg.ttl }) w.store.instances,
  bytes_beq_iff w.row.instance_name w.row.instance_name,
)

beat_written :
    (ctx : Option StoreError) (row : InstanceRow) (ttl now : ℕ) (m : MemoryStore)
    → ttl == 0 ≡ false
    → is_some (beat ctx row ttl now m).1 ≡ false
    → lookup row.id (beat ctx row ttl now m).0.instances
      ≡ some (record { row = row; expires = now + ttl })
unfolding beat
beat_written ctx row ttl now m kept e = ground (
  arith,
  lookup-insert row.id row.id (record { row = row; expires = now + ttl }) m.instances,
  bytes_beq_iff row.id row.id,
)

beat_other :
    (ctx : Option StoreError) (row : InstanceRow) (ttl now : ℕ) (m : MemoryStore) (k : Bytes)
    → row.id === k ≡ false
    → lookup k (beat ctx row ttl now m).0.instances ≡ lookup k m.instances
unfolding beat
beat_other ctx row ttl now m k ne = ground (
  arith,
  lookup-insert row.id k (record { row = row; expires = now + ttl }) m.instances,
  lookup-delete row.id k m.instances,
)

-- A Row that registers the name after its row expired: `old` carries the Row's own name.
reregister-Fresh :
    (sent : ℕ) (name : Bytes) (first last : Sent) (old : InstanceRow) (w : World)
    → w.row.cfg.ttl == 0 ≡ false
    → sent ≤ first.at
    → name === old.id ≡ false
    → Fresh sent w
    → w.row.instance_name ≡ old.id
    → Fresh sent (reregister old name sent first last w).0
unfolding reregister adopted
reregister-Fresh sent name first last old w kept at ne h same =
    let row' : InstanceRow = record old { id = name } in
    let m = (beat first.ctx row' w.row.cfg.ttl first.at w.store).0 in
    ground (
      arith,
      bytes_beq_iff name old.id,
      bytes_beq_iff old.id name,
      beat_written first.ctx row' w.row.cfg.ttl first.at w.store kept,
      beat_other first.ctx row' w.row.cfg.ttl first.at w.store old.id,
      beat_other last.ctx (row_named old.id) 0 last.at m name,
      beat_other last.ctx (row_named name) 0 last.at m old.id,
    )

-- The clock goes on from `t` through the renewal, each call reaches the store no sooner than it was
-- sent, and the name that is drawn is not the Row's.
abbrev pub InOrder : ℕ → Renewal → World → Type 0
InOrder t n w =
    (t ≤ n.sent)
    × (n.sent ≤ n.call.at)
    × (n.sent ≤ n.sent_again)
    × (n.sent_again ≤ n.call_again.at)
    × (new_name w.row.cfg n.random === w.row.instance_name ≡ false)

noted-kept :
    (sent : ℕ) (e : Option StoreError) (r : Row)
    → ((noted sent e r).cfg ≡ r.cfg)
      × ((noted sent e r).instance_name ≡ r.instance_name)
      × ((noted sent e r).closed ≡ r.closed)
unfolding noted
noted-kept sent e r = (ground arith, ground arith, ground arith)

answered-kept :
    (n : Renewal) (row : InstanceRow) (e : Option StoreError) (w : World)
    → ((answered n row e w).0.row.cfg ≡ w.row.cfg)
      × ((answered n row e w).0.row.closed ≡ w.row.closed)
unfolding answered reregister adopted
answered-kept n row e w = (ground arith, ground arith)

pub renew-kept :
    (n : Renewal) (w : World)
    → ((renew n w).0.row.cfg ≡ w.row.cfg) × ((renew n w).0.row.closed ≡ w.row.closed)
unfolding renew
renew-kept n w =
    let (m, e) = beat n.call.ctx (row_of w.row) w.row.cfg.ttl n.call.at w.store in
    let w' : World = record { row = noted n.sent e w.row; store = m } in
    let (c, i, d) = noted-kept n.sent e w.row in
    let (c', d') = answered-kept n (row_of w.row) e w' in (c' ∙ c, d' ∙ d)

answered-Fresh :
    (n : Renewal) (row : InstanceRow) (e : Option StoreError) (w : World)
    → w.row.cfg.ttl == 0 ≡ false
    → InOrder n.sent n w
    → w.row.instance_name ≡ row.id
    → Fresh n.sent w
    → Fresh n.sent_again (answered n row e w).0
unfolding answered
answered-Fresh n row e w kept o same h =
    let h' = later-Fresh n.sent n.sent_again w o.2 h in
    ground (
      arith,
      bytes_beq_iff (new_name w.row.cfg n.random) row.id,
      bytes_beq_iff (new_name w.row.cfg n.random) w.row.instance_name,
      reregister-Fresh n.sent_again (new_name w.row.cfg n.random) n.call_again n.call_last row w
          kept o.3,
    )

renew-Fresh :
    (t : ℕ) (n : Renewal) (w : World)
    → w.row.cfg.ttl == 0 ≡ false
    → InOrder t n w
    → Fresh t w
    → Fresh n.sent_again (renew n w).0
unfolding renew
renew-Fresh t n w kept o h =
    let (m, e) = beat n.call.ctx (row_of w.row) w.row.cfg.ttl n.call.at w.store in
    let r = noted n.sent e w.row in
    let (c, i, d) = noted-kept n.sent e w.row in
    let (o0, o1, o2, o3, ne) = o in
    let drawn =
      ap (λ x. new_name x n.random === r.instance_name) c
      ∙ ap (λ k. new_name w.row.cfg n.random === k) i in
    answered-Fresh n (row_of w.row) e (record { row = r; store = m })
      (ap (λ x. x.ttl == 0) c ∙ kept) (omega arith, o1, o2, o3, drawn ∙ ne) i
      (noted-Fresh t n.sent n.call w kept o0 o1 h)

enter_live-Fresh :
    (t : ℕ) (c : Sent) (w : World) → w.row.closed ≡ false → Fresh t w → Fresh t (enter_live c w).0
unfolding enter_live
enter_live-Fresh t c w live h = ground arith

make_live-Fresh :
    (t : ℕ) (n : Renewal) (c : Sent) (w : World)
    → w.row.cfg.ttl == 0 ≡ false
    → InOrder t n w
    → Fresh t w
    → Fresh n.sent_again (make_live n c w).0
unfolding make_live
make_live-Fresh t n c w kept o h =
    let h' = later-Fresh t n.sent_again w (omega arith) h in
    let r = renew-Fresh t n w kept o h in
    let k = renew-kept n w in ground (arith, k.1, enter_live-Fresh n.sent_again c (renew n w).0)

-- An event from the time `t` on: a call of the others writes no row of this name.
abbrev pub Allowed : ℕ → Event → World → Type 0
Allowed t (ticks n) w = InOrder t n w
Allowed t (lives n c) w = InOrder t n w
Allowed t (drains n) w = InOrder t n w
Allowed t (others (beats ctx row ttl now)) w = row.id === w.row.instance_name ≡ false
Allowed t _ w = Unit {0}

-- The time that the event has reached.
abbrev pub reached : ℕ → Event → ℕ
reached t (ticks n) = n.sent_again
reached t (lives n c) = n.sent_again
reached t (drains n) = n.sent_again
reached t _ = t

pub happen-Fresh :
    (t : ℕ) (e : Event) (w : World)
    → w.row.cfg.ttl == 0 ≡ false
    → Allowed t e w
    → Fresh t w
    → Fresh (reached t e) (happen e w)
unfolding happen mark_draining close guard step create append delete_record
happen-Fresh t (ticks n) w kept o h =
    let h' = later-Fresh t n.sent_again w (omega arith) h in
    ground (arith, renew-Fresh t n w kept o h)
happen-Fresh t (lives n c) w kept o h = make_live-Fresh t n c w kept o h
happen-Fresh t (drains n) w kept o h =
    let h' = later-Fresh t n.sent_again w (omega arith) h in
    ground (arith, renew-Fresh t n (record w { row = record w.row { draining = true } }) kept o h)
happen-Fresh t (closes c) w kept o h = ground arith
happen-Fresh t (guards now name) w kept o h = ground arith
happen-Fresh t (others (creates ctx id es d)) w kept o h = ground arith
happen-Fresh t (others (appends ctx id after es d)) w kept o h = ground arith
happen-Fresh t (others (deletes ctx id)) w kept o h = ground arith
happen-Fresh t (others (beats ctx row ttl now)) w kept o h =
    ground (arith, beat_other ctx row ttl now w.store w.row.instance_name o)
