-- ===== src/Host/Heartbeat/Closed.antt =====
-- A Close that falls between the parts of Live (host/internal/heartbeat/heartbeat.go): while its first
-- renewal is on its way, the Row's lock is free.
use gotato.Base.{
  ℕ, ◌+◌, if◌then◌else◌, true, false, Option, none, some, List, [], ◌∷◌, Bytes, bytes_eq,
  bytes_beq_iff, ◌===◌, is_some, lookup, lookup-insert, lookup-delete, ◌≡◌, ◌∙◌, refl, arith, sym,
  ap, All, Option-cases, Bool-cases, subst, inl, inr,
}
use gotato.Store.Id.{StoreError, check_id}
use gotato.Store.Memory.{MemoryStore, InstanceRow, beat, create, append, delete_record}
use gotato.Store.Memory.Step.{Call, creates, appends, deletes, beats, step}
use gotato.Host.Heartbeat.{
  HeartError, closed_row, of_store, World, Sent, Renewal, renew, make_live, close, noted,
  enter_live, is_expired, row_of, Config, new_name, new_row, answered, row_named,
}
use gotato.Host.Heartbeat.Event.{start}

-- What happens while the lock is free: a Close, and calls of others on the store.
pub data Between : Type 0 where
  row_closes : Sent → Between
  calls : Call → Between

unfoldable pub meanwhile : List Between → World → World
meanwhile [] w = w
meanwhile (row_closes c ∷ bs) w = meanwhile bs (close c w).0
meanwhile (calls c ∷ bs) w = meanwhile bs (record w { store = (step c w.store).0 })

-- renew, with what happens before its Beat, and between that and its answer.
unfoldable pub renew_among :
    List Between → List Between → Renewal → World → World × Option StoreError
unfolding meanwhile noted answered
renew_among sending answering n w =
    let before = meanwhile sending w in
    let (m, e) = beat n.call.ctx (row_of w.row) w.row.cfg.ttl n.call.at before.store in
    let told = meanwhile answering (record before { store = m }) in
    answered n (row_of w.row) e (record told { row = noted n.sent e told.row })

-- Live, with what happens in its renewal, and before the Row's lock is taken again at the end.
unfoldable pub live_among :
    List Between → List Between → List Between → Renewal → Sent → World → World × Option HeartError
unfolding renew_among enter_live
live_among sending answering entering n c w =
    if w.row.closed
    then (w, some closed_row)
    else if w.row.started
    then (w, none)
    else elim (renew_among sending answering n w).1 [
      | some e ↦ ((renew_among sending answering n w).0, some (of_store e))
      | none ↦ enter_live c (meanwhile entering (renew_among sending answering n w).0)
    ]

-- With nothing in between it is make_live.
live_alone : (n : Renewal) (c : Sent) (w : World) → live_among [] [] [] n c w ≡ make_live n c w
unfolding live_among renew_among make_live renew meanwhile
live_alone n c w = refl

-- A Row of this name that has not started.
pub record Quiet (name : Bytes) (w : World) : Type 0 where
  pub named : w.row.instance_name ≡ name
  pub unstarted : w.row.started ≡ false
  pub still : w.row.ticking ≡ false

-- A call of others that does not write the row of this name.
abbrev pub Foreign : Bytes → Between → Type 0
Foreign name (calls (beats ctx row ttl now)) = row.id === name ≡ false
Foreign name _ = Unit {0}

call-Foreign :
    (name : Bytes) (c : Call) (m : MemoryStore)
    → Foreign name (calls c)
    → lookup name (step c m).0.instances ≡ lookup name m.instances
unfolding step create append delete_record beat
call-Foreign name (creates ctx id es d) m o = ground arith
call-Foreign name (appends ctx id after es d) m o = ground arith
call-Foreign name (deletes ctx id) m o = ground arith
call-Foreign name (beats ctx row ttl now) m o = ground (
  arith,
  lookup-insert row.id name (record { row = row; expires = now + ttl }) m.instances,
  lookup-delete row.id name m.instances,
)

close-Quiet :
    (name : Bytes) (c : Sent) (w : World)
    → Quiet name w
    → Quiet name (close c w).0 × ((close c w).0.store ≡ w.store)
unfolding close
close-Quiet name c w q = (
  record {
    named = ground (arith, q.named, q.unstarted);
    unstarted = ground (arith, q.unstarted);
    still = ground (arith, q.still);
  },
  ground (arith, q.unstarted),
)

meanwhile-Quiet :
    (name : Bytes) (bs : List Between) (w : World)
    → All (Foreign name) bs
    → Quiet name w
    → Quiet name (meanwhile bs w)
      × (lookup name (meanwhile bs w).store.instances ≡ lookup name w.store.instances)
unfolding meanwhile
meanwhile-Quiet name [] w o q = (q, refl)
meanwhile-Quiet name (row_closes c ∷ bs) w o q =
    let (k, same) = close-Quiet name c w q in
    let (r, kept) = meanwhile-Quiet name bs (close c w).0 o.1 k in
    (r, kept ∙ ap (λ (m : MemoryStore). lookup name m.instances) same)
meanwhile-Quiet name (calls c ∷ bs) w o q =
    let (r, kept) =
      meanwhile-Quiet name bs (record w { store = (step c w.store).0 }) o.1
        (record { named = q.named; unstarted = q.unstarted; still = q.still }) in
    (r, kept ∙ call-Foreign name c w.store o.0)

not_expired : (id : Bytes) → is_expired (check_id id) ≡ false
unfolding check_id
not_expired id = ground arith

-- A Beat for a row that is not there is not refused as expired, and a refused one changes nothing.
beat_absent :
    (ctx : Option StoreError) (row : InstanceRow) (ttl now : ℕ) (m : MemoryStore)
    → is_expired ctx ≡ false
    → lookup row.id m.instances ≡ none
    → let (m', e) = beat ctx row ttl now m in
      (is_expired e ≡ false) × (is_some e ≡ true → m' ≡ m) × (e ≡ none → check_id row.id ≡ none)
unfolding beat
beat_absent ctx row ttl now m k e =
    (ground (arith, e, not_expired row.id), λ q. ground (arith, e, q), λ q. ground (arith, e, q))

beat_removes :
    (row : InstanceRow) (now : ℕ) (m : MemoryStore)
    → check_id row.id ≡ none
    → lookup row.id (beat none row 0 now m).0.instances ≡ none
unfolding beat
beat_removes row now m k =
    ground (arith, lookup-delete row.id row.id m.instances, bytes_beq_iff row.id row.id)

-- The answer to a renewal that is not refused as expired.
answered_plain :
    (n : Renewal) (row : InstanceRow) (e : Option StoreError) (w : World)
    → is_expired e ≡ false
    → answered n row e w ≡ (w, e)
unfolding answered
answered_plain n row e w k = ground arith

noted-Quiet :
    (name : Bytes) (sent : ℕ) (e : Option StoreError) (w : World)
    → Quiet name w
    → Quiet name (record w { row = noted sent e w.row })
unfolding noted
noted-Quiet name sent e w q = record {
  named = ground (arith, q.named);
  unstarted = ground (arith, q.unstarted);
  still = ground (arith, q.still);
}

-- A renewal of a row that the store does not have: refused, it leaves it so.
renew_among_lem :
    (name : Bytes) (sending answering : List Between) (n : Renewal) (w : World)
    → is_expired n.call.ctx ≡ false
    → All (Foreign name) sending
    → All (Foreign name) answering
    → Quiet name w
    → lookup name w.store.instances ≡ none
    → let (w', e) = renew_among sending answering n w in
      Quiet name w'
      × (is_some e ≡ true → lookup name w'.store.instances ≡ none)
      × (e ≡ none → check_id name ≡ none)
unfolding renew_among
renew_among_lem name sending answering n w k a b q absent =
    let before = meanwhile sending w in
    let (qb, lb) = meanwhile-Quiet name sending w a q in
    let (m, e) = beat n.call.ctx (row_of w.row) w.row.cfg.ttl n.call.at before.store in
    let sent : World = record before { store = m } in
    let there : lookup w.row.instance_name before.store.instances ≡ none =
      ap (λ (i : Bytes). lookup i before.store.instances) q.named ∙ lb ∙ absent in
    let (x, y, z) =
      beat_absent n.call.ctx (row_of w.row) w.row.cfg.ttl n.call.at before.store k there in
    let (qt, lt) =
      meanwhile-Quiet name answering sent b
        (record { named = qb.named; unstarted = qb.unstarted; still = qb.still }) in
    let told = meanwhile answering sent in
    let next : World = record told { row = noted n.sent e told.row } in
    let is = answered_plain n (row_of w.row) e next x in
    subst
      (λ (r : World × Option StoreError).
        Quiet name r.0
        × (is_some r.1 ≡ true → lookup name r.0.store.instances ≡ none)
        × (r.1 ≡ none → check_id name ≡ none))
      (sym is)
      (
        noted-Quiet name n.sent e told qt,
        λ f. lt ∙ ap (λ (s : MemoryStore). lookup name s.instances) (y f) ∙ lb ∙ absent,
        λ f. sym (ap check_id q.named) ∙ z f,
      )

-- The end of Live on a Row that was closed meanwhile.
enter_closed :
    (name : Bytes) (c : Sent) (w : World)
    → c.ctx ≡ none
    → check_id name ≡ none
    → Quiet name w
    → (enter_live c w).0.row.closed ≡ true
    → (lookup name (enter_live c w).0.store.instances ≡ none)
      × ((enter_live c w).1 ≡ some closed_row)
      × ((enter_live c w).0.row.started ≡ false)
      × ((enter_live c w).0.row.ticking ≡ false)
unfolding enter_live
enter_closed name c w good named q shut = elim (Bool-cases w.row.closed) [
  | inl t ↦ (
    ground (arith, t, q.named, good, named, beat_removes (row_named name) c.at w.store),
    ground (arith, t),
    ground (arith, t, q.unstarted),
    ground (arith, t, q.still),
  )
  | inr f ↦ absurd (ground (arith, f, shut, q.unstarted))
]

-- Live of a new Row among Closes and calls of others, at any point of its first renewal and after it:
-- if the Row is closed when Live returns, then Live returned an error, no renewals run, and the store
-- has no row of the Row's name, though a Beat of Live may have written it after the Close. The store
-- had no such row, no other writes one, the context of the removal works, and a context's error is not
-- that of an expired row.
pub close_during_live :
    (cfg : Config) (random : Bytes) (m : MemoryStore) (sending answering entering : List Between)
    (n : Renewal) (c : Sent)
    → lookup (new_name cfg random) m.instances ≡ none
    → All (Foreign (new_name cfg random)) sending
    → All (Foreign (new_name cfg random)) answering
    → All (Foreign (new_name cfg random)) entering
    → is_expired n.call.ctx ≡ false
    → c.ctx ≡ none
    → let (w, e) = live_among sending answering entering n c (start cfg random m) in
      w.row.closed ≡ true
      → (is_some e ≡ true)
        × (w.row.started ≡ false)
        × (w.row.ticking ≡ false)
        × (lookup (new_name cfg random) w.store.instances ≡ none)
unfolding live_among new_row
close_during_live cfg random m sending answering entering n c absent a b d k good shut =
    let name = new_name cfg random in
    let w0 = start cfg random m in
    let r = renew_among sending answering n w0 in
    let (q, refused, ok) =
      renew_among_lem name sending answering n w0 k a b
        (record { named = refl; unstarted = refl; still = refl }) absent in
    elim (Option-cases r.1) [
      | inr (e, f) ↦ (
        ground (arith, f),
        ground (arith, f, q.unstarted),
        ground (arith, f, q.still),
        ground (arith, f, refused),
      )
      | inl f ↦
          let (q', l) = meanwhile-Quiet name entering r.0 d q in
          let (x, y, z, t) =
            enter_closed name c (meanwhile entering r.0) good (ok f) q' (ground (arith, f, shut)) in
          (ground (arith, f, y), ground (arith, f, z), ground (arith, f, t), ground (arith, f, x))
    ]
