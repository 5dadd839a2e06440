-- ===== src/Store/Memory/Step.antt =====
-- The calls of a MemoryStore as one type, a history of them, and what every call leaves alone.
use gotato.Base.{
  ℕ, false, Option, none, some, List, [], ◌∷◌, ◌++◌, append-nil, append_assoc, ◌∙◌, All, Bytes,
  bytes_beq_iff, bytes_eq, ◌===◌, lookup, insert, length, lookup-insert, lookup-delete, ◌≡◌, inl,
  inr, refl, sym, arith, Bool-cases, Option-cases,
}
use gotato.Record.Entry.{Entry, Header}
use gotato.Store.Id.{StoreError, check_id}
use gotato.Store.Batch.{check_batch}
use gotato.Base.{u64}
use gotato.Store.Memory.{
  MemoryRecord, MemoryStore, InstanceRow, create, append, delete_record, beat,
}

pub data Call : Type 0 where
  creates : Option StoreError → Bytes → List Entry → Header → Call
  appends : Option StoreError → Bytes → ℕ → List Entry → Header → Call
  deletes : Option StoreError → Bytes → Call
  beats : Option StoreError → InstanceRow → ℕ → ℕ → Call

unfoldable pub step : Call → MemoryStore → MemoryStore × Option StoreError
step (creates ctx id entries h) m = create ctx id entries h m
step (appends ctx id after entries h) m = append ctx id after entries h m
step (deletes ctx id) m = delete_record ctx id m
step (beats ctx row ttl now) m = beat ctx row ttl now m

unfoldable pub run : List Call → MemoryStore → MemoryStore
run [] m = m
run (c ∷ cs) m = run cs (step c m).0

-- A call that returns an error leaves the store as it was.
pub step_error_unchanged :
    (c : Call) (m : MemoryStore) {e : StoreError} → (step c m).1 ≡ some e → (step c m).0 ≡ m
unfolding step create append delete_record beat
step_error_unchanged (creates ctx id entries h) m q = ground arith
step_error_unchanged (appends ctx id after entries h) m q = ground arith
step_error_unchanged (deletes ctx id) m q = ground arith
step_error_unchanged (beats ctx row ttl now) m q = ground arith

-- What a stored Record becomes when it is kept: its own log with Entries after it, under its epoch.
abbrev pub Longer : MemoryRecord → Option MemoryRecord → Type 0
Longer r o =
    (suffix : List Entry) × (s : MemoryRecord) × (o ≡ some s)
    × (s.entries ≡ r.entries ++ suffix)
    × (s.header.epoch ≡ r.header.epoch)

Longer-of : (r : MemoryRecord) (o : Option MemoryRecord) → o ≡ some r → Longer r o
Longer-of r o e = ([], r, e, sym (append-nil r.entries), refl)

-- A call that deletes no Record of this id.
abbrev pub Spares : Bytes → Call → Type 0
Spares k (deletes ctx id) = id === k ≡ false
Spares k _ = Unit {0}

create_other :
    (ctx : Option StoreError) (id : Bytes) (entries : List Entry) (h : Header) (m : MemoryStore)
    (k : Bytes) (r : MemoryRecord)
    → lookup k m.records ≡ some r
    → lookup k (create ctx id entries h m).0.records ≡ some r
unfolding create
create_other ctx id entries h m k r e = ground (
  arith,
  bytes_beq_iff id k,
  lookup-insert id k (record { entries = entries; header = h }) m.records,
)

pub beat-records :
    (ctx : Option StoreError) (row : InstanceRow) (ttl now : ℕ) (m : MemoryStore)
    → (beat ctx row ttl now m).0.records ≡ m.records
unfolding beat
beat-records ctx row ttl now m = ground arith

delete_other :
    (ctx : Option StoreError) (id : Bytes) (m : MemoryStore) (k : Bytes) (r : MemoryRecord)
    → id === k ≡ false
    → lookup k m.records ≡ some r
    → lookup k (delete_record ctx id m).0.records ≡ some r
unfolding delete_record
delete_other ctx id m k r ne e = ground (arith, lookup-delete id k m.records)

-- What an append that succeeded found.
pub record Appended (id : Bytes) (after : ℕ) (entries : List Entry) (h : Header) (m : MemoryStore)
    (r : MemoryRecord) : Type 0 where
  pub found : lookup id m.records ≡ some r
  pub same_epoch : r.header.epoch ≡ h.epoch
  pub at_head : u64 (length r.entries) ≡ after
  pub id_ok : check_id id ≡ none
  pub batch_ok : check_batch after entries h ≡ none

abbrev pub extended : Bytes → List Entry → Header → MemoryStore → MemoryRecord → MemoryStore
extended id entries h m r = record m {
  records = insert id (record { entries = r.entries ++ entries; header = h }) m.records;
}

pub append-ok :
    (ctx : Option StoreError) (id : Bytes) (after : ℕ) (entries : List Entry) (h : Header)
    (m : MemoryStore)
    → (append ctx id after entries h m).1 ≡ none
    → (r : MemoryRecord) × Appended id after entries h m r
      × ((append ctx id after entries h m).0 ≡ extended id entries h m r)
unfolding append
append-ok ctx id after entries h m q = elim (Option-cases (lookup id m.records)) [
  | inl e ↦ absurd (ground arith)
  | inr (r, e) ↦ (
    r,
    record {
      found = e;
      same_epoch = ground (arith, bytes_beq_iff r.header.epoch h.epoch);
      at_head = ground arith;
      id_ok = ground arith;
      batch_ok = ground arith;
    },
    ground arith,
  )
]

pub append_error_unchanged :
    (ctx : Option StoreError) (id : Bytes) (after : ℕ) (entries : List Entry) (h : Header)
    (m : MemoryStore) {e : StoreError}
    → (append ctx id after entries h m).1 ≡ some e
    → (append ctx id after entries h m).0 ≡ m
unfolding append
append_error_unchanged ctx id after entries h m q = ground arith

append-Longer :
    (ctx : Option StoreError) (id : Bytes) (after : ℕ) (entries : List Entry) (h : Header)
    (m : MemoryStore) (k : Bytes) (r : MemoryRecord)
    → lookup k m.records ≡ some r
    → Longer r (lookup k (append ctx id after entries h m).0.records)
append-Longer ctx id after entries h m k r e =
    elim (Option-cases (append ctx id after entries h m).1) [
      | inr (x, q) ↦ rw (append_error_unchanged ctx id after entries h m q) (Longer-of r _ e)
      | inl q ↦ let (s, a, w) = append-ok ctx id after entries h m q in rw w (there s a)
    ]
  where
    there :
        (s : MemoryRecord)
        → Appended id after entries h m s
        → Longer r (lookup k (extended id entries h m s).records)
    there s a = elim (Bool-cases (id === k)) [
      | inl same ↦ (
        entries,
        record { entries = r.entries ++ entries; header = h },
        ground (
          arith,
          a.found,
          bytes_beq_iff id k,
          lookup-insert id k (record { entries = s.entries ++ entries; header = h }) m.records,
        ),
        refl,
        ground (arith, a.found, a.same_epoch, bytes_beq_iff id k),
      )
      | inr other ↦ Longer-of r _ (
          ground (
            arith,
            lookup-insert id k (record { entries = s.entries ++ entries; header = h }) m.records,
          ))
    ]

pub create_error_unchanged :
    (ctx : Option StoreError) (id : Bytes) (entries : List Entry) (h : Header) (m : MemoryStore)
    {e : StoreError}
    → (create ctx id entries h m).1 ≡ some e
    → (create ctx id entries h m).0 ≡ m
unfolding create
create_error_unchanged ctx id entries h m q = ground arith

pub create-ok :
    (ctx : Option StoreError) (id : Bytes) (entries : List Entry) (h : Header) (m : MemoryStore)
    → (create ctx id entries h m).1 ≡ none
    → (lookup id m.records ≡ none)
      × (check_batch 0 entries h ≡ none)
      × (check_id id ≡ none)
      × ((create ctx id entries h m).0
          ≡ record m { records = insert id (record { entries = entries; header = h }) m.records })
unfolding create
create-ok ctx id entries h m q = ground arith

-- Append only: after any call that does not delete it, a stored Record is stored still, its old
-- Entries each unchanged and in place, the new ones after them, under the epoch that it had.
pub step-Longer :
    (c : Call) (m : MemoryStore) (k : Bytes) (r : MemoryRecord)
    → Spares k c
    → lookup k m.records ≡ some r
    → Longer r (lookup k (step c m).0.records)
unfolding step
step-Longer (creates ctx id entries h) m k r _ e =
    Longer-of r _ (create_other ctx id entries h m k r e)
step-Longer (appends ctx id after entries h) m k r _ e =
    append-Longer ctx id after entries h m k r e
step-Longer (deletes ctx id) m k r ne e = Longer-of r _ (delete_other ctx id m k r ne e)
step-Longer (beats ctx row ttl now) m k r _ e =
    Longer-of r _ (rw (beat-records ctx row ttl now m) e)

-- The same after any history of calls.
pub run-Longer :
    (cs : List Call) (m : MemoryStore) (k : Bytes) (r : MemoryRecord)
    → All (Spares k) cs
    → lookup k m.records ≡ some r
    → Longer r (lookup k (run cs m).records)
unfolding run
run-Longer [] m k r _ e = Longer-of r _ e
run-Longer (c ∷ cs) m k r spare e =
    let (xs, s, found, same, epoch) = step-Longer c m k r spare.0 e in
    let (ys, t, found', same', epoch') = run-Longer cs (step c m).0 k s spare.1 found in
    (xs ++ ys, t, found', same' ∙ rw same (append_assoc r.entries xs ys), epoch' ∙ epoch)
