-- ===== src/Store/Memory/Fence.antt =====
-- Why a writer that lost its Record cannot write to it.
use gotato.Base.{
  ℕ, Option, none, some, List, ◌++◌, Bytes, length, All, length-append, bytes_beq_iff, bytes_eq,
  lookup, lookup-insert_self, ◌≡◌, ◌≢◌, arith, ◌∙◌, ap,
}
use gotato.Record.Entry.{Entry, Header}
use gotato.Store.Id.{check_id, StoreError, conflict, not_found}
use gotato.Store.Batch.{check_batch}
use gotato.Base.{u64}
use gotato.Store.Memory.{MemoryRecord, MemoryStore, create, append}
use gotato.Store.Memory.Step.{
  Call, appends, run, Spares, Appended, append-ok, run-Longer, create-ok,
}
use gotato.Store.Memory.Invariant.{
  IsLog, IsStored, Fits, AllFit, check_batch-Checked, append-IsStored, run-IsStored,
}

append_refused :
    (ctx : Option StoreError) (id : Bytes) (after : ℕ) (entries : List Entry) (h : Header)
    (m : MemoryStore) (s : MemoryRecord)
    → lookup id m.records ≡ some s
    → u64 (length s.entries) ≢ after
    → (append ctx id after entries h m).1 ≢ none
append_refused ctx id after entries h m s found far q =
    let (r, a, w) = append-ok ctx id after entries h m q in far (ground (arith, a.found, a.at_head))

-- A position is written once. After an append at `after` succeeded, no append at `after` succeeds,
-- by any writer and with any Entries, however many calls come between, as long as none of them
-- deletes the Record and the log stays below 2^64 Entries.
pub append_once :
    (ctx ctx' : Option StoreError) (id : Bytes) (after : ℕ) (es es' : List Entry) (h h' : Header)
    (cs : List Call) (m : MemoryStore)
    → IsStored m
    → Fits (appends ctx id after es h) m
    → AllFit cs (append ctx id after es h m).0
    → All (Spares id) cs
    → (append ctx id after es h m).1 ≡ none
    → (append ctx' id after es' h' (run cs (append ctx id after es h m).0)).1 ≢ none
append_once ctx ctx' id after es es' h h' cs m v b bs spare q =
    let (r, a, w) = append-ok ctx id after es h m q in
    let v' = append-IsStored ctx id after es h m b v in
    let found =
      ap (λ (x : MemoryStore). lookup id x.records) w
      ∙ lookup-insert_self id (record { entries = r.entries ++ es; header = h }) m.records in
    let (more, s, kept, same, epoch) =
      run-Longer cs (append ctx id after es h m).0 id
        (record { entries = r.entries ++ es; header = h }) spare found in
    let l = run-IsStored cs (append ctx id after es h m).0 bs v' id s kept in
    append_refused ctx' id after es' h' (run cs (append ctx id after es h m).0) s kept
      (longer r s more a (v id r a.found) same l)
  where
    longer :
        (r s : MemoryRecord) (more : List Entry)
        → Appended id after es h m r
        → IsLog r
        → s.entries ≡ (r.entries ++ es) ++ more
        → IsLog s
        → u64 (length s.entries) ≢ after
    longer r s more a lr same ls far = omega (
      arith,
      far,
      ap (λ (x : List Entry). length x) same,
      length-append (r.entries ++ es) more,
      length-append r.entries es,
      a.at_head,
      lr.bounded,
      ls.bounded,
      (check_batch-Checked after es h a.batch_ok).filled,
    )

append_conflict :
    (id : Bytes) (after : ℕ) (entries : List Entry) (h : Header) (m : MemoryStore)
    (s : MemoryRecord)
    → check_id id ≡ none
    → check_batch after entries h ≡ none
    → lookup id m.records ≡ some s
    → h.epoch ≡ s.header.epoch
    → u64 (length s.entries) ≢ after
    → append none id after entries h m ≡ (m, some conflict)
unfolding append
append_conflict id after entries h m s named batch found same far =
    ground (arith, bytes_beq_iff s.header.epoch h.epoch)

append_not_found :
    (id : Bytes) (after : ℕ) (entries : List Entry) (h : Header) (m : MemoryStore)
    (s : MemoryRecord)
    → check_id id ≡ none
    → check_batch after entries h ≡ none
    → lookup id m.records ≡ some s
    → h.epoch ≢ s.header.epoch
    → append none id after entries h m ≡ (m, some not_found)
unfolding append
append_not_found id after entries h m s named batch found other =
    ground (arith, bytes_beq_iff s.header.epoch h.epoch)

-- Two writers at one head: the one that comes second is told of the conflict, and changes nothing.
-- Its batch is well formed, and of the same epoch.
pub append_loser :
    (id : Bytes) (after : ℕ) (es es' : List Entry) (h h' : Header) (m : MemoryStore)
    → IsStored m
    → Fits (appends none id after es h) m
    → (append none id after es h m).1 ≡ none
    → h'.epoch ≡ h.epoch
    → check_batch after es' h' ≡ none
    → append none id after es' h' (append none id after es h m).0
      ≡ ((append none id after es h m).0, some conflict)
append_loser id after es es' h h' m v b q same batch =
    let (r, a, w) = append-ok none id after es h m q in
    let l = v id r a.found in
    append_conflict id after es' h' (append none id after es h m).0
      (record { entries = r.entries ++ es; header = h }) a.id_ok batch
      (ap (λ (x : MemoryStore). lookup id x.records) w ∙ lookup-insert_self id _ m.records) same
      λ far. omega (
        arith,
        length-append r.entries es,
        a.at_head,
        l.bounded,
        b r a.found,
        far,
        (check_batch-Checked after es h a.batch_ok).filled,
      )

-- A writer of a Record that was deleted and created again under the id is refused at every
-- position, with not_found, since its epoch is another, as long as the new Record stands.
append_stale_epoch :
    (id : Bytes) (after : ℕ) (es es' : List Entry) (h h' : Header) (cs : List Call)
    (m : MemoryStore)
    → (create none id es h m).1 ≡ none
    → All (Spares id) cs
    → h'.epoch ≢ h.epoch
    → check_batch after es' h' ≡ none
    → append none id after es' h' (run cs (create none id es h m).0)
      ≡ (run cs (create none id es h m).0, some not_found)
append_stale_epoch id after es es' h h' cs m q spare other batch =
    let (free, started, named, w) = create-ok none id es h m q in
    let found =
      ap (λ (x : MemoryStore). lookup id x.records) w
      ∙ lookup-insert_self id (record { entries = es; header = h }) m.records in
    let (more, s, kept, same, epoch) =
      run-Longer cs (create none id es h m).0 id (record { entries = es; header = h }) spare
        found in
    append_not_found id after es' h' (run cs (create none id es h m).0) s named batch kept
      (λ e. other (e ∙ epoch))
