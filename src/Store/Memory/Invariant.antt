-- ===== src/Store/Memory/Invariant.antt =====
-- What every stored log of a MemoryStore keeps.
use gotato.Base.{
  ℕ, suc, ◌+◌, ◌<◌, true, Option, none, some, List, [], ◌∷◌, ◌++◌, Bytes, length, length-append,
  bytes_eq, ◌===◌, lookup, insert, lookup-insert, lookup-delete, ◌≡◌, inl, inr, refl, arith, subst,
  Bool-cases, Option-cases,
}
use gotato.Record.Entry.{Entry, Header}
use gotato.Store.Id.{StoreError}
use gotato.Store.Batch.{check_batch, seqs_continue, starts_record}
use gotato.Base.{u64}
use gotato.Store.Memory.{MemoryRecord, MemoryStore, create, append, delete_record, empty_store}
use gotato.Store.Memory.Step.{
  Call, creates, appends, deletes, beats, step, run, append-ok, append_error_unchanged, create-ok,
  create_error_unchanged, beat-records,
}

-- The Entries after position n have the numbers n + 1, n + 2 and so on.
abbrev pub Numbered : ℕ → List Entry → Type 0
Numbered n [] = Unit {0}
Numbered n (e ∷ es) = (e.seq ≡ suc n) × Numbered (suc n) es

abbrev pub position_bound : ℕ
position_bound = 18446744073709551616

pub record IsLog (r : MemoryRecord) : Type 0 where
  pub numbered : Numbered 0 r.entries
  pub starts : starts_record r.entries ≡ true
  pub identified : 0 < length r.header.epoch
  pub bounded : length r.entries < position_bound

abbrev pub IsStored : MemoryStore → Type 0
IsStored m = (id : Bytes) (r : MemoryRecord) → lookup id m.records ≡ some r → IsLog r

-- The write leaves the Record shorter than 2^64 Entries. A Go slice is never that long.
abbrev pub Fits : Call → MemoryStore → Type 0
Fits (creates ctx id entries h) m = length entries < position_bound
Fits (appends ctx id after entries h) m =
    (r : MemoryRecord)
    → lookup id m.records ≡ some r
    → length r.entries + length entries < position_bound
Fits (deletes ctx id) m = Unit {0}
Fits (beats ctx row ttl now) m = Unit {0}

abbrev pub AllFit : List Call → MemoryStore → Type 0
AllFit [] m = Unit {0}
AllFit (c ∷ cs) m = Fits c m × AllFit cs (step c m).0

pub seqs-Numbered :
    (after i n : ℕ) (entries : List Entry)
    → after + i ≡ n
    → n + length entries < position_bound
    → seqs_continue after i entries ≡ true
    → Numbered n entries
unfolding seqs_continue
seqs-Numbered after i n [] e b h = tt
seqs-Numbered after i n (x ∷ xs) e b h = (
  ground arith,
  seqs-Numbered after (i + 1) (suc n) xs (omega arith) (omega arith) (ground arith),
)

Numbered-append :
    (n k : ℕ) (xs ys : List Entry)
    → n + length xs ≡ k
    → Numbered n xs
    → Numbered k ys
    → Numbered n (xs ++ ys)
Numbered-append n k [] ys e hx hy = let q : n ≡ k = omega arith in rw q hy
Numbered-append n k (x ∷ xs) ys e hx hy =
    (hx.0, Numbered-append (suc n) k xs ys (omega arith) hx.1 hy)

-- What CheckBatch establishes.
pub record Checked (after : ℕ) (entries : List Entry) (h : Header) : Type 0 where
  pub named : 0 < length h.epoch
  pub filled : 0 < length entries
  pub continues : seqs_continue after 0 entries ≡ true
  pub starts : after ≡ 0 → starts_record entries ≡ true

pub check_batch-Checked :
    (after : ℕ) (entries : List Entry) (h : Header)
    → check_batch after entries h ≡ none
    → Checked after entries h
unfolding check_batch
check_batch-Checked after entries h e = record {
  named = ground arith;
  filled = ground arith;
  continues = ground arith;
  starts = ground arith;
}

starts-append : (xs ys : List Entry) → starts_record xs ≡ true → starts_record (xs ++ ys) ≡ true
starts-append [] ys h = cc
starts-append (x ∷ xs) ys h = h

pub create-IsLog :
    (entries : List Entry) (h : Header)
    → length entries < position_bound
    → check_batch 0 entries h ≡ none
    → IsLog (record { entries = entries; header = h })
create-IsLog entries h b e =
    let c = check_batch-Checked 0 entries h e in
    record {
      numbered = seqs-Numbered 0 0 0 entries (omega arith) (omega arith) c.continues;
      starts = c.starts refl;
      identified = c.named;
      bounded = b;
    }

pub append-IsLog :
    (r : MemoryRecord) (after : ℕ) (entries : List Entry) (h : Header)
    → IsLog r
    → u64 (length r.entries) ≡ after
    → check_batch after entries h ≡ none
    → length r.entries + length entries < position_bound
    → IsLog (record { entries = r.entries ++ entries; header = h })
append-IsLog r after entries h l q e b =
    let c = check_batch-Checked after entries h e in
    let at : length r.entries ≡ after = omega (arith, l.bounded) in
    record {
      numbered =
          Numbered-append 0 after r.entries entries (omega arith) l.numbered
            (seqs-Numbered after 0 after entries (omega arith) (omega arith) c.continues);
      starts = starts-append r.entries entries l.starts;
      identified = c.named;
      bounded = omega (arith, length-append r.entries entries);
    }

insert-IsStored :
    (m : MemoryStore) (id : Bytes) (s : MemoryRecord)
    → IsStored m
    → IsLog s
    → IsStored (record m { records = insert id s m.records })
insert-IsStored m id s v l k r e = elim (Bool-cases (id === k)) [
  | inl same ↦ let q : s ≡ r = ground (arith, lookup-insert id k s m.records) in subst IsLog q l
  | inr other ↦ v k r (ground (arith, lookup-insert id k s m.records))
]

pub delete-IsStored :
    (ctx : Option StoreError) (id : Bytes) (m : MemoryStore)
    → IsStored m
    → IsStored (delete_record ctx id m).0
unfolding delete_record
delete-IsStored ctx id m v k r e = v k r (ground (arith, lookup-delete id k m.records))

pub create-IsStored :
    (ctx : Option StoreError) (id : Bytes) (entries : List Entry) (h : Header) (m : MemoryStore)
    → length entries < position_bound
    → IsStored m
    → IsStored (create ctx id entries h m).0
create-IsStored ctx id entries h m b v = elim (Option-cases (create ctx id entries h m).1) [
  | inl q ↦
      let (free, batch, named, w) = create-ok ctx id entries h m q in
      rw w (insert-IsStored m id _ v (create-IsLog entries h b batch))
  | inr (x, q) ↦ rw (create_error_unchanged ctx id entries h m q) v
]

pub append-IsStored :
    (ctx : Option StoreError) (id : Bytes) (after : ℕ) (entries : List Entry) (h : Header)
    (m : MemoryStore)
    → Fits (appends ctx id after entries h) m
    → IsStored m
    → IsStored (append ctx id after entries h m).0
append-IsStored ctx id after entries h m b v =
    elim (Option-cases (append ctx id after entries h m).1) [
      | inl q ↦
          let (r, a, w) = append-ok ctx id after entries h m q in
          rw w (
            insert-IsStored m id _ v
              (append-IsLog r after entries h (v id r a.found) a.at_head a.batch_ok (b r a.found)))
      | inr (x, q) ↦ rw (append_error_unchanged ctx id after entries h m q) v
    ]

-- Every call keeps each stored log numbered from 1 with no gap, started by a Checkpoint that is a
-- fact, and named by an epoch, if the write fits.
pub step-IsStored : (c : Call) (m : MemoryStore) → Fits c m → IsStored m → IsStored (step c m).0
unfolding step
step-IsStored (creates ctx id entries h) m b v = create-IsStored ctx id entries h m b v
step-IsStored (appends ctx id after entries h) m b v = append-IsStored ctx id after entries h m b v
step-IsStored (deletes ctx id) m b v = delete-IsStored ctx id m v
step-IsStored (beats ctx row ttl now) m b v =
    λ k r e. v k r (ground (arith, beat-records ctx row ttl now m))

pub run-IsStored :
    (cs : List Call) (m : MemoryStore) → AllFit cs m → IsStored m → IsStored (run cs m)
unfolding run
run-IsStored [] m b v = v
run-IsStored (c ∷ cs) m b v = run-IsStored cs (step c m).0 b.1 (step-IsStored c m b.0 v)

-- So it holds after any history of calls on a new store.
pub history-IsStored : (cs : List Call) → AllFit cs empty_store → IsStored (run cs empty_store)
unfolding lookup
history-IsStored cs b = run-IsStored cs empty_store b (λ id r e. cc)
