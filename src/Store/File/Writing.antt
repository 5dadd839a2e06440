-- ===== src/Store/File/Writing.antt =====
-- The write of an Append of store/file.go against that of store/memory.go.
use gotato.Base.{
  ℕ, ◌+◌, ◌<◌, true, none, some, List, [], ◌∷◌, ◌++◌, append-nil, Bytes, length, lookup, insert,
  nat_eq, bytes_eq, bytes_beq_iff, ◌===◌, lookup-insert, lookup-insert_self, ◌≡◌, inl, inr, arith,
  ap, ap₂, Bool-cases, subst, ◌∙◌,
}
use gotato.Record.Entry.{Entry}
use gotato.Store.Id.{check_id}
use gotato.Store.Batch.{check_batch, seqs_continue}
use gotato.Store.File.{Files, Disk, put_files, first_entry_seq}
use gotato.Store.File.Name.{name_of}
use gotato.Store.File.Name.Valid.{other_name}
use gotato.Store.File.Chain.{entries_of, IsChain-append, entries_of-append}
use gotato.Store.File.Shows.{Shows, Kept}
use gotato.Store.Memory.{MemoryRecord, MemoryStore}
use gotato.Store.Memory.Step.{extended}
use gotato.Store.Memory.Invariant.{check_batch-Checked, position_bound}
use gotato.Store.File.Agree.{ShowsAt-other}
use gotato.Store.File.Calls.{FileWrite}
use gotato.Store.File.Shows.{put_files-insert}
use gotato.Store.File.Chain.{last_header-append}
use gotato.Store.Memory.Invariant.{seqs-Numbered}
use gotato.Base.{u64}

-- The first Entry of a batch that CheckBatch accepts.
pub first_entry_seq-seqs :
    (after : ℕ) (entries : List Entry)
    → 0 < length entries
    → seqs_continue after 0 entries ≡ true
    → first_entry_seq entries ≡ u64 (after + 0 + 1)
unfolding seqs_continue
first_entry_seq-seqs after [] p h = absurd (omega arith)
first_entry_seq-seqs after (x ∷ xs) p h = ground arith

abbrev pub grown : Files → FileWrite → Files
grown fs w = fs ++ (first_entry_seq w.batch.entries, w.batch) ∷ []

abbrev pub grown_disk : Bytes → Files → FileWrite → Disk → Disk
grown_disk e fs w disk = insert (name_of w.id) ((e, grown fs w) ∷ []) disk

pub put_files-one :
    (id e : Bytes) (fs gs : Files) (disk : Disk)
    → lookup (name_of id) disk ≡ some ((e, fs) ∷ [])
    → put_files (name_of id, e) gs disk ≡ insert (name_of id) ((e, gs) ∷ []) disk
unfolding insert
put_files-one id e fs gs disk h =
    put_files-insert (name_of id, e) ((e, fs) ∷ []) gs disk h
    ∙ ap (λ x. insert (name_of id) x disk) (ground (arith, bytes_beq_iff e e))

module _ (hash : Bytes → Bytes) where
  grown-Kept :
      (w : FileWrite) (disk : Disk) (r : MemoryRecord)
      → (k : Kept hash disk w.id r) → r.header.epoch ≡ w.batch.header.epoch
      → w.after ≡ length r.entries
      → check_batch w.after w.batch.entries w.batch.header ≡ none
      → length r.entries + length w.batch.entries < position_bound
      → Kept hash
          (grown_disk (hash r.header.epoch) k.files w disk)
          w.id
          (record { entries = r.entries ++ w.batch.entries; header = w.batch.header })
  grown-Kept w disk r k epoch at batch fits =
      let c = check_batch-Checked w.after w.batch.entries w.batch.header batch in
      let size = ap length k.log in
      let first = first_entry_seq-seqs w.after w.batch.entries c.filled c.continues in
      record {
        files = grown k.files w;
        stored = ground (
          arith,
          epoch,
          lookup-insert_self (name_of w.id) ((hash r.header.epoch, grown k.files w) ∷ []) disk,
        );
        chain =
            IsChain-append 0 (first_entry_seq w.batch.entries) k.files w.batch k.chain
              (omega (arith, first, size, at)) c.filled
              (seqs-Numbered w.after 0 (0 + length (entries_of k.files)) w.batch.entries
                (omega (arith, size, at)) (omega (arith, size)) c.continues);
        log =
            entries_of-append k.files ((first_entry_seq w.batch.entries, w.batch) ∷ [])
            ∙ ap₂ (λ (x y : List Entry). x ++ y) k.log (append-nil w.batch.entries);
        newest = last_header-append k.files (first_entry_seq w.batch.entries) w.batch;
      }

  pub grown-Shows :
      (w : FileWrite) (disk : Disk) (m : MemoryStore) (r : MemoryRecord)
      → check_id w.id ≡ none
      → (k : Kept hash disk w.id r) → r.header.epoch ≡ w.batch.header.epoch
      → w.after ≡ length r.entries
      → check_batch w.after w.batch.entries w.batch.header ≡ none
      → length r.entries + length w.batch.entries < position_bound
      → Shows hash disk m
      → Shows hash
          (grown_disk (hash r.header.epoch) k.files w disk)
          (extended w.id w.batch.entries w.batch.header m r)
  grown-Shows w disk m r named k epoch at batch fits s j hj = elim (Bool-cases (w.id === j)) [
    | inl same ↦
        let to : w.id ≡ j = ground (arith, bytes_beq_iff w.id j) in
        inr (
          record { entries = r.entries ++ w.batch.entries; header = w.batch.header },
          ground (
            arith,
            lookup-insert w.id j
                (record { entries = r.entries ++ w.batch.entries; header = w.batch.header })
                m.records,
          ),
          subst
              (λ x.
                Kept hash (grown_disk (hash r.header.epoch) k.files w disk) x
                  (record { entries = r.entries ++ w.batch.entries; header = w.batch.header }))
              to (grown-Kept w disk r k epoch at batch fits),
        )
    | inr other ↦
        ShowsAt-other hash disk (grown_disk (hash r.header.epoch) k.files w disk) m
          (extended w.id w.batch.entries w.batch.header m r) j
          (ground (
            arith,
            other_name w.id j named hj other,
            lookup-insert (name_of w.id) (name_of j) ((hash r.header.epoch, grown k.files w) ∷ [])
                disk,
          ))
          (ground (
            arith,
            lookup-insert w.id j
                (record { entries = r.entries ++ w.batch.entries; header = w.batch.header })
                m.records,
          ))
          (s j hj)
  ]
