-- ===== src/Store/File/Creating.antt =====
-- Create of store/file.go against that of store/memory.go.
use gotato.Base.{
  ◌<◌, Option, none, some, List, [], ◌∷◌, append-nil, Bytes, length, lookup, insert, nat_eq,
  bytes_eq, bytes_beq_iff, ◌===◌, lookup-insert, lookup-insert_self, ◌≡◌, ◌≢◌, inl, inr, refl,
  arith, ap, All, Bool-cases, Option-cases, subst, sym, ◌∙◌,
}
use gotato.Record.Entry.{Entry, Header}
use gotato.Store.Id.{StoreError, exists, check_id}
use gotato.Store.Batch.{check_batch}
use gotato.Store.File.{
  Files, Disk, FileHead, FileStore, files_at, last_entry_seq, first_entry_seq, current_dir,
  the_epoch,
}
use gotato.Store.File.Name.{name_of}
use gotato.Store.File.Name.Valid.{other_name}
use gotato.Store.File.Chain.{Numbered-first}
use gotato.Store.File.Calls.{file_create, publish_record}
use gotato.Store.File.Shows.{Shows, Good, Among, All-Among, create-Good}
use gotato.Store.Memory.{MemoryRecord, MemoryStore, create}
use gotato.Store.Memory.Invariant.{create-IsLog, check_batch-Checked, position_bound}
use gotato.Store.File.Agree.{
  IsShort, check_file_id-IsShort, Agree, Agree-by, Agree-still, insert_head, ShowsAt-other,
}

abbrev new_record : List Entry → Header → MemoryRecord
new_record entries h = record { entries = entries; header = h }

abbrev new_files : List Entry → Header → Files
new_files entries h = (first_entry_seq entries, record { entries = entries; header = h }) ∷ []

module _ (hash : Bytes → Bytes) where
  abbrev new_dir : List Entry → Header → List (Bytes × Files)
  new_dir entries h = (hash h.epoch, new_files entries h) ∷ []

  created-Shows :
      (id : Bytes) (entries : List Entry) (h : Header) (disk : Disk) (m : MemoryStore)
      → check_id id ≡ none
      → check_batch 0 entries h ≡ none
      → length entries < position_bound
      → Shows hash disk m
      → Shows hash
          (insert (name_of id) (new_dir entries h) disk)
          (record m { records = insert id (new_record entries h) m.records })
  created-Shows id entries h disk m named batch fits s k hk = elim (Bool-cases (id === k)) [
    | inl same ↦
        let log = create-IsLog entries h fits batch in
        let filled = (check_batch-Checked 0 entries h batch).filled in
        inr (
          new_record entries h,
          ground (arith, lookup-insert id k (new_record entries h) m.records),
          record {
            files = new_files entries h;
            stored = ground (
              arith,
              bytes_beq_iff id k,
              bytes_beq_iff (name_of id) (name_of k),
              lookup-insert (name_of id) (name_of k) (new_dir entries h) disk,
            );
            chain = (Numbered-first 0 entries filled log.numbered, filled, log.numbered, tt);
            log = append-nil entries;
            newest = refl;
          },
        )
    | inr other ↦
        ShowsAt-other hash disk _ m
          (record m { records = insert id (new_record entries h) m.records }) k
          (ground (
            arith,
            other_name id k named hk other,
            lookup-insert (name_of id) (name_of k) (new_dir entries h) disk,
          ))
          (ground (arith, lookup-insert id k (new_record entries h) m.records)) (s k hk)
  ]

  abbrev new_head : Bytes → List Entry → Header → FileHead
  new_head id entries h = record {
    head = last_entry_seq entries;
    first = first_entry_seq entries;
    dir = (name_of id, hash h.epoch);
  }

  new_head-Good :
      (id : Bytes) (entries : List Entry) (h : Header) (disk : Disk)
      → Good (new_head id entries h) (insert (name_of id) (new_dir entries h) disk)
  unfolding files_at lookup
  new_head-Good id entries h disk = record {
    right = λ fs e. (
      record { entries = entries; header = h },
      ground (
        arith,
        bytes_beq_iff (hash h.epoch) (hash h.epoch),
        lookup-insert_self (name_of id) (new_dir entries h) disk,
      ),
      refl,
    );
  }

  -- A create with an epoch that was not used before gives the result of the MemoryStore's.
  pub create-Agree :
      (used : List Bytes) (ctx : Option StoreError) (id : Bytes) (entries : List Entry) (h : Header)
      (f : FileStore) (m : MemoryStore)
      → IsShort id
      → length entries < position_bound
      → All (λ e. hash e ≢ hash h.epoch) used
      → Shows hash f.disk m
      → Agree hash used
          (h.epoch ∷ used)
          f
          (file_create hash ctx id entries h f)
          (create ctx id entries h m)
  unfolding file_create create publish_record current_dir the_epoch
  create-Agree used (some e) id entries h f m short fits fresh s =
      Agree-still hash used (h.epoch ∷ used) f m (some e) s
  create-Agree used none id entries h f m short fits fresh s = elim (Option-cases (check_id id)) [
    | inr (e, q) ↦
        Agree-by hash (ground (arith, check_file_id-IsShort id short)) (ground arith)
          (Agree-still hash used (h.epoch ∷ used) f m (some e) s)
    | inl q ↦ elim (Option-cases (check_batch 0 entries h)) [
      | inr (e, b) ↦
          Agree-by hash (ground (arith, check_file_id-IsShort id short)) (ground arith)
            (Agree-still hash used (h.epoch ∷ used) f m (some e) s)
      | inl b ↦ elim (s id q) [
        | inr (r, there, k) ↦
            Agree-by hash (ground (arith, k.stored, check_file_id-IsShort id short))
              (ground (arith, there)) (Agree-still hash used (h.epoch ∷ used) f m (some exists) s)
        | inl (gone, no_dir) ↦
            Agree-by hash
              {G = (
                record {
                  disk = insert (name_of id) (new_dir entries h) f.disk;
                  heads = insert id (new_head id entries h) f.heads;
                },
                none,
              )}
              {N = (record m { records = insert id (new_record entries h) m.records }, none)}
              (ground (arith, no_dir, check_file_id-IsShort id short)) (ground (arith, gone))
              (record {
                result = refl;
                shows = created-Shows id entries h f.disk m q b fits s;
                keeps = λ c known g.
                    create-Good c (name_of id) (hash h.epoch) (new_files entries h) f.disk
                      (not_new c.dir.1 known) g;
                caches = λ k c e. elim (insert_head id k (new_head id entries h) c f.heads e) [
                  | inl old ↦ inl old
                  | inr new ↦ inr (
                    (h.epoch, inl refl, ap (λ x. x.dir.1) (sym new)),
                    subst (λ x. Good x (insert (name_of id) (new_dir entries h) f.disk)) new
                        (new_head-Good id entries h f.disk),
                  )
                ];
              })
      ]
    ]
  ]
    where
      not_new : (d : Bytes) → (e : Bytes) × Among e used × (d ≡ hash e) → d ≢ hash h.epoch
      not_new d (e, i, q) p = All-Among (λ x. hash x ≢ hash h.epoch) used e fresh i (sym q ∙ p)
