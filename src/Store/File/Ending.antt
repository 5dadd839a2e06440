-- ===== src/Store/File/Ending.antt =====
-- The three ends of the write of an Append of store/file.go.
use gotato.Base.{
  is_some, ◌==◌, suc, ◌+◌, ◌<◌, true, none, some, List, Bytes, length, lookup, insert, nat_eq,
  bytes_eq, bytes_beq_iff, ◌===◌, ◌≡◌, inl, inr, refl, arith, ap, Bool-cases, subst, sym, ◌∙◌,
}
use gotato.Store.Id.{StoreError, not_found, conflict}
use gotato.Store.File.{
  Files, FileStore, files_at, put_files, last_entry_seq, first_entry_seq, write_batch_file,
}
use gotato.Store.File.Name.{name_of}
use gotato.Store.File.Chain.{chain_after, chain-Ends}
use gotato.Store.File.Calls.{append_write}
use gotato.Store.File.Shows.{gone_dir, one_dir, Shows, Kept, Good, IsKnown, Among, write-Good}
use gotato.Store.Memory.{MemoryRecord, MemoryStore, append, append_locked}
use gotato.Store.Memory.Step.{extended, appends}
use gotato.Store.Memory.Invariant.{Fits}
use gotato.Store.Memory.Invariant.{IsStored, check_batch-Checked, position_bound}
use gotato.Store.File.Agree.{Agree, Agree-by, Agree-still, insert_head}
use gotato.Store.File.Calls.{FileWrite}
use gotato.Store.File.Appending.{Pending, EpochsIn, other_epoch}
use gotato.Store.File.Writing.{grown, grown_disk, grown-Shows, put_files-one, first_entry_seq-seqs}
use gotato.Store.File.Linking.{
  write_batch_file_absent, write_batch_file_taken, write_batch_file_free, head_of, head_of-Good,
  append_write_err, append_write_ok,
}

module _ (hash : Bytes → Bytes) where
  -- Two epochs that were used name two directories.
  abbrev pub Separated : List Bytes → Type 0
  Separated used = (a b : Bytes) → Among a used → Among b used → hash a ≡ hash b → a ≡ b

  write_failed :
      (used : List Bytes) (w : FileWrite) (f : FileStore) (m : MemoryStore) (e : StoreError)
      → write_batch_file w.dir w.batch f.disk ≡ (f.disk, some e)
      → append none w.id w.after w.batch.entries w.batch.header m ≡ (m, some e)
      → Shows hash f.disk m
      → Agree hash used used f
          (append_write w f)
          (append none w.id w.after w.batch.entries w.batch.header m)
  write_failed used w f m e p q s =
      Agree-by hash (append_write_err w f e p) q (Agree-still hash used used f m (some e) s)

  write_done :
      (used : List Bytes) (w : FileWrite) (f : FileStore) (m : MemoryStore) (r : MemoryRecord)
      → (p : Pending hash used f.disk w) → (k : Kept hash f.disk w.id r)
      → r.header.epoch ≡ w.batch.header.epoch
      → w.after ≡ length r.entries
      → lookup w.id m.records ≡ some r
      → length r.entries + length w.batch.entries < position_bound
      → Shows hash f.disk m
      → files_at w.dir f.disk ≡ some k.files
      → lookup (first_entry_seq w.batch.entries) k.files ≡ none
      → Agree hash used used f
          (append_write w f)
          (append none w.id w.after w.batch.entries w.batch.header m)
  unfolding append append_locked
  write_done used w f m r p k epoch at there fits s here free =
      let d = put_files w.dir (grown k.files w) f.disk in
      let as_one : d ≡ grown_disk (hash r.header.epoch) k.files w f.disk =
        ap (λ x. put_files x (grown k.files w) f.disk)
          (p.at ∙ ap (λ x. (name_of w.id, hash x)) (sym epoch))
        ∙ put_files-one w.id (hash r.header.epoch) k.files (grown k.files w) f.disk k.stored in
      Agree-by hash {G = (record { disk = d; heads = insert w.id (head_of w) f.heads }, none)}
        {N = (extended w.id w.batch.entries w.batch.header m r, none)}
        (append_write_ok w f d (write_batch_file_free w.dir w.batch k.files f.disk here free))
        (ground (
          arith,
          p.id_ok,
          p.batch_ok,
          there,
          epoch,
          bytes_beq_iff r.header.epoch w.batch.header.epoch,
          at,
          fits,
        ))
        (record {
          result = refl;
          shows =
              subst (λ x. Shows hash x (extended w.id w.batch.entries w.batch.header m r))
                (sym as_one) (grown-Shows hash w f.disk m r p.id_ok k epoch at p.batch_ok fits s);
          keeps = λ c known g.
              write-Good c w.dir (first_entry_seq w.batch.entries) w.batch k.files f.disk here free
                g;
          caches = λ j c e. elim (insert_head w.id j (head_of w) c f.heads e) [
            | inl old ↦ inl old
            | inr new ↦ inr (
                subst (λ x. IsKnown hash used x.dir × Good x d) new
                  (
                    (w.batch.header.epoch, p.known, ap (λ x. x.1) p.at),
                    head_of-Good w k.files f.disk here free,
                  ))
          ];
        })

  write_conflict :
      (used : List Bytes) (w : FileWrite) (f : FileStore) (m : MemoryStore) (r : MemoryRecord)
      → (p : Pending hash used f.disk w) → r.header.epoch ≡ w.batch.header.epoch
      → w.after < length r.entries
      → length r.entries < position_bound
      → lookup w.id m.records ≡ some r
      → Shows hash f.disk m
      → (fs : Files) → files_at w.dir f.disk ≡ some fs
      → is_some (lookup (suc w.after) fs) ≡ true
      → Agree hash used used f
          (append_write w f)
          (append none w.id w.after w.batch.entries w.batch.header m)
  unfolding append append_locked
  write_conflict used w f m r p epoch behind bound there s fs here taken =
      let c = check_batch-Checked w.after w.batch.entries w.batch.header p.batch_ok in
      let first : first_entry_seq w.batch.entries ≡ suc w.after =
        omega (arith, first_entry_seq-seqs w.after w.batch.entries c.filled c.continues) in
      write_failed used w f m conflict
        (write_batch_file_taken w.dir w.batch fs f.disk here
          (subst (λ x. is_some (lookup x fs) ≡ true) (sym first) taken))
        (ground (
          arith,
          p.id_ok,
          p.batch_ok,
          there,
          epoch,
          bytes_beq_iff r.header.epoch w.batch.header.epoch,
          behind,
          bound,
        ))
        s

  write_gone :
      (used : List Bytes) (w : FileWrite) (f : FileStore) (m : MemoryStore)
      → (p : Pending hash used f.disk w)
      → append none w.id w.after w.batch.entries w.batch.header m ≡ (m, some not_found)
      → files_at (name_of w.id, hash w.batch.header.epoch) f.disk ≡ none
      → Shows hash f.disk m
      → Agree hash used used f
          (append_write w f)
          (append none w.id w.after w.batch.entries w.batch.header m)
  write_gone used w f m p q none_there s =
      write_failed used w f m not_found
        (write_batch_file_absent w.dir w.batch f.disk
          (subst (λ x. files_at x f.disk ≡ none) (sym p.at) none_there))
        q s

  -- The write of an Append that passed its checks, however long ago and whatever came between, gives
  -- the result of the MemoryStore's Append now.
  pub write-Agree :
      (used : List Bytes) (w : FileWrite) (f : FileStore) (m : MemoryStore)
      → Pending hash used f.disk w
      → Separated used
      → Shows hash f.disk m
      → IsStored m
      → EpochsIn used m
      → Fits (appends none w.id w.after w.batch.entries w.batch.header) m
      → Agree hash used used f
          (append_write w f)
          (append none w.id w.after w.batch.entries w.batch.header m)
  unfolding append append_locked
  write-Agree used w f m p apart s v known fits = elim (s w.id p.id_ok) [
    | inl (gone, no_dir) ↦
        write_gone used w f m p (ground (arith, p.id_ok, p.batch_ok, gone))
          (gone_dir w.id (hash w.batch.header.epoch) f.disk no_dir) s
    | inr (r, there, k) ↦ elim (Bool-cases (hash r.header.epoch === hash w.batch.header.epoch)) [
      | inr other ↦
          write_gone used w f m p
            (ground (
              arith,
              p.id_ok,
              p.batch_ok,
              there,
              other_epoch hash r.header.epoch w.batch.header.epoch other,
            ))
            (ground (
              arith,
              one_dir w.id (hash w.batch.header.epoch) (hash r.header.epoch) k.files f.disk
                  k.stored,
              other,
            ))
            s
      | inl same ↦
          at_dir r there k
            (ground (arith, bytes_beq_iff (hash r.header.epoch) (hash w.batch.header.epoch)))
    ]
  ]
    where
      at_dir :
          (r : MemoryRecord)
          → lookup w.id m.records ≡ some r
          → Kept hash f.disk w.id r
          → hash r.header.epoch ≡ hash w.batch.header.epoch
          → Agree hash used used f
              (append_write w f)
              (append none w.id w.after w.batch.entries w.batch.header m)
      at_dir r there k same =
          let epoch = apart r.header.epoch w.batch.header.epoch (known w.id r there) p.known same in
          let here : files_at w.dir f.disk ≡ some k.files =
            subst (λ x. files_at x f.disk ≡ some k.files) (sym p.at)
              (ground (
                arith,
                one_dir w.id (hash w.batch.header.epoch) (hash r.header.epoch) k.files f.disk
                    k.stored,
                same,
                bytes_beq_iff (hash r.header.epoch) (hash w.batch.header.epoch),
              )) in
          let (b, found, last) =
            p.holds.right k.files
              (subst (λ x. files_at x f.disk ≡ some k.files) (sym p.seen_dir) here) in
          let ends = chain-Ends 0 p.seen.first k.files b k.chain found in
          let at : w.after ≡ last_entry_seq b.entries = sym p.seen_after ∙ last in
          let size = ap length k.log in
          let log = v w.id r there in
          let c = check_batch-Checked w.after w.batch.entries w.batch.header p.batch_ok in
          elim (Bool-cases (w.after == length r.entries)) [
            | inl on ↦
                let full : w.after ≡ length r.entries = ground arith in
                let first : first_entry_seq w.batch.entries ≡ suc (length r.entries) = omega (
                  arith,
                  first_entry_seq-seqs w.after w.batch.entries c.filled c.continues,
                  full,
                  fits r there,
                  c.filled,
                ) in
                write_done used w f m r p k epoch full there (fits r there) s here (
                  chain_after 0 (first_entry_seq w.batch.entries) k.files k.chain
                    (omega (arith, first, size)))
            | inr off ↦ elim ends.next [
              | inl last_write ↦ absurd (ground (arith, at, last_write, size))
              | inr more ↦
                  write_conflict used w f m r p epoch (ground (arith, off, ends.within, at, size))
                    log.bounded there s k.files here
                    (subst (λ x. is_some (lookup (suc x) k.files) ≡ true) (sym at) more)
            ]
          ]
