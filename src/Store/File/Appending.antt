-- ===== src/Store/File/Appending.antt =====
-- The two halves of Append of store/file.go against that of store/memory.go: what its checks say.
use gotato.Base.{
  Result, ok, err, ◌==◌, ==_iff, ℕ, false, Option, none, some, List, Bytes, length, lookup, nat_eq,
  bytes_eq, bytes_beq_iff, ◌===◌, ◌≡◌, inl, inr, refl, arith, ap, All, Bool-cases, Option-cases,
  subst, sym,
}
use gotato.Record.Entry.{Entry, Header}
use gotato.Store.Id.{StoreError, not_found, conflict, check_id}
use gotato.Store.Batch.{check_batch}
use gotato.Store.File.{Disk, FileHead, FileStore}
use gotato.Store.File.Name.{name_of}
use gotato.Store.File.Chain.{entries_of}
use gotato.Store.File.Shows.{gone_dir, one_dir, Shows, Kept, Good, IsKnown, Among, All-Among}
use gotato.Store.Memory.{MemoryRecord, MemoryStore, append, append_locked}
use gotato.Store.Memory.Invariant.{IsLog, IsStored}
use gotato.Store.File.Agree.{IsShort, check_file_id-IsShort}
use gotato.Store.File.Calls.{append_checked, FileWrite}
use gotato.Store.File.Checking.{Headed, absent_head, present_head}

-- The epoch of a stored Record was used by a create.
abbrev pub EpochsIn : List Bytes → MemoryStore → Type 0
EpochsIn used m =
    (id : Bytes) (r : MemoryRecord) → lookup id m.records ≡ some r → Among r.header.epoch used

module _ (hash : Bytes → Bytes) where
  -- Each head that a handle keeps is of a write that its directory holds.
  abbrev pub Caches : List Bytes → FileStore → Disk → Type 0
  Caches used f disk =
      (k : Bytes) (c : FileHead) → lookup k f.heads ≡ some c → IsKnown hash used c.dir × Good c disk

  -- An Append that passed its checks: its position is the end of a write of its directory.
  pub record Pending (used : List Bytes) (disk : Disk) (w : FileWrite) : Type 0 where
    pub short : IsShort w.id
    pub id_ok : check_id w.id ≡ none
    pub batch_ok : check_batch w.after w.batch.entries w.batch.header ≡ none
    pub at : w.dir ≡ (name_of w.id, hash w.batch.header.epoch)
    pub known : Among w.batch.header.epoch used
    pub seen : FileHead
    pub seen_after : seen.head ≡ w.after
    pub seen_dir : seen.dir ≡ w.dir
    pub holds : Good seen disk

  abbrev the_write : Bytes → ℕ → List Entry → Header → FileWrite
  the_write id after entries h = record {
    id = id;
    after = after;
    dir = (name_of id, hash h.epoch);
    batch = record { entries = entries; header = h };
  }

  -- Where the checks refuse, the MemoryStore refuses with the same error; where they pass, the
  -- write waits.
  abbrev pub Outcome :
      List Bytes
      → Option StoreError
      → Bytes
      → ℕ
      → List Entry
      → Header
      → Disk
      → MemoryStore
      → Result StoreError FileWrite
      → Type 0
  Outcome used ctx id after entries h disk m (err e) = append ctx id after entries h m ≡ (m, some e)
  Outcome used ctx id after entries h disk m (ok w) =
      Pending used disk w × (ctx ≡ none) × (w ≡ the_write id after entries h)

  pub record Checked (used : List Bytes) (ctx : Option StoreError) (id : Bytes) (after : ℕ)
      (entries : List Entry) (h : Header) (f : FileStore) (m : MemoryStore)
      (next : FileStore × Result StoreError FileWrite) : Type 0 where
    pub same_disk : next.0.disk ≡ f.disk
    pub caches : Caches used next.0 f.disk
    pub outcome : Outcome used ctx id after entries h f.disk m next.1

  Checked-by :
      (used : List Bytes) (ctx : Option StoreError) (id : Bytes) (after : ℕ) (entries : List Entry)
      (h : Header) (f g : FileStore) (m : MemoryStore)
      {next : FileStore × Result StoreError FileWrite} (e : StoreError)
      → next ≡ (g, err e)
      → g.disk ≡ f.disk
      → Caches used g f.disk
      → append ctx id after entries h m ≡ (m, some e)
      → Checked used ctx id after entries h f m next
  Checked-by used ctx id after entries h f g m e q d c o =
      subst (λ x. Checked used ctx id after entries h f m x) (sym q)
        (record { same_disk = d; caches = c; outcome = o })

  pub other_epoch : (a b : Bytes) → hash a === hash b ≡ false → a === b ≡ false
  other_epoch a b h = elim (Bool-cases (a === b)) [
    | inl same ↦
        let p : hash a ≡ hash b = ap hash (ground (arith, bytes_beq_iff a b)) in
        absurd (ground (arith, bytes_beq_iff (hash a) (hash b), p))
    | inr other ↦ other
  ]

  at_head :
      (used : List Bytes) (id : Bytes) (after : ℕ) (entries : List Entry) (h : Header)
      (f : FileStore) (m : MemoryStore) (r : MemoryRecord)
      → IsShort id
      → check_id id ≡ none
      → check_batch after entries h ≡ none
      → lookup id m.records ≡ some r
      → r.header.epoch ≡ h.epoch
      → (k : Kept hash f.disk id r) → IsLog r
      → Among r.header.epoch used
      → Caches used f f.disk
      → Headed id (name_of id, hash h.epoch) after (length (entries_of k.files)) f
      → Checked used none id after entries h f m (append_checked hash none id after entries h f)
  unfolding append_checked append append_locked
  at_head used id after entries h f m r short q b there epoch k log known c x =
      elim (Bool-cases (x.cached.head == after)) [
        | inl on ↦
            let passed : append_checked hash none id after entries h f
                ≡ (x.handle, ok (the_write id after entries h)) =
              ground (arith, check_file_id-IsShort id short, x.is, on) in
            subst (λ z. Checked used none id after entries h f m z) (sym passed)
              (record {
                same_disk = x.same_disk;
                caches = heads;
                outcome = (
                  record {
                    short = short;
                    id_ok = q;
                    batch_ok = b;
                    at = refl;
                    known = subst (λ z. Among z used) epoch known;
                    seen = x.cached;
                    seen_after = ground (arith, ==_iff x.cached.head after);
                    seen_dir = x.at;
                    holds = x.good;
                  },
                  refl,
                  refl,
                );
              })
        | inr off ↦
            Checked-by used none id after entries h f x.handle m conflict
              (ground (arith, check_file_id-IsShort id short, x.is, off)) x.same_disk heads
              (ground (
                arith,
                there,
                epoch,
                bytes_beq_iff r.header.epoch h.epoch,
                log.bounded,
                ap length k.log,
                x.says,
                ==_iff x.cached.head after,
              ))
      ]
    where
      heads : Caches used x.handle f.disk
      heads j y p = elim (x.heads j y p) [
        | inl old ↦ c j y old
        | inr new ↦
            subst (λ z. IsKnown hash used z.dir × Good z f.disk) new
              ((h.epoch, subst (λ z. Among z used) epoch known, ap (λ z. z.1) x.at), x.good)
      ]

  pub append_checked-Checked :
      (used : List Bytes) (ctx : Option StoreError) (id : Bytes) (after : ℕ) (entries : List Entry)
      (h : Header) (f : FileStore) (m : MemoryStore)
      → IsShort id
      → All (λ e. hash e ≡ hash h.epoch → e ≡ h.epoch) used
      → Shows hash f.disk m
      → IsStored m
      → EpochsIn used m
      → Caches used f f.disk
      → Checked used ctx id after entries h f m (append_checked hash ctx id after entries h f)
  unfolding append_checked append append_locked
  append_checked-Checked used (some e) id after entries h f m short apart s v known c =
      Checked-by used (some e) id after entries h f f m e refl refl c refl
  append_checked-Checked used none id after entries h f m short apart s v known c =
      elim (Option-cases (check_id id)) [
        | inr (e, q) ↦
            Checked-by used none id after entries h f f m e
              (ground (arith, check_file_id-IsShort id short)) refl c (ground arith)
        | inl q ↦ elim (Option-cases (check_batch after entries h)) [
          | inr (e, b) ↦
              Checked-by used none id after entries h f f m e
                (ground (arith, check_file_id-IsShort id short)) refl c (ground arith)
          | inl b ↦ elim (s id q) [
            | inl (gone, no_dir) ↦
                Checked-by used none id after entries h f f m not_found
                  (ground (
                    arith,
                    check_file_id-IsShort id short,
                    absent_head id (name_of id, hash h.epoch) after f
                        (gone_dir id (hash h.epoch) f.disk no_dir),
                  ))
                  refl c (ground (arith, gone))
            | inr (r, there, k) ↦ elim (Bool-cases (hash r.header.epoch === hash h.epoch)) [
              | inr other ↦
                  Checked-by used none id after entries h f f m not_found
                    (ground (
                      arith,
                      check_file_id-IsShort id short,
                      absent_head id (name_of id, hash h.epoch) after f
                          (ground (
                            arith,
                            one_dir id (hash h.epoch) (hash r.header.epoch) k.files f.disk k.stored,
                            other,
                          )),
                    ))
                    refl c (ground (arith, there, other_epoch r.header.epoch h.epoch other))
              | inl same ↦
                  let epoch =
                    All-Among (λ e. hash e ≡ hash h.epoch → e ≡ h.epoch) used r.header.epoch apart
                      (known id r there)
                      (ground (arith, bytes_beq_iff (hash r.header.epoch) (hash h.epoch))) in
                  at_head used id after entries h f m r short q b there epoch k (v id r there)
                    (known id r there) c
                    (present_head id (name_of id, hash h.epoch) after f k.files r.header
                      (λ x p. (c id x p).1)
                      (ground (
                        arith,
                        one_dir id (hash h.epoch) (hash r.header.epoch) k.files f.disk k.stored,
                        same,
                      ))
                      k.chain k.newest)
            ]
          ]
        ]
      ]
