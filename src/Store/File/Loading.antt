-- ===== src/Store/File/Loading.antt =====
-- Load of store/file.go against that of store/memory.go.
use gotato.Base.{
  ℕ, ◌+◌, Option, none, some, List, [], ◌∷◌, ◌++◌, append-nil, Bytes, length, length-append, lookup,
  bytes_eq, nat_eq, bytes_beq_iff, u64, select, All, All-append, ◌≡◌, ◌⊎◌, inl, inr, refl, sym, ◌∙◌,
  ap, arith, ok, err, Option-cases, List-cases, subst,
}
use native.Mathlib.Nat.{zero-add}
use mathlib.Core.List.{reverse, reverse-cons, reverse-reverse}
use gotato.Record.Entry.{Header, is_segment_closed}
use gotato.Store.Id.{StoreError, check_id, not_found}
use gotato.Store.Batch.{loaded_from}
use gotato.Store.File.{
  FileBatch, Files, Disk, Dir, FileStore, files_at, read_batch, last_batch_seq, last_entry_seq,
  batch_firsts, current_dir, the_epoch, batch_list,
}
use gotato.Store.File.Name.{name_of, check_file_id}
use gotato.Store.File.Reading.{concat, last_header, loaded_of, file_load}
use gotato.Store.File.Chain.{
  IsChain, Found, chain-Found, chain_sorted, batches, entries_of, Numbered-last, firsts_of,
  last_header-append,
}
use gotato.Store.File.Shows.{Shows, Kept, one_dir}
use gotato.Store.File.Agree.{IsShort, check_file_id-IsShort}
use gotato.Store.File.Backward.{
  Readable, Scanned, scan_back_lem, read_segments_lem, loaded_from-read,
}
use gotato.Store.Memory.{MemoryRecord, MemoryStore, load}
use gotato.Store.Memory.Invariant.{IsLog, IsStored}

firsts_of-append : (fs gs : Files) → firsts_of (fs ++ gs) ≡ firsts_of fs ++ firsts_of gs
firsts_of-append [] gs = refl
firsts_of-append (f ∷ fs) gs = ap (λ (x : List ℕ). f.0 ∷ x) (firsts_of-append fs gs)

map-reverse : (fs : Files) → reverse (firsts_of fs) ≡ firsts_of (reverse fs)
map-reverse [] = refl
map-reverse (f ∷ fs) =
    reverse-cons f.0 (firsts_of fs)
    ∙ ap (λ (x : List ℕ). x ++ f.0 ∷ []) (map-reverse fs)
    ∙ sym (firsts_of-append (reverse fs) (f ∷ []))
    ∙ ap firsts_of (sym (reverse-cons f fs))

All-reverse : (P : ℕ × FileBatch → Type 0) (fs : Files) → All P fs → All P (reverse fs)
All-reverse P [] h = tt
All-reverse P (f ∷ fs) h =
    subst (All P) (sym (reverse-cons f fs))
      (All-append P (reverse fs) (f ∷ []) (All-reverse P fs h.1) (h.0, tt))

pub Readable-of :
    (dir : Dir) (disk : Disk) (fs gs : Files)
    → files_at dir disk ≡ some fs
    → Found fs gs
    → Readable dir disk gs
unfolding Found read_batch
Readable-of dir disk fs [] h f = tt
Readable-of dir disk fs (g ∷ gs) h f = (ground (arith, h, f.0), Readable-of dir disk fs gs h f.1)

-- The number of the last Entry of the last write.
last_file :
    (n : ℕ) (fs : Files) (k : ℕ) (b : FileBatch)
    → IsChain n (fs ++ (k, b) ∷ [])
    → last_entry_seq b.entries ≡ n + length (entries_of (fs ++ (k, b) ∷ []))
last_file n [] k b c = omega (arith, Numbered-last n b.entries c.1 c.2, length-append b.entries [])
last_file n ((j, x) ∷ fs) k b c = omega (
  arith,
  last_file (n + length x.entries) fs k b c.3,
  length-append x.entries (entries_of (fs ++ (k, b) ∷ [])),
)

last_header-ends :
    (xs : List FileBatch) (b : FileBatch) → last_header (xs ++ b ∷ []) ≡ some b.header
last_header-ends [] b = refl
last_header-ends (x ∷ []) b = refl
last_header-ends (x ∷ y ∷ xs) b = last_header-ends (y ∷ xs) b

last_batch_seq-ends :
    (xs : List FileBatch) (b : FileBatch) → last_batch_seq (xs ++ b ∷ []) ≡ last_entry_seq b.entries
unfolding last_batch_seq
last_batch_seq-ends [] b = refl
last_batch_seq-ends (x ∷ []) b = refl
last_batch_seq-ends (x ∷ y ∷ xs) b = last_batch_seq-ends (y ∷ xs) b

module _ (hash : Bytes → Bytes) where
  -- The Record's directory, as its calls find it.
  pub record Listed (disk : Disk) (id : Bytes) (r : MemoryRecord) (k : Kept hash disk id r)
      : Type 0 where
    pub here : files_at (name_of id, hash r.header.epoch) disk ≡ some k.files
    pub found : current_dir id disk ≡ ok (name_of id, hash r.header.epoch)
    pub firsts : batch_firsts (name_of id, hash r.header.epoch) disk ≡ ok (firsts_of k.files)

  pub Kept-Listed :
      (disk : Disk) (id : Bytes) (r : MemoryRecord) (k : Kept hash disk id r) → Listed disk id r k
  unfolding current_dir the_epoch batch_firsts
  Kept-Listed disk id r k =
      let here : files_at (name_of id, hash r.header.epoch) disk ≡ some k.files = ground (
        arith,
        one_dir id (hash r.header.epoch) (hash r.header.epoch) k.files disk k.stored,
        bytes_beq_iff (hash r.header.epoch) (hash r.header.epoch),
      ) in
      record {
        here = here;
        found = ground (arith, k.stored);
        firsts = ground (arith, here, chain_sorted 0 k.files k.chain);
      }

  filled :
      (fs : Files) (h : Header)
      → last_header (batches fs) ≡ some h
      → (f : ℕ × FileBatch) × (gs : Files) × (fs ≡ f ∷ gs)
  filled [] h e = cc
  filled (f ∷ gs) h e = (f, gs, refl)

  pub batch_list-Kept :
      (disk : Disk) (id : Bytes) (r : MemoryRecord) (k : Kept hash disk id r)
      → check_file_id id ≡ none
      → batch_list id disk ≡ ok ((name_of id, hash r.header.epoch), firsts_of k.files)
  unfolding batch_list
  batch_list-Kept disk id r k named =
      let l = Kept-Listed disk id r k in
      let (f, gs, e) = filled k.files r.header k.newest in
      ground (arith, named, l.found, l.firsts, e)

  pub batch_list-refused :
      (disk : Disk) (id : Bytes) (e : StoreError)
      → check_file_id id ≡ some e
      → batch_list id disk ≡ err e
  unfolding batch_list
  batch_list-refused disk id e q = ground (arith, q)

  pub batch_list-gone :
      (disk : Disk) (id : Bytes)
      → check_file_id id ≡ none
      → lookup (name_of id) disk ≡ none
      → batch_list id disk ≡ err not_found
  unfolding batch_list current_dir
  batch_list-gone disk id named gone = ground (arith, named, gone)

  first_all :
      (before : Files) {h : Type 0} → (before ≡ []) ⊎ h → (entries_of (reverse before) ≡ []) ⊎ h
  first_all before (inl e) = inl (ap (λ (x : Files). entries_of (reverse x)) e)
  first_all before (inr h) = inr h

  -- What the loop of Load makes of a Record's directory.
  loads-Kept :
      (disk : Disk) (id : Bytes) (r : MemoryRecord) (k : Kept hash disk id r)
      → IsLog r
      → (s : (f : ℕ × FileBatch) × (back : Files) × (reverse k.files ≡ f ∷ back)
          × Scanned (name_of id, hash r.header.epoch) disk (f ∷ back) [] (f.1 ∷ []))
      → loaded_of
          (select (λ e. is_segment_closed e.kind) (entries_of (reverse s.3.before)))
          s.3.read
        ≡ ok (record {
          entries = (loaded_from r.entries).0;
          segments = (loaded_from r.entries).1;
          seq = u64 (length r.entries);
          header = r.header;
        })
  unfolding loaded_of
  loads-Kept disk id r k log (f, back, e, s) =
      let files : k.files ≡ reverse back ++ f ∷ [] =
        sym (reverse-reverse k.files) ∙ ap reverse e ∙ reverse-cons f back in
      let chain = subst (IsChain 0) files k.chain in
      let size = last_file 0 (reverse back) f.0 f.1 chain in
      let all : entries_of (reverse s.before) ++ concat s.read ≡ r.entries =
        s.whole
        ∙ append-nil (entries_of (reverse (f ∷ back)))
        ∙ ap (λ (x : Files). entries_of (reverse x)) (sym e)
        ∙ ap entries_of (reverse-reverse k.files)
        ∙ k.log in
      let newest : some f.1.header ≡ some r.header =
        sym (last_header-append (reverse back) f.0 f.1)
        ∙ ap (λ (x : Files). last_header (batches x)) (sym files)
        ∙ k.newest in
      let loaded : loaded_from (
            select (λ e. is_segment_closed e.kind) (entries_of (reverse s.before)) ++ concat s.read)
          ≡ loaded_from r.entries =
        loaded_from-read (entries_of (reverse s.before)) (concat s.read) r.entries
          (first_all s.before s.stopped) all in
      let header : last_header s.read ≡ some f.1.header =
        ap last_header s.ends.1 ∙ last_header-ends s.ends.0 f.1 in
      let seq : last_batch_seq s.read ≡ length r.entries =
        ap last_batch_seq s.ends.1
        ∙ last_batch_seq-ends s.ends.0 f.1
        ∙ size
        ∙ zero-add (length (entries_of (reverse back ++ f ∷ [])))
        ∙ ap (λ (x : Files). length (entries_of x)) (sym files)
        ∙ ap length k.log in
      ground (arith, header, seq, loaded, newest, log.bounded)

  load-Kept :
      (id : Bytes) (f : FileStore) (m : MemoryStore) (r : MemoryRecord) (k : Kept hash f.disk id r)
      → check_id id ≡ none
      → IsShort id
      → IsLog r
      → lookup id m.records ≡ some r
      → file_load none id f ≡ load none id m
  unfolding file_load load
  load-Kept id f m r k named short log there =
      let dir : Dir = (name_of id, hash r.header.epoch) in
      let l = Kept-Listed f.disk id r k in
      let (x, back, e) = last_one k.files r.header k.newest in
      let readable : Readable dir f.disk (x ∷ back) = subst (Readable dir f.disk) e (
        All-reverse (λ g. read_batch dir g.0 f.disk ≡ some g.1) k.files
          (Readable-of dir f.disk k.files k.files l.here (chain-Found 0 k.files k.chain))) in
      let s = scan_back_lem dir f.disk x back readable in
      let before = All-reverse (λ g. read_batch dir g.0 f.disk ≡ some g.1) s.before s.readable in
      ground (
        arith,
        named,
        there,
        batch_list-Kept f.disk id r k (check_file_id-IsShort id short ∙ named),
        map-reverse k.files ∙ ap firsts_of e,
        s.is,
        map-reverse s.before,
        read_segments_lem dir f.disk (reverse s.before) before,
        loads-Kept f.disk id r k log (x, back, e, s),
      )
    where
      last_one :
          (fs : Files) (h : Header)
          → last_header (batches fs) ≡ some h
          → (x : ℕ × FileBatch) × (back : Files) × (reverse fs ≡ x ∷ back)
      last_one fs h e = elim (List-cases (reverse fs)) [
        | inr q ↦ q
        | inl q ↦ absurd (no_header (sym (reverse-reverse fs) ∙ ap reverse q) e)
      ]
        where
          no_header : fs ≡ [] → last_header (batches fs) ≡ some h → ⊥
          no_header p e = let q = subst (λ (x : Files). last_header (batches x) ≡ some h) p e in cc

  -- A Load through any handle returns what the MemoryStore's Load returns: the writes that it reads
  -- from the last one back to a Checkpoint, and of those before only the closed Segments, are enough.
  -- The name of the id is short enough.
  pub load-Agree :
      (ctx : Option StoreError) (id : Bytes) (f : FileStore) (m : MemoryStore)
      → IsShort id
      → Shows hash f.disk m
      → IsStored m
      → file_load ctx id f ≡ load ctx id m
  unfolding file_load load
  load-Agree (some e) id f m short s v = refl
  load-Agree none id f m short s v = elim (Option-cases (check_id id)) [
    | inr (e, q) ↦
        ground (arith, q, batch_list-refused f.disk id e (check_file_id-IsShort id short ∙ q))
    | inl q ↦ elim (s id q) [
      | inl (gone, no_dir) ↦
          ground
            (arith, q, gone, batch_list-gone f.disk id (check_file_id-IsShort id short ∙ q) no_dir)
      | inr (r, there, k) ↦ load-Kept id f m r k q short (v id r there) there
    ]
  ]
