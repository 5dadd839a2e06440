-- ===== src/Store/File/Backward.antt =====
-- The loop of Load of store/file.go that reads the writes back from the last one.
use gotato.Base.{
  ℕ, suc, ◌+◌, true, some, List, [], ◌∷◌, ◌++◌, append-nil, append_assoc, length, take, drop,
  select, select-append, All, ◌≡◌, ◌⊎◌, inl, inr, refl, sym, ◌∙◌, ap, arith, ok, Bool-cases,
  Option-cases,
}
use native.Mathlib.Nat.{zero-add, suc-add}
use mathlib.Core.List.{reverse, reverse-cons}
use gotato.Record.Entry.{Entry, is_checkpoint, is_segment_closed, is_fact}
use gotato.Store.Batch.{loaded_from, last_checkpoint}
use gotato.Store.File.{FileBatch, Files, Disk, Dir, read_batch, read_segments}
use gotato.Store.File.Calls.{has_checkpoint}
use gotato.Store.File.Reading.{scan_back, concat}
use gotato.Store.File.Chain.{entries_of, entries_of-append, firsts_of}

-- What is read of each of these files.
abbrev pub Readable : Dir → Disk → Files → Type 0
Readable dir disk = All (λ f. read_batch dir f.0 disk ≡ some f.1)

pub record Scanned (dir : Dir) (disk : Disk) (back : Files) (tail end : List FileBatch)
    : Type 0 where
  pub before : Files
  pub read : List FileBatch
  pub is : scan_back dir disk (firsts_of back) tail ≡ ok (firsts_of before, read)
  pub whole : entries_of (reverse before) ++ concat read ≡ entries_of (reverse back) ++ concat tail
  pub readable : Readable dir disk before
  pub stopped : (before ≡ []) ⊎ (has_checkpoint (concat read) ≡ true)
  pub ends : (xs : List FileBatch) × (read ≡ xs ++ end)

has_checkpoint-append :
    (xs ys : List Entry) → has_checkpoint xs ≡ true → has_checkpoint (xs ++ ys) ≡ true
unfolding has_checkpoint
has_checkpoint-append [] ys h = cc
has_checkpoint-append (x ∷ xs) ys h = ground (arith, has_checkpoint-append xs ys)

reverse_entries :
    (f : ℕ × FileBatch) (fs : Files) (tail : List FileBatch)
    → entries_of (reverse fs) ++ concat (f.1 ∷ tail) ≡ entries_of (reverse (f ∷ fs)) ++ concat tail
reverse_entries f fs tail =
    let E = entries_of (reverse fs) in
    sym (
      ap (λ (x : Files). entries_of x ++ concat tail) (reverse-cons f fs)
      ∙ ap (λ (x : List Entry). x ++ concat tail) (entries_of-append (reverse fs) (f ∷ []))
      ∙ append_assoc E (f.1.entries ++ []) (concat tail)
      ∙ ap (λ (x : List Entry). E ++ (x ++ concat tail)) (append-nil f.1.entries))

scan_step :
    (dir : Dir) (disk : Disk) (f : ℕ × FileBatch) (back : Files) (tail : List FileBatch)
    → Readable dir disk (f ∷ back)
    → Scanned dir disk back (f.1 ∷ tail) (f.1 ∷ tail)
    → Scanned dir disk (f ∷ back) tail (f.1 ∷ tail)
unfolding scan_back
scan_step dir disk f back tail r s = elim (Bool-cases (has_checkpoint f.1.entries)) [
  | inl stop ↦ record {
    before = back;
    read = f.1 ∷ tail;
    is = ground (arith, r.0, stop);
    whole = reverse_entries f back tail;
    readable = r.1;
    stopped = inr (has_checkpoint-append f.1.entries (concat tail) stop);
    ends = ([], refl);
  }
  | inr on ↦ record {
    before = s.before;
    read = s.read;
    is = ground (arith, r.0, on, s.is);
    whole = s.whole ∙ reverse_entries f back tail;
    readable = s.readable;
    stopped = s.stopped;
    ends = s.ends;
  }
]

scan :
    (dir : Dir) (disk : Disk) (back : Files) (tail : List FileBatch)
    → Readable dir disk back
    → Scanned dir disk back tail tail
unfolding scan_back
scan dir disk [] tail r = record {
  before = [];
  read = tail;
  is = refl;
  whole = refl;
  readable = tt;
  stopped = inl refl;
  ends = ([], refl);
}
scan dir disk (f ∷ back) tail r =
    let s = scan_step dir disk f back tail r (scan dir disk back (f.1 ∷ tail) r.1) in
    record {
      before = s.before;
      read = s.read;
      is = s.is;
      whole = s.whole;
      readable = s.readable;
      stopped = s.stopped;
      ends = (s.ends.0 ++ f.1 ∷ [], s.ends.1 ∙ sym (append_assoc s.ends.0 (f.1 ∷ []) tail));
    }

-- The loop over a directory whose last write is `f`.
pub scan_back_lem :
    (dir : Dir) (disk : Disk) (f : ℕ × FileBatch) (back : Files)
    → Readable dir disk (f ∷ back)
    → Scanned dir disk (f ∷ back) [] (f.1 ∷ [])
scan_back_lem dir disk f back r = scan_step dir disk f back [] r (scan dir disk back (f.1 ∷ []) r.1)

pub read_segments_lem :
    (dir : Dir) (disk : Disk) (fs : Files)
    → Readable dir disk fs
    → read_segments dir (firsts_of fs) disk
      ≡ ok (select (λ e. is_segment_closed e.kind) (entries_of fs))
unfolding read_segments select
read_segments_lem dir disk [] r = refl
read_segments_lem dir disk (f ∷ fs) r = ground (
  arith,
  r.0,
  read_segments_lem dir disk fs r.1,
  select-append (λ e. is_segment_closed e.kind) f.1.entries (entries_of fs),
)

-- The last Checkpoint of a log that is read in two parts.
checkpoint_in :
    (es : List Entry) → has_checkpoint es ≡ true → (i : ℕ) × (last_checkpoint es ≡ some i)
unfolding has_checkpoint last_checkpoint
checkpoint_in [] h = cc
checkpoint_in (e ∷ es) h = elim (Option-cases (last_checkpoint es)) [
  | inr (i, q) ↦ (suc i, ground (arith, q))
  | inl q ↦ elim (Bool-cases (is_checkpoint e)) [
    | inl c ↦ (0, ground (arith, q, c))
    | inr no_c ↦
        let (i, p) = checkpoint_in es (ground (arith, h, no_c)) in absurd (ground (arith, p, q))
  ]
]

last_checkpoint-append :
    (xs ys : List Entry) (i : ℕ)
    → last_checkpoint ys ≡ some i
    → last_checkpoint (xs ++ ys) ≡ some (length xs + i)
unfolding last_checkpoint
last_checkpoint-append [] ys i h = ground (arith, h)
last_checkpoint-append (x ∷ xs) ys i h = ground (arith, last_checkpoint-append xs ys i h)

take-append : (xs ys : List Entry) (i : ℕ) → take (length xs + i) (xs ++ ys) ≡ xs ++ take i ys
take-append [] ys i = rw zero-add
take-append (x ∷ xs) ys i = rw suc-add (ap (λ (t : List Entry). x ∷ t) (take-append xs ys i))

drop-append : (xs ys : List Entry) (i : ℕ) → drop (length xs + i) (xs ++ ys) ≡ drop i ys
drop-append [] ys i = rw zero-add
drop-append (x ∷ xs) ys i = rw suc-add (drop-append xs ys i)

abbrev segments_of : List Entry → List Entry
segments_of = select (λ e. is_segment_closed e.kind)

select-select : (xs : List Entry) → segments_of (segments_of xs) ≡ segments_of xs
unfolding select
select-select [] = refl
select-select (x ∷ xs) = ground (arith, select-select xs)

loaded_from-append :
    (xs ys : List Entry) (i : ℕ)
    → last_checkpoint ys ≡ some i
    → loaded_from (xs ++ ys)
      ≡ (select (λ e. is_fact e.layer) (drop i ys), segments_of xs ++ segments_of (take i ys))
unfolding loaded_from
loaded_from-append xs ys i h = ground (
  arith,
  last_checkpoint-append xs ys i h,
  take-append xs ys i,
  drop-append xs ys i,
  select-append (λ e. is_segment_closed e.kind) xs (take i ys),
)

-- Of what lies before a part with a Checkpoint, only the closed Segments are loaded.
loaded_from-segments :
    (xs ys : List Entry)
    → has_checkpoint ys ≡ true
    → loaded_from (segments_of xs ++ ys) ≡ loaded_from (xs ++ ys)
loaded_from-segments xs ys h =
    let (i, q) = checkpoint_in ys h in
    loaded_from-append (segments_of xs) ys i q
    ∙ ap
        (λ (z : List Entry).
          (select (λ e. is_fact e.layer) (drop i ys), z ++ segments_of (take i ys)))
        (select-select xs)
    ∙ sym (loaded_from-append xs ys i q)

pub loaded_from-read :
    (xs ys zs : List Entry)
    → (xs ≡ []) ⊎ (has_checkpoint ys ≡ true)
    → xs ++ ys ≡ zs
    → loaded_from (segments_of xs ++ ys) ≡ loaded_from zs
unfolding select
loaded_from-read xs ys zs (inl e) q =
    ap (λ (x : List Entry). loaded_from (segments_of x ++ ys)) e
    ∙ ap (λ (x : List Entry). loaded_from (x ++ ys)) (sym e)
    ∙ ap loaded_from q
loaded_from-read xs ys zs (inr h) q = loaded_from-segments xs ys h ∙ ap loaded_from q
