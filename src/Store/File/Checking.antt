-- ===== src/Store/File/Checking.antt =====
-- Append of store/file.go, up to its write, against that of store/memory.go.
use gotato.Base.{
  ok, err, ==_iff, ℕ, true, none, some, Bytes, length, lookup, nat_eq, bytes_eq, bytes_beq_iff, ◌≡◌,
  ◌⊎◌, inl, inr, refl, arith, ap₂, Bool-cases, Option-cases, ◌∙◌,
}
use gotato.Record.Entry.{Header}
use gotato.Store.Id.{not_found}
use gotato.Store.File.{Files, Disk, Dir, FileHead, FileStore, files_at, last_entry_seq}
use gotato.Store.File.Chain.{IsChain, batches, entries_of}
use gotato.Store.File.Shows.{Good}
use gotato.Store.File.Agree.{insert_head}
use gotato.Store.File.Chain.{Newest, chain-Newest, chain_sorted}
use gotato.Store.File.Calls.{head, read_head, trusted, set_head}
use gotato.Store.File.Reading.{last_header}
use gotato.Store.File.{batch_firsts, read_batch, last_batch_seq}

pub absent_head :
    (id : Bytes) (dir : Dir) (want : ℕ) (f : FileStore)
    → files_at dir f.disk ≡ none
    → head id dir want f ≡ (f, err not_found)
unfolding head read_head batch_firsts trusted read_batch
absent_head id dir want f e = elim (Option-cases (lookup id f.heads)) [
  | inl q ↦ ground arith
  | inr (c, q) ↦ ground (arith, bytes_beq_iff c.dir.0 dir.0, bytes_beq_iff c.dir.1 dir.1)
]

-- The head that the directory says.
abbrev head_in : Dir → (fs : Files) (h : Header) → Newest 0 fs h → FileHead
head_in dir fs h w = record { head = last_entry_seq w.batch.entries; first = w.first; dir = dir }

read_head_lem :
    (id : Bytes) (dir : Dir) (f : FileStore) (fs : Files) (h : Header) (w : Newest 0 fs h)
    → files_at dir f.disk ≡ some fs
    → IsChain 0 fs
    → read_head id dir f ≡ (set_head id (head_in dir fs h w) f, ok (head_in dir fs h w))
unfolding read_head batch_firsts read_batch last_batch_seq
read_head_lem id dir f fs h w e c = ground (arith, e, chain_sorted 0 fs c, w.named, w.found)

head_in-Good :
    (dir : Dir) (fs : Files) (h : Header) (w : Newest 0 fs h) (disk : Disk)
    → files_at dir disk ≡ some fs
    → Good (head_in dir fs h w) disk
head_in-Good dir fs h w disk e = record {
  right = λ gs q. (w.batch, ground (arith, w.found, e, q), refl);
}

-- What head says of a directory that holds `size` Entries.
pub record Headed (id : Bytes) (dir : Dir) (want size : ℕ) (f : FileStore) : Type 0 where
  pub handle : FileStore
  pub cached : FileHead
  pub is : head id dir want f ≡ (handle, ok cached)
  pub same_disk : handle.disk ≡ f.disk
  pub at : cached.dir ≡ dir
  pub good : Good cached f.disk
  pub says : (cached.head ≡ want) ⊎ (cached.head ≡ size)
  pub heads :
      (k : Bytes) (c : FileHead)
      → lookup k handle.heads ≡ some c
      → (lookup k f.heads ≡ some c) ⊎ (cached ≡ c)

read_Headed :
    (id : Bytes) (dir : Dir) (want : ℕ) (f : FileStore) (fs : Files) (h : Header)
    → files_at dir f.disk ≡ some fs
    → IsChain 0 fs
    → Newest 0 fs h
    → head id dir want f ≡ read_head id dir f
    → Headed id dir want (length (entries_of fs)) f
read_Headed id dir want f fs h e c w q = record {
  handle = set_head id (head_in dir fs h w) f;
  cached = head_in dir fs h w;
  is = q ∙ read_head_lem id dir f fs h w e c;
  same_disk = refl;
  at = refl;
  good = head_in-Good dir fs h w f.disk e;
  says = inr (omega (arith, w.end));
  heads = λ k x p. insert_head id k (head_in dir fs h w) x f.heads p;
}

trusted_lem :
    (dir : Dir) (want : ℕ) (disk : Disk) (c : FileHead)
    → trusted dir want disk c ≡ true
    → (c.dir ≡ dir) × (c.head ≡ want)
unfolding trusted
trusted_lem dir want disk c h = (
  ap₂ (λ (x y : Bytes). (x, y)) (ground (arith, bytes_beq_iff c.dir.0 dir.0))
      (ground (arith, bytes_beq_iff c.dir.1 dir.1)),
  ground (arith, ==_iff c.head want),
)

pub present_head :
    (id : Bytes) (dir : Dir) (want : ℕ) (f : FileStore) (fs : Files) (h : Header)
    → ((c : FileHead) → lookup id f.heads ≡ some c → Good c f.disk)
    → files_at dir f.disk ≡ some fs
    → IsChain 0 fs
    → last_header (batches fs) ≡ some h
    → Headed id dir want (length (entries_of fs)) f
unfolding head
present_head id dir want f fs h good e c newest =
    let w = chain-Newest 0 fs h c newest in
    elim (Option-cases (lookup id f.heads)) [
      | inl q ↦ read_Headed id dir want f fs h e c w (ground (arith, q))
      | inr (x, q) ↦ elim (Bool-cases (trusted dir want f.disk x)) [
        | inl t ↦ record {
          handle = f;
          cached = x;
          is = ground (arith, q, t);
          same_disk = refl;
          at = (trusted_lem dir want f.disk x t).0;
          good = good x q;
          says = inl (trusted_lem dir want f.disk x t).1;
          heads = λ k y p. inl p;
        }
        | inr t ↦ read_Headed id dir want f fs h e c w (ground (arith, q, t))
      ]
    ]
