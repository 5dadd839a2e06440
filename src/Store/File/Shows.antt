-- ===== src/Store/File/Shows.antt =====
-- The files of the FileStore (store/file.go) and the Records of the MemoryStore (store/memory.go)
-- that they stand for.
use gotato.Base.{
  ℕ, true, ◌&&◌, none, some, List, [], ◌∷◌, ◌++◌, Bytes, lookup, insert, delete, nat_eq, bytes_eq,
  bytes_beq_iff, ◌===◌, lookup-insert, lookup-delete, ◌≡◌, ◌≢◌, ◌⊎◌, inl, inr, arith, if◌then◌else◌,
  All, Bool-cases, Option-cases, subst, ◌∙◌,
}
use gotato.Store.Id.{check_id}
use gotato.Store.File.{FileBatch, Files, Disk, Dir, FileHead, files_at, put_files, last_entry_seq}
use gotato.Store.File.Name.{name_of}
use gotato.Store.File.Chain.{IsChain, batches, entries_of}
use gotato.Store.File.Reading.{last_header}
use gotato.Store.Memory.{MemoryRecord, MemoryStore}

abbrev pub Among : Bytes → List Bytes → Type 0
Among x [] = ⊥
Among x (y ∷ ys) = (y ≡ x) ⊎ Among x ys

pub All-Among : (P : Bytes → Type 0) (xs : List Bytes) (x : Bytes) → All P xs → Among x xs → P x
All-Among P [] x h i = elim i [ ]
All-Among P (y ∷ ys) x h (inl e) = subst P e h.0
All-Among P (y ∷ ys) x h (inr i) = All-Among P ys x h.1 i

-- A write that the directory holds for as long as it stands.
pub record Good (c : FileHead) (disk : Disk) : Type 0 where
  pub right :
      (fs : Files)
      → files_at c.dir disk ≡ some fs
      → (b : FileBatch) × (lookup c.first fs ≡ some b) × (c.head ≡ last_entry_seq b.entries)

module _ (hash : Bytes → Bytes) where
  -- The directory of the Record under the id holds this one.
  pub record Kept (disk : Disk) (id : Bytes) (r : MemoryRecord) : Type 0 where
    pub files : Files
    pub stored : lookup (name_of id) disk ≡ some ((hash r.header.epoch, files) ∷ [])
    pub chain : IsChain 0 files
    pub log : entries_of files ≡ r.entries
    pub newest : last_header (batches files) ≡ some r.header

  abbrev pub ShowsAt : Disk → MemoryStore → Bytes → Type 0
  ShowsAt disk m id =
      ((lookup id m.records ≡ none) × (lookup (name_of id) disk ≡ none))
      ⊎ ((r : MemoryRecord) × (lookup id m.records ≡ some r) × Kept disk id r)

  abbrev pub Shows : Disk → MemoryStore → Type 0
  Shows disk m = (id : Bytes) → check_id id ≡ none → ShowsAt disk m id

  -- Made under an epoch that was used.
  abbrev pub IsKnown : List Bytes → Dir → Type 0
  IsKnown used dir = (e : Bytes) × Among e used × (dir.1 ≡ hash e)

pub gone_dir :
    (id d : Bytes) (disk : Disk)
    → lookup (name_of id) disk ≡ none
    → files_at (name_of id, d) disk ≡ none
unfolding files_at
gone_dir id d disk h = ground (arith, h)

pub one_dir :
    (id d e : Bytes) (fs : Files) (disk : Disk)
    → lookup (name_of id) disk ≡ some ((e, fs) ∷ [])
    → files_at (name_of id, d) disk ≡ (if e === d then some fs else none)
unfolding files_at lookup
one_dir id d e fs disk h = ground (arith, h)

-- What the changes of the files do to a write that they hold.
pub delete-Good :
    (c : FileHead) (name : Bytes) (disk : Disk) → Good c disk → Good c (delete name disk)
unfolding files_at
delete-Good c name disk g = record {
  right = λ fs e. g.right fs (ground (arith, lookup-delete name c.dir.0 disk));
}

pub create-Good :
    (c : FileHead) (name dir : Bytes) (files : Files) (disk : Disk)
    → c.dir.1 ≢ dir
    → Good c disk
    → Good c (insert name ((dir, files) ∷ []) disk)
unfolding files_at lookup
create-Good c name dir files disk ne g = record {
  right = λ fs e. g.right fs (
      ground (
        arith,
        ne,
        bytes_beq_iff dir c.dir.1,
        lookup-insert name c.dir.0 ((dir, files) ∷ []) disk,
      ));
}

pub put_files-insert :
    (d : Dir) (es : List (Bytes × Files)) (gs : Files) (disk : Disk)
    → lookup d.0 disk ≡ some es
    → put_files d gs disk ≡ insert d.0 (insert d.1 gs es) disk
unfolding put_files
put_files-insert d es gs disk h = ground (arith, h)

pub files_at-put_files :
    (d c : Dir) (fs gs : Files) (disk : Disk)
    → files_at d disk ≡ some fs
    → files_at c (put_files d gs disk)
      ≡ (if d.0 === c.0 && d.1 === c.1 then some gs else files_at c disk)
unfolding files_at
files_at-put_files d c fs gs disk h = elim (Option-cases (lookup d.0 disk)) [
  | inl e ↦ absurd (ground arith)
  | inr (es, e) ↦ ground (
    arith,
    put_files-insert d es gs disk e,
    lookup-insert d.0 c.0 (insert d.1 gs es) disk,
    lookup-insert d.1 c.1 gs es,
    bytes_beq_iff d.0 c.0,
  )
]

lookup-extend :
    (k j : ℕ) (b c : FileBatch) (fs : Files)
    → lookup k fs ≡ none
    → lookup j fs ≡ some c
    → lookup j (fs ++ (k, b) ∷ []) ≡ some c
unfolding lookup
lookup-extend k j b c [] h e = cc
lookup-extend k j b c ((i, d) ∷ fs) h e = ground (arith, lookup-extend k j b c fs)

same_files :
    (d c : Dir) (disk : Disk)
    → d.0 === c.0 && d.1 === c.1 ≡ true
    → files_at c disk ≡ files_at d disk
unfolding files_at
same_files d c disk h = ground (arith, bytes_beq_iff d.0 c.0, bytes_beq_iff d.1 c.1)

pub write-Good :
    (c : FileHead) (d : Dir) (k : ℕ) (b : FileBatch) (fs : Files) (disk : Disk)
    → files_at d disk ≡ some fs
    → lookup k fs ≡ none
    → Good c disk
    → Good c (put_files d (fs ++ (k, b) ∷ []) disk)
write-Good c d k b fs disk h new g = record {
  right = λ gs e. elim (Bool-cases (d.0 === c.dir.0 && d.1 === c.dir.1)) [
    | inl same ↦
        let at : files_at c.dir disk ≡ some fs = same_files d c.dir disk same ∙ h in
        let (x, found, last) = g.right fs at in
        (
          x,
          ground (
            arith,
            files_at-put_files d c.dir fs (fs ++ (k, b) ∷ []) disk h,
            lookup-extend k c.first b x fs new found,
          ),
          last,
        )
    | inr other ↦
        g.right gs (ground (arith, files_at-put_files d c.dir fs (fs ++ (k, b) ∷ []) disk h))
  ];
}
