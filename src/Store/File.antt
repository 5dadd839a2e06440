-- ===== src/Store/File.antt =====
-- store/file.go and store/file_batch.go: the FileStore. The files under the store's directory are a
-- map from the name of an id to the directories in it, one for each epoch, and each of these a map
-- from the first position of a write to its file. A file's JSON is the batch that it holds. A call
-- is one step where it makes one change to the files; an Append is two, its checks and its write,
-- between which other processes may change them. `hash` is what names an epoch's directory, the
-- first bytes of its SHA-256. Of the errors of the file system only those are here that say that a
-- file or a directory exists or does not.
pub mod Name
pub mod Calls
pub mod Reading
pub mod Chain
pub mod Shows
pub mod Agree
pub mod Deleting
pub mod Creating
pub mod Checking
pub mod Appending
pub mod Writing
pub mod Linking
pub mod Ending
pub mod World
pub mod Sound
pub mod Steps
pub mod Refines
pub mod Backward
pub mod Loading
pub mod Logging
pub mod Instances
mod Tests
use gotato.Base.{
  ℕ, suc, ◌+◌, Bool, true, false, not, ◌&&◌, ◌||◌, ◌==◌, ltb, leb, if◌then◌else◌, Option, none,
  some, List, [], ◌∷◌, ◌++◌, map, Bytes, length, take, lookup, insert, delete, bytes_eq, nat_eq,
  ◌===◌, Result, ok, err, refuse, check, reject, is_some, select, u64,
}
use gotato.Record.Entry.{Entry, Header, Info, Loaded, is_checkpoint, is_segment_closed}
use gotato.Store.Id.{StoreError, exists, conflict, not_found, other_error}
use gotato.Store.Batch.{check_batch, loaded_from}
use gotato.Store.File.Name.{name_of, check_file_id}

pub record FileBatch : Type 0 where
  pub entries : List Entry
  pub header : Header

-- The batch files of a directory, by the position in their name.
abbrev pub Files : Type 0
Files = List (ℕ × FileBatch)

abbrev pub Disk : Type 0
Disk = List (Bytes × List (Bytes × Files))

-- The path of an epoch's directory.
abbrev pub Dir : Type 0
Dir = Bytes × Bytes

pub record FileHead : Type 0 where
  pub head : ℕ
  pub first : ℕ
  pub dir : Dir

-- A handle of the store, with the files as they stand under its directory.
pub record FileStore : Type 0 where
  pub disk : Disk
  pub heads : List (Bytes × FileHead)

unfoldable pub files_at : Dir → Disk → Option Files
files_at (r, e) disk = elim (lookup r disk) [ none ↦ none | some es ↦ lookup e es ]

unfoldable pub put_files : Dir → Files → Disk → Disk
put_files (r, e) fs disk = elim (lookup r disk) [
  | none ↦ disk
  | some es ↦ insert r (insert e fs es) disk
]

unfoldable pub ordered_insert : ℕ → List ℕ → List ℕ
ordered_insert n [] = n ∷ []
ordered_insert n (k ∷ ks) =
    let rest = ordered_insert n ks in if leb n k then n ∷ k ∷ ks else k ∷ rest

-- slices.Sort.
unfoldable pub sort_firsts : List ℕ → List ℕ
unfolding ordered_insert
sort_firsts [] = []
sort_firsts (n ∷ ns) = ordered_insert n (sort_firsts ns)

unfoldable pub batch_firsts : Dir → Disk → Result StoreError (List ℕ)
unfolding files_at sort_firsts
batch_firsts dir disk = elim (files_at dir disk) [
  | none ↦ err not_found
  | some fs ↦ ok (sort_firsts (map (λ f. f.0) fs))
]

unfoldable pub read_batch : Dir → ℕ → Disk → Option FileBatch
unfolding files_at
read_batch dir first disk = elim (files_at dir disk) [ none ↦ none | some fs ↦ lookup first fs ]

abbrev pub last_entry_seq : List Entry → ℕ
last_entry_seq [] = 0
last_entry_seq (e ∷ []) = e.seq
last_entry_seq (e ∷ es) = last_entry_seq es

abbrev pub first_entry_seq : List Entry → ℕ
first_entry_seq [] = 0
first_entry_seq (e ∷ es) = e.seq

unfoldable pub last_batch_seq : List FileBatch → ℕ
last_batch_seq [] = 0
last_batch_seq (b ∷ []) = last_entry_seq b.entries
last_batch_seq (b ∷ c ∷ bs) = last_batch_seq (c ∷ bs)

-- The link of the temporary file to the name of the write, which fails where that name is taken. No
-- caller has a batch without Entries.
unfoldable pub write_batch_file : Dir → FileBatch → Disk → Disk × Option StoreError
unfolding files_at put_files
write_batch_file dir batch disk = elim (files_at dir disk) [
  | none ↦ (disk, some not_found)
  | some fs ↦
      if is_some (lookup (first_entry_seq batch.entries) fs)
      then (disk, some conflict)
      else (put_files dir (insert (first_entry_seq batch.entries) batch fs) disk, none)
]

-- The one epoch in a Record's directory.
unfoldable pub the_epoch : List (Bytes × Files) → Option Bytes → Result StoreError Bytes
the_epoch [] none = err not_found
the_epoch [] (some current) = ok current
the_epoch (e ∷ es) none = the_epoch es (some e.0)
the_epoch (e ∷ es) (some current) = err other_error

unfoldable pub current_dir : Bytes → Disk → Result StoreError Dir
unfolding the_epoch
current_dir id disk = elim (lookup (name_of id) disk) [
  | none ↦ err not_found
  | some es ↦ elim (the_epoch es none) [ err e ↦ err e | ok current ↦ ok (name_of id, current) ]
]

unfoldable pub batch_list : Bytes → Disk → Result StoreError (Dir × List ℕ)
unfolding current_dir batch_firsts
batch_list id disk = check (check_file_id id) (elim (current_dir id disk) [
  | err e ↦ err e
  | ok dir ↦ elim (batch_firsts dir disk) [
    | err e ↦ err e
    | ok [] ↦ err not_found
    | ok (n ∷ ns) ↦ ok (dir, n ∷ ns)
  ]
])

-- The segment_closed Entries of the writes that begin at these positions.
unfoldable pub read_segments : Dir → List ℕ → Disk → Result StoreError (List Entry)
unfolding read_batch select
read_segments dir [] disk = ok []
read_segments dir (first ∷ firsts) disk = elim (read_batch dir first disk) [
  | none ↦ err not_found
  | some b ↦ elim (read_segments dir firsts disk) [
    | err e ↦ err e
    | ok rest ↦ ok (select (λ e. is_segment_closed e.kind) b.entries ++ rest)
  ]
]
