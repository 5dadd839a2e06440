-- ===== src/Store/File/Calls.antt =====
-- The calls of store/file.go.
use gotato.Base.{
  ℕ, Bool, true, false, ◌&&◌, ◌||◌, ◌==◌, if◌then◌else◌, Option, none, some, List, [], ◌∷◌, Bytes,
  lookup, insert, delete, bytes_eq, ◌===◌, Result, ok, err, refuse, reject, is_some,
}
use gotato.Record.Entry.{Entry, Header, is_checkpoint}
use gotato.Store.Id.{StoreError, exists, conflict, not_found}
use gotato.Store.Batch.{check_batch}
use gotato.Store.File.Name.{name_of, check_file_id}
use gotato.Store.File.{
  FileBatch, Disk, Dir, FileHead, FileStore, Files, batch_firsts, read_batch, last_entry_seq,
  first_entry_seq, last_batch_seq, write_batch_file, current_dir,
}

-- `slices.ContainsFunc(entries, record.Entry.IsCheckpoint)`.
unfoldable pub has_checkpoint : List Entry → Bool
unfolding is_checkpoint
has_checkpoint [] = false
has_checkpoint (e ∷ es) = is_checkpoint e || has_checkpoint es

abbrev same_dir : Dir → Dir → Bool
same_dir (r, e) (s, g) = r === s && e === g

abbrev pub set_head : Bytes → FileHead → FileStore → FileStore
set_head id head f = record f { heads = insert id head f.heads }

-- The last of the positions, if there is one.
abbrev pub last_first : List ℕ → Option ℕ
last_first [] = none
last_first (n ∷ []) = some n
last_first (n ∷ k ∷ ns) = last_first (k ∷ ns)

-- The part of head that reads the directory.
unfoldable pub read_head : Bytes → Dir → FileStore → FileStore × Result StoreError FileHead
unfolding batch_firsts read_batch last_batch_seq
read_head id dir f = elim (batch_firsts dir f.disk) [
  | err e ↦ (f, err e)
  | ok firsts ↦ elim (last_first firsts) [
    | none ↦ (f, err not_found)
    | some first ↦ elim (read_batch dir first f.disk) [
      | none ↦ (f, err not_found)
      | some last ↦
          let head : FileHead = record {
            head = last_batch_seq (last ∷ []);
            first = first;
            dir = dir;
          } in
          (set_head id head f, ok head)
    ]
  ]
]

-- The cache holds what stands in the directory and agrees with `want`.
unfoldable pub trusted : Dir → ℕ → Disk → FileHead → Bool
unfolding read_batch
trusted dir want disk cached =
    same_dir cached.dir dir && cached.head == want && is_some (read_batch dir cached.first disk)

unfoldable pub head : Bytes → Dir → ℕ → FileStore → FileStore × Result StoreError FileHead
unfolding read_head trusted
head id dir want f = elim (lookup id f.heads) [
  | none ↦ read_head id dir f
  | some cached ↦ if trusted dir want f.disk cached then (f, ok cached) else read_head id dir f
]

-- An Append between its checks and its write.
pub record FileWrite : Type 0 where
  pub id : Bytes
  pub after : ℕ
  pub dir : Dir
  pub batch : FileBatch

abbrev is_taken : Option (List (Bytes × Files)) → Bool
is_taken (some (e ∷ es)) = true
is_taken _ = false

module _ (hash : Bytes → Bytes) where
  abbrev pub epoch_dir : Bytes → Bytes → Dir
  epoch_dir id epoch = (name_of id, hash epoch)

  -- The rename fails onto a directory that is not empty.
  unfoldable pub publish_record : Bytes → List Entry → Header → Disk → Disk × Option StoreError
  publish_record id entries h disk =
      if is_taken (lookup (name_of id) disk) then (disk, some exists) else (
        insert (name_of id)
            ((
              hash h.epoch,
              (first_entry_seq entries, record { entries = entries; header = h }) ∷ [],
            )
              ∷ [])
            disk,
        none,
      )

  abbrev written : Bytes → List Entry → Header → FileHead
  written id entries h = record {
    head = last_entry_seq entries;
    first = first_entry_seq entries;
    dir = epoch_dir id h.epoch;
  }

  unfoldable pub file_create :
      Option StoreError → Bytes → List Entry → Header → FileStore → FileStore × Option StoreError
  unfolding publish_record current_dir
  file_create ctx id entries h f = refuse f ctx (
      refuse f (check_file_id id) (
        refuse f (check_batch 0 entries h) (elim (current_dir id f.disk) [
          | ok dir ↦ (f, some exists)
          | err not_found ↦
              let (disk, e) = publish_record id entries h f.disk in
              elim e [
                | some e ↦ (record f { disk = disk }, some e)
                | none ↦ (set_head id (written id entries h) (record f { disk = disk }), none)
              ]
          | err e ↦ (f, some e)
        ])))

  -- Append up to its write.
  unfoldable pub append_checked :
      Option StoreError
      → Bytes
      → ℕ
      → List Entry
      → Header
      → FileStore
      → FileStore × Result StoreError FileWrite
  append_checked ctx id after entries h f = reject f ctx (
      reject f (check_file_id id) (
        reject f (check_batch after entries h) (
          let (g, found) = head id (epoch_dir id h.epoch) after f in
          elim found [
            | err e ↦ (g, err e)
            | ok last ↦
                if last.head == after
                then (
                  g,
                  ok (record {
                    id = id;
                    after = after;
                    dir = epoch_dir id h.epoch;
                    batch = record { entries = entries; header = h };
                  }),
                )
                else (g, err conflict)
          ])))

-- The write of an Append that passed its checks.
unfoldable pub append_write : FileWrite → FileStore → FileStore × Option StoreError
unfolding write_batch_file
append_write w f =
    let (disk, e) = write_batch_file w.dir w.batch f.disk in
    elim e [
      | some e ↦ (record f { disk = disk }, some e)
      | none ↦ (
        set_head w.id
            (record {
              head = last_entry_seq w.batch.entries;
              first = first_entry_seq w.batch.entries;
              dir = w.dir;
            })
            (record f { disk = disk }),
        none,
      )
    ]

unfoldable pub file_delete : Option StoreError → Bytes → FileStore → FileStore × Option StoreError
file_delete ctx id f = refuse f ctx (
    refuse f (check_file_id id) (
      let forgotten = delete id f.heads in
      if is_some (lookup (name_of id) f.disk)
      then (record { disk = delete (name_of id) f.disk; heads = forgotten }, none)
      else (record f { heads = forgotten }, some not_found)))
