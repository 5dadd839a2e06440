-- ===== src/Store/File/Linking.antt =====
-- writeBatch of store/file_batch.go, and what an Append of store/file.go makes of its result.
use gotato.Base.{
  is_some, true, none, some, [], ◌∷◌, ◌++◌, lookup, insert, nat_eq, bytes_eq, bytes_beq_iff,
  lookup-insert_self, ◌≡◌, refl, arith, subst,
}
use gotato.Store.Id.{StoreError, not_found, conflict}
use gotato.Store.File.{
  FileBatch, Files, Disk, Dir, FileHead, FileStore, files_at, put_files, last_entry_seq,
  first_entry_seq, write_batch_file,
}
use gotato.Store.File.Chain.{insert_new}
use gotato.Store.File.Calls.{append_write}
use gotato.Store.File.Shows.{Good}
use gotato.Store.File.Calls.{FileWrite}
use gotato.Store.File.Shows.{files_at-put_files}
use gotato.Store.File.Writing.{grown}

pub write_batch_file_absent :
    (dir : Dir) (b : FileBatch) (disk : Disk)
    → files_at dir disk ≡ none
    → write_batch_file dir b disk ≡ (disk, some not_found)
unfolding write_batch_file
write_batch_file_absent dir b disk h = ground (arith, h)

pub write_batch_file_taken :
    (dir : Dir) (b : FileBatch) (fs : Files) (disk : Disk)
    → files_at dir disk ≡ some fs
    → is_some (lookup (first_entry_seq b.entries) fs) ≡ true
    → write_batch_file dir b disk ≡ (disk, some conflict)
unfolding write_batch_file
write_batch_file_taken dir b fs disk h e = ground (arith, h, e)

pub write_batch_file_free :
    (dir : Dir) (b : FileBatch) (fs : Files) (disk : Disk)
    → files_at dir disk ≡ some fs
    → lookup (first_entry_seq b.entries) fs ≡ none
    → write_batch_file dir b disk
      ≡ (put_files dir (fs ++ (first_entry_seq b.entries, b) ∷ []) disk, none)
unfolding write_batch_file
write_batch_file_free dir b fs disk h e =
    ground (arith, h, e, insert_new (first_entry_seq b.entries) b fs e)

abbrev pub head_of : FileWrite → FileHead
head_of w = record {
  head = last_entry_seq w.batch.entries;
  first = first_entry_seq w.batch.entries;
  dir = w.dir;
}

pub head_of-Good :
    (w : FileWrite) (fs : Files) (disk : Disk)
    → files_at w.dir disk ≡ some fs
    → lookup (first_entry_seq w.batch.entries) fs ≡ none
    → Good (head_of w) (put_files w.dir (grown fs w) disk)
head_of-Good w fs disk here free = record {
  right = λ gs e. (
    w.batch,
    subst (λ x. lookup (first_entry_seq w.batch.entries) x ≡ some w.batch) (same gs e)
        (subst (λ x. lookup (first_entry_seq w.batch.entries) x ≡ some w.batch)
          (insert_new (first_entry_seq w.batch.entries) w.batch fs free)
          (lookup-insert_self (first_entry_seq w.batch.entries) w.batch fs)),
    refl,
  );
}
  where
    same :
        (gs : Files)
        → files_at w.dir (put_files w.dir (grown fs w) disk) ≡ some gs
        → grown fs w ≡ gs
    same gs e = ground (
      arith,
      files_at-put_files w.dir w.dir fs (grown fs w) disk here,
      bytes_beq_iff w.dir.0 w.dir.0,
      bytes_beq_iff w.dir.1 w.dir.1,
    )

pub append_write_err :
    (w : FileWrite) (f : FileStore) (e : StoreError)
    → write_batch_file w.dir w.batch f.disk ≡ (f.disk, some e)
    → append_write w f ≡ (f, some e)
unfolding append_write
append_write_err w f e h = ground (arith, h)

pub append_write_ok :
    (w : FileWrite) (f : FileStore) (disk : Disk)
    → write_batch_file w.dir w.batch f.disk ≡ (disk, none)
    → append_write w f ≡ (record { disk = disk; heads = insert w.id (head_of w) f.heads }, none)
unfolding append_write
append_write_ok w f disk h = ground (arith, h)
