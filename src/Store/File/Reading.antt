-- ===== src/Store/File/Reading.antt =====
-- The reads of store/file.go. A read is one step: it finds the files as they stand at one moment.
use gotato.Base.{
  ℕ, ◌+◌, Bool, true, false, ◌&&◌, ltb, leb, Option, none, some, List, [], ◌∷◌, ◌++◌, Bytes, length,
  take, Result, ok, err, check, select, u64,
}
use mathlib.Core.List.{reverse}
use gotato.Record.Entry.{Entry, Header, Info, Loaded}
use gotato.Store.Id.{StoreError, not_found, other_error}
use gotato.Store.Batch.{loaded_from}
use gotato.Store.File.{
  FileBatch, Disk, Dir, FileStore, read_batch, last_batch_seq, batch_list, read_segments,
}
use gotato.Store.File.Calls.{has_checkpoint, last_first}

-- The loop of Load: the writes from the last back to one that holds a Checkpoint, and the positions
-- of the writes before that.
unfoldable pub scan_back :
    Dir → Disk → List ℕ → List FileBatch → Result StoreError (List ℕ × List FileBatch)
unfolding read_batch has_checkpoint
scan_back dir disk [] tail = ok ([], tail)
scan_back dir disk (first ∷ before) tail = elim (read_batch dir first disk) [
  | none ↦ err not_found
  | some b ↦ elim (has_checkpoint b.entries) [
    | true ↦ ok (before, b ∷ tail)
    | false ↦ scan_back dir disk before (b ∷ tail)
  ]
]

abbrev pub concat : List FileBatch → List Entry
concat [] = []
concat (b ∷ bs) = b.entries ++ concat bs

-- The Header of the last write.
abbrev pub last_header : List FileBatch → Option Header
last_header [] = none
last_header (b ∷ []) = some b.header
last_header (b ∷ c ∷ bs) = last_header (c ∷ bs)

-- What Load returns of the Segments and the writes that it read. Some write is read.
unfoldable pub loaded_of : List Entry → List FileBatch → Result StoreError Loaded
unfolding last_batch_seq loaded_from
loaded_of segments tail = elim (last_header tail) [
  | none ↦ err other_error
  | some h ↦
      let (entries, closed) = loaded_from (segments ++ concat tail) in
      ok (record { entries = entries; segments = closed; seq = last_batch_seq tail; header = h })
]

unfoldable pub file_load : Option StoreError → Bytes → FileStore → Result StoreError Loaded
unfolding batch_list scan_back read_segments loaded_of
file_load ctx id f = check ctx (elim (batch_list id f.disk) [
  | err e ↦ err e
  | ok (dir, firsts) ↦ elim (scan_back dir f.disk (reverse firsts) []) [
    | err e ↦ err e
    | ok (before, tail) ↦ elim (read_segments dir (reverse before) f.disk) [
      | err e ↦ err e
      | ok segments ↦ loaded_of segments tail
    ]
  ]
])

-- `i+1 < len(firsts) && firsts[i+1] <= after+1`.
abbrev pub is_passed : ℕ → List ℕ → Bool
is_passed after [] = false
is_passed after (next ∷ firsts) = leb next (u64 (after + 1))

-- The loop of Log, with what it has read. A limit of 0 or less is no limit: 0 stands for both.
unfoldable pub read_log : Dir → Disk → ℕ → ℕ → List ℕ → List Entry → Result StoreError (List Entry)
unfolding read_batch select
read_log dir disk after limit [] out = ok out
read_log dir disk after limit (first ∷ firsts) out = elim (is_passed after firsts) [
  | true ↦ read_log dir disk after limit firsts out
  | false ↦ elim (read_batch dir first disk) [
    | none ↦ err not_found
    | some b ↦
        let more = out ++ select (λ e. ltb after e.seq) b.entries in
        elim (ltb 0 limit && leb limit (length more)) [
          | true ↦ ok (take limit more)
          | false ↦ read_log dir disk after limit firsts more
        ]
  ]
]

unfoldable pub file_log :
    Option StoreError → Bytes → ℕ → ℕ → FileStore → Result StoreError (List Entry)
unfolding batch_list read_log
file_log ctx id after limit f = check ctx (elim (batch_list id f.disk) [
  | err e ↦ err e
  | ok (dir, firsts) ↦ read_log dir f.disk after limit firsts []
])

unfoldable file_info : Bytes → FileStore → Result StoreError Info
unfolding batch_list read_batch
file_info id f = elim (batch_list id f.disk) [
  | err e ↦ err e
  | ok (dir, firsts) ↦ elim (last_first firsts) [
    | none ↦ err not_found
    | some first ↦ elim (read_batch dir first f.disk) [
      | none ↦ err not_found
      | some b ↦ ok b.header.info
    ]
  ]
]
