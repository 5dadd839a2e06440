-- ===== src/Store/Writer.antt =====
-- store/writer.go: the one writer of a Record, over the MemoryStore. Write and Flush hold the
-- Writer's lock from end to end, so each is one step; Release and Resume are the steps of History. Arguments of a write: the clock's reading, the guard's
-- error, and the error of the write's own context, which ends with the time limit alone.
pub mod History
pub mod Taken
pub mod Log
pub mod Flush
pub mod Kept
pub mod Superseded
pub mod Created
mod Tests
use gotato.Base.{
  ℕ, ◌+◌, Bool, true, false, not, ◌&&◌, ◌||◌, ◌==◌, ltb, if◌then◌else◌, Option, none, some, List,
  [], ◌∷◌, ◌++◌, Bytes, length, map, is_some, or_default, Result, ok, err, u64,
}
use gotato.Record.Entry.{Entry, Header, Info}
use gotato.Record.Writing.{
  Event, without_body, Record, Batch, take_pending, stored, write_events, release_record, reclaim,
  start_writing,
}
use gotato.Store.Id.{StoreError, conflict, not_found, canceled, deadline_exceeded}
use gotato.Store.Memory.{MemoryStore, create, append, log_after}

-- `refused` is the guard's own error; a store_failure keeps its cause.
pub data WriterError (G : Type 0) : Type 0 where
  refused : G → WriterError G
  conflicted missing : WriterError G
  invalid_state : WriterError G
  of_store : StoreError → WriterError G
  store_failure : WriterError G

pub record Writer (G : Type 0) : Type 0 where
  pub rec : Record
  pub has_publisher : Bool
  -- What the publisher was given.
  pub published : List Event
  pub failed : Option (WriterError G)
  pub writes : ℕ
  pub entry_count : ℕ
  pub write_failed : Bool

pub record WriterState (G : Type 0) : Type 0 where
  pub writer : Writer G
  pub store : MemoryStore

pub record Write (G : Type 0) : Type 0 where
  pub now : ℕ
  pub guard : Option G
  pub ctx : Option StoreError

abbrev pub first_seq : List Entry → ℕ
first_seq [] = 0
first_seq (e ∷ es) = e.seq

abbrev pub last_seq : List Entry → ℕ → ℕ
last_seq [] n = n
last_seq (e ∷ es) n = last_seq es e.seq

-- Go's zero value.
abbrev no_info : Info
no_info = record {
  id = [];
  parent_id = [];
  created_at = 0;
  updated_at = 0;
  messages = 0;
  runs = 0;
  usage = record {
    input_tokens = 0;
    output_tokens = 0;
    total_tokens = 0;
    cache_read_tokens = 0;
    cache_write_tokens = 0;
  };
  metadata = [];
}

abbrev pub no_batch : Batch
no_batch = record { entries = []; events = []; header = record { epoch = []; info = no_info } }

module _ {G : Type 0} where
  abbrev pub failed_with : WriterError G → Writer G → Writer G
  failed_with e w = record w { failed = some e }

  unfoldable pub count_write : List Entry → Option StoreError → Writer G → Writer G
  count_write entries e w = record w {
    writes = w.writes + 1;
    entry_count = w.entry_count + length entries;
    write_failed = w.write_failed || is_some e;
  }

  unfoldable pub send : List Event → Writer G → Writer G
  send events w =
      if w.has_publisher then record w { published = w.published ++ map without_body events } else w

  abbrev pub write_error : StoreError → WriterError G
  write_error conflict = conflicted
  write_error not_found = missing
  write_error _ = store_failure

  -- What flushLocked does of the store's answer.
  unfoldable pub settle :
      Batch
      → MemoryStore × Option StoreError
      → Writer G
      → WriterState G × Result (WriterError G) (List Event)
  unfolding count_write send
  settle b (m, some e) w = (
    record { writer = failed_with (write_error e) (count_write b.entries (some e) w); store = m },
    err (write_error e),
  )
  settle b (m, none) w =
      let w' = count_write b.entries none w in
      (
        record {
          writer = send b.events (record w' { rec = stored (last_seq b.entries 0) w'.rec });
          store = m;
        },
        ok b.events,
      )

  -- What flushLocked does with what TakePending returned.
  unfoldable pub write_batch :
      Write G → Batch → Writer G → MemoryStore → WriterState G × Result (WriterError G) (List Event)
  unfolding settle
  write_batch x b w m = elim x.guard [
    | some g ↦ (record { writer = failed_with (refused g) w; store = m }, err (refused g))
    | none ↦
        settle b
          (append x.ctx w.rec.id (u64 (first_seq b.entries + 18446744073709551615)) b.entries
            b.header m)
          w
  ]

  abbrev pub new_writer : Bool → Record → Writer G
  new_writer has_publisher r = record {
    rec = r;
    has_publisher = has_publisher;
    published = [];
    failed = none;
    writes = 0;
    entry_count = 0;
    write_failed = false;
  }

  -- What CreateWriter does of the store's answer.
  unfoldable pub made :
      Batch
      → Writer G
      → MemoryStore × Option StoreError
      → MemoryStore × Result (WriterError G) (Writer G)
  unfolding count_write send
  made b w (m, some e) = (m, err (of_store e))
  made b w (m, none) =
      let w' = count_write b.entries none w in
      (m, ok (send b.events (record w' { rec = stored (last_seq b.entries 0) w'.rec })))

  module _ (marshal : Event → Option Bytes) where
    unfoldable pub flush_locked :
        Write G → Writer G → MemoryStore → WriterState G × Result (WriterError G) (List Event)
    unfolding write_batch
    flush_locked x w m = elim w.failed [
      | some e ↦ (record { writer = w; store = m }, err e)
      | none ↦ elim (take_pending marshal w.rec) [
        | err _ ↦ (record { writer = failed_with store_failure w; store = m }, err store_failure)
        | ok (r, none) ↦ (record { writer = record w { rec = r }; store = m }, ok [])
        | ok (r, some b) ↦ write_batch x b (record w { rec = r }) m
      ]
    ]

    unfoldable pub write :
        Write G
        → List Event
        → Writer G
        → MemoryStore
        → WriterState G × Result (WriterError G) (List Event)
    unfolding flush_locked
    write x events w m = flush_locked x (record w { rec = (write_events x.now events w.rec).0 }) m

    -- CreateWriter once the Record has started writing. An empty batch has no last position: the store
    -- refuses it first.
    unfoldable pub create_started :
        Write G → Bool → Record → MemoryStore → MemoryStore × Result (WriterError G) (Writer G)
    unfolding made
    create_started x has_publisher s m = elim (take_pending marshal s) [
      | err _ ↦ (m, err store_failure)
      | ok (r, o) ↦
          let b = or_default no_batch o in
          elim x.guard [
            | some g ↦ (m, err (refused g))
            | none ↦ made b (new_writer has_publisher r) (create x.ctx r.id b.entries b.header m)
          ]
    ]

    -- The arguments after the first are those of start_writing.
    unfoldable pub create_writer :
        Write G
        → Bytes
        → Bool
        → Bytes
        → Event
        → List Event
        → Bool
        → Record
        → MemoryStore
        → MemoryStore × Result (WriterError G) (Writer G)
    unfolding create_started
    create_writer x instance_id is_idle fresh state segments has_publisher r m =
        if ltb 0 r.head
        then (m, err invalid_state)
        else create_started x has_publisher
            (start_writing x.now instance_id is_idle fresh state segments r) m

  -- Stale: what the store holds after the Record's head.
  unfoldable pub is_stale : Option StoreError → Writer G → MemoryStore → Result StoreError Bool
  is_stale ctx w m = elim (log_after ctx w.rec.id w.rec.head 1 m) [
    | err e ↦ err e
    | ok entries ↦ ok (ltb 0 (length entries))
  ]
