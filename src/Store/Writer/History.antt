-- ===== src/Store/Writer/History.antt =====
-- A Writer among the other callers of its store.
use gotato.Base.{
  ℕ, ◌<◌, Option, none, some, List, [], ◌∷◌, ◌++◌, Bytes, length, drop, lookup, bytes_eq, ◌≡◌,
}
use gotato.Record.Entry.{Entry}
use gotato.Record.Writing.{Event, with_session, emit, release_record, reclaim}
use gotato.Store.Memory.{MemoryStore, MemoryRecord}
use gotato.Store.Memory.Step.{Call, Spares, step}
use gotato.Store.Memory.Invariant.{position_bound}
use gotato.Store.Writer.{WriterState, WriterError, Write, write, flush_locked}

pub data Act (G : Type 0) : Type 0 where
  -- A live Session's Events, or one of the Record's own.
  writes : Write G → List Event → Act G
  emits : ℕ → Event → Act G
  flushes : Write G → Act G
  -- What Release and Resume do to the Record before they flush, under the Record's own lock.
  releases reclaims : ℕ → Act G
  -- Any other caller of the store.
  others : Call → Act G

module _ {G : Type 0} (marshal : Event → Option Bytes) where
  unfoldable pub perform : Act G → WriterState G → WriterState G
  unfolding write flush_locked release_record reclaim emit
  perform (writes x events) s = (write marshal x events s.writer s.store).0
  perform (emits now e) s = record s {
    writer = record s.writer { rec = emit now (with_session e s.writer.rec.id) s.writer.rec };
  }
  perform (flushes x) s = (flush_locked marshal x s.writer s.store).0
  perform (releases now) s = record s {
    writer = record s.writer { rec = release_record now s.writer.rec };
  }
  perform (reclaims now) s = record s {
    writer = record s.writer { rec = reclaim now s.writer.rec };
  }
  perform (others c) s = record s { store = (step c s.store).0 }

  unfoldable pub perform_all : List (Act G) → WriterState G → WriterState G
  unfolding perform
  perform_all [] s = s
  perform_all (a ∷ rest) s = perform_all rest (perform a s)

-- Release, as its steps: calls of other goroutines may come between them.
abbrev pub release_writer : {G : Type 0} → Write G → List (Act G)
release_writer x = releases x.now ∷ flushes x ∷ []

-- Resume, with the answer that Failed gave it; a Writer that failed does nothing.
abbrev pub resume : {G : Type 0} → Write G → Option (WriterError G) → List (Act G)
resume x (some e) = []
resume x none = reclaims x.now ∷ flushes x ∷ []

-- Nobody deletes the Record.
abbrev pub Keeps : {G : Type 0} → Bytes → Act G → Type 0
Keeps id (others c) = Spares id c
Keeps id _ = Unit {0}

-- The log is shorter than 2^64 Entries.
abbrev pub Small : Bytes → MemoryStore → Type 0
Small id m = (r : MemoryRecord) → lookup id m.records ≡ some r → length r.entries < position_bound

module _ {G : Type 0} (marshal : Event → Option Bytes) (id : Bytes) where
  -- The log is shorter than 2^64 Entries after each call.
  abbrev pub AllSmall : List (Act G) → WriterState G → Type 0
  AllSmall [] s = Unit {0}
  AllSmall (a ∷ rest) s = Small id (perform marshal a s).store × AllSmall rest (perform marshal a s)

abbrev entries_of : Option MemoryRecord → List Entry
entries_of none = []
entries_of (some r) = r.entries

unfoldable pub log_of : Bytes → MemoryStore → List Entry
log_of id m = entries_of (lookup id m.records)

-- What a call of another than the Writer makes the log grow by.
abbrev pub foreign_part : {G : Type 0} → Act G → List Entry → List Entry
foreign_part (others c) grown = grown
foreign_part _ grown = []

module _ {G : Type 0} (marshal : Event → Option Bytes) (id : Bytes) where
  -- What the calls of others appended, in order.
  unfoldable pub by_others : List (Act G) → WriterState G → List Entry
  by_others [] s = []
  by_others (a ∷ rest) s =
      let next = perform marshal a s in
      foreign_part a (drop (length (log_of id s.store)) (log_of id next.store))
      ++ by_others rest next
