-- ===== src/Store/Writer/Tests.antt =====
-- The theorems about the Writer at one new Record, which another Instance then takes.
use gotato.Base.{
  ℕ, ◌+◌, true, false, Option, none, some, List, [], ◌∷◌, ◌++◌, Bytes, bytes_eq, bytes_beq, lookup,
  insert, length, Result, ok, err, ◌≡◌, refl, arith, ap,
}
use gotato.Record.Entry.{Entry, session_created, turn_started, session_claimed, fact, stored_layers}
use gotato.Record.Writing.{
  Event, Record, fields, start_writing, start_log, number_all, claim_for, release_claim, emit,
  number, take_pending, entries_from, event_entry, stored, release_record, reclaim, write_events,
}
use gotato.Store.Id.{check_id}
use gotato.Store.Batch.{check_batch}
use gotato.Store.Memory.{MemoryStore, MemoryRecord, empty_store, create, append}
use gotato.Store.Memory.Step.{Call, appends, run, step}
use gotato.Store.Writer.{
  new_writer, create_started, made, send, count_write, write, write_batch, settle, WriterError,
  Writer, WriterState, Write, create_writer, no_info, flush_locked,
}
use gotato.Store.Writer.Taken.{AllShow}
use gotato.Store.Writer.History.{
  Act, writes, release_writer, resume, others, perform, perform_all, Small, AllSmall, by_others,
}
use gotato.Store.Writer.Created.{created_lem}
use gotato.Store.Writer.Superseded.{superseded_lem, IsOver}

abbrev json : Event → Option Bytes
json e = some (b'j' ∷ [])

abbrev r_id : Bytes
r_id = b'r' ∷ []

abbrev fresh : Record
fresh = record {
  id = r_id;
  epoch = b'e' ∷ [];
  info = no_info;
  instance_id = [];
  claim = record { instance_id = []; epoch = 0 };
  head = 0;
  last = 0;
  logging = false;
  pending = [];
  busy = false;
}

abbrev event : Event
event = record { number = 0; session = []; at = 5; kind = session_created; payload = fields [] }

abbrev at_5 : Write Bytes
at_5 = record { now = 5; guard = none; ctx = none }

abbrev result : MemoryStore × Result (WriterError Bytes) (Writer Bytes)
result = create_writer json at_5 (b'i' ∷ []) false [] event [] true fresh empty_store

abbrev writer_of : Result (WriterError Bytes) (Writer Bytes) → Writer Bytes
writer_of (ok w) = w
writer_of (err e) = new_writer true fresh

abbrev began : WriterState Bytes
began = record { writer = writer_of result.1; store = result.0 }

-- Another Instance's claim after position n.
abbrev claims_after : ℕ → Call
claims_after n =
    appends none r_id n
      (record {
        seq = n + 1;
        kind = session_claimed;
        layer = fact;
        at = 6;
        instance_id = b'k' ∷ [];
        payload = [];
      }
        ∷ [])
      (record { epoch = b'e' ∷ []; info = no_info })

abbrev calls : List (Act Bytes)
calls =
    writes at_5 (record event { kind = turn_started } ∷ [])
    ∷ others (claims_after 3)
    ∷ (release_writer at_5 ++ resume at_5 none)

count_of : Option MemoryRecord → ℕ
count_of none = 0
count_of (some r) = length r.entries

began_result : result ≡ (began.store, ok began.writer)
unfolding start_writing start_log number_all claim_for release_claim emit number take_pending
    entries_from event_entry stored_layers create_writer create_started made stored send count_write
    create append check_id check_batch lookup insert bytes_beq
began_result = refl

calls_small : AllSmall json r_id calls began
unfolding start_writing start_log number_all claim_for release_claim emit number take_pending
    entries_from event_entry stored_layers create_writer create_started made stored send count_write
    create append check_id check_batch lookup insert bytes_beq perform write flush_locked
    write_batch settle release_record reclaim write_events step count_of
calls_small = (
  (λ r e. omega (arith, ap count_of e)),
  (
    (λ r e. omega (arith, ap count_of e)),
    (
      (λ r e. omega (arith, ap count_of e)),
      (
        (λ r e. omega (arith, ap count_of e)),
        ((λ r e. omega (arith, ap count_of e)), ((λ r e. omega (arith, ap count_of e)), tt)),
      ),
    ),
  ),
)

began-Small : Small r_id began.store
unfolding start_writing start_log number_all claim_for release_claim emit number take_pending
    entries_from event_entry stored_layers create_writer create_started made stored send count_write
    create append check_id check_batch lookup insert bytes_beq perform write flush_locked
    write_batch settle release_record reclaim write_events step count_of
began-Small = λ r e. omega (arith, ap count_of e)

created_lem_example :
    (r' : MemoryRecord) × (mid : List Entry) × (lookup r_id
        (perform_all json calls began).store.records
      ≡ some r')
    × (r'.entries ≡ mid ++ by_others json r_id calls began)
    × AllShow json (perform_all json calls began).writer.published mid
    × ((perform_all json calls began).writer.rec.head ≡ length mid)
created_lem_example =
    created_lem json at_5 (b'i' ∷ []) false [] event [] fresh empty_store began.store began.writer
      calls began_result (tt, (tt, (tt, (tt, (tt, (tt, tt)))))) began-Small calls_small

-- The other Instance claims the Record at the Writer's head.
abbrev taken : WriterState Bytes
taken = record began { store = (step (claims_after 2) began.store).0 }

abbrev taken_record : MemoryRecord
taken_record = record {
  entries =
      record {
        seq = 1;
        kind = session_created;
        layer = fact;
        at = 5;
        instance_id = b'i' ∷ [];
        payload = b'j' ∷ [];
      }
      ∷ record {
        seq = 2;
        kind = session_claimed;
        layer = fact;
        at = 5;
        instance_id = b'i' ∷ [];
        payload = b'j' ∷ [];
      }
      ∷ record {
        seq = 3;
        kind = session_claimed;
        layer = fact;
        at = 6;
        instance_id = b'k' ∷ [];
        payload = [];
      }
      ∷ [];
  header = record { epoch = b'e' ∷ []; info = no_info };
}

taken_IsOver : IsOver json r_id taken
unfolding start_writing start_log number_all claim_for release_claim emit number take_pending
    entries_from event_entry stored_layers create_writer create_started made stored send count_write
    create append check_id check_batch lookup insert bytes_beq perform write flush_locked
    write_batch settle release_record reclaim write_events step count_of
taken_IsOver = record { here = taken_record; found = refl; over = refl; named = refl }

abbrev late_calls : List (Act Bytes)
late_calls =
    writes at_5 (record event { kind = turn_started } ∷ [])
    ∷ others (claims_after 3)
    ∷ release_writer at_5

taken-Small : Small r_id taken.store
unfolding start_writing start_log number_all claim_for release_claim emit number take_pending
    entries_from event_entry stored_layers create_writer create_started made stored send count_write
    create append check_id check_batch lookup insert bytes_beq perform write flush_locked
    write_batch settle release_record reclaim write_events step count_of
taken-Small = λ r e. omega (arith, ap count_of e)

late_small : AllSmall json r_id late_calls taken
unfolding start_writing start_log number_all claim_for release_claim emit number take_pending
    entries_from event_entry stored_layers create_writer create_started made stored send count_write
    create append check_id check_batch lookup insert bytes_beq perform write flush_locked
    write_batch settle release_record reclaim write_events step count_of
late_small = (
  (λ r e. omega (arith, ap count_of e)),
  (
    (λ r e. omega (arith, ap count_of e)),
    ((λ r e. omega (arith, ap count_of e)), ((λ r e. omega (arith, ap count_of e)), tt)),
  ),
)

superseded_lem_example :
    ((perform_all json late_calls taken).store ≡ run (claims_after 3 ∷ []) taken.store)
    × ((perform_all json late_calls taken).writer.published ≡ taken.writer.published)
superseded_lem_example =
    superseded_lem json r_id late_calls taken taken_IsOver (tt, (tt, (tt, (tt, tt)))) taken-Small
      late_small
