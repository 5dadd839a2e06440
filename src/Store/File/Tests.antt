-- ===== src/Store/File/Tests.antt =====
-- The theorems about the FileStore at two handles on one directory.
use gotato.Base.{
  if_cases, false, ℕ, Option, none, some, List, [], ◌∷◌, Bytes, length, lookup, insert, bytes_beq,
  delete, subst, sym, ◌≡◌, refl, arith, ap, codes,
}
use gotato.Record.Entry.{Entry, Header, session_created, message_committed, turn_started, fact, log}
use gotato.Store.Id.{check_id, conflict}
use gotato.Store.Batch.{check_batch}
use gotato.Store.File.Name.{name_of, id_of, id_of-name_of, check_file_id}
use gotato.Store.File.Name.Distinct.{name_of_distinct}
use gotato.Store.File.Calls.{head, file_create, append_checked, append_write}
use gotato.Store.File.Reading.{file_load, file_log}
use gotato.Store.File.Shows.{Shows}
use gotato.Store.File.Agree.{IsShort}
use gotato.Store.File.World.{
  World, FileStep, creates, checks, writes, SameResults, calls, new_world, file_run, handle_of,
}
use gotato.Store.File.Steps.{AllProper}
use gotato.Store.File.Refines.{refines_lem}
use gotato.Store.File.Loading.{load-Agree}
use gotato.Store.File.Logging.{log-Agree}
use gotato.Store.File.Instances.{
  RowFiles, ShowsRows, Heartbeat, read_instance, file_instance, file_beats, memory_beats,
  beats_refine,
}
use gotato.Store.Memory.{
  InstanceRow, instance_state, MemoryRecord, empty_store, create, append, load, log_after,
}
use gotato.Store.Memory.Step
use gotato.Store.Memory.Invariant.{AllFit, history-IsStored}

abbrev sum_of : Bytes → Bytes
sum_of epoch = b'0' ∷ epoch

abbrev the_id : Bytes
the_id = codes "Mix.1"

abbrev the_header : Header
the_header = record {
  epoch = codes "e";
  info = record {
    id = the_id;
    parent_id = [];
    created_at = 5;
    updated_at = 5;
    messages = 0;
    runs = 0;
    usage = record {
      input_tokens = 0;
      output_tokens = 0;
      total_tokens = 0;
      cache_read_tokens = 0;
      cache_write_tokens = 0;
    };
    metadata = [];
  };
}

abbrev opened : Entry
opened = record {
  seq = 1;
  kind = session_created;
  layer = fact;
  at = 5;
  instance_id = b'i' ∷ [];
  payload = [];
}

abbrev said : Entry
said = record opened { seq = 2; kind = message_committed }

abbrev turned : Entry
turned = record opened { seq = 3; kind = turn_started; layer = log }

-- Two handles check an Append at position 1, and the second one writes first.
abbrev race : List FileStep
race =
    creates 0 none the_id (opened ∷ []) the_header
    ∷ checks 1 0 none the_id 1 (said ∷ []) the_header
    ∷ checks 2 1 none the_id 1 (said ∷ turned ∷ []) the_header
    ∷ writes 2
    ∷ writes 1
    ∷ []

race_proper : AllProper sum_of [] race
unfolding name_of
race_proper = (
  (omega arith, tt),
  ((omega arith, ((λ e. refl), tt)), ((omega arith, ((λ e. refl), tt)), (tt, (tt, tt)))),
)

abbrev race_calls : List Step.Call
race_calls =
    Step.creates none the_id (opened ∷ []) the_header
    ∷ Step.appends none the_id 1 (said ∷ turned ∷ []) the_header
    ∷ Step.appends none the_id 1 (said ∷ []) the_header
    ∷ []

race_ended :
    (file_run sum_of race new_world).1
    ≡ (Step.creates none the_id (opened ∷ []) the_header, none)
      ∷ (Step.appends none the_id 1 (said ∷ turned ∷ []) the_header, none)
      ∷ (Step.appends none the_id 1 (said ∷ []) the_header, some conflict)
      ∷ []
unfolding file_run file_create append_checked append_write check_file_id check_id check_batch
    name_of lookup insert bytes_beq head delete
race_ended = refl

race_fits : AllFit race_calls empty_store
unfolding Step.step create append check_id check_batch lookup insert bytes_beq
race_fits =
    (omega arith, ((λ r e. omega (arith, ap count e)), ((λ r e. omega (arith, ap count e)), tt)))
  where
    count : Option MemoryRecord → ℕ
    count none = 0
    count (some r) = length r.entries

id_of-name_of_example : id_of (name_of (codes "A b")) ≡ some (codes "A b")
id_of-name_of_example = id_of-name_of (codes "A b") (omega arith, (omega arith, (omega arith, tt)))

name_of_distinct_example : codes "aB" ≡ codes "aB"
unfolding name_of
name_of_distinct_example =
    name_of_distinct (codes "aB") (codes "aB") (omega arith, (omega arith, tt))
      (omega arith, (omega arith, tt)) refl

abbrev race_end : World
unfolding file_run
race_end = (file_run sum_of race new_world).0

race_fits_calls : AllFit (calls (file_run sum_of race new_world).1) empty_store
race_fits_calls = subst (λ x. AllFit (calls x) empty_store) (sym race_ended) race_fits

refines_lem_example :
    SameResults (file_run sum_of race new_world).1 empty_store
    × Shows sum_of
        (file_run sum_of race new_world).0.disk
        (Step.run (calls (file_run sum_of race new_world).1) empty_store)
refines_lem_example = refines_lem sum_of race race_proper race_fits_calls

race-Shows : Shows sum_of race_end.disk (Step.run race_calls empty_store)
unfolding file_run
race-Shows =
    subst (λ x. Shows sum_of race_end.disk (Step.run (calls x) empty_store)) race_ended
      (refines_lem sum_of race race_proper race_fits_calls).1

id-IsShort : IsShort the_id
unfolding name_of
id-IsShort = omega arith

load-Agree_example :
    file_load none the_id (handle_of 1 race_end)
    ≡ load none the_id (Step.run race_calls empty_store)
load-Agree_example =
    load-Agree sum_of none the_id (handle_of 1 race_end) (Step.run race_calls empty_store)
      id-IsShort race-Shows (history-IsStored race_calls race_fits)

log-Agree_example :
    file_log none the_id 1 1 (handle_of 1 race_end)
    ≡ log_after none the_id 1 1 (Step.run race_calls empty_store)
log-Agree_example =
    log-Agree sum_of none the_id 1 1 (handle_of 1 race_end) (Step.run race_calls empty_store)
      id-IsShort race-Shows (history-IsStored race_calls race_fits)

abbrev live_row : InstanceRow
live_row = record { id = codes "i"; draining = false; address = codes "a" }

abbrev first_beat : Heartbeat
first_beat = record { ctx = none; row = live_row; ttl = 30; now = 7 }

abbrev late_beat : Heartbeat
late_beat = record first_beat { now = 40 }

-- A power cut left a file that does not parse.
abbrev torn_files : RowFiles
torn_files = (codes "j", none) ∷ []

torn-ShowsRows : ShowsRows torn_files empty_store
unfolding lookup
torn-ShowsRows = λ id h.
    if_cases (λ x. read_instance x ≡ none) (bytes_beq (codes "j") (name_of id)) (some none) none
      (λ e. refl) (λ e. refl)

beats_refine_example :
    ((file_beats (first_beat ∷ late_beat ∷ []) torn_files).1
      ≡ (memory_beats (first_beat ∷ late_beat ∷ []) empty_store).1)
    × (file_instance none (codes "i") 20 (file_beats (first_beat ∷ late_beat ∷ []) torn_files).0
        ≡ instance_state none
            (codes "i")
            20
            (memory_beats (first_beat ∷ late_beat ∷ []) empty_store).0)
unfolding name_of check_id
beats_refine_example =
    beats_refine (first_beat ∷ late_beat ∷ []) torn_files empty_store none (codes "i") 20
      (omega arith, (omega arith, tt)) torn-ShowsRows (omega arith) refl
