-- ===== src/Store/Memory/Tests.antt =====
-- The theorems about the MemoryStore at a store that holds one Record.
use gotato.Base.{
  ℕ, Option, none, some, List, [], ◌∷◌, ◌++◌, Bytes, length, lookup, ◌≡◌, ◌≢◌, refl, arith, ok,
  select, insert, bytes_beq, bytes_eq, ap, false,
}
use gotato.Record.Entry.{
  Entry, Header, session_created, message_committed, turn_started, fact, log, is_fact,
  is_segment_closed,
}
use gotato.Store.Id.{conflict, expired, check_id}
use gotato.Store.Batch.{check_batch}
use gotato.Store.Memory.{
  MemoryRecord, MemoryStore, MemoryInstance, empty_store, create, append, load, log_after, beat,
  instance_state,
}
use gotato.Store.Memory.Step.{Call, creates, appends, beats, step, run, run-Longer, Longer}
use gotato.Store.Memory.Invariant.{IsStored, history-IsStored, Fits, AllFit}
use gotato.Store.Memory.Fence.{append_once, append_loser}
use gotato.Store.Memory.Reads.{Split, load_lem, log_pages}
use gotato.Store.Memory.Liveness.{expired_for_good}

abbrev r_id : Bytes
r_id = b'r' ∷ []

abbrev header_of : Bytes → Header
header_of epoch = record {
  epoch = epoch;
  info = record {
    id = r_id;
    parent_id = [];
    created_at = 5;
    updated_at = 5;
    messages = 0;
    runs = 0;
    usage = record {
      input_tokens = 0;
      output_tokens = 0;
      total_tokens = 0;
      cache_read_tokens = 0;
      cache_write_tokens = 0;
    };
    metadata = [];
  };
}

abbrev old_epoch : Bytes
old_epoch = b'a' ∷ []

abbrev new_epoch : Bytes
new_epoch = b'b' ∷ []

abbrev created : Entry
created = record {
  seq = 1;
  kind = session_created;
  layer = fact;
  at = 5;
  instance_id = b'i' ∷ [];
  payload = [];
}

abbrev committed : Entry
committed = record created { seq = 2; kind = message_committed }

abbrev turned : Entry
turned = record created { seq = 3; kind = turn_started; layer = log }

abbrev first_calls : List Call
first_calls =
    creates none r_id (created ∷ []) (header_of old_epoch)
    ∷ appends none r_id 1 (committed ∷ turned ∷ []) (header_of old_epoch)
    ∷ []

abbrev new_calls : List Call
new_calls = creates none r_id (created ∷ []) (header_of old_epoch) ∷ []

abbrev new_record : MemoryRecord
new_record = record { entries = created ∷ []; header = header_of old_epoch }

abbrev new_store : MemoryStore
new_store = record { records = (r_id, new_record) ∷ []; instances = [] }

abbrev full_record : MemoryRecord
full_record = record { entries = created ∷ committed ∷ turned ∷ []; header = header_of old_epoch }

abbrev full_store : MemoryStore
full_store = record { records = (r_id, full_record) ∷ []; instances = [] }

-- What two calls leave: one Record of three Entries.
run_first : run first_calls empty_store ≡ full_store
unfolding run step create append check_id check_batch lookup insert bytes_beq
run_first = refl

new_IsStored : IsStored new_store
unfolding run step create check_id check_batch lookup insert
new_IsStored = history-IsStored new_calls (omega arith, tt)

full_fits : AllFit first_calls empty_store
unfolding run step create append check_id check_batch lookup insert bytes_beq
full_fits = (omega arith, ((λ r e. omega (arith, ap count e)), tt))
  where
    count : Option MemoryRecord → ℕ
    count none = 0
    count (some r) = length r.entries

full_IsStored : IsStored full_store
unfolding run step create append check_id check_batch lookup insert bytes_beq
full_IsStored = history-IsStored first_calls full_fits

history-IsStored_example : IsStored (run first_calls empty_store)
history-IsStored_example = history-IsStored first_calls full_fits

abbrev later_calls : List Call
later_calls =
    appends none r_id 1 (committed ∷ []) (header_of old_epoch)
    ∷ beats none (record { id = b'i' ∷ []; draining = false; address = [] }) 30 7
    ∷ []

run-Longer_example : Longer new_record (lookup r_id (run later_calls new_store).records)
unfolding lookup bytes_beq
run-Longer_example = run-Longer later_calls new_store r_id new_record (tt, (tt, tt)) refl

-- The batch that takes the new Record past position 1.
abbrev winner : Call
winner = appends none r_id 1 (committed ∷ []) (header_of old_epoch)

winner-Fits : Fits winner new_store
unfolding lookup bytes_beq
winner-Fits = λ r e. omega (arith, ap count e)
  where
    count : Option MemoryRecord → ℕ
    count none = 0
    count (some r) = length r.entries

append_once_example :
    (append none r_id 1
      (committed ∷ [])
      (header_of old_epoch)
      (append none r_id 1 (committed ∷ []) (header_of old_epoch) new_store).0).1
    ≢ none
unfolding run append check_id check_batch lookup insert bytes_beq
append_once_example =
    append_once none none r_id 1 (committed ∷ []) (committed ∷ []) (header_of old_epoch)
      (header_of old_epoch) [] new_store new_IsStored winner-Fits tt tt refl

append_loser_example :
    append none r_id 1
      (committed ∷ [])
      (header_of old_epoch)
      (append none r_id 1 (committed ∷ []) (header_of old_epoch) new_store).0
    ≡ ((append none r_id 1 (committed ∷ []) (header_of old_epoch) new_store).0, some conflict)
unfolding append check_id check_batch lookup insert bytes_beq
append_loser_example =
    append_loser r_id 1 (committed ∷ []) (committed ∷ []) (header_of old_epoch)
      (header_of old_epoch) new_store new_IsStored winner-Fits refl refl refl

abbrev dying : MemoryInstance
dying = record { row = record { id = b'i' ∷ []; draining = false; address = [] }; expires = 40 }

abbrev watched : MemoryStore
watched = record { records = []; instances = (b'i' ∷ [], dying) ∷ [] }

expired_for_good_example :
    let m = run (beats none dying.row 30 41 ∷ []) watched in
    (beat none dying.row 30 50 m ≡ (m, some expired))
    × (instance_state none (b'i' ∷ []) 50 m
        ≡ ok (record { id = b'i' ∷ []; alive = false; draining = false; address = [] }))
unfolding check_id lookup bytes_beq
expired_for_good_example =
    expired_for_good 40 50 30 dying.row dying (beats none dying.row 30 41 ∷ []) watched refl
      (omega arith) ((omega arith, refl), tt) refl refl (omega arith)

load_lem_example :
    (before : List Entry) × (c : Entry) × (after : List Entry) × Split full_record.entries before c
      after
    × (load none r_id full_store
        ≡ ok (record {
          entries = select (λ e. is_fact e.layer) (c ∷ after);
          segments = select (λ e. is_segment_closed e.kind) before;
          seq = 3;
          header = header_of old_epoch;
        }))
unfolding check_id lookup bytes_beq
load_lem_example = load_lem r_id full_store full_record full_IsStored refl refl

log_pages_example :
    log_after none r_id 0 0 full_store ≡ ok ((created ∷ committed ∷ []) ++ turned ∷ [])
unfolding log_after check_id lookup bytes_beq
log_pages_example =
    log_pages r_id 0 2 full_store (created ∷ committed ∷ []) (turned ∷ []) full_IsStored
      (omega arith) refl refl
