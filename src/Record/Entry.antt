-- ===== src/Record/Entry.antt =====
-- record/entry.go and record/header.go: the Entries of a Record's log, their layers, and what a
-- store returns of them. The kinds are those of gotato/eventkinds.go.
use gotato.Base.{ℕ, Bool, true, false, Option, none, some, List, Bytes}
use gotato.Session.Types.{Usage}

pub data EventKind : Type 0 where
  run_started run_ended turn_started turn_ended context_built : EventKind
  reply_started reply_ended text_delta reasoning_delta reply_cut_off reply_part_kept : EventKind
  model_retried tool_started tool_ended tool_progress : EventKind
  tool_result_committed tool_result_spilled tool_loaded tool_unloaded : EventKind
  message_queued message_committed message_dropped notice_queued notice_committed : EventKind
  message_rejected abort_requested session_claimed session_released session_created : EventKind
  metadata_changed compaction_started compaction_ended compaction_failed : EventKind
  segment_closed session_unloaded extension_failed events_skipped : EventKind
  -- Any other text: the Go type is a string.
  other_kind : Bytes → EventKind

pub data Layer : Type 0 where
  fact log : Layer
  -- Any other text, the empty one included.
  other_layer : Bytes → Layer

-- The table of layers: the facts, the log entries, and no layer for any other kind.
unfoldable pub stored_layers : EventKind → Option Layer
stored_layers session_created = some fact
stored_layers compaction_ended = some fact
stored_layers segment_closed = some fact
stored_layers message_committed = some fact
stored_layers notice_committed = some fact
stored_layers reply_ended = some fact
stored_layers reply_cut_off = some fact
stored_layers reply_part_kept = some fact
stored_layers tool_result_committed = some fact
stored_layers tool_started = some fact
stored_layers metadata_changed = some fact
stored_layers tool_loaded = some fact
stored_layers tool_unloaded = some fact
stored_layers run_started = some fact
stored_layers run_ended = some fact
stored_layers message_queued = some fact
stored_layers message_dropped = some fact
stored_layers notice_queued = some fact
stored_layers session_claimed = some fact
stored_layers session_released = some fact
stored_layers turn_started = some log
stored_layers turn_ended = some log
stored_layers context_built = some log
stored_layers reply_started = some log
stored_layers model_retried = some log
stored_layers tool_ended = some log
stored_layers tool_result_spilled = some log
stored_layers message_rejected = some log
stored_layers abort_requested = some log
stored_layers compaction_started = some log
stored_layers compaction_failed = some log
stored_layers extension_failed = some log
stored_layers _ = none

pub record Entry : Type 0 where
  pub seq : ℕ  -- uint64
  pub kind : EventKind
  pub layer : Layer
  pub at : ℕ  -- an instant
  pub instance_id : Bytes
  pub payload : Bytes

unfoldable pub checkpoint_kind : EventKind → Bool
checkpoint_kind session_created = true
checkpoint_kind compaction_ended = true
checkpoint_kind _ = false

unfoldable pub is_checkpoint : Entry → Bool
unfolding checkpoint_kind
is_checkpoint e = checkpoint_kind e.kind

abbrev pub is_fact : Layer → Bool
is_fact fact = true
is_fact _ = false

abbrev pub is_segment_closed : EventKind → Bool
is_segment_closed segment_closed = true
is_segment_closed _ = false

pub record Info : Type 0 where
  pub id : Bytes
  pub parent_id : Bytes
  pub created_at : ℕ
  pub updated_at : ℕ
  pub messages : ℕ
  pub runs : ℕ
  pub usage : Usage
  pub metadata : List (Bytes × Bytes)

pub record Header : Type 0 where
  pub epoch : Bytes
  pub info : Info

pub record Loaded : Type 0 where
  pub entries : List Entry
  pub segments : List Entry
  pub seq : ℕ
  pub header : Header
