-- ===== src/Session/History.antt =====
-- gotato/history.go with the limits of gotato/limits.go, and the closing of a Tool batch of
-- gotato/toolbatch.go. The Transcript is the one in memory; what a host's own Transcript may do
-- besides, a panic or an error, is an argument of each call. `encode` is the length of a Message in
-- JSON, none where it cannot be encoded, and `decimal` a number in decimal digits.
pub mod Size
pub mod Bounds
pub mod Results
pub mod Answers
pub mod Closing
pub mod Told
mod Tests
use gotato.Base.{
  u64, ℕ, ◌+◌, ◌-◌, ◌%◌, Bool, true, false, ◌&&◌, ◌==◌, ltb, if◌then◌else◌, Option, none, some,
  List, [], ◌∷◌, ◌++◌, length, drop, lookup, nat_eq, Bytes, codes, or_default,
}
use gotato.Session.Types.{
  Message, ToolCall, ToolResult, ToolResultStatus, failed, canceled, RunStatus, canceled_status,
  deadline_exceeded, ContentPart, tool_result, other_stop,
}
use gotato.Record.Repair.{text_part, no_usage}

pub record CoreLimits : Type 0 where
  pub max_messages : ℕ  -- uint32
  pub max_message_bytes : ℕ  -- uint64
  pub max_transcript_bytes : ℕ  -- uint64
  pub max_steer_messages : ℕ
  pub max_follow_up_messages : ℕ
  pub max_notices : ℕ
  pub max_truncated_continuations : ℕ
  pub max_parallel_tools : ℕ
  -- In nanoseconds. A negative one, which is no deadline, has no place here.
  pub model_call_deadline : ℕ
  pub tool_call_deadline : ℕ
  pub spill_preview_bytes : ℕ

abbrev pub default_limits : CoreLimits
default_limits = record {
  max_messages = 10000;
  max_message_bytes = 4194304;
  max_transcript_bytes = 33554432;
  max_steer_messages = 8;
  max_follow_up_messages = 4;
  max_notices = 16;
  max_truncated_continuations = 0;
  max_parallel_tools = 1;
  model_call_deadline = 120000000000;
  tool_call_deadline = 120000000000;
  spill_preview_bytes = 8000;
}

abbrev or_def : ℕ → ℕ → ℕ
or_def v d = if v == 0 then d else v

unfoldable with_defaults : CoreLimits → CoreLimits
with_defaults l =
    let d = default_limits in
    record {
      max_messages = or_def l.max_messages d.max_messages;
      max_message_bytes = or_def l.max_message_bytes d.max_message_bytes;
      max_transcript_bytes = or_def l.max_transcript_bytes d.max_transcript_bytes;
      max_steer_messages = or_def l.max_steer_messages d.max_steer_messages;
      max_follow_up_messages = or_def l.max_follow_up_messages d.max_follow_up_messages;
      max_notices = or_def l.max_notices d.max_notices;
      max_truncated_continuations = l.max_truncated_continuations;
      max_parallel_tools = or_def l.max_parallel_tools d.max_parallel_tools;
      model_call_deadline = or_def l.model_call_deadline d.model_call_deadline;
      tool_call_deadline = or_def l.tool_call_deadline d.tool_call_deadline;
      spill_preview_bytes = or_def l.spill_preview_bytes d.spill_preview_bytes;
    }

abbrev limit_exceeded : ℕ → ℕ → Bool
limit_exceeded limit value = ltb limit value

abbrev pub u32 : ℕ → ℕ
u32 n = n % 4294967296

pub data CommitError : Type 0 where
  cannot_encode transcript_failed : CommitError
  messages_exceeded message_bytes_exceeded transcript_bytes_exceeded : CommitError
  cannot_append : CommitError

abbrev pub is_message_too_large : Option CommitError → Bool
is_message_too_large (some message_bytes_exceeded) = true
is_message_too_large _ = false

-- What the calls of the Transcript do in one commit: Len panics, Append fails.
pub record TranscriptCalls : Type 0 where
  pub len_fails : Bool
  pub append_fails : Bool

pub record SessionHistory : Type 0 where
  pub messages : List Message
  pub size : ℕ  -- uint64

-- The Message with the id that nextID makes, if it has none.
abbrev pub with_id : Bytes → Message → Message
with_id fresh m = if length m.id == 0 then record m { id = fresh } else m

-- The size after one more Message of these bytes.
abbrev pub candidate : SessionHistory → ℕ → ℕ
candidate h bytes =
    if ltb 0 (length h.messages) then u64 (u64 (h.size + bytes) + 1) else u64 (h.size + bytes)

module _ (encode : Message → Option ℕ) where
  -- commit after the encoding of the Message.
  unfoldable pub commit_encoded :
      CoreLimits
      → TranscriptCalls
      → Bool
      → Message
      → ℕ
      → SessionHistory
      → SessionHistory × Option CommitError
  commit_encoded limits calls enforce m bytes h =
      if calls.len_fails
      then (h, some transcript_failed)
      else if enforce && limit_exceeded limits.max_messages (u32 (length h.messages + 1))
      then (h, some messages_exceeded)
      else if enforce && limit_exceeded limits.max_message_bytes bytes
      then (h, some message_bytes_exceeded)
      else if enforce && limit_exceeded limits.max_transcript_bytes (u64 (candidate h bytes + 2))
      then (h, some transcript_bytes_exceeded)
      else if calls.append_fails
      then (h, some cannot_append)
      else (record { messages = h.messages ++ m ∷ []; size = candidate h bytes }, none)

  unfoldable pub commit :
      CoreLimits
      → TranscriptCalls
      → Bytes
      → Bool
      → Message
      → SessionHistory
      → SessionHistory × Option CommitError
  unfolding commit_encoded
  commit limits calls fresh enforce m h = elim (encode (with_id fresh m)) [
    | none ↦ (h, some cannot_encode)
    | some bytes ↦ commit_encoded limits calls enforce (with_id fresh m) bytes h
  ]

  -- The bytes of Messages in a JSON array, with the commas between them.
  unfoldable pub elements : List Message → Option ℕ
  elements [] = some 0
  elements (m ∷ []) = encode m
  elements (m ∷ n ∷ ms) = elim (encode m) [
    | none ↦ none
    | some b ↦ elim (elements (n ∷ ms)) [ none ↦ none | some r ↦ some (b + 1 + r) ]
  ]

  unfoldable pub measure : Bool → SessionHistory → SessionHistory × Option CommitError
  unfolding elements
  measure fails h =
      if fails
      then (h, some transcript_failed)
      else if length h.messages == 0
      then (record h { size = 0 }, none)
      else elim (elements h.messages) [
        | none ↦ (h, some cannot_encode)
        | some n ↦ (record h { size = u64 (n + 2) - 2 }, none)
      ]

  unfoldable pub control_size_error : CoreLimits → Bytes → Message → Option CommitError
  control_size_error limits run m =
      if limits.max_message_bytes == 0 then none else elim (encode (record m { run_id = run })) [
        | none ↦ some cannot_encode
        | some bytes ↦
            if limit_exceeded limits.max_message_bytes bytes
            then some message_bytes_exceeded
            else none
      ]
