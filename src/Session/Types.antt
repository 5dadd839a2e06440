-- ===== src/Session/Types.antt =====
-- gotato/types.go and the MessageSource of gotato/events.go: what a Transcript holds. A Go string
-- with named values is a data type whose last constructor is any other text.
use gotato.Base.{ℕ, Bool, Option, List, Bytes}

pub data Role : Type 0 where
  user assistant tool_result notice : Role
  other_role : Bytes → Role

pub data ContentKind : Type 0 where
  text reasoning image json : ContentKind
  other_content : Bytes → ContentKind

pub record ContentPart : Type 0 where
  pub kind : ContentKind
  pub body : Bytes
  pub bytes : Bytes
  pub mime_type : Bytes
  pub signature : Bytes
  pub metadata : List (Bytes × Bytes)

pub record ToolCall : Type 0 where
  pub id : Bytes
  pub tool_id : Bytes
  pub arguments : Bytes
  pub signature : Bytes

pub data ToolResultStatus : Type 0 where
  ok_status blocked failed canceled : ToolResultStatus
  other_status : Bytes → ToolResultStatus

pub record SpilledResult : Type 0 where
  pub seq : ℕ  -- uint64
  pub size : ℕ
  pub session_id : Bytes
  pub record_epoch : Bytes

pub record ToolResult : Type 0 where
  pub call_id : Bytes
  pub status : ToolResultStatus
  pub content : List ContentPart
  pub metadata : List (Bytes × Bytes)
  pub safe_error : Bytes
  pub code : Bytes
  pub executed : Bool
  pub spilled : Option SpilledResult
  pub loaded_tools : List Bytes

pub record Usage : Type 0 where
  pub input_tokens : ℕ
  pub output_tokens : ℕ
  pub total_tokens : ℕ
  pub cache_read_tokens : ℕ
  pub cache_write_tokens : ℕ

pub data StopReason : Type 0 where
  end_turn tool_calls_stop max_tokens canceled_stop error_stop cut_off : StopReason
  -- Any other text, the empty one included.
  other_stop : Bytes → StopReason

pub data NoticeSource : Type 0 where
  from_gotato from_service : NoticeSource
  other_source : Bytes → NoticeSource

pub record NoticeInfo : Type 0 where
  pub kind : Bytes
  pub source : NoticeSource
  pub caused_by : ℕ  -- uint64

pub record Message : Type 0 where
  pub id : Bytes
  pub run_id : Bytes
  pub role : Role
  pub parts : List ContentPart
  pub tool_calls : List ToolCall
  pub result : Option ToolResult
  pub usage : Usage
  pub stop_reason : StopReason
  pub model : Bytes
  pub info : Option NoticeInfo

pub data MessageSource : Type 0 where
  prompt_source steer_source follow_up_source interrupt_source notice_source : MessageSource
  unknown_source : Bytes → MessageSource

pub data RunStatus : Type 0 where
  running_status completed canceled_status deadline_exceeded failed_status : RunStatus
  other_run_status : Bytes → RunStatus
