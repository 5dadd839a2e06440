-- ===== src/Record/Repair.antt =====
-- repair of record/record_log.go: the results that a load adds, in memory, for the Tool calls that a
-- Run left without one. The loop's index is the number of Messages that it still has to pass over,
-- and `out` is none as long as the loop has copied nothing.
pub mod Answered
pub mod Complete
pub mod Expected
mod Tests
use gotato.Base.{
  ℕ, zero, suc, Bool, true, false, not, ◌||◌, ◌&&◌, is_some, if◌then◌else◌, Option, none, some,
  List, [], ◌∷◌, ◌++◌, map, Bytes, bytes_eq, ◌===◌, length, codes,
}
use gotato.Session.Types.{
  Role, assistant, tool_result, ContentPart, text, ToolCall, ToolResult, ToolResultStatus, failed,
  Message, Usage, other_stop,
}

-- A map[ToolCallID]bool, read as false where it has no entry.
abbrev pub Marks : Type 0
Marks = Bytes → Bool

unfoldable pub mem : List Bytes → Marks
mem [] k = false
mem (id ∷ ids) k = id === k || mem ids k

abbrev pub is_assistant : Role → Bool
is_assistant assistant = true
is_assistant _ = false

abbrev pub is_tool_result : Role → Bool
is_tool_result tool_result = true
is_tool_result _ = false

abbrev pub is_nil {ℓ} : {A : Type ℓ} → List A → Bool
is_nil [] = true
is_nil (x ∷ xs) = false

abbrev stopped_tool_result : Bytes
stopped_tool_result =
    codes
      "The instance running this tool stopped before the tool finished. Whether the tool took effect is unknown."

abbrev not_run_tool_result : Bytes
not_run_tool_result = codes "This tool call was not run: the instance stopped before it started."

abbrev pub no_usage : Usage
no_usage = record {
  input_tokens = 0;
  output_tokens = 0;
  total_tokens = 0;
  cache_read_tokens = 0;
  cache_write_tokens = 0;
}

abbrev pub text_part : Bytes → ContentPart
text_part t = record {
  kind = text;
  body = t;
  bytes = [];
  mime_type = [];
  signature = [];
  metadata = [];
}

unfoldable pub repair_result_with : ToolCall → Bool → Bytes → Message
repair_result_with call started t = record {
  id = codes "repair-" ++ call.id;
  run_id = [];
  role = tool_result;
  parts = text_part t ∷ [];
  tool_calls = [];
  result = some (record {
    call_id = call.id;
    status = failed;
    content = text_part t ∷ [];
    metadata = [];
    safe_error = t;
    code = [];
    executed = started;
    spilled = none;
    loaded_tools = [];
  });
  usage = no_usage;
  stop_reason = other_stop [];
  model = [];
  info = none;
}

unfoldable pub repair_result : ToolCall → Bool → Message
unfolding repair_result_with
repair_result call started =
    repair_result_with call started (if started then stopped_tool_result else not_run_tool_result)

-- The calls with no result among `answered`.
unfoldable pub unanswered : List ToolCall → Marks → List ToolCall
unanswered [] answered = []
unanswered (call ∷ calls) answered =
    let rest = unanswered calls answered in if answered call.id then rest else call ∷ rest

-- The Tool results that come next, up to the first Message of another Role.
unfoldable pub results : List Message → List Message
results [] = []
results (m ∷ ms) = let rest = results ms in if is_tool_result m.role then m ∷ rest else []

unfoldable pub result_ids : List Message → List Bytes
result_ids [] = []
result_ids (m ∷ ms) = elim m.result [ none ↦ result_ids ms | some r ↦ r.call_id ∷ result_ids ms ]

-- The calls of a Message that the results after it leave open.
unfoldable pub missing : Message → List Message → List ToolCall
unfolding unanswered results result_ids mem
missing m ms = unanswered m.tool_calls (mem (result_ids (results ms)))

unfoldable pub repairs : Marks → List ToolCall → List Message
unfolding repair_result
repairs started calls = map (λ call. repair_result call (started call.id)) calls

-- append on a slice that may be nil.
abbrev pub push : Option (List Message) → Message → Option (List Message)
push none m = none
push (some out) m = some (out ++ m ∷ [])

abbrev pub or_else : Option (List Message) → List Message → List Message
or_else none ms = ms
or_else (some out) ms = out

-- The loop, with the Messages before this one, and how many of the next are in `out` already.
unfoldable pub repair_from :
    Marks → List Message → ℕ → List Message → Option (List Message) → Option (List Message)
unfolding missing repairs
repair_from started seen k [] out = out
repair_from started seen (suc k) (m ∷ ms) out = repair_from started (seen ++ m ∷ []) k ms out
repair_from started seen zero (m ∷ ms) out =
    let calls = missing m ms in
    let passed = not (is_assistant m.role) || is_nil m.tool_calls in
    let untouched = is_nil calls && not (is_some out) in
    repair_from started (seen ++ m ∷ []) (if passed || untouched then zero else length (results ms))
      ms
      (if passed
        then push out m
        else if untouched
        then out
        else some (or_else out seen ++ (m ∷ (results ms ++ repairs started calls))))

unfoldable pub repair : Marks → List Message → List Message
unfolding repair_from
repair started ms = or_else (repair_from started [] zero ms none) ms
