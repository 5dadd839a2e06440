-- ===== src/Record/Repair/Expected.antt =====
-- What a load of a Record (repair of record/record_log.go) is to make of its Messages, written without
-- the functions of that code.
use gotato.Base.{
  Bool, true, false, ◌&&◌, ◌||◌, if◌then◌else◌, none, some, List, [], ◌∷◌, ◌++◌, Bytes, bytes_eq,
  codes, ◌===◌, ◌≡◌, refl, ◌∙◌, arith,
}
use gotato.Session.Types.{tool_result, text, failed, ContentPart, ToolCall, Message, other_stop}
use gotato.Record.Repair.{
  Marks, is_assistant, is_tool_result, mem, results, result_ids, unanswered, missing,
  repair_result_with, repair_result, repairs, repair,
}
use gotato.Record.Repair.Answered.{answer_from, repair-answer_from}

-- What the result of a call says, by whether its Tool was started.
abbrev explanation : Bool → Bytes
explanation true =
    codes
      "The instance running this tool stopped before the tool finished. Whether the tool took effect is unknown."
explanation false = codes "This tool call was not run: the instance stopped before it started."

abbrev in_words : Bytes → ContentPart
in_words t = record {
  kind = text;
  body = t;
  bytes = [];
  mime_type = [];
  signature = [];
  metadata = [];
}

-- The failed result of a call.
unfoldable pub due_result : Bool → ToolCall → Message
due_result started call = record {
  id = codes "repair-" ++ call.id;
  run_id = [];
  role = tool_result;
  parts = in_words (explanation started) ∷ [];
  tool_calls = [];
  result = some (record {
    call_id = call.id;
    status = failed;
    content = in_words (explanation started) ∷ [];
    metadata = [];
    safe_error = explanation started;
    code = [];
    executed = started;
    spilled = none;
    loaded_tools = [];
  });
  usage = record {
    input_tokens = 0;
    output_tokens = 0;
    total_tokens = 0;
    cache_read_tokens = 0;
    cache_write_tokens = 0;
  };
  stop_reason = other_stop [];
  model = [];
  info = none;
}

abbrev answers : ToolCall → Message → Bool
answers call m = elim m.result [ none ↦ false | some r ↦ r.call_id === call.id ]

-- One of the Tool results that come next is of this call.
unfoldable pub is_answered : ToolCall → List Message → Bool
is_answered call [] = false
is_answered call (m ∷ ms) = is_tool_result m.role && (answers call m || is_answered call ms)

-- A failed result for each of the calls that the Messages which follow leave without one.
unfoldable pub due_results : Marks → List ToolCall → List Message → List Message
due_results started [] ms = []
due_results started (call ∷ calls) ms =
    let rest = due_results started calls ms in
    if is_answered call ms then rest else due_result (started call.id) call ∷ rest

-- Every Message in its place, with the results that are due behind the Tool results that come next.
unfoldable pub expected : Marks → List Message → List Message → List Message
expected started due [] = due
expected started due (m ∷ ms) =
    if is_tool_result m.role
    then m ∷ expected started due ms
    else due
      ++ m
        ∷ expected started (if is_assistant m.role then due_results started m.tool_calls ms else [])
            ms

answered-mem :
    (call : ToolCall) (ms : List Message)
    → mem (result_ids (results ms)) call.id ≡ is_answered call ms
unfolding mem result_ids results is_answered
answered-mem call [] = refl
answered-mem call (m ∷ ms) = ground (arith, answered-mem call ms)

repair_result-due :
    (started : Bool) (call : ToolCall) → repair_result call started ≡ due_result started call
unfolding repair_result repair_result_with due_result
repair_result-due true call = refl
repair_result-due false call = refl

repairs-due :
    (started : Marks) (calls : List ToolCall) (ms : List Message)
    → repairs started (unanswered calls (mem (result_ids (results ms))))
      ≡ due_results started calls ms
unfolding repairs unanswered due_results
repairs-due started [] ms = refl
repairs-due started (call ∷ calls) ms = ground (
  arith,
  answered-mem call ms,
  repair_result-due (started call.id) call,
  repairs-due started calls ms,
)

answer_from-expected :
    (started : Marks) (due ms : List Message) → answer_from started due ms ≡ expected started due ms
unfolding answer_from expected missing repairs
answer_from-expected started due [] = refl
answer_from-expected started due (m ∷ ms) = ground (
  arith,
  repairs-due started m.tool_calls ms,
  answer_from-expected started due ms,
  answer_from-expected started (due_results started m.tool_calls ms) ms,
  answer_from-expected started [] ms,
)

-- repair keeps every Message in its place, and adds, after the Tool results that follow an
-- assistant Message, one failed result for each of its calls that none of them is of, in the order
-- of the calls: with Executed by whether the Tool was started, and a text that says so. It adds
-- nothing else.
pub repair_lem : (started : Marks) (ms : List Message) → repair started ms ≡ expected started [] ms
repair_lem started ms = repair-answer_from started ms ∙ answer_from-expected started [] ms
