-- ===== src/Session/History/Tests.antt =====
-- The theorems about the history of a Session at a Run with two Tool calls.
use gotato.Base.{
  ℕ, ◌+◌, ap, true, false, Option, none, some, List, [], ◌∷◌, map, drop, length, Bytes, codes, ◌≡◌,
  refl, arith,
}
use gotato.Session.Types.{
  Message, ToolCall, ToolResult, user, assistant, ok_status, failed_status, tool_calls_stop,
  other_stop,
}
use gotato.Record.Repair.{text_part, no_usage, result_ids}
use gotato.Record.Repair.Complete.{all_answered, call_id}
use gotato.Session.History.{
  CoreLimits, default_limits, TranscriptCalls, SessionHistory, commit, measure,
}
use gotato.Session.History.Size.{Commit, IsSized, AllFitIn, commits, commits_measured, no_history}
use gotato.Session.History.Bounds.{Within, history-Within}
use gotato.Session.History.Results.{
  OpenBatch, result_message, failed_result, closing_result, commit_tool_result, close_open_calls,
}
use gotato.Session.History.Closing.{IsOpen, close_open_calls_lem, closing_messages}
use gotato.Session.History.Told.{Told, commit_tool_result_lem}

-- A length that counts the parts of a Message.
abbrev weigh : Message → Option ℕ
weigh m = some (10 + length m.parts)

abbrev no_digits : ℕ → Bytes
no_digits n = []

abbrev working : TranscriptCalls
working = record { len_fails = false; append_fails = false }

abbrev the_call : Bytes → ToolCall
the_call id = record { id = id; tool_id = codes "t"; arguments = []; signature = [] }

abbrev asking : Message
asking = record {
  id = codes "m1";
  run_id = codes "r";
  role = assistant;
  parts = [];
  tool_calls = the_call (codes "a") ∷ the_call (codes "b") ∷ [];
  result = none;
  usage = no_usage;
  stop_reason = tool_calls_stop;
  model = [];
  info = none;
}

abbrev first_result : ToolResult
first_result = record (failed_result (codes "a") ok_status (codes "done") true) { safe_error = [] }

abbrev first_answer : Message
first_answer = record asking {
  id = codes "m2";
  role = gotato.Session.Types.tool_result;
  parts = text_part (codes "done") ∷ [];
  tool_calls = [];
  result = some first_result;
}

abbrev asks : Commit
asks = record { calls = working; fresh = codes "f"; enforce = true; message = asking }

abbrev answer : Commit
answer = record asks { message = first_answer }

abbrev both : List Commit
both = asks ∷ answer ∷ []

abbrev some_open : OpenBatch
some_open = record {
  turn = 1;
  calls = the_call (codes "a") ∷ the_call (codes "b") ∷ [];
  next = 1;
  outcomes = [];
}

abbrev value : Option ℕ → ℕ
value none = 0
value (some n) = n

both_fit : AllFitIn weigh default_limits both no_history
unfolding commit
both_fit = ((λ b e. omega (arith, ap value e)), ((λ b e. omega (arith, ap value e)), tt))

commits_measured_example :
    measure weigh false (commits weigh default_limits both no_history)
    ≡ (commits weigh default_limits both no_history, none)
commits_measured_example = commits_measured weigh default_limits both both_fit

history-Within_example :
    Within weigh default_limits (commits weigh default_limits both no_history)
    × IsSized weigh (commits weigh default_limits both no_history)
history-Within_example =
    history-Within weigh default_limits both (omega arith) (refl, (refl, tt)) both_fit

abbrev answered_once : SessionHistory
answered_once = record { messages = asking ∷ first_answer ∷ []; size = 22 }

still-IsOpen : IsOpen some_open answered_once.messages
unfolding all_answered result_ids
still-IsOpen = record {
  before = [];
  reply = asking;
  done = first_answer ∷ [];
  whole = refl;
  earlier = refl;
  asked = refl;
  batch = refl;
  are_results = (refl, tt);
  so_far = refl;
}

close_open_calls_lem_example :
    (all_answered
        (close_open_calls weigh no_digits default_limits
          (λ i. working)
          (λ i. codes "m3")
          (codes "r")
          (codes "canceled")
          failed_status
          some_open
          answered_once).0.messages
      ≡ true)
    × (result_ids
          (close_open_calls weigh no_digits default_limits
            (λ i. working)
            (λ i. codes "m3")
            (codes "r")
            (codes "canceled")
            failed_status
            some_open
            answered_once).1.1
        ≡ map call_id (drop 1 some_open.calls))
unfolding closing_messages result_message closing_result
close_open_calls_lem_example =
    close_open_calls_lem weigh no_digits default_limits (λ i. working) (λ i. codes "m3") (codes "r")
      (codes "canceled") failed_status some_open answered_once still-IsOpen
      (record { len_works = λ i. refl; append_works = λ i. refl; encoded = ((11, refl), tt) })

-- A result of two parts, under a limit that leaves room for one.
abbrev long_result : ToolResult
long_result = record first_result { content = text_part [] ∷ text_part [] ∷ [] }

abbrev long_answer : Message
long_answer = record first_answer { parts = long_result.content; result = some long_result }

abbrev tight : CoreLimits
tight = record default_limits { max_message_bytes = 11 }

commit_tool_result_lem_example :
    Told weigh no_digits tight [] long_answer long_result answered_once
      (commit_tool_result weigh no_digits tight working working [] [] long_answer long_result
        answered_once).0
      (commit_tool_result weigh no_digits tight working working [] [] long_answer long_result
        answered_once).1
commit_tool_result_lem_example =
    commit_tool_result_lem weigh no_digits tight working working [] [] long_answer long_result
      answered_once refl
