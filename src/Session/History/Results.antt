-- ===== src/Session/History/Results.antt =====
-- The results of Tool calls in a Transcript: commitToolResult of gotato/history.go, and closeOpenCalls
-- of gotato/toolbatch.go with the commits of a batch's results.
use gotato.Base.{
  ℕ, suc, Bool, true, false, ltb, Option, none, some, List, [], ◌∷◌, ◌++◌, length, drop, lookup,
  nat_eq, Bytes, codes, or_default,
}
use gotato.Session.Types.{
  Message, ToolCall, ToolResult, ToolResultStatus, failed, canceled, RunStatus, canceled_status,
  deadline_exceeded, tool_result, other_stop,
}
use gotato.Record.Repair.{text_part, no_usage}
use gotato.Session.History.{
  CoreLimits, CommitError, TranscriptCalls, SessionHistory, commit, is_message_too_large,
}

pub record OpenBatch : Type 0 where
  pub turn : ℕ
  pub calls : List ToolCall
  pub next : ℕ
  pub outcomes : List (ℕ × ToolResult)

abbrev closed_batch : OpenBatch
closed_batch = record { turn = 0; calls = []; next = 0; outcomes = [] }

-- The Message of a Tool Result.
unfoldable pub result_message : Bytes → Bytes → ToolResult → Message
result_message id run r = record {
  id = id;
  run_id = run;
  role = tool_result;
  parts = r.content;
  tool_calls = [];
  result = some r;
  usage = no_usage;
  stop_reason = other_stop [];
  model = [];
  info = none;
}

abbrev pub failed_result : Bytes → ToolResultStatus → Bytes → Bool → ToolResult
failed_result call status t executed = record {
  call_id = call;
  status = status;
  content = text_part t ∷ [];
  metadata = [];
  safe_error = t;
  code = [];
  executed = executed;
  spilled = none;
  loaded_tools = [];
}

abbrev closing_status : RunStatus → ToolResultStatus
closing_status canceled_status = canceled
closing_status deadline_exceeded = canceled
closing_status _ = failed

abbrev known_executed : Option ToolResult → Bool
known_executed none = false
known_executed (some r) = r.executed

unfoldable pub closing_result : Bytes → RunStatus → ℕ → OpenBatch → ToolCall → ToolResult
closing_result cause status i b call =
    failed_result call.id (closing_status status)
      (cause ++ codes ": the Run ended before this call's result was committed")
      (known_executed (lookup i b.outcomes))

module _ (encode : Message → Option ℕ) (decimal : ℕ → Bytes) where
  unfoldable pub oversized_result : ToolResult → ℕ → ℕ → ToolResult
  oversized_result r size limit =
      failed_result r.call_id failed
        (codes "tool result too large: "
          ++ decimal size
          ++ codes " bytes, limit "
          ++ decimal limit
          ++ codes " bytes; the Tool ran, its output was not kept")
        r.executed

  -- `first` and `again` are the Transcript's calls in the two commits, `fresh` and `renewed` the ids that
  -- nextID makes in them.
  unfoldable pub commit_tool_result :
      CoreLimits
      → TranscriptCalls
      → TranscriptCalls
      → Bytes
      → Bytes
      → Message
      → ToolResult
      → SessionHistory
      → SessionHistory × (Message × ToolResult × Option CommitError)
  unfolding oversized_result
  commit_tool_result limits first again fresh renewed message r h =
      let (g, e) = commit encode limits first fresh true message h in
      elim (is_message_too_large e) [
        | true ↦
            let s = oversized_result r (or_default 0 (encode message)) limits.max_message_bytes in
            let replaced : Message = record message { parts = s.content; result = some s } in
            let (k, f) = commit encode limits again renewed true replaced g in (k, (replaced, s, f))
        | false ↦ (g, (message, r, e))
      ]

  -- The loop of closeOpenCalls from call i on, with the Events of the results that it committed.
  unfoldable pub close_calls :
      CoreLimits
      → (ℕ → TranscriptCalls)
      → (ℕ → Bytes)
      → Bytes
      → Bytes
      → RunStatus
      → OpenBatch
      → ℕ
      → List ToolCall
      → SessionHistory
      → SessionHistory × List Message
  unfolding closing_result result_message
  close_calls limits transcript ids run cause status b i [] h = (h, [])
  close_calls limits transcript ids run cause status b i (call ∷ calls) h =
      let m = result_message (ids i) run (closing_result cause status i b call) in
      let (g, e) = commit encode limits (transcript i) (ids i) false m h in
      let (k, staged) = close_calls limits transcript ids run cause status b (suc i) calls g in
      elim e [ some x ↦ (g, []) | none ↦ (k, m ∷ staged) ]

  unfoldable pub close_open_calls :
      CoreLimits
      → (ℕ → TranscriptCalls)
      → (ℕ → Bytes)
      → Bytes
      → Bytes
      → RunStatus
      → OpenBatch
      → SessionHistory
      → SessionHistory × (OpenBatch × List Message)
  unfolding close_calls
  close_open_calls limits transcript ids run cause status b h = elim (ltb b.next (length b.calls)) [
    | true ↦
        let (g, staged) =
          close_calls limits transcript ids run cause status b b.next (drop b.next b.calls) h in
        (g, (closed_batch, staged))
    | false ↦ (h, (closed_batch, []))
  ]
