-- ===== src/Session/ToolBatch.antt =====
-- gotato/toolbatch.go: how a batch of Tool calls is split into groups, and how one group is run. The
-- Session's goroutine receives what the workers report; runTool, which calls the Tools, is outside.
pub mod Groups
pub mod Account
pub mod Collect
pub mod Progress
mod Tests
use gotato.Base.{
  u64, ℕ, ◌+◌, Bool, true, false, not, ◌&&◌, ◌||◌, ◌==◌, ltb, leb, if◌then◌else◌, Option, none,
  some, List, [], ◌∷◌, ◌++◌, length, lookup, insert, nat_eq, is_some, Bytes, bytes_eq, ◌===◌,
}
use gotato.Session.Types.{ToolResult, canceled}

pub record ToolPlan : Type 0 where
  pub sequential : Bool
  pub blocked : Bool

-- Zero and one are both sequential.
unfoldable pub parallel_workers : ℕ → ℕ
parallel_workers max_parallel_tools = if leb max_parallel_tools 1 then 1 else max_parallel_tools

-- The variables of groupPlans.
pub record Grouping : Type 0 where
  pub groups : List (List ℕ)
  pub current : List ℕ

unfoldable pub flush : Grouping → Grouping
flush g =
    if ltb 0 (length g.current)
    then record { groups = g.groups ++ g.current ∷ []; current = [] }
    else g

unfoldable pub add_plan : ℕ → ℕ → ToolPlan → Grouping → Grouping
unfolding flush
add_plan workers i p g =
    let alone = flush g in
    let joined = record g { current = g.current ++ i ∷ [] } in
    if p.blocked
    then g
    else if p.sequential || workers == 1
    then record alone { groups = alone.groups ++ (i ∷ []) ∷ [] }
    else if length joined.current == workers
    then flush joined
    else joined

unfoldable pub group_loop : ℕ → ℕ → List ToolPlan → Grouping → Grouping
unfolding add_plan
group_loop workers i [] g = g
group_loop workers i (p ∷ ps) g = group_loop workers (i + 1) ps (add_plan workers i p g)

unfoldable pub group_plans : ℕ → List ToolPlan → List (List ℕ)
unfolding group_loop flush
group_plans workers plans =
    (flush (group_loop workers 0 plans (record { groups = []; current = [] }))).groups

-- What a worker reports: a text of its progress, or its result.
pub data ToolSignal : Type 0 where
  update : ℕ → Bytes → ToolSignal
  finished : ℕ → ToolResult → ToolSignal

-- `ended` are the calls whose ToolEnded was staged, `progress` what was sent to subscribers.
pub record ToolGroupRun : Type 0 where
  pub group : List ℕ
  pub outcomes : List (ℕ × ToolResult)
  pub ended : List ℕ
  pub progress : List (ℕ × Bytes)

unfoldable pub settle_call : ℕ → ToolResult → ToolGroupRun → ToolGroupRun
settle_call index result g = record g {
  outcomes = insert index result g.outcomes;
  ended = g.ended ++ index ∷ [];
}

-- `ctx` is the text of the error of the Run's context, if it has ended.
unfoldable pub canceled_outcome : Option Bytes → ToolResult → ToolResult
canceled_outcome none result = result
canceled_outcome (some text) result = record result {
  status = canceled;
  safe_error = if result.safe_error === [] then text else result.safe_error;
}

unfoldable pub handle : Option Bytes → ToolSignal → ToolGroupRun → ToolGroupRun
unfolding settle_call canceled_outcome
handle ctx (update index text) g = record g { progress = g.progress ++ (index, text) ∷ [] }
handle ctx (finished index result) g = settle_call index (canceled_outcome ctx result) g

-- What waits in the channel when the Run is canceled.
unfoldable pub drain_signals : Bytes → List ToolSignal → ToolGroupRun → ToolGroupRun
unfolding settle_call canceled_outcome
drain_signals text [] g = g
drain_signals text (update index t ∷ signals) g = drain_signals text signals g
drain_signals text (finished index result ∷ signals) g =
    drain_signals text signals (settle_call index (canceled_outcome (some text) result) g)

module _ (call_ids : ℕ → Bytes) where
  abbrev pub unknown_outcome : Bytes → Bool → ℕ → ToolResult
  unknown_outcome text started index = record {
    call_id = call_ids index;
    status = canceled;
    content = [];
    metadata = [];
    safe_error = text;
    code = [];
    executed = started;
    spilled = none;
    loaded_tools = [];
  }

  unfoldable pub cancel_over : Bytes → Bool → List ℕ → ToolGroupRun → ToolGroupRun
  unfolding settle_call
  cancel_over text started [] g = g
  cancel_over text started (index ∷ rest) g =
      let g' =
        if is_some (lookup index g.outcomes)
        then g
        else settle_call index (unknown_outcome text started index) g in
      cancel_over text started rest g'

  unfoldable pub cancel_rest : Bytes → Bool → ToolGroupRun → ToolGroupRun
  unfolding cancel_over
  cancel_rest text started g = cancel_over text started g.group g

  -- The signals that the loop receives, each with the error of the context at that time, and then the
  -- cancellation with what waits in the channel, if one comes. It is none where the loop waits for more.
  unfoldable pub collect :
      List (Option Bytes × ToolSignal)
      → Option (Bytes × List ToolSignal)
      → ToolGroupRun
      → Option ToolGroupRun
  unfolding handle drain_signals cancel_rest
  collect [] c g = if not (ltb (length g.outcomes) (length g.group)) then some g else elim c [
    | none ↦ none
    | some (text, waiting) ↦ some (cancel_rest text true (drain_signals text waiting g))
  ]
  collect ((ctx, signal) ∷ signals) c g =
      let rest = collect signals c (handle ctx signal g) in
      if not (ltb (length g.outcomes) (length g.group)) then some g else rest

  -- The Run was canceled before the group, or its Tools are started.
  unfoldable pub execute_tool_group :
      Option Bytes
      → List (Option Bytes × ToolSignal)
      → Option (Bytes × List ToolSignal)
      → List ℕ
      → Option ToolGroupRun
  unfolding collect cancel_rest
  execute_tool_group ctx signals c group =
      let run : ToolGroupRun = record { group = group; outcomes = []; ended = []; progress = [] } in
      elim ctx [ some text ↦ some (cancel_rest text false run) | none ↦ collect signals c run ]

abbrev pub max_tool_progress_bytes : ℕ
max_tool_progress_bytes = 1048576

abbrev pub max_tool_progress_updates : ℕ
max_tool_progress_updates = 1000

-- The counters of newToolProgress, and what it sent.
pub record ToolProgress : Type 0 where
  pub byte_count : ℕ  -- uint64
  pub updates : ℕ  -- uint32
  pub sent : List Bytes

unfoldable pub report : Bytes → ToolProgress → ToolProgress
report text p =
    if leb max_tool_progress_updates p.updates
      || ltb max_tool_progress_bytes (u64 (p.byte_count + length text))
    then p
    else record p {
      byte_count = u64 (p.byte_count + length text);
      updates = p.updates + 1;
      sent = p.sent ++ text ∷ [];
    }

unfoldable pub reports : List Bytes → ToolProgress → ToolProgress
unfolding report
reports [] p = p
reports (text ∷ texts) p = reports texts (report text p)
