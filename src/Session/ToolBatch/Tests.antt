-- ===== src/Session/ToolBatch/Tests.antt =====
-- The theorems about a batch of six calls.
use gotato.Base.{
  ◌≤◌, length, ℕ, Bool, true, false, ◌==◌, ltb, Option, none, some, is_some, List, [], ◌∷◌, lookup,
  nat_eq, Bytes, All, ◌≡◌, inl, refl, arith,
}
use gotato.Session.Types.{ToolResult, ok_status}
use gotato.Session.ToolBatch.{
  reports, max_tool_progress_updates, max_tool_progress_bytes, ToolPlan, parallel_workers,
  group_plans, group_loop, add_plan, flush, ToolSignal, update, finished, ToolGroupRun,
  unknown_outcome, execute_tool_group,
}
use gotato.Session.ToolBatch.Groups.{open_from, joined, IsGroup, group_plans_lem}
use gotato.Session.ToolBatch.Progress.{total, reports_lem}
use gotato.Session.ToolBatch.Account.{times}
use gotato.Session.ToolBatch.Collect.{execute_tool_group_lem}

abbrev parallel : ToolPlan
parallel = record { sequential = false; blocked = false }

-- Call 1 is blocked and call 4 is sequential.
abbrev plans : List ToolPlan
plans =
    parallel
    ∷ record parallel { blocked = true }
    ∷ parallel
    ∷ parallel
    ∷ record parallel { sequential = true }
    ∷ parallel
    ∷ []

abbrev is_4 : ℕ → Bool
is_4 i = i == 4

grouped : group_plans 2 plans ≡ (0 ∷ 2 ∷ []) ∷ (3 ∷ []) ∷ (4 ∷ []) ∷ (5 ∷ []) ∷ []
unfolding group_plans group_loop add_plan flush
grouped = refl

group_plans_lem_example :
    (joined (group_plans (parallel_workers 2) plans) ≡ open_from 0 plans)
    × All (IsGroup is_4 (parallel_workers 2)) (group_plans (parallel_workers 2) plans)
group_plans_lem_example =
    group_plans_lem is_4 2 plans (refl, (refl, (refl, (refl, (refl, (refl, tt))))))

abbrev no_id : ℕ → Bytes
no_id i = []

abbrev fine : ToolResult
fine = record (unknown_outcome no_id [] true 0) { status = ok_status }

-- Call 0 reports its result, and call 2 a text alone before the Run is canceled.
abbrev signals : List (Option Bytes × ToolSignal)
signals = (none, update 0 []) ∷ (none, finished 0 fine) ∷ []

abbrev cancellation : Option (Bytes × List ToolSignal)
cancellation = some (b'c' ∷ [], update 2 [] ∷ [])

execute_tool_group_lem_example :
    (g : ToolGroupRun) × (execute_tool_group no_id none signals cancellation (0 ∷ 2 ∷ []) ≡ some g)
    × ((i : ℕ) → times i g.ended ≡ times i (0 ∷ 2 ∷ []))
    × ((i : ℕ) → is_some (lookup i g.outcomes) ≡ ltb 0 (times i (0 ∷ 2 ∷ [])))
execute_tool_group_lem_example =
    execute_tool_group_lem no_id none signals cancellation (0 ∷ 2 ∷ []) (λ i. ground arith)
      (λ i. ground arith) (inl refl)

abbrev texts : List Bytes
texts = (b'a' ∷ b'b' ∷ []) ∷ (b'c' ∷ []) ∷ []

reports_lem_example :
    (length (reports texts (record { byte_count = 0; updates = 0; sent = [] })).sent
      ≤ max_tool_progress_updates)
    × (total (reports texts (record { byte_count = 0; updates = 0; sent = [] })).sent
        ≤ max_tool_progress_bytes)
reports_lem_example = reports_lem texts (omega arith, (omega arith, tt))
