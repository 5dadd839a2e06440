-- ===== src/Record/Cut.antt =====
-- record/compact_cut.go: where a compaction cuts a stretch of Messages. `encoded` is the length of a
-- Message as JSON for a provider, which Go's encoder gives. A budget and a floor below 0 are not
-- modelled: a budget below 0 lets in no Message, as 0 does, since each counts for a token or more.
pub mod Turn
pub mod Budget
pub mod Last
mod Tests
use gotato.Base.{
  ℕ, zero, suc, ◌+◌, ◌/◌, Bool, true, false, not, ◌==◌, ltb, leb, if◌then◌else◌, none, some, List,
  [], ◌∷◌, length, drop, get_elem?, Option, Bytes, ◌===◌, bytes_eq, ◌-◌,
}
use gotato.Session.Types.{Message}
use gotato.Record.Repair.{is_assistant, is_tool_result, is_nil}

-- The loop of turnCut from an index on, over the Messages from there.
unfoldable pub turn_from : ℕ → List Message → ℕ
turn_from i [] = i
turn_from i (m ∷ ms) = if not (is_tool_result m.role) then i else turn_from (suc i) ms

-- A want of 0 or less is 0 here. Past the end no Turn starts.
unfoldable pub turn_cut : List Message → ℕ → ℕ
unfolding turn_from
turn_cut messages want =
    if want == 0
    then 0
    else if ltb (length messages) want
    then length messages
    else turn_from want (drop want messages)

-- The loop of lastTurnStart over the Messages of the Run, from the last one on. The first argument
-- is the index after the one that is looked at.
unfoldable pub run_from : ℕ → Bytes → List Message → Option ℕ → Option ℕ
run_from zero run messages first = first
run_from (suc i) run messages first = elim (get_elem? messages i) [
  | none ↦ first
  | some m ↦
      if not (m.run_id === run)
      then run_from i run messages first
      else if is_assistant m.role
      then some i
      else run_from i run messages (some i)
]

-- The loop back over the Tool results.
unfoldable pub back_from : ℕ → List Message → ℕ
back_from zero messages = zero
back_from (suc i) messages = elim (get_elem? messages (suc i)) [
  | none ↦ suc i
  | some m ↦ if is_tool_result m.role then back_from i messages else suc i
]

unfoldable pub last_turn_start : List Message → Bytes → ℕ
unfolding run_from back_from
last_turn_start messages run =
    elim (if is_nil run then none else run_from (length messages) run messages none) [
      | some i ↦ i
      | none ↦ back_from (length messages - 1) messages
    ]

module _ (encoded : Message → ℕ) where
  -- EstimateTokens of one Message.
  unfoldable pub estimate_tokens : Message → ℕ
  estimate_tokens m = (encoded m + 3) / 4

  -- The loop of withinBudget: the first argument is the index after the one that is looked at.
  unfoldable pub budget_from : ℕ → ℕ → ℕ → ℕ → List Message → ℕ → ℕ
  unfolding estimate_tokens
  budget_from zero budget floor total messages start = start
  budget_from (suc i) budget floor total messages start =
      if ltb i floor then start else elim (get_elem? messages i) [
        | none ↦ start
        | some m ↦
            if ltb budget (total + estimate_tokens m)
            then start
            else budget_from i budget floor (total + estimate_tokens m) messages i
      ]

  unfoldable pub within_budget : List Message → ℕ → ℕ → ℕ
  unfolding budget_from
  within_budget messages budget floor =
      budget_from (length messages) budget floor 0 messages (length messages)
