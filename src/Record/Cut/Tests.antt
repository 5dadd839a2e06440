-- ===== src/Record/Cut/Tests.antt =====
-- The cuts of record/compact_cut.go at a call with two results between two Messages.
use gotato.Base.{
  ℕ, ◌≤◌, min, true, none, List, [], ◌∷◌, length, take, drop, bytes_beq, codes, ◌≡◌, refl,
}
use gotato.Session.Types.{Message, Role, user, assistant, ToolCall, end_turn}
use gotato.Record.Repair.{repair_result, no_usage, text_part, missing}
use gotato.Record.Repair.Complete.{all_answered}
use gotato.Record.Cut.{turn_cut, within_budget}
use gotato.Record.Cut.Turn.{turn_cut_answered}
use gotato.Record.Cut.Budget.{Longest, within_budget-Longest}

abbrev call : List ℕ → ToolCall
call id = record { id = id; tool_id = codes "read"; arguments = []; signature = [] }

abbrev plain : Role → List ToolCall → Message
plain role calls = record {
  id = [];
  run_id = [];
  role = role;
  parts = text_part (codes "text") ∷ [];
  tool_calls = calls;
  result = none;
  usage = no_usage;
  stop_reason = end_turn;
  model = [];
  info = none;
}

abbrev stretch : List Message
stretch =
    plain user []
    ∷ plain assistant (call (codes "a") ∷ call (codes "b") ∷ [])
    ∷ repair_result (call (codes "a")) true
    ∷ repair_result (call (codes "b")) true
    ∷ plain user []
    ∷ []

-- A cut wanted between the results moves behind them.
turn_cut_answered_example :
    (min 3 (length stretch) ≤ turn_cut stretch 3)
    × (turn_cut stretch 3 ≤ length stretch)
    × (all_answered (take (turn_cut stretch 3) stretch) ≡ true)
    × (all_answered (drop (turn_cut stretch 3) stretch) ≡ true)
unfolding all_answered repair_result missing bytes_beq
turn_cut_answered_example = turn_cut_answered stretch 3 refl

moved : turn_cut stretch 3 ≡ 4
unfolding turn_cut repair_result
moved = refl

-- Each Message counts for 5 tokens here.
within_budget-Longest_example :
    Longest (λ m. 20) 12 1 stretch (within_budget (λ m. 20) stretch 12 1)
within_budget-Longest_example = within_budget-Longest (λ m. 20) 12 1 stretch

two_fit : within_budget (λ m. 20) stretch 12 1 ≡ 3
unfolding within_budget
two_fit = refl
