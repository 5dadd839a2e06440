-- ===== src/Record/Repair/Tests.antt =====
-- repair of record/record_log.go at a Transcript whose Run stopped between two Tool calls.
use gotato.Base.{true, false, none, List, [], ◌∷◌, Bytes, ◌≡◌, refl, codes, bytes_beq}
use gotato.Session.Types.{Role, assistant, user, Message, ToolCall, tool_calls_stop}
use gotato.Record.Repair.{Marks, mem, repair, repair_result, no_usage, text_part, missing}
use gotato.Record.Repair.Expected.{expected, repair_lem}
use gotato.Record.Repair.Complete.{all_answered, all_answered-repair}

abbrev call : Bytes → ToolCall
call id = record { id = id; tool_id = codes "read"; arguments = []; signature = [] }

abbrev plain : Role → Bytes → List ToolCall → Message
plain role id calls = record {
  id = id;
  run_id = codes "run";
  role = role;
  parts = text_part (codes "text") ∷ [];
  tool_calls = calls;
  result = none;
  usage = no_usage;
  stop_reason = tool_calls_stop;
  model = codes "m";
  info = none;
}

-- Call a has a result, call b has none and had started, call c had not started.
abbrev stopped : List Message
stopped =
    plain user (codes "1") []
    ∷ plain assistant (codes "2") (call (codes "a") ∷ call (codes "b") ∷ call (codes "c") ∷ [])
    ∷ repair_result (call (codes "a")) true
    ∷ plain user (codes "4") []
    ∷ []

abbrev began : Marks
began = mem (codes "a" ∷ codes "b" ∷ [])

repair_lem_example : repair began stopped ≡ expected began [] stopped
repair_lem_example = repair_lem began stopped

all_answered-repair_example : all_answered (repair began stopped) ≡ true
all_answered-repair_example = all_answered-repair began stopped

-- The two results come after that of call a.
repaired :
    repair began stopped
    ≡ plain user (codes "1") []
      ∷ plain assistant (codes "2") (call (codes "a") ∷ call (codes "b") ∷ call (codes "c") ∷ [])
      ∷ repair_result (call (codes "a")) true
      ∷ repair_result (call (codes "b")) true
      ∷ repair_result (call (codes "c")) false
      ∷ plain user (codes "4") []
      ∷ []
unfolding repair mem repair_result bytes_beq
repaired = refl

wanting : all_answered stopped ≡ false
unfolding all_answered repair_result missing bytes_beq
wanting = refl
