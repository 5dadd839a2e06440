-- ===== src/Session/History/Answers.antt =====
-- The Tool results of a Transcript, as repair of record/record_log.go reads them.
use gotato.Base.{
  true, false, List, [], ◌∷◌, ◌++◌, map, ◌≡◌, refl, sym, ap, ◌∙◌, arith, All, bytes_eq,
}
use gotato.Session.Types.{Message, ToolCall}
use gotato.Record.Repair.{is_tool_result, mem, results, result_ids, missing, unanswered}
use gotato.Record.Repair.Answered.{not_both}
use gotato.Record.Repair.Complete.{all_answered, covered, call_id}

-- All of these are Tool results.
abbrev pub AllResults : List Message → Type 0
AllResults = All (λ m. is_tool_result m.role ≡ true)

pub results_all : (ms : List Message) → AllResults ms → results ms ≡ ms
unfolding results
results_all [] h = refl
results_all (m ∷ ms) h = ground (arith, h.0, results_all ms h.1)

pub results-append :
    (xs : List Message) (a : Message) (ys : List Message)
    → is_tool_result a.role ≡ false
    → results (xs ++ a ∷ ys) ≡ results xs
unfolding results
results-append [] a ys h = ground (arith, h)
results-append (x ∷ xs) a ys h = ground (arith, results-append xs a ys h)

pub missing-append :
    (m : Message) (xs : List Message) (a : Message) (ys : List Message)
    → is_tool_result a.role ≡ false
    → missing m (xs ++ a ∷ ys) ≡ missing m xs
unfolding missing
missing-append m xs a ys h =
    ap (λ (t : List Message). unanswered m.tool_calls (mem (result_ids t)))
      (results-append xs a ys h)

pub all_answered-append :
    (xs : List Message) (a : Message) (ys : List Message)
    → is_tool_result a.role ≡ false
    → all_answered xs ≡ true
    → all_answered (a ∷ ys) ≡ true
    → all_answered (xs ++ a ∷ ys) ≡ true
unfolding all_answered
all_answered-append [] a ys h p q = q
all_answered-append (x ∷ xs) a ys h p q =
    ground
      (arith, p, q, missing-append x xs a ys h, all_answered-append xs a ys h (ground (arith, p)) q)

pub answered_results : (ms : List Message) → AllResults ms → all_answered ms ≡ true
unfolding all_answered
answered_results [] h = refl
answered_results (m ∷ ms) h = ground (arith, h.0, not_both m.role, answered_results ms h.1)

pub unanswered_none : (cs : List ToolCall) → unanswered cs (mem []) ≡ cs
unfolding unanswered mem
unanswered_none [] = refl
unanswered_none (c ∷ cs) = ap (λ (t : List ToolCall). c ∷ t) (unanswered_none cs)

-- A Message whose calls have all their results, in their order, after it.
pub answered_reply :
    (reply : Message) (rs : List Message)
    → AllResults rs
    → result_ids rs ≡ map call_id reply.tool_calls
    → all_answered (reply ∷ rs) ≡ true
unfolding all_answered missing
answered_reply reply rs h e =
    let none_open : unanswered reply.tool_calls (mem (map call_id reply.tool_calls)) ≡ [] =
      ap (λ (t : List ToolCall). unanswered reply.tool_calls (mem (map call_id t)))
        (sym (unanswered_none reply.tool_calls))
      ∙ covered reply.tool_calls [] [] (λ k q. q) in
    ground (arith, results_all rs h, e, none_open, answered_results rs h)
