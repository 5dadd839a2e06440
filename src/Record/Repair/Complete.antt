-- ===== src/Record/Repair/Complete.antt =====
-- repair of record/record_log.go leaves no Tool call without a result, and changes nothing where
-- none is due.
use gotato.Base.{
  Bool, true, ◌&&◌, List, [], ◌∷◌, ◌++◌, map, Bytes, bytes_eq, bytes_beq_iff, append_assoc,
  append-nil, ◌≡◌, refl, ap, ◌∙◌, arith,
}
use gotato.Session.Types.{ToolCall, Message}
use gotato.Record.Repair.{
  Marks, mem, is_nil, repair_result, repair_result_with, unanswered, results, result_ids, missing,
  repairs, repair,
}
use gotato.Record.Repair.Answered.{open_calls, answer_from, not_both, is_nil_eq, repair-answer_from}

unfoldable pub all_answered : List Message → Bool
all_answered [] = true
all_answered (m ∷ ms) = is_nil (open_calls m ms) && all_answered ms

mem-append_left : (xs ys : List Bytes) (k : Bytes) → mem xs k ≡ true → mem (xs ++ ys) k ≡ true
unfolding mem
mem-append_left [] ys k h = ground arith
mem-append_left (x ∷ xs) ys k h = ground (arith, mem-append_left xs ys k)

mem-append_right : (xs ys : List Bytes) (k : Bytes) → mem ys k ≡ true → mem (xs ++ ys) k ≡ true
unfolding mem
mem-append_right [] ys k h = h
mem-append_right (x ∷ xs) ys k h = ground (arith, mem-append_right xs ys k h)

abbrev pub call_id : ToolCall → Bytes
call_id c = c.id

-- With the ids of the calls that were unanswered, none is.
mem_first : (x : Bytes) (xs : List Bytes) → mem (x ∷ xs) x ≡ true
unfolding mem
mem_first x xs = ground (arith, bytes_beq_iff x x)

pub covered :
    (cs : List ToolCall) (from pre : List Bytes)
    → ((k : Bytes) → mem from k ≡ true → mem pre k ≡ true)
    → unanswered cs (mem (pre ++ map call_id (unanswered cs (mem from)))) ≡ []
unfolding unanswered
covered [] from pre h = refl
covered (c ∷ cs) from pre h =
    let due = map call_id (unanswered cs (mem from)) in
    ground (
      arith,
      h c.id,
      mem-append_left pre due c.id,
      mem-append_right pre (c.id ∷ due) c.id (mem_first c.id due),
      covered cs from pre h,
      covered cs from (pre ++ c.id ∷ []) (λ k q. mem-append_left pre (c.id ∷ []) k (h k q)),
      append_assoc pre (c.id ∷ []) due,
    )

-- The results that repair adds are read back as results.
results_due :
    (started : Marks) (calls : List ToolCall) (ms : List Message)
    → results (repairs started calls ++ ms) ≡ repairs started calls ++ results ms
unfolding results repairs repair_result repair_result_with
results_due started [] ms = refl
results_due started (c ∷ cs) ms =
    ap (λ (t : List Message). repair_result c (started c.id) ∷ t) (results_due started cs ms)

ids_due :
    (started : Marks) (calls : List ToolCall)
    → result_ids (repairs started calls) ≡ map call_id calls
unfolding result_ids repairs repair_result repair_result_with
ids_due started [] = refl
ids_due started (c ∷ cs) = ap (λ (t : List Bytes). c.id ∷ t) (ids_due started cs)

pub result_ids-append :
    (xs ys : List Message) → result_ids (xs ++ ys) ≡ result_ids xs ++ result_ids ys
unfolding result_ids
result_ids-append [] ys = refl
result_ids-append (x ∷ xs) ys = ground (arith, result_ids-append xs ys)

results-answer :
    (started : Marks) (calls : List ToolCall) (ms : List Message)
    → results (answer_from started (repairs started calls) ms) ≡ results ms ++ repairs started calls
unfolding answer_from results
results-answer started calls [] =
    ground (arith, results_due started calls [], append-nil (repairs started calls))
results-answer started calls (m ∷ ms) =
    let rest = answer_from started (repairs started (open_calls m ms)) ms in
    ground (
      arith,
      results_due started calls (m ∷ rest),
      append-nil (repairs started calls),
      results-answer started calls ms,
    )

missing-answer :
    (started : Marks) (m : Message) (ms : List Message)
    → missing m (answer_from started (repairs started (missing m ms)) ms) ≡ []
unfolding missing
missing-answer started m ms =
    let ids = result_ids (results ms) in
    let due = repairs started (missing m ms) in
    ap (λ (t : List Bytes). unanswered m.tool_calls (mem t))
      (ap result_ids (results-answer started (missing m ms) ms)
        ∙ result_ids-append (results ms) due
        ∙ ap (λ (t : List Bytes). ids ++ t) (ids_due started (missing m ms)))
    ∙ covered m.tool_calls ids ids (λ k h. h)

answered_due :
    (started : Marks) (calls : List ToolCall) (ms : List Message)
    → all_answered (repairs started calls ++ ms) ≡ all_answered ms
unfolding all_answered repairs repair_result repair_result_with
answered_due started [] ms = refl
answered_due started (c ∷ cs) ms = answered_due started cs ms

answer-answered :
    (started : Marks) (calls : List ToolCall) (ms : List Message)
    → all_answered (answer_from started (repairs started calls) ms) ≡ true
unfolding answer_from all_answered
answer-answered started calls [] =
    ground (arith, answered_due started calls [], append-nil (repairs started calls))
answer-answered started calls (m ∷ ms) =
    let rest = answer_from started (repairs started (open_calls m ms)) ms in
    ground (
      arith,
      not_both m.role,
      answered_due started calls (m ∷ rest),
      missing-answer started m ms,
      answer-answered started calls ms,
      answer-answered started (open_calls m ms) ms,
    )

answer_nothing :
    (started : Marks) (ms : List Message) → all_answered ms ≡ true → answer_from started [] ms ≡ ms
unfolding answer_from all_answered repairs
answer_nothing started [] h = refl
answer_nothing started (m ∷ ms) h =
    ground (arith, is_nil_eq (open_calls m ms), answer_nothing started ms)

-- After repair every Tool call of every assistant Message has a result with its id among the results
-- that follow the Message.
pub all_answered-repair :
    (started : Marks) (ms : List Message) → all_answered (repair started ms) ≡ true
unfolding repairs
all_answered-repair started ms =
    ap all_answered (repair-answer_from started ms) ∙ answer-answered started [] ms

-- A second repair changes nothing, whichever calls it takes for started.
repair-repair :
    (started started' : Marks) (ms : List Message)
    → repair started' (repair started ms) ≡ repair started ms
repair-repair started started' ms =
    repair-answer_from started' (repair started ms)
    ∙ answer_nothing started' (repair started ms) (all_answered-repair started ms)
