-- ===== src/Record/Repair/Answered.antt =====
-- What the loop of repair in record/record_log.go comes to: one pass with the results that are due.
use gotato.Base.{
  ℕ, zero, suc, true, false, not, ◌||◌, if◌then◌else◌, none, some, List, [], ◌∷◌, ◌++◌, bytes_eq,
  length, drop, append_assoc, append-nil, ◌≡◌, refl, sym, ap, ◌∙◌, arith,
}
use gotato.Session.Types.{Role, user, assistant, tool_result, notice, other_role, ToolCall, Message}
use gotato.Record.Repair.{
  Marks, is_assistant, is_tool_result, is_nil, unanswered, results, missing, repairs, or_else,
  repair_from, repair,
}

-- The calls that a Message makes and that get no result.
abbrev pub open_calls : Message → List Message → List ToolCall
open_calls m ms = if is_assistant m.role then missing m ms else []

-- Each Message in turn, with the results that are due put in before the first Message that is no
-- Tool result.
unfoldable pub answer_from : Marks → List Message → List Message → List Message
answer_from started due [] = due
answer_from started due (m ∷ ms) =
    if is_tool_result m.role
    then m ∷ answer_from started due ms
    else due ++ m ∷ answer_from started (repairs started (open_calls m ms)) ms

answer_flush :
    (started : Marks) (due ms : List Message)
    → answer_from started due ms
      ≡ results ms ++ (due ++ answer_from started [] (drop (length (results ms)) ms))
unfolding answer_from results
answer_flush started due [] = sym (append-nil due)
answer_flush started due (m ∷ ms) = ground (arith, answer_flush started due ms)

no-missing : (m : Message) (ms : List Message) → m.tool_calls ≡ [] → missing m ms ≡ []
unfolding missing unanswered
no-missing m ms e = ground (arith, e)

-- A Message that the loop passes over is one that is due nothing.
copied :
    (started : Marks) (m : Message) (ms acc : List Message)
    → open_calls m ms ≡ []
    → acc ++ answer_from started [] (m ∷ ms) ≡ (acc ++ m ∷ []) ++ answer_from started [] ms
unfolding answer_from repairs
copied started m ms acc e = ground (arith, e, append_assoc acc (m ∷ []) (answer_from started [] ms))

pub not_both : (r : Role) → is_assistant r ≡ true → is_tool_result r ≡ false
not_both assistant e = refl
not_both user e = ground arith
not_both tool_result e = ground arith
not_both notice e = ground arith
not_both (other_role t) e = ground arith

answer_calls :
    (started : Marks) (m : Message) (ms : List Message)
    → is_assistant m.role ≡ true
    → answer_from started [] (m ∷ ms) ≡ m ∷ answer_from started (repairs started (missing m ms)) ms
unfolding answer_from
answer_calls started m ms e = rw (not_both m.role e, e) refl

-- A Message with calls is followed by its results, and by the repairs of its open calls.
answered_here :
    (started : Marks) (m : Message) (ms acc : List Message)
    → is_assistant m.role ≡ true
    → acc ++ answer_from started [] (m ∷ ms)
      ≡ (acc ++ (m ∷ (results ms ++ repairs started (missing m ms))))
        ++ answer_from started [] (drop (length (results ms)) ms)
answered_here started m ms acc e =
    let rest = answer_from started [] (drop (length (results ms)) ms) in
    let due = repairs started (missing m ms) in
    ap (λ (t : List Message). acc ++ t)
      (answer_calls started m ms e
        ∙ ap (λ (t : List Message). m ∷ t)
            (answer_flush started due ms ∙ sym (append_assoc (results ms) due rest)))
    ∙ sym (append_assoc acc (m ∷ (results ms ++ due)) rest)

pub is_nil_eq : {A : Type 0} (xs : List A) → is_nil xs ≡ true → xs ≡ []
is_nil_eq [] e = refl
is_nil_eq (x ∷ xs) e = ground arith

passed_open :
    (m : Message) (ms : List Message)
    → not (is_assistant m.role) || is_nil m.tool_calls ≡ true
    → open_calls m ms ≡ []
passed_open m ms e = ground (arith, is_nil_eq m.tool_calls, no-missing m ms)

drop_nil : (k : ℕ) → drop {A = Message} k [] ≡ []
drop_nil zero = refl
drop_nil (suc k) = refl

loop_some :
    (started : Marks) (ms seen acc : List Message) (k : ℕ)
    → repair_from started seen k ms (some acc) ≡ some (acc ++ answer_from started [] (drop k ms))
unfolding repair_from answer_from
loop_some started [] seen acc k = ground (arith, append-nil acc, drop_nil k)
loop_some started (m ∷ ms) seen acc (suc k) = loop_some started ms (seen ++ m ∷ []) acc k
loop_some started (m ∷ ms) seen acc zero =
    let due = repairs started (missing m ms) in
    ground (
      arith,
      passed_open m ms,
      copied started m ms acc,
      answered_here started m ms acc,
      loop_some started ms (seen ++ m ∷ []) (acc ++ m ∷ []) zero,
      loop_some started ms (seen ++ m ∷ []) (acc ++ (m ∷ (results ms ++ due)))
          (length (results ms)),
    )

loop_none :
    (started : Marks) (ms seen : List Message)
    → or_else (repair_from started seen zero ms none) (seen ++ ms)
      ≡ seen ++ answer_from started [] ms
unfolding repair_from answer_from
loop_none started [] seen = refl
loop_none started (m ∷ ms) seen =
    let due = repairs started (missing m ms) in
    let acc = seen ++ (m ∷ (results ms ++ due)) in
    ground (
      arith,
      passed_open m ms,
      is_nil_eq (missing m ms),
      copied started m ms seen,
      answered_here started m ms seen,
      append_assoc seen (m ∷ []) ms,
      loop_none started ms (seen ++ m ∷ []),
      loop_some started ms (seen ++ m ∷ []) acc (length (results ms)),
    )

pub repair-answer_from :
    (started : Marks) (ms : List Message) → repair started ms ≡ answer_from started [] ms
unfolding repair
repair-answer_from started ms = loop_none started ms []
