-- ===== src/Session/History/Closing.antt =====
-- What closeOpenCalls of gotato/toolbatch.go and commitToolResult of gotato/history.go leave in the
-- Transcript.
use gotato.Base.{
  ℕ, suc, true, false, ltb, Option, none, some, List, [], ◌∷◌, ◌++◌, map, length, take, drop, Bytes,
  append-nil, if_cases, ◌==◌, append_assoc, take-append-drop, ◌≡◌, inl, inr, refl, sym, ap, ap₂,
  subst, ◌∙◌, arith, All, All-append, drop_all, Bool-cases, bytes_eq,
}
use gotato.Session.Types.{Message, ToolCall, ToolResult, RunStatus}
use gotato.Record.Repair.{is_assistant, is_tool_result, result_ids}
use gotato.Record.Repair.Answered.{not_both}
use gotato.Record.Repair.Complete.{all_answered, call_id, result_ids-append}
use gotato.Session.History.{
  CoreLimits, TranscriptCalls, SessionHistory, commit, commit_encoded, with_id,
}
use gotato.Session.History.Results.{
  OpenBatch, result_message, closing_result, close_calls, close_open_calls,
}
use gotato.Session.History.Answers.{AllResults, all_answered-append, answered_reply}

-- Where the Transcript works and the closing results can be encoded, each of them is committed.
pub record Works (encode : Message → Option ℕ) (transcript : ℕ → TranscriptCalls)
    (ms : List Message) : Type 0 where
  pub len_works : (i : ℕ) → (transcript i).len_fails ≡ false
  pub append_works : (i : ℕ) → (transcript i).append_fails ≡ false
  pub encoded : All (λ m. (n : ℕ) × (encode m ≡ some n)) ms

-- The closing results of calls, from call i on.
unfoldable pub closing_messages :
    (ℕ → Bytes) → Bytes → Bytes → RunStatus → OpenBatch → ℕ → List ToolCall → List Message
closing_messages ids run cause status b i [] = []
closing_messages ids run cause status b i (call ∷ calls) =
    result_message (ids i) run (closing_result cause status i b call)
    ∷ closing_messages ids run cause status b (suc i) calls

module _ (encode : Message → Option ℕ) (decimal : ℕ → Bytes) where
  exempt_commit :
      (limits : CoreLimits) (calls : TranscriptCalls) (id : Bytes) (m : Message)
      (h : SessionHistory)
      → calls.len_fails ≡ false
      → calls.append_fails ≡ false
      → with_id id m ≡ m
      → (bytes : ℕ) → encode m ≡ some bytes
      → ((commit encode limits calls id false m h).1 ≡ none)
        × ((commit encode limits calls id false m h).0.messages ≡ h.messages ++ m ∷ [])
  unfolding commit commit_encoded
  exempt_commit limits calls id m h l a own bytes e =
      (ground (arith, l, a, e, own), ground (arith, l, a, e, own))

  same_id :
      (id run : Bytes) (r : ToolResult)
      → with_id id (result_message id run r) ≡ result_message id run r
  unfolding result_message
  same_id id run r =
      if_cases (λ x. x ≡ result_message id run r) (length id == 0) (result_message id run r)
        (result_message id run r) (λ e. refl) (λ e. refl)

  close_calls_lem :
      (limits : CoreLimits) (transcript : ℕ → TranscriptCalls) (ids : ℕ → Bytes) (run cause : Bytes)
      (status : RunStatus) (b : OpenBatch) (i : ℕ) (calls : List ToolCall) (h : SessionHistory)
      → Works encode transcript (closing_messages ids run cause status b i calls)
      → ((close_calls encode decimal limits transcript ids run cause status b i calls h).0.messages
          ≡ h.messages ++ closing_messages ids run cause status b i calls)
        × ((close_calls encode decimal limits transcript ids run cause status b i calls h).1
            ≡ closing_messages ids run cause status b i calls)
  unfolding close_calls closing_messages
  close_calls_lem limits transcript ids run cause status b i [] h w =
      (sym (append-nil h.messages), refl)
  close_calls_lem limits transcript ids run cause status b i (call ∷ calls) h w =
      let m = result_message (ids i) run (closing_result cause status i b call) in
      let ms = closing_messages ids run cause status b (suc i) calls in
      let c =
        exempt_commit limits (transcript i) (ids i) m h (w.len_works i) (w.append_works i)
          (same_id (ids i) run (closing_result cause status i b call)) w.encoded.0.0
          w.encoded.0.1 in
      let g = (commit encode limits (transcript i) (ids i) false m h).0 in
      let rest = close_calls_lem limits transcript ids run cause status b (suc i) calls g (record {
        len_works = w.len_works;
        append_works = w.append_works;
        encoded = w.encoded.1;
      }) in
      let all : g.messages ++ ms ≡ h.messages ++ m ∷ ms =
        ap (λ (x : List Message). x ++ ms) c.1 ∙ append_assoc h.messages (m ∷ []) ms in
      (ground (arith, c.0, rest.0 ∙ all), ground (arith, c.0, rest.1))

closing_ids :
    (ids : ℕ → Bytes) (run cause : Bytes) (status : RunStatus) (b : OpenBatch) (i : ℕ)
    (calls : List ToolCall)
    → (result_ids (closing_messages ids run cause status b i calls) ≡ map call_id calls)
      × AllResults (closing_messages ids run cause status b i calls)
unfolding result_ids closing_messages result_message closing_result
closing_ids ids run cause status b i [] = (refl, tt)
closing_ids ids run cause status b i (call ∷ calls) =
    let (e, h) = closing_ids ids run cause status b (suc i) calls in
    (ap (λ (t : List Bytes). call.id ∷ t) e, (refl, h))

-- A batch whose calls before `next` have their results in the Transcript, in their order, right after
-- the reply that made them, where all calls before that reply have theirs.
pub record IsOpen (b : OpenBatch) (ms : List Message) : Type 0 where
  pub before : List Message
  pub reply : Message
  pub done : List Message
  pub whole : ms ≡ before ++ reply ∷ done
  pub earlier : all_answered before ≡ true
  pub asked : is_assistant reply.role ≡ true
  pub batch : reply.tool_calls ≡ b.calls
  pub are_results : AllResults done
  pub so_far : result_ids done ≡ map call_id (take b.next b.calls)

closed_all :
    (ids : ℕ → Bytes) (run cause : Bytes) (status : RunStatus) (b : OpenBatch) (ms : List Message)
    → IsOpen b ms
    → all_answered (ms ++ closing_messages ids run cause status b b.next (drop b.next b.calls))
      ≡ true
closed_all ids run cause status b ms o =
    let closing = closing_messages ids run cause status b b.next (drop b.next b.calls) in
    let (added, are) = closing_ids ids run cause status b b.next (drop b.next b.calls) in
    let rs = All-append (λ m. is_tool_result m.role ≡ true) o.done closing o.are_results are in
    let all : result_ids (o.done ++ closing) ≡ map call_id o.reply.tool_calls =
      result_ids-append o.done closing
      ∙ ap₂ (λ (x y : List Bytes). x ++ y) o.so_far added
      ∙ sym (map_ids (take b.next b.calls) (drop b.next b.calls))
      ∙ ap (map call_id) (take-append-drop b.next b.calls ∙ sym o.batch) in
    let whole : ms ++ closing ≡ o.before ++ o.reply ∷ (o.done ++ closing) =
      ap (λ (x : List Message). x ++ closing) o.whole
      ∙ append_assoc o.before (o.reply ∷ o.done) closing in
    subst (λ x. all_answered x ≡ true) (sym whole)
      (all_answered-append o.before o.reply (o.done ++ closing) (not_both o.reply.role o.asked)
        o.earlier (answered_reply o.reply (o.done ++ closing) rs all))
  where
    map_ids : (xs ys : List ToolCall) → map call_id (xs ++ ys) ≡ map call_id xs ++ map call_id ys
    map_ids [] ys = refl
    map_ids (x ∷ xs) ys = ap (λ (t : List Bytes). x.id ∷ t) (map_ids xs ys)

module _ (encode : Message → Option ℕ) (decimal : ℕ → Bytes) where
  closed_is :
      (limits : CoreLimits) (transcript : ℕ → TranscriptCalls) (ids : ℕ → Bytes) (run cause : Bytes)
      (status : RunStatus) (b : OpenBatch) (h : SessionHistory)
      → Works encode transcript
          (closing_messages ids run cause status b b.next (drop b.next b.calls))
      → ((close_open_calls encode decimal limits transcript ids run cause status b h).0.messages
          ≡ h.messages ++ closing_messages ids run cause status b b.next (drop b.next b.calls))
        × ((close_open_calls encode decimal limits transcript ids run cause status b h).1.1
            ≡ closing_messages ids run cause status b b.next (drop b.next b.calls))
  unfolding close_open_calls closing_messages
  closed_is limits transcript ids run cause status b h w =
      let l =
        close_calls_lem encode decimal limits transcript ids run cause status b b.next
          (drop b.next b.calls) h w in
      elim (Bool-cases (ltb b.next (length b.calls))) [
        | inl some_open ↦ (ground (arith, some_open, l.0), ground (arith, some_open, l.1))
        | inr none_open ↦
            let empty : drop b.next b.calls ≡ [] =
              drop_all b.next b.calls (ground (arith, none_open)) in
            let nothing : []
                ≡ closing_messages ids run cause status b b.next (drop b.next b.calls) =
              ap (closing_messages ids run cause status b b.next) (sym empty) in
            (
              ground (
                arith,
                none_open,
                sym (append-nil h.messages) ∙ ap (λ (x : List Message). h.messages ++ x) nothing,
              ),
              ground (arith, none_open, nothing),
            )
      ]

  -- closeOpenCalls, on a batch whose results so far stand in order right after its reply, with
  -- every Tool call of the Messages before that reply answered already, leaves a Transcript in
  -- which every Tool call of every assistant Message has its result, whatever the limits are; and
  -- it announces one result for each open call, in their order. The Transcript works, and the
  -- closing results can be encoded.
  pub close_open_calls_lem :
      (limits : CoreLimits) (transcript : ℕ → TranscriptCalls) (ids : ℕ → Bytes) (run cause : Bytes)
      (status : RunStatus) (b : OpenBatch) (h : SessionHistory)
      → IsOpen b h.messages
      → Works encode transcript
          (closing_messages ids run cause status b b.next (drop b.next b.calls))
      → (all_answered
            (close_open_calls encode decimal limits transcript ids run cause status b h).0.messages
          ≡ true)
        × (result_ids
              (close_open_calls encode decimal limits transcript ids run cause status b h).1.1
            ≡ map call_id (drop b.next b.calls))
  close_open_calls_lem limits transcript ids run cause status b h o w =
      let (messages, staged) = closed_is limits transcript ids run cause status b h w in
      (
        ap all_answered messages ∙ closed_all ids run cause status b h.messages o,
        ap result_ids staged ∙ (closing_ids ids run cause status b b.next (drop b.next b.calls)).0,
      )
