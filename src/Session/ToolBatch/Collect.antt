-- ===== src/Session/ToolBatch/Collect.antt =====
-- The run of one group of a batch (executeToolGroup of gotato/toolbatch.go).
use gotato.Base.{
  ℕ, suc, ◌+◌, ◌≤◌, ◌<◌, Bool, true, false, ◌||◌, ◌==◌, ltb, Option, none, some, is_some, List, [],
  ◌∷◌, length, lookup, nat_eq, Bytes, ◌≡◌, ◌⊎◌, inl, inr, refl, sym, ap, ◌∙◌, arith, Bool-cases,
  subst,
}
use gotato.Session.ToolBatch.{
  ToolSignal, update, finished, ToolGroupRun, canceled_outcome, handle, drain_signals,
  unknown_outcome, cancel_over, cancel_rest, collect, execute_tool_group,
}
use gotato.Session.ToolBatch.Account.{
  times, no_times, results_of, received_of, waiting_of, IsAccount, Distinct, settle_call-IsAccount,
  drain_signals-IsAccount,
}

module _ (call_ids : ℕ → Bytes) where
  -- The calls that have no outcome are among those that are still looked at.
  cancel_over-IsAccount :
      (group todo over : List ℕ) (text : Bytes) (started : Bool) (g : ToolGroupRun)
      → Distinct group
      → IsAccount group g todo
      → ((i : ℕ) → times i todo ≤ times i over)
      → ((i : ℕ) → times i over ≤ times i group)
      → IsAccount group (cancel_over call_ids text started over g) []
  unfolding cancel_over
  cancel_over-IsAccount group todo [] text started g d h all own =
      let nothing = no_times todo (λ i. omega (arith, all i)) in subst (IsAccount group g) nothing h
  cancel_over-IsAccount group todo (i ∷ over) text started g d h all own =
      elim (Bool-cases (is_some (lookup i g.outcomes))) [
        | inl e ↦ rw e (
            cancel_over-IsAccount group todo over text started g d h
              (λ j. past j (Bool-cases (i == j)) e) (λ j. omega (arith, own j)))
        | inr e ↦
            let open_here : 0 < times i todo = ground (arith, h.known i, e, h.counted i, own i) in
            let (rest, w, k) =
              settle_call-IsAccount group todo i (unknown_outcome call_ids text started i) g d h
                open_here in
            rw e (
              cancel_over-IsAccount group rest over text started _ d k
                (λ j. omega (arith, all j, w.counted j)) (λ j. omega (arith, own j)))
      ]
    where
      past :
          (j : ℕ)
          → ((i == j) ≡ true) ⊎ ((i == j) ≡ false)
          → is_some (lookup i g.outcomes) ≡ true
          → times j todo ≤ times j over
      past j (inl q) e = ground (arith, q, e, h.known i, h.counted i, d i)
      past j (inr q) e = ground (arith, q, all j)

  cancel_rest-IsAccount :
      (group todo : List ℕ) (text : Bytes) (started : Bool) (g : ToolGroupRun)
      → Distinct group
      → IsAccount group g todo
      → IsAccount group (cancel_rest call_ids text started g) []
  unfolding cancel_rest
  cancel_rest-IsAccount group todo text started g d h =
      subst (λ (x : List ℕ). IsAccount group (cancel_over call_ids text started x g) [])
        (sym h.same)
        (cancel_over-IsAccount group todo group text started g d h (λ i. omega (arith, h.counted i))
          (λ i. omega arith))

  -- A group of which every call has its outcome.
  full-IsAccount :
      (group todo : List ℕ) (g : ToolGroupRun)
      → IsAccount group g todo
      → ltb (length g.outcomes) (length g.group) ≡ false
      → IsAccount group g []
  full-IsAccount group todo g h full =
      let none_left : length todo ≡ 0 = ground (arith, full, h.sized, ap length h.same) in
      subst (IsAccount group g) (empty todo none_left) h
    where
      empty : (xs : List ℕ) → length xs ≡ 0 → xs ≡ []
      empty [] q = refl
      empty (x ∷ xs) q = absurd (omega (arith, q))

  collect_full :
      (signals : List (Option Bytes × ToolSignal)) (c : Option (Bytes × List ToolSignal))
      (g : ToolGroupRun)
      → ltb (length g.outcomes) (length g.group) ≡ false
      → collect call_ids signals c g ≡ some g
  unfolding collect
  collect_full [] c g full = ground (arith, full)
  collect_full ((ctx, signal) ∷ signals) c g full = ground (arith, full)

  collect_more :
      (ctx : Option Bytes) (signal : ToolSignal) (signals : List (Option Bytes × ToolSignal))
      (c : Option (Bytes × List ToolSignal)) (g : ToolGroupRun)
      → ltb (length g.outcomes) (length g.group) ≡ true
      → collect call_ids ((ctx, signal) ∷ signals) c g
        ≡ collect call_ids signals c (handle ctx signal g)
  unfolding collect
  collect_more ctx signal signals c g more = ground (arith, more)

  collect_canceled :
      (text : Bytes) (waiting : List ToolSignal) (g : ToolGroupRun)
      → ltb (length g.outcomes) (length g.group) ≡ true
      → collect call_ids [] (some (text, waiting)) g
        ≡ some (cancel_rest call_ids text true (drain_signals text waiting g))
  unfolding collect
  collect_canceled text waiting g more = ground (arith, more)

  collect-IsAccount :
      (group todo : List ℕ) (signals : List (Option Bytes × ToolSignal))
      (c : Option (Bytes × List ToolSignal)) (g : ToolGroupRun)
      → Distinct group
      → IsAccount group g todo
      → ((i : ℕ)
          → times i (results_of (received_of signals)) + times i (results_of (waiting_of c))
            ≤ times i todo)
      → (is_some c ≡ true) ⊎ (length todo ≤ length (results_of (received_of signals)))
      → (g' : ToolGroupRun) × (collect call_ids signals c g ≡ some g') × IsAccount group g' []
  unfolding handle
  collect-IsAccount group todo [] c g d h r ends =
      elim (Bool-cases (ltb (length g.outcomes) (length g.group))) [
        | inr full ↦ (g, collect_full [] c g full, full-IsAccount group todo g h full)
        | inl more ↦ stops c r ends more
      ]
    where
      stops :
          (c : Option (Bytes × List ToolSignal))
          → ((i : ℕ) → 0 + times i (results_of (waiting_of c)) ≤ times i todo)
          → (is_some c ≡ true) ⊎ (length todo ≤ 0)
          → ltb (length g.outcomes) (length g.group) ≡ true
          → (g' : ToolGroupRun) × (collect call_ids [] c g ≡ some g') × IsAccount group g' []
      stops none r (inl z) more = absurd (ground (arith, z))
      stops none r (inr z) more = absurd (ground (arith, z, more, h.sized, ap length h.same))
      stops (some (text, waiting)) r z more =
          let (rest, k) =
            drain_signals-IsAccount group todo text waiting g d h (λ i. omega (arith, r i)) in
          (
            cancel_rest call_ids text true (drain_signals text waiting g),
            collect_canceled text waiting g more,
            cancel_rest-IsAccount group rest text true _ d k,
          )
  collect-IsAccount group todo ((ctx, update i text) ∷ signals) c g d h r ends =
      elim (Bool-cases (ltb (length g.outcomes) (length g.group))) [
        | inr full ↦ (
          g,
          collect_full ((ctx, update i text) ∷ signals) c g full,
          full-IsAccount group todo g h full,
        )
        | inl more ↦
            let (g', q, k) =
              collect-IsAccount group todo signals c (handle ctx (update i text) g) d
                (record { same = h.same; counted = h.counted; sized = h.sized; known = h.known }) r
                ends in
            (g', collect_more ctx (update i text) signals c g more ∙ q, k)
      ]
  collect-IsAccount group todo ((ctx, finished i result) ∷ signals) c g d h r ends =
      elim (Bool-cases (ltb (length g.outcomes) (length g.group))) [
        | inr full ↦ (
          g,
          collect_full ((ctx, finished i result) ∷ signals) c g full,
          full-IsAccount group todo g h full,
        )
        | inl more ↦
            let (rest, w, k) =
              settle_call-IsAccount group todo i (canceled_outcome ctx result) g d h
                (ground (arith, r i)) in
            let (g', q, s) =
              collect-IsAccount group rest signals c (handle ctx (finished i result) g) d k
                (λ j. omega (arith, r j, w.counted j)) (fewer rest w.shorter ends) in
            (g', collect_more ctx (finished i result) signals c g more ∙ q, s)
      ]
    where
      fewer :
          (rest : List ℕ)
          → length todo ≡ suc (length rest)
          → (is_some c ≡ true) ⊎ (length todo ≤ suc (length (results_of (received_of signals))))
          → (is_some c ≡ true) ⊎ (length rest ≤ length (results_of (received_of signals)))
      fewer rest q (inl z) = inl z
      fewer rest q (inr z) = inr (omega (arith, q, z))

  abbrev new_run : List ℕ → ToolGroupRun
  new_run group = record { group = group; outcomes = []; ended = []; progress = [] }

  start : (group : List ℕ) → IsAccount group (new_run group) group
  unfolding lookup
  start group = record {
    same = refl;
    counted = λ i. omega arith;
    sized = omega arith;
    known = λ i. refl;
  }

  all_ended :
      (group : List ℕ) {g : ToolGroupRun}
      → IsAccount group g []
      → (i : ℕ) → times i g.ended ≡ times i group
  all_ended group h i = omega (arith, h.counted i)

  all_known :
      (group : List ℕ) {g : ToolGroupRun}
      → IsAccount group g []
      → (i : ℕ) → is_some (lookup i g.outcomes) ≡ ltb 0 (times i group)
  all_known group h i = h.known i ∙ ap (ltb 0) (all_ended group h i)

  -- A group with no call twice, whose workers report at most one result for each call: if the Run is
  -- canceled, before the group or in it, or every call reports its result, the group ends, and then each
  -- of its calls, and no other, has an outcome and one ToolEnded.
  pub execute_tool_group_lem :
      (ctx : Option Bytes) (signals : List (Option Bytes × ToolSignal))
      (c : Option (Bytes × List ToolSignal)) (group : List ℕ)
      → ((i : ℕ) → times i group ≤ 1)
      → ((i : ℕ)
          → times i (results_of (received_of signals)) + times i (results_of (waiting_of c))
            ≤ times i group)
      → (is_some ctx || is_some c ≡ true)
        ⊎ (length group ≤ length (results_of (received_of signals)))
      → (g : ToolGroupRun) × (execute_tool_group call_ids ctx signals c group ≡ some g)
        × ((i : ℕ) → times i g.ended ≡ times i group)
        × ((i : ℕ) → is_some (lookup i g.outcomes) ≡ ltb 0 (times i group))
  unfolding execute_tool_group lookup
  execute_tool_group_lem (some text) signals c group d r ends =
      let k = cancel_rest-IsAccount group group text false (new_run group) d (start group) in
      (cancel_rest call_ids text false (new_run group), refl, all_ended group k, all_known group k)
  execute_tool_group_lem none signals c group d r ends =
      let (g, q, k) =
        collect-IsAccount group group signals c (new_run group) d (start group) r ends in
      (g, q, all_ended group k, all_known group k)
