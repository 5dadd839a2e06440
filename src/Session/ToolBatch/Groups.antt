-- ===== src/Session/ToolBatch/Groups.antt =====
-- The groups of a batch (groupPlans of gotato/toolbatch.go).
use gotato.Base.{
  ℕ, ◌+◌, ◌≤◌, ◌<◌, Bool, true, false, ◌||◌, ◌==◌, ltb, if◌then◌else◌, if_cases, List, [], ◌∷◌,
  ◌++◌, append_assoc, append-nil, length, length-append, All, ◌≡◌, ◌⊎◌, inl, inr, refl, sym, ap,
  ◌∙◌, arith, Bool-cases, subst,
}
use gotato.Session.ToolBatch.{
  ToolPlan, parallel_workers, Grouping, flush, add_plan, group_loop, group_plans,
}

-- The indexes of the plans to run, in the order of their calls.
abbrev pub open_from : ℕ → List ToolPlan → List ℕ
open_from i [] = []
open_from i (p ∷ ps) = if p.blocked then open_from (i + 1) ps else i ∷ open_from (i + 1) ps

abbrev pub joined : List (List ℕ) → List ℕ
joined [] = []
joined (g ∷ gs) = g ++ joined gs

-- `sequential` is what the plans say, by their indexes.
abbrev pub Says : (ℕ → Bool) → ℕ → List ToolPlan → Type 0
Says sequential i [] = Unit {0}
Says sequential i (p ∷ ps) = (p.sequential ≡ sequential i) × Says sequential (i + 1) ps

module _ (sequential : ℕ → Bool) (workers : ℕ) where
  abbrev pub Parallel : List ℕ → Type 0
  Parallel g = All (λ i. sequential i ≡ false) g

  -- A group fits the workers, and a sequential call is alone in its own.
  abbrev pub IsGroup : List ℕ → Type 0
  IsGroup g = (0 < length g) × (length g ≤ workers) × ((length g ≡ 1) ⊎ Parallel g)

  record IsGrouping (g : Grouping) (done : List ℕ) : Type 0 where
    pub whole : joined g.groups ++ g.current ≡ done
    pub fit : All IsGroup g.groups
    pub short : length g.current < workers
    pub parallel : Parallel g.current

  joined-snoc : (gs : List (List ℕ)) (g : List ℕ) → joined (gs ++ g ∷ []) ≡ joined gs ++ g
  joined-snoc [] g = append-nil g
  joined-snoc (h ∷ gs) g =
      ap (λ (t : List ℕ). h ++ t) (joined-snoc gs g) ∙ sym (append_assoc h (joined gs) g)

  All-snoc :
      (gs : List (List ℕ)) (g : List ℕ) → All IsGroup gs → IsGroup g → All IsGroup (gs ++ g ∷ [])
  All-snoc [] g h k = (k, tt)
  All-snoc (x ∷ gs) g (a, h) k = (a, All-snoc gs g h k)

  Parallel-snoc : (g : List ℕ) (i : ℕ) → Parallel g → sequential i ≡ false → Parallel (g ++ i ∷ [])
  Parallel-snoc [] i h k = (k, tt)
  Parallel-snoc (x ∷ g) i (a, h) k = (a, Parallel-snoc g i h k)

  flush-IsGrouping :
      (g : Grouping) (done : List ℕ)
      → 0 < workers
      → joined g.groups ++ g.current ≡ done
      → All IsGroup g.groups
      → length g.current ≤ workers
      → Parallel g.current
      → IsGrouping (flush g) done × ((flush g).current ≡ [])
  unfolding flush
  flush-IsGrouping g done w q fit short par =
      if_cases (λ (h : Grouping). IsGrouping h done × (h.current ≡ [])) (ltb 0 (length g.current)) _
        _
        (λ some_current. (
          record {
            whole =
                append-nil (joined (g.groups ++ g.current ∷ []))
                ∙ joined-snoc g.groups g.current
                ∙ q;
            fit = All-snoc g.groups g.current fit (ground (arith, some_current), short, inr par);
            short = w;
            parallel = tt;
          },
          refl,
        ))
        (λ no_current. (
          record { whole = q; fit = fit; short = ground (arith, no_current, w); parallel = par },
          empty g.current (ground (arith, no_current)),
        ))
    where
      empty : (xs : List ℕ) → length xs ≡ 0 → xs ≡ []
      empty [] e = refl
      empty (x ∷ xs) e = absurd (omega (arith, e))

  -- One round of the loop of groupPlans.
  add_plan-IsGrouping :
      (i : ℕ) (p : ToolPlan) (g : Grouping) (done : List ℕ)
      → 0 < workers
      → p.sequential ≡ sequential i
      → IsGrouping g done
      → IsGrouping (add_plan workers i p g) (if p.blocked then done else done ++ i ∷ [])
  unfolding add_plan
  add_plan-IsGrouping i p g done w seq h = elim (Bool-cases p.blocked) [
    | inl b ↦ rw b h
    | inr b ↦ rw b (
        if_cases (λ (k : Grouping). IsGrouping k (done ++ i ∷ [])) (p.sequential || workers == 1) _
          _
          (λ one.
            alone (flush-IsGrouping g done w h.whole h.fit (omega (arith, h.short)) h.parallel))
          (λ many.
            let whole' =
              sym (append_assoc (joined g.groups) g.current (i ∷ []))
              ∙ ap (λ (t : List ℕ). t ++ i ∷ []) h.whole in
            let par = Parallel-snoc g.current i h.parallel (sym seq ∙ ground (arith, many)) in
            let len = length-append g.current (i ∷ []) in
            if_cases (λ (k : Grouping). IsGrouping k (done ++ i ∷ []))
              (length (g.current ++ i ∷ []) == workers) _ _
              (λ full.
                (flush-IsGrouping (record g { current = g.current ++ i ∷ [] }) (done ++ i ∷ []) w
                  whole' h.fit (omega (arith, len, h.short)) par).0)
              (λ room. record {
                whole = whole';
                fit = h.fit;
                short = ground (arith, room, len, h.short);
                parallel = par;
              })))
  ]
    where
      alone :
          IsGrouping (flush g) done × ((flush g).current ≡ [])
          → IsGrouping
              (record (flush g) { groups = (flush g).groups ++ (i ∷ []) ∷ [] })
              (done ++ i ∷ [])
      alone (k, q) = record {
        whole =
            ap (λ (t : List ℕ). joined ((flush g).groups ++ (i ∷ []) ∷ []) ++ t) q
            ∙ append-nil (joined ((flush g).groups ++ (i ∷ []) ∷ []))
            ∙ joined-snoc (flush g).groups (i ∷ [])
            ∙ ap (λ (t : List ℕ). t ++ i ∷ [])
                (sym (append-nil (joined (flush g).groups))
                  ∙ ap (λ (t : List ℕ). joined (flush g).groups ++ t) (sym q)
                  ∙ k.whole);
        fit = All-snoc (flush g).groups (i ∷ []) k.fit (omega arith, omega (arith, w), inl refl);
        short = k.short;
        parallel = k.parallel;
      }

  group_loop-IsGrouping :
      (i : ℕ) (ps : List ToolPlan) (g : Grouping) (done : List ℕ)
      → 0 < workers
      → Says sequential i ps
      → IsGrouping g done
      → IsGrouping (group_loop workers i ps g) (done ++ open_from i ps)
  unfolding group_loop
  group_loop-IsGrouping i [] g done w s h = subst (IsGrouping g) (sym (append-nil done)) h
  group_loop-IsGrouping i (p ∷ ps) g done w (seq, s) h =
      subst (IsGrouping (group_loop workers (i + 1) ps (add_plan workers i p g))) (next p.blocked) (
        group_loop-IsGrouping (i + 1) ps (add_plan workers i p g) _ w s
          (add_plan-IsGrouping i p g done w seq h))
    where
      next :
          (b : Bool)
          → (if b then done else done ++ i ∷ []) ++ open_from (i + 1) ps
            ≡ done ++ (if b then open_from (i + 1) ps else i ∷ open_from (i + 1) ps)
      next true = refl
      next false = append_assoc done (i ∷ []) (open_from (i + 1) ps)

  group_plans-IsGroup :
      (plans : List ToolPlan)
      → 0 < workers
      → Says sequential 0 plans
      → (joined (group_plans workers plans) ≡ open_from 0 plans)
        × All IsGroup (group_plans workers plans)
  unfolding group_plans
  group_plans-IsGroup plans w s =
      let start : IsGrouping (record { groups = []; current = [] }) [] = record {
        whole = refl;
        fit = tt;
        short = w;
        parallel = tt;
      } in
      let h = group_loop-IsGrouping 0 plans (record { groups = []; current = [] }) [] w s start in
      let g = group_loop workers 0 plans (record { groups = []; current = [] }) in
      let (k, q) =
        flush-IsGrouping g (open_from 0 plans) w h.whole h.fit (omega (arith, h.short))
          h.parallel in
      (
        sym (append-nil (joined (flush g).groups))
            ∙ ap (λ (t : List ℕ). joined (flush g).groups ++ t) (sym q)
            ∙ k.whole,
        k.fit,
      )

parallel_workers_positive : (max_parallel_tools : ℕ) → 0 < parallel_workers max_parallel_tools
unfolding parallel_workers
parallel_workers_positive max_parallel_tools = ground arith

-- Whatever the bound of parallel Tools, the groups of a batch put together are the indexes of the plans
-- that are not blocked, once and in order; no group is empty or larger than the workers, and a sequential
-- call is the only one of its group.
pub group_plans_lem :
    (sequential : ℕ → Bool) (max_parallel_tools : ℕ) (plans : List ToolPlan)
    → Says sequential 0 plans
    → (joined (group_plans (parallel_workers max_parallel_tools) plans) ≡ open_from 0 plans)
      × All
          (IsGroup sequential (parallel_workers max_parallel_tools))
          (group_plans (parallel_workers max_parallel_tools) plans)
group_plans_lem sequential max_parallel_tools plans s =
    group_plans-IsGroup sequential (parallel_workers max_parallel_tools) plans
      (parallel_workers_positive max_parallel_tools) s
