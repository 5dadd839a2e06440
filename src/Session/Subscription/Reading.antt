-- ===== src/Session/Subscription/Reading.antt =====
-- The reads of the source: a catch-up and a look (gotato/subscription.go).
use gotato.Base.{
  ℕ, zero, suc, ◌+◌, ◌-◌, Bool, true, false, not, ◌==◌, leb, if◌then◌else◌, if_cases, Bool-cases,
  inl, inr, ap₂, List, [], ◌∷◌, ◌++◌, select, select-append, append-nil, max, u64, ◌≡◌, refl, sym,
  ap, ◌∙◌, arith, subst,
}
use gotato.Session.Subscription.{
  EventClass, is_stored, Subscription, caught, rejoin, last_number, look_over,
}
use gotato.Session.Subscription.Log.{has_number, kept_ones, range, visible, visible-append}
use gotato.Session.Subscription.Exact.{
  IsExact, push_stored, push_numbered-IsExact, skip_numbered-IsExact, fall_behind-IsExact,
}

module _ {E : Type 0} (number : E → ℕ) (class : E → EventClass) (bound : ℕ) (log : ℕ → E)
    (keep : E → Bool) where
  -- The log gives each number its stored Event.
  pub record IsLog : Type 0 where
    pub nums : (k : ℕ) → number (log k) ≡ k
    pub kinds : (k : ℕ) → is_stored (class (log k)) ≡ true

  last_number-range : IsLog → (a m : ℕ) → last_number number (range log a m) a ≡ a + m
  unfolding range
  last_number-range i a zero = omega arith
  last_number-range i a (suc m) =
      ap (last_number number (range log (suc a) m)) (i.nums (suc a))
      ∙ last_number-range i (suc a) m
      ∙ sum
    where
      sum : suc a + m ≡ a + suc m
      sum = omega arith

  -- A stretch of the log holds stored Events alone.
  kept-range :
      IsLog
      → (a m : ℕ) → kept_ones class (select keep (range log a m)) ≡ select keep (range log a m)
  unfolding range select
  kept-range i a zero = refl
  kept-range i a (suc m) = ground (arith, i.kinds (suc a), kept-range i (suc a) m)

  pub caught-IsExact :
      IsLog
      → (n m : ℕ) (before : List E) (s : Subscription E)
      → IsExact number class bound log keep n before s
      → s.behind ≡ true
      → s.queue ≡ []
      → IsExact number class bound log keep n
          (before ++ select keep (range log s.resume m))
          (caught number (range log s.resume m) s)
  unfolding caught
  caught-IsExact i n m before s h b empty =
      let at = h.back b in
      let there : max s.cursor (last_number number (range log s.resume m) s.resume) ≡ s.resume + m =
        omega (arith, last_number-range i s.resume m, at) in
      record {
        whole =
            ap
              (λ (q : List E).
                kept_ones class ((before ++ select keep (range log s.resume m)) ++ q))
              empty
            ∙ ap (kept_ones class) (append-nil (before ++ select keep (range log s.resume m)))
            ∙ select-append (has_number class) before (select keep (range log s.resume m))
            ∙ ap₂ ◌++◌ (old_part at) (new_part i)
            ∙ visible-append log keep n s.resume (s.resume + m) (omega (arith, at, h.from))
                (omega arith)
            ∙ ap (visible log keep n) (sym there);
        from = omega (arith, there, at, h.from);
        is_set = h.is_set;
        back = λ _. omega (arith, there, last_number-range i s.resume m);
      }
    where
      old_part : s.resume ≡ s.cursor → kept_ones class before ≡ visible log keep n s.resume
      old_part at =
          sym (ap (kept_ones class) (append-nil before))
          ∙ ap (λ (q : List E). kept_ones class (before ++ q)) (sym empty)
          ∙ h.whole
          ∙ ap (visible log keep n) (sym at)

      new_part :
          IsLog
          → kept_ones class (select keep (range log s.resume m))
            ≡ visible log keep s.resume (s.resume + m)
      new_part i =
          let size : m ≡ s.resume + m - s.resume = omega arith in
          kept-range i s.resume m ∙ ap (λ k. select keep (range log s.resume k)) size

  pub rejoin-IsExact :
      (n last : ℕ) (before : List E) (s : Subscription E)
      → IsExact number class bound log keep n before s
      → IsExact number class bound log keep n before (rejoin last s)
  unfolding rejoin
  rejoin-IsExact n last before s h =
      if_cases (IsExact number class bound log keep n before) (leb last s.resume) _ _
        (λ _. record {
          whole = h.whole;
          from = h.from;
          is_set = refl;
          back = λ b. absurd (ground arith);
        })
        (λ _. h)

  look_one-IsExact :
      (n : ℕ) (before : List E) (e : E) (s : Subscription E)
      → IsExact number class bound log keep n before s
      → s.behind ≡ false
      → is_stored (class e) ≡ true
      → e ≡ log (number e)
      → number e ≡ suc s.cursor
      → IsExact number class bound log keep n before
          (record s { cursor = number e; queue = if keep e then s.queue ++ e ∷ [] else s.queue })
  look_one-IsExact n before e s h live st l q = elim (Bool-cases (keep e)) [
    | inl k ↦
        let p =
          subst (IsExact number class bound log keep n before)
            (push_stored number class bound log keep e s st)
            (push_numbered-IsExact number class bound log keep n before e s h live st l q k) in
        rw k (record { whole = p.whole; from = p.from; is_set = h.is_set; back = p.back })
    | inr k ↦
        let p = skip_numbered-IsExact number class bound log keep n before e s h live l q k in
        rw k (record { whole = p.whole; from = p.from; is_set = h.is_set; back = p.back })
  ]

  next_here : (c k : ℕ) → leb k c ≡ false → not (k == u64 (c + 1)) ≡ false → k ≡ suc c
  next_here c k a b = ground arith

  pub look_over-IsExact :
      IsLog
      → (n a m : ℕ) (before : List E) (s : Subscription E)
      → IsExact number class bound log keep n before s
      → s.behind ≡ false
      → IsExact number class bound log keep n before (look_over number keep (range log a m) s)
  unfolding look_over range
  look_over-IsExact i n a zero before s h live = h
  look_over-IsExact i n a (suc m) before s h live =
      let e = log (suc a) in
      if_cases (IsExact number class bound log keep n before) (leb (number e) s.cursor) _ _
        (λ _. look_over-IsExact i n (suc a) m before s h live)
        λ new.
          if_cases (IsExact number class bound log keep n before)
            (not (number e == u64 (s.cursor + 1))) _ _
            (λ _. fall_behind-IsExact number class bound log keep n before s h)
            λ next.
              look_over-IsExact i n (suc a) m before _
                (look_one-IsExact n before e s h live (i.kinds (suc a))
                  (ap log (sym (i.nums (suc a)))) (next_here s.cursor (number e) new next))
                live
