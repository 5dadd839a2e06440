-- ===== src/Session/Subscription/Exact.antt =====
-- What one subscriber has of a Session's log, and the offers to it (gotato/subscription.go).
use gotato.Base.{
  ℕ, suc, ◌+◌, ◌≤◌, ◌<◌, Bool, true, false, not, ◌&&◌, ltb, leb, if◌then◌else◌, some, List, [], ◌∷◌,
  ◌++◌, length, select, select-append, append_assoc, append-nil, u64, ◌≡◌, refl, sym, ap, ◌∙◌,
  arith, Option-cases, inl, inr, if_cases, option_cases,
}
use gotato.Session.Subscription.{
  EventClass, is_stored, is_delta, Subscription, drop_delta, fall_behind, push, no_room, make_room,
  enqueue, offer_numbered, offer_locked, offer,
}
use gotato.Session.Subscription.Log.{has_number, kept_ones, visible, visible-suc}

module _ {E : Type 0} (number : E → ℕ) (class : E → EventClass) (bound : ℕ) (log : ℕ → E)
    (keep : E → Bool) where
  -- The Events of `before` and then those of the queue are, but for deltas, the Events of the log after
  -- number n up to the cursor that pass the filter.
  pub record IsExact (n : ℕ) (before : List E) (s : Subscription E) : Type 0 where
    pub whole : kept_ones class (before ++ s.queue) ≡ visible log keep n s.cursor
    pub from : n ≤ s.cursor
    pub is_set : s.cursor_set ≡ true
    pub back : s.behind ≡ true → s.resume ≡ s.cursor

  -- An Event that a publisher offers: with a number it is the log's.
  abbrev pub OfLog : E → Type 0
  OfLog e = is_stored (class e) ≡ true → (e ≡ log (number e)) × (number e < 18446744073709551616)

  kept-snoc :
      (before queue : List E) (e : E)
      → kept_ones class (before ++ (queue ++ e ∷ []))
        ≡ kept_ones class (before ++ queue) ++ (if is_stored (class e) then e ∷ [] else [])
  unfolding select
  kept-snoc before queue e =
      ap (kept_ones class) (sym (append_assoc before queue (e ∷ [])))
      ∙ select-append (has_number class) (before ++ queue) (e ∷ [])

  -- A delta that leaves the queue is none of the stored ones.
  kept-drop_delta :
      (queue q : List E)
      → drop_delta number class false bound queue ≡ some q
      → kept_ones class q ≡ kept_ones class queue
  unfolding drop_delta select
  kept-drop_delta [] q e = ground (arith, e)
  kept-drop_delta (x ∷ xs) q e = elim (Option-cases (drop_delta number class false bound xs)) [
    | inl z ↦ ground (arith, e, z)
    | inr (q', z) ↦ ground (arith, e, z, kept-drop_delta xs q' z)
  ]

  pub push_stored :
      (e : E) (s : Subscription E)
      → is_stored (class e) ≡ true
      → push number class false bound e s
        ≡ record s { queue = s.queue ++ e ∷ []; cursor = number e; cursor_set = true }
  unfolding push
  push_stored e s h = ground (arith, h)

  push_other :
      (e : E) (s : Subscription E)
      → is_stored (class e) ≡ false
      → push number class false bound e s ≡ record s { queue = s.queue ++ e ∷ [] }
  unfolding push
  push_other e s h = ground (arith, h)

  -- The next Event of the log, with its place in what is visible.
  visible-next :
      (n : ℕ) (e : E) (s : Subscription E)
      → n ≤ s.cursor
      → e ≡ log (number e)
      → number e ≡ suc s.cursor
      → visible log keep n (number e)
        ≡ visible log keep n s.cursor ++ (if keep e then e ∷ [] else [])
  visible-next n e s f l q =
      let next : e ≡ log (suc s.cursor) = l ∙ ap log q in
      ap (visible log keep n) q
      ∙ visible-suc log keep n s.cursor f
      ∙ ap (λ x. visible log keep n s.cursor ++ (if keep x then x ∷ [] else [])) (sym next)

  pub push_numbered-IsExact :
      (n : ℕ) (before : List E) (e : E) (s : Subscription E)
      → IsExact n before s
      → s.behind ≡ false
      → is_stored (class e) ≡ true
      → e ≡ log (number e)
      → number e ≡ suc s.cursor
      → keep e ≡ true
      → IsExact n before (push number class false bound e s)
  push_numbered-IsExact n before e s h live st l q k = rw (push_stored e s st) (record {
    whole =
        kept-snoc before s.queue e
        ∙ ap (λ b. kept_ones class (before ++ s.queue) ++ (if b then e ∷ [] else [])) (st ∙ sym k)
        ∙ ap (λ (t : List E). t ++ (if keep e then e ∷ [] else [])) h.whole
        ∙ sym (visible-next n e s h.from l q);
    from = omega (arith, h.from, q);
    is_set = refl;
    back = λ b. absurd (ground (arith, live, b));
  })

  -- A filter that says no moves the cursor alone.
  pub skip_numbered-IsExact :
      (n : ℕ) (before : List E) (e : E) (s : Subscription E)
      → IsExact n before s
      → s.behind ≡ false
      → e ≡ log (number e)
      → number e ≡ suc s.cursor
      → keep e ≡ false
      → IsExact n before (record s { cursor = number e; cursor_set = true })
  skip_numbered-IsExact n before e s h live l q k = record {
    whole =
        h.whole
        ∙ sym (append-nil (visible log keep n s.cursor))
        ∙ ap (λ b. visible log keep n s.cursor ++ (if b then e ∷ [] else [])) (sym k)
        ∙ sym (visible-next n e s h.from l q);
    from = omega (arith, h.from, q);
    is_set = refl;
    back = λ b. absurd (ground (arith, live, b));
  }

  push_other-IsExact :
      (n : ℕ) (before : List E) (e : E) (s : Subscription E)
      → IsExact n before s
      → is_stored (class e) ≡ false
      → IsExact n before (push number class false bound e s)
  push_other-IsExact n before e s h st = rw (push_other e s st) (record {
    whole =
        kept-snoc before s.queue e
        ∙ ap (λ b. kept_ones class (before ++ s.queue) ++ (if b then e ∷ [] else [])) st
        ∙ append-nil (kept_ones class (before ++ s.queue))
        ∙ h.whole;
    from = h.from;
    is_set = h.is_set;
    back = h.back;
  })

  pub fall_behind-IsExact :
      (n : ℕ) (before : List E) (s : Subscription E)
      → IsExact n before s
      → IsExact n before (fall_behind s)
  unfolding fall_behind
  fall_behind-IsExact n before s h = record {
    whole = h.whole;
    from = h.from;
    is_set = h.is_set;
    back = λ b. refl;
  }

  make_room-IsExact :
      (n : ℕ) (before q : List E) (s : Subscription E)
      → IsExact n before s
      → drop_delta number class false bound s.queue ≡ some q
      → IsExact n before (make_room number class false bound q s)
  unfolding make_room
  make_room-IsExact n before q s h d = record {
    whole =
        select-append (has_number class) before q
        ∙ ap (λ (t : List E). kept_ones class before ++ t) (kept-drop_delta s.queue q d)
        ∙ sym (select-append (has_number class) before s.queue)
        ∙ h.whole;
    from = h.from;
    is_set = h.is_set;
    back = h.back;
  }

  no_room-IsExact :
      (n : ℕ) (before : List E) (e : E) (s : Subscription E)
      → IsExact n before s
      → IsExact n before (no_room number class false bound e s)
  unfolding no_room
  no_room-IsExact n before e s h =
      if_cases (IsExact n before) (is_delta (class e)) s (fall_behind s) (λ _. h)
        (λ _. fall_behind-IsExact n before s h)

  -- An Event that pushes well on every queue is queued well.
  enqueue-IsExact :
      (n : ℕ) (before : List E) (e : E) (s : Subscription E)
      → IsExact n before s
      → ((q : List E)
          → IsExact n before (record s { queue = q })
          → IsExact n before (push number class false bound e (record s { queue = q })))
      → IsExact n before (enqueue number class false bound e s)
  unfolding enqueue make_room
  enqueue-IsExact n before e s h pushes =
      if_cases (IsExact n before) (leb bound (length s.queue)) _ _
        (λ _.
          option_cases (IsExact n before) (drop_delta number class false bound s.queue) _ _
            (λ _. no_room-IsExact n before e s h)
            (λ q d. pushes q (make_room-IsExact n before q s h d)))
        (λ _. pushes s.queue h)

  next_number :
      (c k : ℕ)
      → leb k c ≡ false
      → ltb (u64 (c + 1)) k ≡ false
      → k < 18446744073709551616
      → k ≡ suc c
  next_number c k a b h = ground arith

  offer_numbered-IsExact :
      (n : ℕ) (before : List E) (e : E) (s : Subscription E)
      → IsExact n before s
      → s.behind ≡ false
      → is_stored (class e) ≡ true
      → OfLog e
      → IsExact n before (offer_numbered number class false bound e (keep e) s)
  unfolding offer_numbered
  offer_numbered-IsExact n before e s h live st of_log =
      if_cases (IsExact n before) (s.cursor_set && leb (number e) s.cursor) _ _ (λ _. h)
        λ old.
          if_cases (IsExact n before) (s.cursor_set && ltb (u64 (s.cursor + 1)) (number e)) _ _
            (λ _. fall_behind-IsExact n before s h)
            λ gap.
              let (l, small) = of_log st in
              let q : number e ≡ suc s.cursor =
                next_number s.cursor (number e) (ground (arith, h.is_set))
                  (ground (arith, h.is_set)) small in
              if_cases (IsExact n before) (not (keep e)) _ _
                (λ k. skip_numbered-IsExact n before e s h live l q (ground arith))
                (λ k. enqueue-IsExact n before e s h (λ rest hq.
                  push_numbered-IsExact n before e (record s { queue = rest }) hq live st l q
                    (ground arith)))

  pub offer-IsExact :
      (n : ℕ) (before : List E) (e : E) (s : Subscription E)
      → IsExact n before s
      → OfLog e
      → IsExact n before (offer number class false bound e (some (keep e)) s)
  unfolding offer offer_locked
  offer-IsExact n before e s h of_log =
      if_cases (IsExact n before) s.finished _ _ (λ _. h)
        λ _.
          if_cases (IsExact n before) (s.ending && not s.behind) _ _ (λ _. h)
            λ _.
              if_cases (IsExact n before) s.behind _ _ (λ _. h)
                λ live.
                  if_cases (IsExact n before) (is_stored (class e) && true) _ _
                    (λ st. offer_numbered-IsExact n before e s h live (ground arith) of_log)
                    (λ st.
                      if_cases (IsExact n before) (not (keep e)) _ _ (λ _. h)
                        (λ _. enqueue-IsExact n before e s h (λ rest hq.
                          push_other-IsExact n before e (record s { queue = rest }) hq
                            (ground arith))))
