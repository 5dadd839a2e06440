-- ===== src/Session/Delivery/Requeue.antt =====
-- requeue of gotato/queue.go: what the next Session gets of the messages that one left, and in what
-- order.
use gotato.Base.{
  ◌+◌, Bool, true, false, not, ◌&&◌, ◌||◌, if◌then◌else◌, List, [], ◌∷◌, ◌++◌, append_assoc,
  append-nil, u64, ◌≡◌, refl, sym, ap, arith, ◌∙◌, ◌⊎◌, inl, inr, Bool-cases,
}
use gotato.Session.Control.{
  ControlKind, steer, follow_up, notice_kind, Control, ControlQueue, same_kind, count, count_if,
  add, put, full,
}
use gotato.Session.Delivery.{
  RunState, Queued, control_gate, control_of, is_sent, is_steer, requeue_one, requeue,
}

-- Each of the messages went into the queue or was handed back, in the order that they had.
abbrev pub Shared : List Queued → List Control → List Queued → Type 0
Shared [] new rest = (new ≡ []) × (rest ≡ [])
Shared (m ∷ ms) new rest =
    ((c : Control) × (cs : List Control) × (new ≡ c ∷ cs)
      × (c.message ≡ m.message)
      × Shared ms cs rest)
    ⊎ ((ms' : List Queued) × (rest ≡ m ∷ ms') × Shared ms new ms')

abbrev pub no_steer : List Control → Bool
no_steer [] = true
no_steer (c ∷ cs) = not (is_steer c.kind) && no_steer cs

abbrev pub is_follow_up : ControlKind → Bool
is_follow_up follow_up = true
is_follow_up _ = false

-- No Steer stands behind a FollowUp.
abbrev pub steers_first : List Control → Bool
steers_first [] = true
steers_first (c ∷ cs) = (if is_follow_up c.kind then no_steer cs else true) && steers_first cs

count_if-append :
    (p : Control → Bool) (xs ys : List Control)
    → count_if p (xs ++ ys) ≡ count_if p xs + count_if p ys
unfolding count_if
count_if-append p [] ys = omega arith
count_if-append p (x ∷ xs) ys = ground (arith, count_if-append p xs ys)

-- A message of another kind leaves no room for a Steer where there was none.
put-full : (c : Control) (q : ControlQueue) → full steer q ≡ true → full steer (put c q) ≡ true
unfolding put count count_if
put-full c q h = ground (
  arith,
  count_if-append (λ d. same_kind d.kind steer) q.items (record c { seq = u64 (q.seq + 1) } ∷ []),
)

-- What one message does to the queue.
abbrev Outcome : Queued → ControlQueue → ControlQueue → Bool → Type 0
Outcome m q q' put' =
    ((put' ≡ false) × (q' ≡ q))
    ⊎ ((c : Control) × (put' ≡ true)
        × (q'.items ≡ q.items ++ c ∷ [])
        × (c.message ≡ m.message)
        × (full steer q ≡ true → full steer q' ≡ true)
        × (is_steer c.kind ≡ true → full steer q ≡ false)
        × (is_follow_up c.kind ≡ true → full steer q ≡ true))

-- The two ways that add goes.
add_cases :
    (c : Control) (q : ControlQueue)
    → ((add c q ≡ (q, false)) × (q.sealed || full c.kind q ≡ true))
      ⊎ ((add c q ≡ (put c q, true)) × (q.sealed ≡ false) × (full c.kind q ≡ false))
unfolding add
add_cases c q = elim (Bool-cases (q.sealed || full c.kind q)) [
  | inl b ↦ inl (ground (arith, b), b)
  | inr b ↦ inr (ground (arith, b), ground arith, ground arith)
]

put-Outcome :
    (m : Queued) (c : Control) (q : ControlQueue)
    → c.message ≡ m.message
    → (is_steer c.kind ≡ true → full steer q ≡ false)
    → (is_follow_up c.kind ≡ true → full steer q ≡ true)
    → Outcome m q (put c q) true
unfolding put
put-Outcome m c q e s f =
    inr (record c { seq = u64 (q.seq + 1) }, refl, refl, e, put-full c q, s, f)

full_steer : (k : ControlKind) (q : ControlQueue) → is_steer k ≡ true → full k q ≡ full steer q
full_steer steer q h = refl
full_steer follow_up q h = ground arith
full_steer notice_kind q h = ground arith

same_message : (m : Queued) → (control_of m).message ≡ m.message
unfolding control_of
same_message m = refl

control_of_kind : (m : Queued) → is_follow_up (control_of m).kind ≡ false
unfolding control_of
control_of_kind m = ground arith

requeue_one-Outcome :
    (run : RunState) (m : Queued) (q : ControlQueue)
    → Outcome m q (requeue_one run m q).0 (requeue_one run m q).1
unfolding requeue_one
requeue_one-Outcome run m q = elim (Bool-cases (is_sent (control_gate false run))) [
  | inr g ↦ rw g (inl (refl, refl))
  | inl g ↦ elim (add_cases (control_of m) q) [
    | inr (e, u, r) ↦
        rw (g, e)
          (put-Outcome m (control_of m) q (same_message m)
            (λ k. sym (full_steer (control_of m).kind q k) ∙ r)
            (λ k. absurd (ground (arith, control_of_kind m))))
    | inl (e, r) ↦ elim (Bool-cases (is_steer (control_of m).kind)) [
      | inr k ↦ rw (g, e, k) (inl (refl, refl))
      | inl k ↦ elim (add_cases (record (control_of m) { kind = follow_up }) q) [
        | inl (e', r') ↦ rw (g, e, k, e') (inl (refl, refl))
        | inr (e', u, r') ↦
            rw (g, e, k, e')
              (put-Outcome m (record (control_of m) { kind = follow_up }) q (same_message m)
                (λ h. absurd (ground arith))
                (λ _. ground (arith, full_steer (control_of m).kind q k)))
      ]
    ]
  ]
]

-- What requeue leaves of the messages.
abbrev pub Requeued : ControlQueue → List Queued → ControlQueue → List Queued → Type 0
Requeued q ms q' rest =
    (new : List Control) × (q'.items ≡ q.items ++ new)
    × Shared ms new rest
    × (steers_first new ≡ true)
    × (full steer q ≡ true → no_steer new ≡ true)

requeue_next :
    (m : Queued) (ms : List Queued) (q q' q'' : ControlQueue) (put' : Bool) (rest : List Queued)
    → Outcome m q q' put'
    → Requeued q' ms q'' rest
    → Requeued q (m ∷ ms) q'' (if put' then rest else m ∷ rest)
requeue_next m ms q q' q'' put' rest (inl (p, e)) (new, i, s, f, n) = rw p (
  new,
  i ∙ ap (λ (x : ControlQueue). x.items ++ new) e,
  inr (rest, refl, s),
  f,
  λ h. n (ap (full steer) e ∙ h),
)
requeue_next m ms q q' q'' put' rest (inr (c, p, it, me, keep, st, fo)) (new, i, s, f, n) = rw p (
  c ∷ new,
  i ∙ ap (λ (x : List Control). x ++ new) it ∙ append_assoc q.items (c ∷ []) new,
  inl (c, new, refl, me, s),
  ground arith,
  λ h. ground arith,
)

-- Messages that are put back in, while no other call comes between: they stand behind those that
-- wait, those that went in and those that were handed back each in the order that they had, and no
-- Steer among the new ones stands behind a FollowUp.
requeue-Requeued :
    (run : RunState) (ms : List Queued) (q : ControlQueue)
    → Requeued q ms (requeue run ms q).0 (requeue run ms q).1
unfolding requeue
requeue-Requeued run [] q = ([], sym (append-nil q.items), (refl, refl), refl, λ _. refl)
requeue-Requeued run (m ∷ ms) q =
    let (q', put') = requeue_one run m q in
    let (q'', rest) = requeue run ms q' in
    requeue_next m ms q q' q'' put' rest (requeue_one-Outcome run m q) (requeue-Requeued run ms q')
