-- ===== src/Session/Control/Ledger.antt =====
-- No message of a control queue is lost, none is there twice, and all wait in the order accepted.
use gotato.Base.{
  ℕ, zero, suc, ◌+◌, ◌≤◌, ◌<◌, Bool, true, false, not, ◌==◌, ◌||◌, if◌then◌else◌, List, [], ◌∷◌,
  ◌++◌, length, drop, drop_all, select, ◌≡◌, refl, arith, All, All-append, u64, ap, Bool-cases, inl,
  inr,
}
use gotato.Session.Control.{
  Control, ControlKind, ControlQueue, reserve, release, fill, add, take, take_notices, done,
  put_back, drain, seal, split, lease, count_if, new_control_queue, put, full,
}
use gotato.Session.Control.Order.{
  count_if-append, count_if-select, count_if-sort, occurs, Sorted, Ascending, sort-Sorted,
  select-Sorted, append-Sorted, Sorted-Ascending, All-select, All-sort, IsKnown, IsKnown-mono,
  Sorted-mono, Sorted-known, known_le, occurs-append_one,
}
use gotato.Session.Control.Desk.{
  Desk, Action, reserves, releases, fills, adds, takes, takes_notices, settles, puts_back, drains,
  seals, open_items, stamp, act, Allowed, history, AllAllowed, new_desk, taken, offered, removed,
  settle_next,
}

-- What the queue and the open lease hold between them.
pub record Kept (d : Desk) : Type 0 where
  pub waiting : Sorted 0 d.queue.items
  pub leased : Sorted 0 (open_items d.held_lease)
  pub waiting_known : All (IsKnown d.queue.seq) d.queue.items
  pub leased_known : All (IsKnown d.queue.seq) (open_items d.held_lease)
  pub fresh : (n : ℕ) → d.queue.seq < n → occurs n d.accepted ≡ 0
  pub once : (n : ℕ) → occurs n d.accepted ≤ 1
  pub ledger :
      (p : Control → Bool)
      → count_if p d.accepted
        ≡ count_if p d.settled
          + count_if p d.dropped
          + count_if p (open_items d.held_lease)
          + count_if p d.queue.items

fresh_put :
    (n k : ℕ) (c : Control) (xs : List Control)
    → suc k ≤ c.seq
    → c.seq < n
    → (k < n → occurs n xs ≡ 0)
    → occurs n (xs ++ c ∷ []) ≡ 0
fresh_put n k c xs e h f = ground (arith, occurs-append_one n xs c, f (omega arith))

once_put :
    (n k : ℕ) (c : Control) (xs : List Control)
    → suc k ≤ c.seq
    → (k < n → occurs n xs ≡ 0)
    → occurs n xs ≤ 1
    → occurs n (xs ++ c ∷ []) ≤ 1
once_put n k c xs e f o = ground (arith, occurs-append_one n xs c, f)

put-Kept :
    (c : Control) (d : Desk)
    → d.queue.seq + 1 < 18446744073709551616
    → Kept d
    → Kept (record d { queue = put c d.queue; accepted = d.accepted ++ stamp c d.queue ∷ [] })
unfolding put
put-Kept c d b v = record {
  waiting =
      append-Sorted 0 d.queue.seq d.queue.items (stamp c d.queue) v.waiting
        (known_le d.queue.seq d.queue.items v.waiting_known) (omega arith) (omega arith);
  leased = v.leased;
  waiting_known =
      All-append (IsKnown (u64 (d.queue.seq + 1))) d.queue.items (stamp c d.queue ∷ [])
        (IsKnown-mono d.queue.seq (u64 (d.queue.seq + 1)) d.queue.items (omega arith)
          v.waiting_known)
        ((omega arith, omega arith), tt);
  leased_known =
      IsKnown-mono d.queue.seq (u64 (d.queue.seq + 1)) (open_items d.held_lease) (omega arith)
        v.leased_known;
  fresh = λ n h. fresh_put n d.queue.seq (stamp c d.queue) d.accepted (omega arith) h (v.fresh n);
  once =
      λ n. once_put n d.queue.seq (stamp c d.queue) d.accepted (omega arith) (v.fresh n) (v.once n);
  ledger = λ p. omega (
    arith,
    v.ledger p,
    count_if-append p d.accepted (stamp c d.queue ∷ []),
    count_if-append p d.queue.items (stamp c d.queue ∷ []),
  );
}

-- Only the places and the limits of the queue differ, or whether it is sealed.
same-Kept :
    (d : Desk) (q : ControlQueue)
    → q.items ≡ d.queue.items
    → q.seq ≡ d.queue.seq
    → Kept d
    → Kept (record d { queue = q })
same-Kept d q e f v = record {
  waiting = rw e v.waiting;
  leased = v.leased;
  waiting_known = rw (e, f) v.waiting_known;
  leased_known = rw f v.leased_known;
  fresh = rw f v.fresh;
  once = v.once;
  ledger = λ p. rw e (v.ledger p);
}

-- A message is turned away, or put behind the others.
offered-Kept :
    (c : Control) (d : Desk) (full_or_sealed : Bool)
    → d.queue.seq + 1 < 18446744073709551616
    → Kept d
    → Kept (offered c d (if full_or_sealed then (d.queue, false) else (put c d.queue, true)))
offered-Kept c d true b v = v
offered-Kept c d false b v = put-Kept c d b v

reserve-Kept : (k : ControlKind) (d : Desk) → Kept d → Kept (act (reserves k) d)
unfolding act reserve
reserve-Kept k d v = elim (Bool-cases (full k d.queue)) [
  | inl e ↦ rw e v
  | inr e ↦ rw e (same-Kept d _ refl refl v)
]

lease-Kept :
    (pick : Control → Bool) (d : Desk)
    → open_items d.held_lease ≡ []
    → Kept d
    → Kept (taken d (lease pick d.queue))
unfolding lease split count_if
lease-Kept pick d none_open v = record {
  waiting = select-Sorted (λ c. not (pick c)) 0 d.queue.items v.waiting;
  leased = select-Sorted pick 0 d.queue.items v.waiting;
  waiting_known =
      All-select (IsKnown d.queue.seq) (λ c. not (pick c)) d.queue.items v.waiting_known;
  leased_known = All-select (IsKnown d.queue.seq) pick d.queue.items v.waiting_known;
  fresh = v.fresh;
  once = v.once;
  ledger = λ p.
      omega (arith, v.ledger p, ap (count_if p) none_open, count_if-select p pick d.queue.items);
}

split-Kept : (pick : Control → Bool) (d : Desk) → Kept d → Kept (removed d (split pick d.queue))
unfolding split
split-Kept pick d v = record {
  waiting = select-Sorted (λ c. not (pick c)) 0 d.queue.items v.waiting;
  leased = v.leased;
  waiting_known =
      All-select (IsKnown d.queue.seq) (λ c. not (pick c)) d.queue.items v.waiting_known;
  leased_known = v.leased_known;
  fresh = v.fresh;
  once = v.once;
  ledger = λ p. omega (
    arith,
    v.ledger p,
    count_if-select p pick d.queue.items,
    count_if-append p d.dropped (select pick d.queue.items),
  );
}

-- The next message of a lease, and those after it.
drop-next :
    (n : ℕ) (xs : List Control) (c : Control) (cs : List Control)
    → drop n xs ≡ c ∷ cs
    → drop (suc n) xs ≡ cs
drop-next zero [] c cs e = cc
drop-next zero (x ∷ xs) c cs e = cc
drop-next (suc n) [] c cs e = cc
drop-next (suc n) (x ∷ xs) c cs e = drop-next n xs c cs e

settle-Kept :
    (xs : List Control) (d : Desk) → open_items d.held_lease ≡ xs → Kept d → Kept (settle_next d xs)
unfolding done count_if
settle-Kept [] d e v = v
settle-Kept (c ∷ cs) d e v =
    let next = drop-next d.held_lease.settled d.held_lease.items c cs e in
    let in_order : Sorted 0 (c ∷ cs) = rw e at v.leased in
    let known : All (IsKnown d.queue.seq) (c ∷ cs) = rw e at v.leased_known in
    record {
      waiting = v.waiting;
      leased = rw next (Sorted-mono 0 c.seq cs (omega arith) in_order.1);
      waiting_known = v.waiting_known;
      leased_known = rw next known.1;
      fresh = v.fresh;
      once = v.once;
      ledger = λ p. omega (
        arith,
        v.ledger p,
        ap (count_if p) e,
        ap (count_if p) next,
        count_if-append p d.settled (c ∷ []),
        count_if-append p (c ∷ []) cs,
      );
    }

put_back-Kept :
    (xs : List Control) (d : Desk) → open_items d.held_lease ≡ xs → Kept d → Kept (act puts_back d)
unfolding act put_back count_if
put_back-Kept [] d e v = rw (e, put_back) v
put_back-Kept (c ∷ cs) d e v =
    let none_left = drop_all (length d.held_lease.items) d.held_lease.items (omega arith) in
    let known : All (IsKnown d.queue.seq) (c ∷ cs) = rw e at v.leased_known in
    rw (e, put_back)
      record {
        waiting = sort-Sorted ((c ∷ cs) ++ d.queue.items);
        leased = rw none_left tt;
        waiting_known =
            All-sort (IsKnown d.queue.seq) ((c ∷ cs) ++ d.queue.items)
              (All-append (IsKnown d.queue.seq) (c ∷ cs) d.queue.items known v.waiting_known);
        leased_known = rw none_left tt;
        fresh = v.fresh;
        once = v.once;
        ledger = λ p. omega (
          arith,
          v.ledger p,
          ap (count_if p) e,
          ap (count_if p) none_left,
          count_if-sort p ((c ∷ cs) ++ d.queue.items),
          count_if-append p (c ∷ cs) d.queue.items,
        );
      }

-- Every action keeps the account.
pub act-Kept : (a : Action) (d : Desk) → Allowed a d → Kept d → Kept (act a d)
unfolding act take take_notices drain seal release fill add
act-Kept (reserves k) d h v = reserve-Kept k d v
act-Kept (releases k) d h v = same-Kept d _ refl refl v
act-Kept (fills c) d h v =
    offered-Kept c (record d { queue = release c.kind d.queue }) d.queue.sealed h
      (same-Kept d _ refl refl v)
act-Kept (adds c) d h v = offered-Kept c d (d.queue.sealed || full c.kind d.queue) h v
act-Kept (takes settling) d h v = lease-Kept _ d h v
act-Kept takes_notices d h v = lease-Kept _ d h v
act-Kept settles d h v = settle-Kept (open_items d.held_lease) d refl v
act-Kept puts_back d h v = put_back-Kept (open_items d.held_lease) d refl v
act-Kept (drains b) d h v = split-Kept _ d v
act-Kept seals d h v =
    split-Kept (λ c. true) (record d { queue = record d.queue { sealed = true } })
      (same-Kept d _ refl refl v)

history-Kept : (as' : List Action) (d : Desk) → AllAllowed as' d → Kept d → Kept (history as' d)
unfolding history
history-Kept [] d h v = v
history-Kept (a ∷ as') d h v = history-Kept as' (act a d) h.1 (act-Kept a d h.0 v)

new-Kept : (s f n : ℕ) → Kept (new_desk (new_control_queue s f n))
unfolding new_control_queue count_if
new-Kept s f n = record {
  waiting = tt;
  leased = tt;
  waiting_known = tt;
  leased_known = tt;
  fresh = λ n h. refl;
  once = λ n. omega arith;
  ledger = λ p. refl;
}

-- After any history of a new queue, with one lease at a time and fewer than 2^64 messages, every
-- message accepted has been settled by the Run, or dropped, or is in the lease in progress, or waits,
-- and exactly once: whatever test p of messages is counted.
pub history_ledger :
    (s f n : ℕ) (as' : List Action) (p : Control → Bool)
    → AllAllowed as' (new_desk (new_control_queue s f n))
    → let d = history as' (new_desk (new_control_queue s f n)) in
      count_if p d.accepted
      ≡ count_if p d.settled
        + count_if p d.dropped
        + count_if p (open_items d.held_lease)
        + count_if p d.queue.items
history_ledger s f n as' p h =
    (history-Kept as' (new_desk (new_control_queue s f n)) h (new-Kept s f n)).ledger p

-- In such a history the messages that wait stand in the order in which they were accepted, and so do
-- those of the lease in progress: their numbers rise strictly, whatever was taken and put back.
pub history-Ascending :
    (s f n : ℕ) (as' : List Action)
    → AllAllowed as' (new_desk (new_control_queue s f n))
    → let d = history as' (new_desk (new_control_queue s f n)) in
      Ascending 0 d.queue.items × Ascending 0 (open_items d.held_lease)
history-Ascending s f n as' h =
    let d = history as' (new_desk (new_control_queue s f n)) in
    let v = history-Kept as' (new_desk (new_control_queue s f n)) h (new-Kept s f n) in
    (
      Sorted-Ascending 0 d.queue.items
          (Sorted-known d.queue.seq d.queue.items v.waiting_known v.waiting)
          (λ k. omega (arith, v.once k, v.ledger (λ c. c.seq == k))),
      Sorted-Ascending 0 (open_items d.held_lease)
          (Sorted-known d.queue.seq (open_items d.held_lease) v.leased_known v.leased)
          (λ k. omega (arith, v.once k, v.ledger (λ c. c.seq == k))),
    )
