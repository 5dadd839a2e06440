-- ===== src/Session/Control/Limits.antt =====
-- The limits of a control queue, and its end.
use gotato.Base.{
  ℕ, suc, ◌+◌, ◌≤◌, Bool, true, false, not, ◌&&◌, if◌then◌else◌, List, [], ◌∷◌, ◌++◌, select, ◌≡◌,
  refl, arith, Bool-cases, inl, inr, u64, ap, ◌∙◌, append-nil,
}
use gotato.Base.Int.{ℤ, pos, succ, pred}
use gotato.Session.Control.{
  Control, ControlKind, ControlQueue, PerKind, at, change, same_kind, count, full, reserve, release,
  fill, add, put, take, take_notices, put_back, drain, seal, split, lease, count_if,
  new_control_queue,
}
use gotato.Session.Control.Order.{count_if-append, count_if-select}
use gotato.Session.Control.Desk.{
  Desk, Action, reserves, releases, fills, adds, takes, takes_notices, settles, puts_back, drains,
  seals, open_items, act, history, new_desk, settle_next,
}

-- h places are reserved, and with the messages that wait they do not pass the limit.
abbrev Room : ControlKind → ControlQueue → ℕ → Type 0
Room k q h = (at q.held k ≡ pos h) × (count k q + h ≤ at q.limit k)

abbrev pub Within : ControlKind → ControlQueue → Type 0
Within k q = (h : ℕ) × Room k q h

-- Another entry of the array is as it was.
at-change :
    (f : ℤ → ℤ) (j k : ControlKind) (a : PerKind ℤ)
    → at (change j f a) k ≡ (if same_kind j k then f (at a k) else at a k)
at-change f j k a = ground arith

reserve-Within : (j k : ControlKind) (q : ControlQueue) → Within k q → Within k (reserve j q).0
unfolding reserve count
reserve-Within j k q (h, r) = elim (Bool-cases (same_kind j k && not (full j q))) [
  | inl e ↦ (suc h, ground (arith, at-change succ j k q.held))
  | inr e ↦ (h, ground (arith, at-change succ j k q.held))
]

-- A place of this kind is reserved.
abbrev pub Holds : ControlKind → ControlQueue → Type 0
Holds j q = (h : ℕ) × (at q.held j ≡ pos (suc h))

release-Within :
    (j k : ControlKind) (q : ControlQueue) → Holds j q → Within k q → Within k (release j q)
unfolding release count
release-Within j k q (i, e) (h, r) = elim (Bool-cases (same_kind j k)) [
  | inl s ↦ (i, ground (arith, at-change pred j k q.held))
  | inr s ↦ (h, ground (arith, at-change pred j k q.held))
]

count-put :
    (k : ControlKind) (c : Control) (q : ControlQueue)
    → count k (put c q) ≡ count k q + (if same_kind c.kind k then 1 else 0)
unfolding count put count_if
count-put k c q = ground (
  arith,
  count_if-append (λ (d : Control). same_kind d.kind k) q.items
      (record c { seq = u64 (q.seq + 1) } ∷ []),
)

fill-Within :
    (k : ControlKind) (c : Control) (q : ControlQueue)
    → Holds c.kind q
    → Within k q
    → Within k (fill c q).0
unfolding fill release count
fill-Within k c q (i, e) (h, r) = elim (Bool-cases (same_kind c.kind k)) [
  | inl s ↦ (i, ground (arith, at-change pred c.kind k q.held, count-put k c (release c.kind q)))
  | inr s ↦ (h, ground (arith, at-change pred c.kind k q.held, count-put k c (release c.kind q)))
]

add-Within : (k : ControlKind) (c : Control) (q : ControlQueue) → Within k q → Within k (add c q).0
unfolding add
add-Within k c q (h, r) = (h, ground (arith, count-put k c q))

split-Within :
    (k : ControlKind) (pick : Control → Bool) (q : ControlQueue)
    → Within k q
    → Within k (split pick q).0
unfolding split count
split-Within k pick q (h, r) =
    (h, (r.0, omega (arith, count_if-select (λ d. same_kind d.kind k) pick q.items)))

-- A place is given back, or filled, only where one was reserved, and the Run settles all that it took.
abbrev pub Reserved : Action → Desk → Type 0
Reserved (releases k) d = Holds k d.queue
Reserved (fills c) d = Holds c.kind d.queue
Reserved puts_back d = open_items d.held_lease ≡ []
Reserved _ d = Unit {0}

abbrev pub AllReserved : List Action → Desk → Type 0
AllReserved [] d = Unit {0}
AllReserved (a ∷ as') d = Reserved a d × AllReserved as' (act a d)

settle-queue : (xs : List Control) (d : Desk) → (settle_next d xs).queue ≡ d.queue
settle-queue [] d = refl
settle-queue (x ∷ xs) d = refl

act-Within :
    (k : ControlKind) (a : Action) (d : Desk)
    → Reserved a d
    → Within k d.queue
    → Within k (act a d).queue
unfolding act take take_notices lease drain seal put_back
act-Within k (reserves j) d r w = reserve-Within j k d.queue w
act-Within k (releases j) d r w = release-Within j k d.queue r w
act-Within k (fills c) d r w = fill-Within k c d.queue r w
act-Within k (adds c) d r w = add-Within k c d.queue w
act-Within k (takes settling) d r w = split-Within k _ d.queue w
act-Within k takes_notices d r w = split-Within k _ d.queue w
act-Within k settles d r w = rw (settle-queue (open_items d.held_lease) d) w
act-Within k puts_back d r w = rw (r, put_back) w
act-Within k (drains b) d r w = split-Within k _ d.queue w
act-Within k seals d r w =
    unfold count in split-Within k (λ c. true) (record d.queue { sealed = true }) w

act-limit : (a : Action) (d : Desk) → (act a d).queue.limit ≡ d.queue.limit
unfolding act reserve release fill add put take take_notices lease split drain seal put_back
act-limit (reserves j) d = ground arith
act-limit (releases j) d = refl
act-limit (fills c) d = ground arith
act-limit (adds c) d = ground arith
act-limit (takes settling) d = refl
act-limit takes_notices d = refl
act-limit settles d = ap (λ q. q.limit) (settle-queue (open_items d.held_lease) d)
act-limit puts_back d = ground arith
act-limit (drains b) d = refl
act-limit seals d = refl

history-Within :
    (k : ControlKind) (as' : List Action) (d : Desk)
    → AllReserved as' d
    → Within k d.queue
    → Within k (history as' d).queue × ((history as' d).queue.limit ≡ d.queue.limit)
unfolding history
history-Within k [] d r w = (w, refl)
history-Within k (a ∷ as') d r w =
    let (v, e) = history-Within k as' (act a d) r.1 (act-Within k a d r.0 w) in
    (v, e ∙ act-limit a d)

new-Within : (k : ControlKind) (s f n : ℕ) → Within k (new_control_queue s f n)
unfolding new_control_queue count count_if
new-Within k s f n = (0, (ground arith, ground arith))

bound :
    (k : ControlKind) (s f n : ℕ) (q : ControlQueue) (h : ℕ)
    → count k q + h ≤ at q.limit k
    → q.limit ≡ (new_control_queue s f n).limit
    → count k q + h ≤ at (record { of_steer = s; of_follow_up = f; of_notice = n }) k
unfolding new_control_queue count
bound k s f n q h le e = rw e at le

-- In any history of a new queue in which places are given back or filled only after they were
-- reserved, and the Run settles all that it takes, the messages of each kind that wait, with the places
-- reserved for that kind, never pass its limit. So one that was given a place is never refused for want
-- of room.
pub history_limit :
    (k : ControlKind) (s f n : ℕ) (as' : List Action)
    → AllReserved as' (new_desk (new_control_queue s f n))
    → let q = (history as' (new_desk (new_control_queue s f n))).queue in
      (h : ℕ) × (at q.held k ≡ pos h)
      × (count k q + h ≤ at (record { of_steer = s; of_follow_up = f; of_notice = n }) k)
history_limit k s f n as' r =
    let (w, l) = history-Within k as' (new_desk (new_control_queue s f n)) r (new-Within k s f n) in
    (w.0, w.1.0, bound k s f n (history as' (new_desk (new_control_queue s f n))).queue w.0 w.1.1 l)

-- Sealed, with nothing in it or taken from it.
record IsOver (d : Desk) : Type 0 where
  closed : d.queue.sealed ≡ true
  empty : d.queue.items ≡ []
  none_taken : open_items d.held_lease ≡ []

split_empty : (pick : Control → Bool) (q : ControlQueue) → q.items ≡ [] → split pick q ≡ (q, [])
unfolding split select
split_empty pick q e = ground arith

act-IsOver :
    (a : Action) (d : Desk)
    → IsOver d
    → IsOver (act a d) × ((act a d).accepted ≡ d.accepted) × ((act a d).dropped ≡ d.dropped)
unfolding act reserve release fill add take take_notices lease drain seal put_back split select
act-IsOver (reserves k) d v = ground arith
act-IsOver (releases k) d v = ground arith
act-IsOver (fills c) d v = ground arith
act-IsOver (adds c) d v = ground arith
act-IsOver (takes settling) d v = ground arith
act-IsOver takes_notices d v = ground arith
act-IsOver settles d v = ground arith
act-IsOver puts_back d v = ground arith
act-IsOver (drains b) d v = ground (arith, append-nil d.dropped)
act-IsOver seals d v = ground (arith, append-nil d.dropped)

history-IsOver :
    (as' : List Action) (d : Desk)
    → IsOver d
    → ((history as' d).queue.items ≡ [])
      × ((history as' d).accepted ≡ d.accepted)
      × ((history as' d).dropped ≡ d.dropped)
unfolding history
history-IsOver [] d v = (v.empty, refl, refl)
history-IsOver (a ∷ as') d v =
    let (v', e, f) = act-IsOver a d v in
    let (empty, e', f') = history-IsOver as' (act a d) v' in (empty, e' ∙ e, f' ∙ f)

select-true : (cs : List Control) → select (λ c. true) cs ≡ cs
unfolding select
select-true [] = refl
select-true (c ∷ cs) = ap (λ (t : List Control). c ∷ t) (select-true cs)

select-false : (cs : List Control) → select (λ c. false) cs ≡ []
unfolding select
select-false [] = refl
select-false (c ∷ cs) = select-false cs

-- A seal removes every message that waits, and closes the queue for good: whatever is called after it,
-- no message is accepted, none waits, and none is dropped but those it removed. No lease is open at the
-- seal.
sealed_for_good :
    (as' : List Action) (d : Desk)
    → open_items d.held_lease ≡ []
    → let e = history as' (act seals d) in
      (e.queue.items ≡ []) × (e.accepted ≡ d.accepted) × (e.dropped ≡ d.dropped ++ d.queue.items)
unfolding act seal split
sealed_for_good as' d e =
    let (empty, same, out) =
      history-IsOver as' (act seals d)
        record { closed = refl; empty = select-false d.queue.items; none_taken = e } in
    (empty, same, out ∙ ap (λ (t : List Control). d.dropped ++ t) (select-true d.queue.items))
