-- ===== src/Session/Control/Boundary.antt =====
-- What a Run takes at a boundary, and what putting it back restores.
use gotato.Base.{
  ℕ, ◌≤◌, ◌<◌, Bool, true, false, not, List, [], ◌∷◌, ◌++◌, select, ◌≡◌, refl, arith, All, ap, ◌∙◌,
  ◌⊎◌, Bool-cases, inl, inr,
}
use gotato.Session.Control.{
  Control, ControlQueue, ControlKind, steer, follow_up, notice_kind, same_kind, Lease, take,
  put_back, lease, split, sort, place, any_wanted, is_notice, picks,
}
use gotato.Session.Control.Order.{Ascending, All-select, All-sort}

-- Every number of the list is above n.
abbrev Above : ℕ → List Control → Type 0
Above n = All (λ c. n < c.seq)

Ascending-Above : (m n : ℕ) (cs : List Control) → m ≤ n → Ascending n cs → Above m cs
Ascending-Above m n [] h a = tt
Ascending-Above m n (c ∷ cs) h a = (omega arith, Ascending-Above m c.seq cs (omega arith) a.1)

place_first : (c : Control) (cs : List Control) → Above c.seq cs → place c cs ≡ c ∷ cs
unfolding place
place_first c [] h = refl
place_first c (d ∷ ds) h = ground arith

place_behind :
    (p c : Control) (cs : List Control) → c.seq < p.seq → place p (c ∷ cs) ≡ c ∷ place p cs
unfolding place
place_behind p c cs h = ground arith

-- The least of two lists comes first when they are sorted together.
sort_least :
    (c : Control) (ps ls : List Control)
    → Above c.seq ps
    → Above c.seq ls
    → sort (ps ++ c ∷ ls) ≡ c ∷ sort (ps ++ ls)
unfolding sort
sort_least c [] ls hp hl = place_first c (sort ls) (All-sort (λ d. c.seq < d.seq) ls hl)
sort_least c (p ∷ ps) ls hp hl =
    rw (sort_least c ps ls hp.1 hl) (place_behind p c (sort (ps ++ ls)) hp.0)

sort_parts :
    (pick : Control → Bool) (b : ℕ) (cs : List Control)
    → Ascending b cs
    → sort (select pick cs ++ select (λ c. not (pick c)) cs) ≡ cs
unfolding select sort
sort_parts pick b [] a = refl
sort_parts pick b (c ∷ cs) a = elim (Bool-cases (pick c)) [
  | inl e ↦ rw e (
      rw (sort_parts pick c.seq cs a.1)
        (place_first c cs (Ascending-Above c.seq c.seq cs (omega arith) a.1)))
  | inr e ↦ rw e (
      sort_least c (select pick cs) (select (λ x. not (pick x)) cs)
        (All-select (λ d. c.seq < d.seq) pick cs above)
        (All-select (λ d. c.seq < d.seq) (λ x. not (pick x)) cs above)
      ∙ ap (λ (t : List Control). c ∷ t) (sort_parts pick c.seq cs a.1))
]
  where
    above : Above c.seq cs
    above = Ascending-Above c.seq c.seq cs (omega arith) a.1

select_rest :
    (pick : Control → Bool) (cs : List Control)
    → select pick cs ≡ []
    → select (λ c. not (pick c)) cs ≡ cs
unfolding select
select_rest pick [] e = refl
select_rest pick (c ∷ cs) e = ground (arith, select_rest pick cs)

put_back_picked :
    (pick : Control → Bool) (b : ℕ) (q : ControlQueue) (picked : List Control)
    → select pick q.items ≡ picked
    → Ascending b q.items
    → (put_back (lease pick q).1 (lease pick q).0).0 ≡ q
unfolding put_back lease
put_back_picked pick b q [] e a =
    rw (e, put_back) (ap (λ t. record q { items = t }) (select_rest pick q.items e))
put_back_picked pick b q (c ∷ cs) e a =
    rw (e, put_back) (ap (λ t. record q { items = t }) (rw e at (sort_parts pick b q.items a)))

-- A Run that takes messages at a boundary and commits none of them, while no other call comes in,
-- leaves the queue as it was when it puts them back: each message is in its old place. The messages
-- wait in the order of their numbers.
pub take-put_back :
    (settling : Bool) (b : ℕ) (q : ControlQueue)
    → Ascending b q.items
    → (put_back (take settling q).1 (take settling q).0).0 ≡ q
unfolding take
take-put_back settling b q a = put_back_picked _ b q _ refl a

abbrev pub OnlyNotices : List Control → Type 0
OnlyNotices = All (λ c. is_notice c.kind ≡ true)

abbrev all_of : List Control → Lease
all_of cs = record { items = cs; settled = 0 }

abbrev AnyWanted : List Control → Type 0
AnyWanted cs =
    ((any_wanted true cs ≡ true) × (OnlyNotices cs → ⊥))
    ⊎ ((any_wanted true cs ≡ false) × OnlyNotices cs)

AnyWanted-first :
    (c : Control) (cs : List Control) (k : ControlKind)
    → c.kind ≡ k
    → AnyWanted cs
    → AnyWanted (c ∷ cs)
unfolding any_wanted
AnyWanted-first c cs steer e h = inl (ground arith, λ a. ground arith)
AnyWanted-first c cs follow_up e h = inl (ground arith, λ a. ground arith)
AnyWanted-first c cs notice_kind e (inl h) = inl (ground arith, λ a. h.1 a.1)
AnyWanted-first c cs notice_kind e (inr h) = inr (ground arith, (ground arith, h.1))

AnyWanted-cases : (cs : List Control) → AnyWanted cs
unfolding any_wanted
AnyWanted-cases [] = inr (refl, tt)
AnyWanted-cases (c ∷ cs) = AnyWanted-first c cs c.kind refl (AnyWanted-cases cs)

-- Everything is picked, or nothing is.
select_every :
    (cs : List Control)
    → (select (picks true true) cs ≡ cs) × (select (λ c. not (picks true true c)) cs ≡ [])
unfolding select
select_every [] = (refl, refl)
select_every (c ∷ cs) = (ground (arith, (select_every cs).0), ground (arith, (select_every cs).1))

select_notices :
    (cs : List Control)
    → OnlyNotices cs
    → (select (picks true false) cs ≡ []) × (select (λ c. not (picks true false c)) cs ≡ cs)
unfolding select
select_notices [] a = (refl, refl)
select_notices (c ∷ cs) a =
    (ground (arith, (select_notices cs a.1).0), ground (arith, (select_notices cs a.1).1))

-- Where a Run would settle it takes every message that waits, in order, if one of them is no notice.
-- If only notices wait it takes nothing, so that a notice never keeps a Run going.
take_settling :
    (q : ControlQueue)
    → ((OnlyNotices q.items → ⊥)
        × (take true q ≡ (record q { items = [] }, record { items = q.items; settled = 0 })))
      ⊎ (OnlyNotices q.items × (take true q ≡ (q, record { items = []; settled = 0 })))
unfolding take lease split
take_settling q = elim (AnyWanted-cases q.items) [
  | inl h ↦ inl (h.1, rw h.0 (rw ((select_every q.items).0, (select_every q.items).1)))
  | inr h ↦ inr (h.1, rw h.0 (rw ((select_notices q.items h.1).0, (select_notices q.items h.1).1)))
]

abbrev pub is_follow_up : Control → Bool
is_follow_up c = same_kind c.kind follow_up

select_between :
    (cs : List Control)
    → (select (picks false true) cs ≡ select (λ c. not (is_follow_up c)) cs)
      × (select (λ c. not (picks false true c)) cs ≡ select is_follow_up cs)
unfolding select
select_between [] = (refl, refl)
select_between (c ∷ cs) =
    (ground (arith, (select_between cs).0), ground (arith, (select_between cs).1))

-- Between two Turns a Run takes the Steers, the Interrupts and the notices, in order, and the
-- FollowUps stay, in order.
pub take_between_turns :
    (q : ControlQueue)
    → take false q ≡ (
      record q { items = select is_follow_up q.items },
      record { items = select (λ c. not (is_follow_up c)) q.items; settled = 0 },
    )
unfolding take lease split
take_between_turns q = rw ((select_between q.items).0, (select_between q.items).1)
