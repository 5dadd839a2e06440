-- ===== src/Host/Runs/Drain.antt =====
-- The drain of an Instance: when its channel is closed, and what holds from then on.
use gotato.Base.{
  ℕ, zero, suc, Bool, true, false, ◌||◌, Option, none, some, List, [], ◌∷◌, Bytes, is_some, Result,
  ok, err, ◌≡◌, refl, arith, Eq, ap, ◌∙◌, Option-cases, inl, inr, subst, sym,
}
use gotato.Base.Int.{ℤ, pos, negsuc, succ, pred, positive}
use gotato.Host.Warm.{Cache}
use gotato.Host.Runs.{
  Table, Memory, Decide, refused_draining, admit, bounded, enter, over_bound, register, done, lock,
  unlock, drain, wake, remove, move, new_table, ask, counts, is_zero,
}

pub data TableStep (H E R V : Type 0) : Type 0 where
  admits : H → Bytes → Memory V → Decide E R → TableStep H E R V
  dones locks unlocks drains wakes : TableStep H E R V
  moves : H → Bytes → Bytes → TableStep H E R V
  removes : H → Bytes → TableStep H E R V

module _ {H E R V : Type 0} ⦃e : Eq H⦄ where
  unfoldable pub table_step : TableStep H E R V → Table H → Table H
  table_step (admits h id mem decide) t = (admit h id mem decide t).0
  table_step dones t = done t
  table_step locks t = lock t
  table_step unlocks t = unlock t
  table_step drains t = (drain t).0
  table_step wakes t = wake t
  table_step (moves h from to) t = move h from to t
  table_step (removes h id) t = remove h id t

  unfoldable pub table_steps : List (TableStep H E R V) → Table H → Table H
  table_steps [] t = t
  table_steps (s ∷ ss) t = table_steps ss (table_step s t)

-- The channel is made by a drain, and closed when no Run is in flight; and the goroutine waits only
-- while there is something to wait for.
pub record Sound {H : Type 0} (t : Table H) : Type 0 where
  pub made : is_some t.drained ≡ true → t.draining ≡ true
  pub closed : t.drained ≡ some true → positive t.inflight ≡ false
  pub idle : t.drained ≡ none → t.waiting ≡ false
  pub waits : t.waiting ≡ true → positive t.inflight || positive t.locked ≡ true

succ-positive : (z : ℤ) → positive z ≡ true → positive (succ z) ≡ true
succ-positive (pos n) e = refl
succ-positive (negsuc n) e = absurd (ground arith)

-- What is counted down is still there, unless the count reached 0.
pred-positive : (z : ℤ) → positive z ≡ true → is_zero (pred z) ≡ false → positive (pred z) ≡ true
pred-positive (pos zero) e n = absurd (ground arith)
pred-positive (pos (suc zero)) e n = absurd (ground arith)
pred-positive (pos (suc (suc k))) e n = refl
pred-positive (negsuc n) e m = absurd (ground arith)

abbrev drain_of : {H : Type 0} → Table H → Option Bool × Bool
drain_of t = (t.drained, t.waiting)

module _ {H E R : Type 0} where
  enter-drained :
      (V : Type 0) (h : H) (id : Bytes) (d : Result E (Option R)) (t : Table H)
      → drain_of (enter {V = V} h id d t).0 ≡ drain_of t
  unfolding enter register
  enter-drained V h id (err x) t = refl
  enter-drained V h id (ok r) t = refl

module _ {H E R V : Type 0} where
  pub admit_draining :
      (h : H) (id : Bytes) (mem : Memory V) (decide : Decide E R) (t : Table H)
      → t.draining ≡ true
      → admit h id mem decide t ≡ (t, refused_draining)
  unfolding admit
  admit_draining h id mem decide t d = ground arith

  bounded-drained :
      (h : H) (id : Bytes) (limit : ℕ) (c : Option (Cache V)) (decide : Decide E R) (t : Table H)
      → drain_of (bounded h id limit c decide t).0 ≡ drain_of t
  unfolding bounded over_bound
  bounded-drained h id limit none decide t = refl
  bounded-drained h id limit (some c) decide t =
      ground (arith, enter-drained V h id (ask decide (counts (some c) t)) t)

  admit-drained :
      (h : H) (id : Bytes) (mem : Memory V) (decide : Decide E R) (t : Table H)
      → drain_of (admit h id mem decide t).0 ≡ drain_of t
  unfolding admit
  admit-drained h id mem decide t = ground (
    arith,
    enter-drained V h id (ask decide (counts mem.cache t)) t,
    bounded-drained h id mem.max_sessions mem.cache decide t,
  )

  -- With no channel a Run may be admitted; with one it is refused.
  admit-Sound :
      (h : H) (id : Bytes) (mem : Memory V) (decide : Decide E R) (t : Table H)
      → Sound t
      → Sound (admit h id mem decide t).0
  admit-Sound h id mem decide t s = elim (Option-cases t.drained) [
    | inl e ↦
        let same = admit-drained h id mem decide t in
        let none' = ap (λ x. x.0) same ∙ e in
        let awake = ap (λ x. x.1) same ∙ s.idle e in
        record {
          made = λ m. ground arith;
          closed = λ m. ground arith;
          idle = λ n. awake;
          waits = λ n. absurd (ground arith);
        }
    | inr (b, e) ↦
        subst Sound (sym (ap (λ x. x.0) (admit_draining h id mem decide t (s.made (ap is_some e)))))
          s
  ]

register-Sound : {H : Type 0} (h : H) (id : Bytes) (t : Table H) → Sound t → Sound (register h id t)
unfolding register
register-Sound h id t s = record {
  made = s.made;
  closed = s.closed;
  idle = s.idle;
  waits = s.waits;
}

done-Sound : {H : Type 0} (t : Table H) → Sound t → Sound (done t)
unfolding done
done-Sound t s = record {
  made = s.made;
  closed = λ m. ground (arith, s.closed);
  idle = λ n. ground (arith, s.idle);
  waits = λ n. ground (arith, s.waits, pred-positive t.inflight);
}

lock-Sound : {H : Type 0} (t : Table H) → Sound t → Sound (lock t)
unfolding lock
lock-Sound t s = record {
  made = s.made;
  closed = s.closed;
  idle = s.idle;
  waits = λ n. ground (arith, s.waits, succ-positive t.locked);
}

unlock-Sound : {H : Type 0} (t : Table H) → Sound t → Sound (unlock t)
unfolding unlock
unlock-Sound t s = record {
  made = s.made;
  closed = s.closed;
  idle = λ n. ground (arith, s.idle);
  waits = λ n. ground (arith, s.waits, pred-positive t.locked);
}

drain-Sound : {H : Type 0} (t : Table H) → Sound t → Sound (drain t).0
unfolding drain
drain-Sound t s = ground (arith, s.made, s.closed, s.idle, s.waits)

wake-Sound : {H : Type 0} (t : Table H) → Sound t → Sound (wake t)
unfolding wake
wake-Sound t s = ground (arith, s.made, s.closed, s.idle, s.waits)

module _ {H : Type 0} ⦃e : Eq H⦄ where
  move-Sound : (h : H) (from to : Bytes) (t : Table H) → Sound t → Sound (move h from to t)
  unfolding move register remove
  move-Sound h from to t s = ground (arith, s.made, s.closed, s.idle, s.waits)

  remove-Sound : (h : H) (id : Bytes) (t : Table H) → Sound t → Sound (remove h id t)
  unfolding remove
  remove-Sound h id t s = record {
    made = s.made;
    closed = s.closed;
    idle = s.idle;
    waits = s.waits;
  }

new-Sound : {H : Type 0} → Sound (new_table {H = H})
new-Sound = record {
  made = λ m. cc;
  closed = λ m. cc;
  idle = λ n. refl;
  waits = λ n. absurd (ground arith);
}

module _ {H E R V : Type 0} ⦃e : Eq H⦄ where
  step-Sound : (s : TableStep H E R V) (t : Table H) → Sound t → Sound (table_step s t)
  unfolding table_step
  step-Sound (admits h id mem decide) t v = admit-Sound h id mem decide t v
  step-Sound dones t v = done-Sound t v
  step-Sound locks t v = lock-Sound t v
  step-Sound unlocks t v = unlock-Sound t v
  step-Sound drains t v = drain-Sound t v
  step-Sound wakes t v = wake-Sound t v
  step-Sound (moves h from to) t v = move-Sound h from to t v
  step-Sound (removes h id) t v = remove-Sound h id t v

  steps-Sound : (ss : List (TableStep H E R V)) (t : Table H) → Sound t → Sound (table_steps ss t)
  unfolding table_steps
  steps-Sound [] t v = v
  steps-Sound (s ∷ ss) t v = steps-Sound ss (table_step s t) (step-Sound s t v)

  -- In any history of a new table, once the channel of the drain is closed, no admitted Run is in flight,
  -- and the table refuses every Run and stays as it is.
  pub drained_idle :
      (ss : List (TableStep H E R V))
      → let t = table_steps ss (new_table {H = H}) in
        t.drained ≡ some true
        → (positive t.inflight ≡ false)
          × ((h : H) (id : Bytes) (mem : Memory V) (decide : Decide E R)
              → admit h id mem decide t ≡ (t, refused_draining))
  drained_idle ss closed =
      let t = table_steps ss (new_table {H = H}) in
      let v = steps-Sound ss (new_table {H = H}) new-Sound in
      (
        v.closed closed,
        λ h id mem decide. admit_draining h id mem decide t (v.made (ap is_some closed)),
      )

-- The ends of Runs and of callers of Locked, among the looks of the goroutine.
pub data Ending : Type 0 where
  run_ends lock_ends looks : Ending

module _ {H : Type 0} where
  unfoldable pub endings : List Ending → Table H → Table H
  endings [] t = t
  endings (run_ends ∷ es) t = endings es (done t)
  endings (lock_ends ∷ es) t = endings es (unlock t)
  endings (looks ∷ es) t = endings es (wake t)

abbrev pub runs_in : List Ending → ℕ
runs_in [] = 0
runs_in (run_ends ∷ es) = suc (runs_in es)
runs_in (_ ∷ es) = runs_in es

abbrev pub locks_in : List Ending → ℕ
locks_in [] = 0
locks_in (lock_ends ∷ es) = suc (locks_in es)
locks_in (_ ∷ es) = locks_in es

module _ {H : Type 0} where
  wake-counts :
      (t : Table H)
      → ((wake t).inflight ≡ t.inflight)
        × ((wake t).locked ≡ t.locked)
        × (is_some (wake t).drained ≡ is_some t.drained)
  unfolding wake
  wake-counts t = ground arith

  -- With nothing left the goroutine does not wait, and its look closes the channel.
  wake_last :
      (t : Table H)
      → Sound t
      → t.inflight ≡ pos 0
      → t.locked ≡ pos 0
      → is_some t.drained ≡ true
      → (wake t).drained ≡ some true
  unfolding wake
  wake_last t s i l d = ground (arith, s.waits)

  endings_close :
      (es : List Ending) (t : Table H)
      → Sound t
      → t.inflight ≡ pos (runs_in es)
      → t.locked ≡ pos (locks_in es)
      → is_some t.drained ≡ true
      → (wake (endings es t)).drained ≡ some true
  unfolding endings done unlock
  endings_close [] t s i l d = wake_last t s i l d
  endings_close (run_ends ∷ es) t s i l d =
      endings_close es (done t) (done-Sound t s) (ap pred i) l d
  endings_close (lock_ends ∷ es) t s i l d =
      endings_close es (unlock t) (unlock-Sound t s) i (ap pred l) d
  endings_close (looks ∷ es) t s i l d =
      let (a, b, c) = wake-counts t in
      endings_close es (wake t) (wake-Sound t s) (a ∙ i) (b ∙ l) (c ∙ d)

module _ {H E R V : Type 0} ⦃e : Eq H⦄ where
  -- In any history of a new table in which a drain began: when every Run in flight and every caller
  -- of Locked has ended, in any order and with looks of the goroutine at any point among them, the
  -- goroutine is not left waiting, since the last of them woke it, and its next look finds nothing
  -- left and closes the channel.
  pub drain_ends :
      (ss : List (TableStep H E R V)) (es : List Ending)
      → let t = table_steps ss (new_table {H = H}) in
        t.inflight ≡ pos (runs_in es)
        → t.locked ≡ pos (locks_in es)
        → is_some t.drained ≡ true
        → (wake (endings es t)).drained ≡ some true
  drain_ends ss es i l d =
      let t = table_steps ss (new_table {H = H}) in
      endings_close es t (steps-Sound ss (new_table {H = H}) new-Sound) i l d
