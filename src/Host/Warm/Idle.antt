-- ===== src/Host/Warm/Idle.antt =====
-- Idle compactions and the callers that hold a copy: the steps of one Entry's life, in any order.
use gotato.Base.{ℕ, true, false, Option, none, some, List, [], ◌∷◌, ◌≡◌, ◌⊎◌, inl, inr, arith}
use gotato.Base.Int.{pos, positive}
use gotato.Host.Warm.{Life, IdleRun, hold, unhold, begin_idle, end_idle, cancel_idle, mark_dead}

pub data LifeStep : Type 0 where
  holds unholds begins ends cancels dies : LifeStep

unfoldable pub life_step : LifeStep → Life → Life
unfolding hold unhold begin_idle end_idle cancel_idle mark_dead
life_step holds l = hold l
life_step unholds l = unhold l
life_step begins l = (begin_idle l).0
life_step ends l = end_idle l
life_step cancels l = cancel_idle l
life_step dies l = mark_dead l

unfoldable pub life_steps : List LifeStep → Life → Life
life_steps [] l = l
life_steps (s ∷ ss) l = life_steps ss (life_step s l)

-- A caller holds the Entry all along.
abbrev pub StaysHeld : List LifeStep → Life → Type 0
StaysHeld [] l = Unit {0}
StaysHeld (s ∷ ss) l = (positive (life_step s l).holds ≡ true) × StaysHeld ss (life_step s l)

-- No compaction goes on but one that was told to end.
abbrev pub OnlyCanceled : Option IdleRun → Type 0
OnlyCanceled none = Unit {0}
OnlyCanceled (some r) = r.canceled ≡ true

step_held :
    (s : LifeStep) (l : Life)
    → positive l.holds ≡ true
    → OnlyCanceled l.idle
    → OnlyCanceled (life_step s l).idle × (l.idle ≡ none → (life_step s l).idle ≡ none)
unfolding life_step
step_held holds l h o = ground arith
step_held unholds l h o = ground arith
step_held begins l h o = ground arith
step_held ends l h o = ground arith
step_held cancels l h o = ground arith
step_held dies l h o = ground arith

steps_held :
    (ss : List LifeStep) (l : Life)
    → positive l.holds ≡ true
    → StaysHeld ss l
    → OnlyCanceled l.idle
    → OnlyCanceled (life_steps ss l).idle × (l.idle ≡ none → (life_steps ss l).idle ≡ none)
unfolding life_steps
steps_held [] l h k o = (o, λ e. e)
steps_held (s ∷ ss) l h k o =
    let (o', f) = step_held s l h o in
    let (o'', g) = steps_held ss (life_step s l) k.0 k.1 o' in (o'', λ e. g (f e))

hold-OnlyCanceled : (l : Life) → OnlyCanceled (hold l).idle
unfolding hold
hold-OnlyCanceled l = ground arith

hold-positive : (l : Life) (n : ℕ) → l.holds ≡ pos n → positive (hold l).holds ≡ true
unfolding hold
hold-positive l n e = ground arith

hold-none : (l : Life) → l.idle ≡ none → (hold l).idle ≡ none
unfolding hold
hold-none l e = ground arith

-- While a caller holds a copy, whatever else is called on it, the only idle compaction that can be in
-- progress is one that was told to end; and if none was in progress when the caller came, none is. The
-- count of callers was not negative before.
pub hold_excludes_idle :
    (ss : List LifeStep) (l : Life) (n : ℕ)
    → l.holds ≡ pos n
    → StaysHeld ss (hold l)
    → OnlyCanceled (life_steps ss (hold l)).idle
      × (l.idle ≡ none → (life_steps ss (hold l)).idle ≡ none)
hold_excludes_idle ss l n e k =
    let (o, f) = steps_held ss (hold l) (hold-positive l n e) k (hold-OnlyCanceled l) in
    (o, λ q. f (hold-none l q))

-- At most one idle compaction is in progress: a second is not begun, nor is one on a copy that a caller
-- holds or that left the cache, and the copy is as it was.
pub begin_idle_refused :
    (l : Life)
    → (positive l.holds ≡ true) ⊎ (l.dead ≡ true) ⊎ ((r : IdleRun) × (l.idle ≡ some r))
    → begin_idle l ≡ (l, false)
unfolding begin_idle
begin_idle_refused l (inl h) = ground arith
begin_idle_refused l (inr (inl h)) = ground arith
begin_idle_refused l (inr (inr (r, h))) = ground arith
