-- ===== src/Host/Runs.antt =====
-- host/internal/runs/runs.go: the table of admitted Runs. Every method holds the table's lock, so it is one
-- step. H is the handle of a Run, E the error and R the release of the Admitter's policy, V what the
-- Runner keeps with a warm copy. Each look of the goroutine that Drain starts is the step wake, and
-- between two looks it waits for a Broadcast.
pub mod Bound
pub mod Drain
mod Tests
use gotato.Base.Int.{ℤ, pos, succ, pred, positive}
use gotato.Base.{
  ℕ, zero, ◌+◌, ◌-◌, Bool, true, false, not, ◌&&◌, ◌||◌, ◌==◌, ltb, leb, if◌then◌else◌, Option,
  none, some, List, [], ◌∷◌, ◌++◌, Bytes, bytes_eq, length, lookup, insert, delete, is_some,
  or_default, Eq, ◌===◌, Result, ok, err,
}
use gotato.Host.Warm
use gotato.Host.Warm.{Cache, Entry}

pub record Counts : Type 0 where
  pub active_runs : ℤ
  pub active_sessions : ℕ
  pub warm_sessions : ℕ

-- A limit of 0 or less is no limit: 0 stands for both.
pub record Memory (V : Type 0) : Type 0 where
  pub max_sessions : ℕ
  pub cache : Option (Cache V)

pub record Table (H : Type 0) : Type 0 where
  pub handles : List (Bytes × List H)
  pub inflight : ℤ
  pub locked : ℤ
  pub draining : Bool
  -- The channel, once the first Drain made it, and whether it is closed.
  pub drained : Option Bool
  -- The goroutine stands in idle.Wait, and no Broadcast came since.
  pub waiting : Bool

pub data Admission (E R V : Type 0) : Type 0 where
  refused_draining refused_overloaded : Admission E R V
  refused : E → Admission E R V
  evict : Entry V → Admission E R V
  admitted : Option R → Admission E R V
  -- A limit and no cache: a method is called on a nil pointer.
  panicked : Admission E R V

abbrev pub new_table : {H : Type 0} → Table H
new_table = record {
  handles = [];
  inflight = pos 0;
  locked = pos 0;
  draining = false;
  drained = none;
  waiting = false;
}

abbrev pub idle_of : {V : Type 0} → (Bytes → Bool) → Option (Cache V) → ℕ
idle_of b none = 0
idle_of b (some c) = Warm.idle b c

abbrev pub len_of : {V : Type 0} → Option (Cache V) → ℕ
len_of none = 0
len_of (some c) = Warm.len c

abbrev pub is_empty : {A : Type 0} → List A → Bool
is_empty [] = true
is_empty (h ∷ hs) = false

module _ {H : Type 0} where
  unfoldable pub of : Bytes → Table H → List H
  of id t = or_default [] (lookup id t.handles)

  unfoldable pub busy : Table H → Bytes → Bool
  unfolding of
  busy t id = not (is_empty (of id t))

  unfoldable pub active_sessions : Table H → ℕ
  unfolding of
  active_sessions t =
      let fresh = length (of [] t) in length t.handles + (if ltb 1 fresh then fresh - 1 else 0)

  unfoldable pub live : {V : Type 0} → Option (Cache V) → Table H → ℕ
  unfolding active_sessions
  live cache t = active_sessions t + idle_of (busy t) cache

  unfoldable pub register : H → Bytes → Table H → Table H
  unfolding of
  register h id t = record t { handles = insert id (of id t ++ h ∷ []) t.handles }

  unfoldable pub counts : {V : Type 0} → Option (Cache V) → Table H → Counts
  unfolding active_sessions
  counts cache t = record {
    active_runs = t.inflight;
    active_sessions = active_sessions t;
    warm_sessions = len_of cache;
  }

module _ {H V : Type 0} where
  -- Would the Run activate a Session that the Instance does not keep?
  unfoldable pub activates : Bytes → Cache V → Table H → Bool
  unfolding busy
  activates id c t = is_empty id || (not (busy t id) && not (is_some (Warm.get id c)))

-- The Admitter's policy, which may be absent.
abbrev pub Decide : Type 0 → Type 0 → Type 0
Decide E R = Option (Counts → Result E (Option R))

abbrev pub ask : {E R : Type 0} → Decide E R → Counts → Result E (Option R)
ask none c = ok none
ask (some policy) c = policy c

module _ {H E R V : Type 0} where
  unfoldable pub enter : H → Bytes → Result E (Option R) → Table H → Table H × Admission E R V
  unfolding register
  enter h id (err e) t = (t, refused e)
  enter h id (ok release) t =
      (record (register h id t) { inflight = succ t.inflight }, admitted release)

  unfoldable pub over_bound : Option (Entry V) → Table H → Table H × Admission E R V
  over_bound none t = (t, refused_overloaded)
  over_bound (some v) t = (t, evict v)

  -- The memory bound, and then the policy.
  unfoldable pub bounded :
      H → Bytes → ℕ → Option (Cache V) → Decide E R → Table H → Table H × Admission E R V
  unfolding over_bound
  bounded h id limit none decide t = (t, panicked)
  bounded h id limit (some c) decide t =
      if activates id c t && leb limit (live (some c) t)
      then over_bound (Warm.victim (busy t) c) t
      else enter h id (ask decide (counts (some c) t)) t

  unfoldable pub admit : H → Bytes → Memory V → Decide E R → Table H → Table H × Admission E R V
  unfolding bounded
  admit h id mem decide t =
      if t.draining
      then (t, refused_draining)
      else if ltb 0 mem.max_sessions
      then bounded h id mem.max_sessions mem.cache decide t
      else enter h id (ask decide (counts mem.cache t)) t

abbrev pub is_zero : ℤ → Bool
is_zero (pos zero) = true
is_zero _ = false

-- The channel is made, and not closed.
abbrev pub is_open : Option Bool → Bool
is_open (some false) = true
is_open _ = false

module _ {H : Type 0} where
  -- The warm copy to evict when the cache holds more than limit: none stands for a negative limit.
  unfoldable pub victim : {V : Type 0} → Cache V → Option ℕ → Table H → Option (Entry V)
  victim c none t = none
  victim c (some limit) t = if leb (Warm.len c) limit then none else Warm.victim (busy t) c

  unfoldable pub done : Table H → Table H
  done t =
      let n = pred t.inflight in record t { inflight = n; waiting = t.waiting && not (is_zero n) }

  unfoldable pub lock : Table H → Table H
  lock t = record t { locked = succ t.locked }

  unfoldable pub unlock : Table H → Table H
  unlock t =
      let n = pred t.locked in record t { locked = n; waiting = t.waiting && not (is_zero n) }

  unfoldable pub all : List (Bytes × List H) → List H
  all [] = []
  all ((k, hs) ∷ m) = hs ++ all m

  unfoldable pub active_runs : Table H → ℤ
  active_runs t = t.inflight

  -- The first call makes the channel; a later one returns it.
  unfoldable pub drain : Table H → Table H × Bool
  drain t =
      if is_some t.drained
      then (record t { draining = true }, false)
      else (record t { draining = true; drained = some false }, true)

  -- The goroutine of the first Drain, each time it looks: it closes the channel when nothing is left,
  -- and else waits. It does not look while it waits, and not again when it has closed the channel.
  unfoldable pub wake : Table H → Table H
  wake t =
      if t.waiting || not (is_open t.drained)
      then t
      else if positive t.inflight || positive t.locked
      then record t { waiting = true }
      else record t { drained = some true }

module _ {H : Type 0} ⦃e : Eq H⦄ where
  -- The list without its first h.
  unfoldable pub without : H → List H → List H
  without h [] = []
  without h (x ∷ xs) = if x === h then xs else x ∷ without h xs

  unfoldable pub remove : H → Bytes → Table H → Table H
  unfolding without of
  remove h id t =
      let rest = without h (of id t) in
      record t { handles = if is_empty rest then delete id t.handles else insert id rest t.handles }

  unfoldable pub move : H → Bytes → Bytes → Table H → Table H
  unfolding register remove
  move h from to t = if from === to then t else register h to (remove h from t)
