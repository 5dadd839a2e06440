-- ===== src/Host/Warm.antt =====
-- host/internal/warm/warm.go: the copies of idle Sessions. The cache's map is an association list in
-- some order, since Go's is in none. An Entry is a shared object: its seq, which Put gives it once, stands for
-- its identity, and Life is the part of it that its own lock guards. Value is what the Runner keeps with a copy.
pub mod Evict
pub mod Keep
pub mod Idle
mod Tests
use gotato.Base.Int.{ℤ, pos, succ, pred, positive}
use gotato.Base.{
  ℕ, ◌+◌, ◌-◌, Bool, true, false, not, ◌&&◌, ◌||◌, ◌==◌, ltb, if◌then◌else◌, Option, none, some,
  List, [], ◌∷◌, ◌++◌, Bytes, bytes_eq, length, lookup, insert, delete, is_some, u64,
}

-- An idle compaction in progress: whether it was canceled.
pub record IdleRun : Type 0 where
  pub canceled : Bool

pub record Life : Type 0 where
  pub holds : ℤ
  pub idle : Option IdleRun
  pub dead : Bool

pub data Timer : Type 0 where
  -- When it fires, by the clock.
  expires idles : ℕ → Timer

pub record Entry (V : Type 0) : Type 0 where
  pub id : Bytes
  pub agent : Bytes
  pub value : V
  pub timers : List Timer
  pub since : ℕ
  pub seq : ℕ  -- uint64
  pub life : Life

pub record Plan : Type 0 where
  pub ttl : ℕ
  pub on_expire : Bool
  pub on_idle : Bool
  pub idle_after : ℕ

pub record Cache (V : Type 0) : Type 0 where
  pub entries : List (Bytes × Entry V)
  pub closed : Bool
  pub seq : ℕ  -- uint64

abbrev pub new_cache : {V : Type 0} → Cache V
new_cache = record { entries = []; closed = false; seq = 0 }

abbrev new_life : Life
new_life = record { holds = pos 0; idle = none; dead = false }

abbrev timers_of : ℕ → Plan → List Timer
timers_of now plan =
    (if plan.on_expire then expires (now + plan.ttl) ∷ [] else [])
    ++ (if plan.on_idle && ltb plan.idle_after plan.ttl
        then idles (now + plan.idle_after) ∷ []
        else [])

unfoldable pub mark_dead : Life → Life
mark_dead l = record l { dead = true }

module _ {V : Type 0} where
  unfoldable pub len : Cache V → ℕ
  len c = length c.entries

  unfoldable pub get : Bytes → Cache V → Option (Entry V)
  get id c = lookup id c.entries

  unfoldable pub stop_timers : Entry V → Entry V
  stop_timers e = record e { timers = [] }

  -- The Entry that Put makes, at the clock's reading.
  abbrev pub entry_of : ℕ → Bytes → Bytes → V → Plan → ℕ → Entry V
  entry_of now id agent value plan seq = record {
    id = id;
    agent = agent;
    value = value;
    timers = timers_of now plan;
    since = now;
    seq = seq;
    life = new_life;
  }

  -- The old copy of the Session, if there is one, has its timers stopped; the map lets it go.
  unfoldable pub put : ℕ → Bytes → Bytes → V → Plan → Cache V → Cache V × Option (Entry V)
  put now id agent value plan c = if c.closed then (c, none) else (
    record c {
      seq = u64 (c.seq + 1);
      entries = insert id (entry_of now id agent value plan (u64 (c.seq + 1))) c.entries;
    },
    some (entry_of now id agent value plan (u64 (c.seq + 1))),
  )

  -- drop, and the Entry as it leaves the map.
  unfoldable pub drop_entry : Entry V → Cache V → Cache V × Entry V
  unfolding stop_timers mark_dead
  drop_entry e c = (
    record c { entries = delete e.id c.entries },
    record (stop_timers e) { life = mark_dead e.life },
  )

  unfoldable pub take : Bytes → Cache V → Cache V × Option (Entry V)
  unfolding drop_entry
  take id c = elim (lookup id c.entries) [
    | none ↦ (c, none)
    | some e ↦ ((drop_entry e c).0, some (drop_entry e c).1)
  ]

  -- Is the Entry of this seq still its Session's copy?
  unfoldable pub is_current : Option (Entry V) → ℕ → Bool
  is_current none seq = false
  is_current (some e) seq = e.seq == seq

  unfoldable pub remove : Entry V → Cache V → Cache V × Bool
  unfolding drop_entry is_current
  remove e c =
      if is_current (lookup e.id c.entries) e.seq then ((drop_entry e c).0, true) else (c, false)

  unfoldable pub close : Cache V → Cache V
  close c = record c { closed = true }

  -- Did e go idle before the victim so far?
  abbrev pub earlier : Entry V → Entry V → Bool
  earlier e v = ltb e.since v.since || (e.since == v.since && ltb e.seq v.seq)

  unfoldable pub better : Entry V → Option (Entry V) → Option (Entry V)
  better e none = some e
  better e (some v) = if earlier e v then some e else some v

  unfoldable pub victim_from :
      (Bytes → Bool) → List (Bytes × Entry V) → Option (Entry V) → Option (Entry V)
  unfolding better
  victim_from busy [] v = v
  victim_from busy ((k, e) ∷ es) v = victim_from busy es (if busy e.id then v else better e v)

  unfoldable pub victim : (Bytes → Bool) → Cache V → Option (Entry V)
  unfolding victim_from
  victim busy c = victim_from busy c.entries none

  unfoldable pub idle_count : (Bytes → Bool) → List (Bytes × Entry V) → ℕ
  idle_count busy [] = 0
  idle_count busy ((k, e) ∷ es) = (if busy k then 0 else 1) + idle_count busy es

  unfoldable pub idle : (Bytes → Bool) → Cache V → ℕ
  unfolding idle_count
  idle busy c = idle_count busy c.entries

abbrev cancel : Option IdleRun → Option IdleRun
cancel none = none
cancel (some r) = some (record r { canceled = true })

-- CancelIdle up to its wait: it waits while a compaction is in progress.
unfoldable pub cancel_idle : Life → Life
cancel_idle l = record l { idle = cancel l.idle }

-- Hold up to its wait.
unfoldable pub hold : Life → Life
hold l = record l { holds = succ l.holds; idle = cancel l.idle }

-- What Hold returns ends the hold; so does Hold itself when the context ends while it waits.
unfoldable pub unhold : Life → Life
unhold l = record l { holds = pred l.holds }

unfoldable pub begin_idle : Life → Life × Bool
begin_idle l =
    if positive l.holds || l.dead || is_some l.idle
    then (l, false)
    else (record l { idle = some (record { canceled = false }) }, true)

-- The func that BeginIdle returned.
unfoldable pub end_idle : Life → Life
end_idle l = record l { idle = none }
