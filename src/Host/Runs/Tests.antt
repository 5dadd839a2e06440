-- ===== src/Host/Runs/Tests.antt =====
-- The theorems about the table of Runs at a table of two Runs.
use gotato.Base.{
  ℕ, ◌≤◌, true, false, none, some, List, [], ◌∷◌, Bytes, ◌≡◌, ◌⊎◌, refl, arith, nat_eq, lookup,
}
use gotato.Base.Int.{positive}
use gotato.Host.Warm
use gotato.Host.Warm.{Cache, new_cache}
use gotato.Host.Runs.{
  Memory, Decide, admit, refused_draining, bounded, enter, activates, live, active_sessions, busy,
  of, done, lock, drain, wake, new_table,
}
use gotato.Host.Runs.Bound.{admit_bound}
use gotato.Host.Runs.Drain.{
  TableStep, admits, dones, locks, drains, wakes, table_step, table_steps, drained_idle, run_ends,
  lock_ends, looks, Ending, endings, drain_ends,
}

abbrev roomy : Memory ℕ
roomy = record { max_sessions = 2; cache = some new_cache }

abbrev no_policy : Decide ℕ ℕ
no_policy = none

admit_bound_example :
    let t = (admit 7 (b's' ∷ []) roomy no_policy (new_table {H = ℕ})).0 in
    (live (some (new_cache {V = ℕ})) t ≤ 2)
    ⊎ (live (some (new_cache {V = ℕ})) t ≤ live (some (new_cache {V = ℕ})) (new_table {H = ℕ}))
unfolding admit bounded activates live active_sessions enter busy of lookup Warm.get Warm.idle
    Warm.idle_count
admit_bound_example =
    admit_bound {V = ℕ} 7 (b's' ∷ []) 2 new_cache no_policy (new_table {H = ℕ}) none (omega arith)
      refl

abbrev shutdown : List (TableStep ℕ ℕ ℕ ℕ)
shutdown = admits 7 (b's' ∷ []) roomy no_policy ∷ drains ∷ wakes ∷ dones ∷ wakes ∷ []

drained_idle_example :
    let t = table_steps shutdown (new_table {H = ℕ}) in
    (positive t.inflight ≡ false)
    × ((h : ℕ) (id : Bytes) (mem : Memory ℕ) (decide : Decide ℕ ℕ)
        → admit h id mem decide t ≡ (t, refused_draining))
unfolding table_steps table_step admit bounded activates live active_sessions enter busy of lookup
    Warm.get Warm.idle Warm.idle_count drain wake done
drained_idle_example = drained_idle shutdown refl

-- A Run and two callers of Locked are there, and the goroutine waits.
abbrev leaving : List (TableStep ℕ ℕ ℕ ℕ)
leaving = admits 7 (b's' ∷ []) roomy no_policy ∷ locks ∷ drains ∷ locks ∷ wakes ∷ []

abbrev last_ones : List Ending
last_ones = lock_ends ∷ run_ends ∷ looks ∷ lock_ends ∷ []

drain_ends_example :
    (wake (endings last_ones (table_steps leaving (new_table {H = ℕ})))).drained ≡ some true
unfolding table_steps table_step admit bounded activates live active_sessions enter busy of lookup
    Warm.get Warm.idle Warm.idle_count drain wake lock
drain_ends_example = drain_ends leaving last_ones refl refl refl
