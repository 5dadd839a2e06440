-- ===== src/Store/File/Refines.antt =====
-- The FileStore of store/file.go, through any handles, against the MemoryStore of store/memory.go.
use gotato.Base.{Option, none, some, List, [], ◌∷◌, Bytes, lookup, bytes_eq, nat_eq, inl, refl}
use gotato.Store.File.Shows.{Shows}
use gotato.Store.File.Sound.{Sound}
use gotato.Store.File.World.{
  World, FileStep, Ended, SameResults, calls, new_world, file_step, file_run, after_end,
}
use gotato.Store.Memory.{MemoryStore, empty_store}
use gotato.Store.Memory.Step
use gotato.Store.Memory.Step.{Call}
use gotato.Store.Memory.Invariant.{AllFit}
use gotato.Store.File.Steps.{follow, Same, MayFit, AllProper, used_after, file_step-Kept}

module _ (hash : Bytes → Bytes) where
  pub new-Sound : Sound hash [] new_world empty_store
  unfolding lookup
  new-Sound = record {
    shows = λ id h. inl (refl, refl);
    stored = λ id r e. cc;
    epochs = λ id r e. cc;
    apart = λ a b i j h. elim i [ ];
    caches = λ n k c e. cc;
    waiting = λ t q e. cc;
  }

  AllFit-cons :
      (c : Option Ended) (rest : List Ended) (m : MemoryStore)
      → AllFit (calls (after_end c rest)) m
      → MayFit c m × AllFit (calls rest) (follow c m)
  AllFit-cons none rest m h = (tt, h)
  AllFit-cons (some c) rest m h = h

  -- The state that a run ends in, with the MemoryStore after the calls that ended in it.
  Ran : List Ended → World → MemoryStore → Type 0
  Ran ends w m = Shows hash w.disk (Step.run (calls ends) m) × SameResults ends m

  Ran-cons :
      (c : Option Ended) (rest : List Ended) (w : World) (m : MemoryStore)
      → Same c m
      → Ran rest w (follow c m)
      → Ran (after_end c rest) w m
  unfolding Ran Step.run
  Ran-cons none rest w m e r = r
  Ran-cons (some c) rest w m e r = (r.0, (e, r.1))

  runs_from :
      (used : List Bytes) (ss : List FileStep) (w : World) (m : MemoryStore)
      → AllProper hash used ss
      → Sound hash used w m
      → AllFit (calls (file_run hash ss w).1) m
      → Ran (file_run hash ss w).1 (file_run hash ss w).0 m
  unfolding file_run Ran Step.run
  runs_from used [] w m p s fits = (s.shows, tt)
  runs_from used (a ∷ ss) w m p s fits =
      let next = file_step hash a w in
      let f = AllFit-cons next.1 (file_run hash ss next.0).1 m fits in
      let (v, same) = file_step-Kept hash used a w m p.0 s f.0 in
      Ran-cons next.1 (file_run hash ss next.0).1 (file_run hash ss next.0).0 m same
        (runs_from (used_after hash used a) ss next.0 (follow next.1 m) p.1 v f.1)

  -- Any number of handles on one directory, in other processes too, with their caches and with
  -- other calls between the checks of an Append and its write, give the results of one MemoryStore:
  -- the calls get the results that it gives them in the order in which they end, and the files
  -- stand for its Records then. The conditions: each create has an epoch whose directory differs
  -- from that of every create before it, also of one that failed or whose Record was deleted since,
  -- so that no epoch is used again; the epoch of an Append shares its directory with no other epoch
  -- of a create before it; the names of the ids are short enough; and each log stays below 2^64
  -- Entries.
  pub refines_lem :
      (ss : List FileStep)
      → AllProper hash [] ss
      → AllFit (calls (file_run hash ss new_world).1) empty_store
      → SameResults (file_run hash ss new_world).1 empty_store
        × Shows hash
            (file_run hash ss new_world).0.disk
            (Step.run (calls (file_run hash ss new_world).1) empty_store)
  unfolding Ran
  refines_lem ss p fits =
      let r = runs_from [] ss new_world empty_store p new-Sound fits in (r.1, r.0)
