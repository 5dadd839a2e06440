-- ===== src/Store/File/World.antt =====
-- Several handles of a FileStore (store/file.go) on one directory, with any number of Appends between
-- their checks and their writes. An Append that never writes is a process that ended there.
use gotato.Base.{
  ℕ, Option, none, some, List, [], ◌∷◌, map, Bytes, lookup, insert, delete, bytes_eq, nat_eq, ◌≡◌,
  ok, err, or_default,
}
use gotato.Record.Entry.{Entry, Header}
use gotato.Store.Id.{StoreError}
use gotato.Store.File.{Disk, FileHead, FileStore}
use gotato.Store.File.Calls.{FileWrite, file_create, append_checked, append_write, file_delete}
use gotato.Store.Memory.{MemoryStore}
use gotato.Store.Memory.Step
use gotato.Store.Memory.Step.{Call}

pub record World : Type 0 where
  pub disk : Disk
  pub handles : List (ℕ × List (Bytes × FileHead))
  -- The Appends that passed their checks, each with its handle, by a ticket.
  pub pending : List (ℕ × (ℕ × FileWrite))

pub data FileStep : Type 0 where
  creates : ℕ → Option StoreError → Bytes → List Entry → Header → FileStep
  checks : ℕ → ℕ → Option StoreError → Bytes → ℕ → List Entry → Header → FileStep
  writes : ℕ → FileStep
  deletes : ℕ → Option StoreError → Bytes → FileStep

abbrev pub heads_of : ℕ → World → List (Bytes × FileHead)
heads_of n w = or_default [] (lookup n w.handles)

abbrev pub handle_of : ℕ → World → FileStore
handle_of n w = record { disk = w.disk; heads = heads_of n w }

abbrev pub put_handle : ℕ → FileStore → World → World
put_handle n f w = record w { disk = f.disk; handles = insert n f.heads w.handles }

-- A call that ended, with its error.
abbrev pub Ended : Type 0
Ended = Call × Option StoreError

abbrev pub new_world : World
new_world = record { disk = []; handles = []; pending = [] }

-- The call that an Append in flight is.
abbrev pub call_of : FileWrite → Call
call_of p = Step.appends none p.id p.after p.batch.entries p.batch.header

abbrev pub after_end : Option Ended → List Ended → List Ended
after_end none rest = rest
after_end (some c) rest = c ∷ rest

module _ (hash : Bytes → Bytes) where
  -- A step, and the call that ended in it, if one did.
  unfoldable pub file_step : FileStep → World → World × Option Ended
  file_step (creates n ctx id entries h) w =
      let (f, e) = file_create hash ctx id entries h (handle_of n w) in
      (put_handle n f w, some (Step.creates ctx id entries h, e))
  file_step (checks t n ctx id after entries h) w =
      let (f, r) = append_checked hash ctx id after entries h (handle_of n w) in
      elim r [
        | err e ↦ (put_handle n f w, some (Step.appends ctx id after entries h, some e))
        | ok p ↦ (record (put_handle n f w) { pending = insert t (n, p) w.pending }, none)
      ]
  file_step (writes t) w = elim (lookup t w.pending) [
    | none ↦ (w, none)
    | some q ↦
        let (f, e) = append_write q.1 (handle_of q.0 w) in
        (record (put_handle q.0 f w) { pending = delete t w.pending }, some (call_of q.1, e))
  ]
  file_step (deletes n ctx id) w =
      let (f, e) = file_delete ctx id (handle_of n w) in
      (put_handle n f w, some (Step.deletes ctx id, e))

  -- The calls that end, in the order in which they do.
  unfoldable pub file_run : List FileStep → World → World × List Ended
  unfolding file_step
  file_run [] w = (w, [])
  file_run (s ∷ ss) w =
      let (v, c) = file_step s w in let (u, rest) = file_run ss v in (u, after_end c rest)

-- The MemoryStore gives each of these calls the same result, one after another.
abbrev pub SameResults : List Ended → MemoryStore → Type 0
SameResults [] m = Unit {0}
SameResults ((c, e) ∷ rest) m = ((Step.step c m).1 ≡ e) × SameResults rest (Step.step c m).0

abbrev pub calls : List Ended → List Call
calls = map (λ c. c.0)
