-- ===== src/Store/Batch.antt =====
-- CheckBatch and loadedFrom of store/store_check.go.
use gotato.Base.{
  u64, ℕ, suc, ◌+◌, Bool, true, false, not, ◌&&◌, ◌==◌, if◌then◌else◌, Option, none, some, List, [],
  ◌∷◌, length, take, drop, select, or_default,
}
use gotato.Record.Entry.{Entry, Header, is_checkpoint, is_fact, is_segment_closed}
use gotato.Store.Id.{StoreError, invalid_argument}

-- Entry i of the batch has the Seq after+i+1.
unfoldable pub seqs_continue : ℕ → ℕ → List Entry → Bool
seqs_continue after i [] = true
seqs_continue after i (e ∷ es) = e.seq == u64 (after + i + 1) && seqs_continue after (i + 1) es

abbrev pub starts_record : List Entry → Bool
starts_record [] = false
starts_record (e ∷ es) = is_checkpoint e && is_fact e.layer

unfoldable pub check_batch : ℕ → List Entry → Header → Option StoreError
unfolding seqs_continue is_checkpoint
check_batch after entries h =
    if length h.epoch == 0
    then some invalid_argument
    else if length entries == 0
    then some invalid_argument
    else if not (seqs_continue after 0 entries)
    then some invalid_argument
    else if after == 0 && not (starts_record entries)
    then some invalid_argument
    else none

-- The index of the last Checkpoint, as the backward loop finds it.
unfoldable pub last_checkpoint : List Entry → Option ℕ
unfolding is_checkpoint
last_checkpoint [] = none
last_checkpoint (e ∷ es) = elim (last_checkpoint es) [
  | some i ↦ some (suc i)
  | none ↦ if is_checkpoint e then some 0 else none
]

unfoldable pub load_start : List Entry → ℕ
unfolding last_checkpoint
load_start entries = or_default 0 (last_checkpoint entries)

-- The facts from the last Checkpoint on, and the closed Segments before it.
unfoldable pub loaded_from : List Entry → List Entry × List Entry
unfolding load_start select
loaded_from entries =
    let start = load_start entries in
    (
      select (λ e. is_fact e.layer) (drop start entries),
      select (λ e. is_segment_closed e.kind) (take start entries),
    )
