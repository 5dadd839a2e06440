-- ===== src/Store/Writer/Flush.antt =====
-- flushLocked of store/writer.go by its branches, and what the changes of a Record leave alone.
use gotato.Base.{
  ℕ, ◌+◌, true, Option, none, some, List, [], ◌∷◌, Bytes, bytes_eq, is_some, ok, err, u64, ◌≡◌, inl,
  inr, refl, arith, Option-cases, ap, sym, ◌∙◌, subst,
}
use gotato.Record.Writing.{
  ClaimWhy, TakeError, Event, Record, Batch, take_pending, number, emit, write_events,
  release_record, release_claim, reclaim, claim_for, with_session,
}
use gotato.Store.Memory.{MemoryStore, append}
use gotato.Store.Writer.{
  Writer, WriterState, WriterError, Write, refused, store_failure, failed_with, first_seq, settle,
  write_batch, flush_locked,
}
use gotato.Store.Writer.Taken.{Took, take_pending-Took, take_pending-none, Result-cases}

-- What a change of a Record leaves alone: its id, its head.
abbrev pub Same : Record → Record → Type 0
Same r s = (r.head ≡ s.head) × (r.id ≡ s.id)

pub emit-Same : (now : ℕ) (e : Event) (s : Record) → Same (emit now e s) s
unfolding emit number
emit-Same now e s = (ground arith, ground arith)

pub write_events-Same : (now : ℕ) (es : List Event) (s : Record) → Same (write_events now es s).0 s
unfolding write_events number
write_events-Same now [] s = (refl, refl)
write_events-Same now (e ∷ es) s = write_events-Same now es (number now (with_session e s.id) s).0

pub claim_for-Same :
    (now : ℕ) (inst : Bytes) (why : ClaimWhy) (s : Record) → Same (claim_for now inst why s) s
unfolding claim_for emit number
claim_for-Same now inst why s = (ground arith, ground arith)

pub reclaim-Same : (now : ℕ) (s : Record) → Same (reclaim now s) s
unfolding reclaim
reclaim-Same now s = claim_for-Same now s.instance_id ClaimWhy.idle (record s { busy = true })

pub release_record-Same : (now : ℕ) (s : Record) → Same (release_record now s) s
unfolding release_record release_claim emit number
release_record-Same now s = (ground arith, ground arith)

module _ {G : Type 0} (marshal : Event → Option Bytes) where
  flush_failed :
      (x : Write G) (w : Writer G) (m : MemoryStore) (e : WriterError G)
      → w.failed ≡ some e
      → (flush_locked marshal x w m).0 ≡ record { writer = w; store = m }
  unfolding flush_locked
  flush_failed x w m e q = ground (arith, q)

  flush_untaken :
      (x : Write G) (w : Writer G) (m : MemoryStore) (e : TakeError)
      → w.failed ≡ none
      → take_pending marshal w.rec ≡ err e
      → (flush_locked marshal x w m).0 ≡ record { writer = failed_with store_failure w; store = m }
  unfolding flush_locked
  flush_untaken x w m e q t = ground (arith, q, t)

  flush_nothing :
      (x : Write G) (w : Writer G) (m : MemoryStore) (r : Record)
      → w.failed ≡ none
      → take_pending marshal w.rec ≡ ok (r, none)
      → (flush_locked marshal x w m).0 ≡ record { writer = record w { rec = r }; store = m }
  unfolding flush_locked
  flush_nothing x w m r q t = ground (arith, q, t)

  flush_batch :
      (x : Write G) (w : Writer G) (m : MemoryStore) (r : Record) (b : Batch)
      → w.failed ≡ none
      → take_pending marshal w.rec ≡ ok (r, some b)
      → (flush_locked marshal x w m).0 ≡ (write_batch x b (record w { rec = r }) m).0
  unfolding flush_locked
  flush_batch x w m r b q t = ground (arith, q, t)

  -- What a property of a state needs to hold after a flush.
  pub flush_cases :
      (P : WriterState G → Type 0) (x : Write G) (w : Writer G) (m : MemoryStore)
      → (is_some w.failed ≡ true → P (record { writer = w; store = m }))
      → ((e : WriterError G) → w.failed ≡ none → P (record { writer = failed_with e w; store = m }))
      → (w.failed ≡ none → P (record { writer = w; store = m }))
      → ((r : Record) (b : Batch)
          → w.failed ≡ none
          → Took marshal w.rec r b
          → P (write_batch x b (record w { rec = r }) m).0)
      → P (flush_locked marshal x w m).0
  flush_cases P x w m stopped fails idle sends = elim (Option-cases w.failed) [
    | inr (e, q) ↦ subst P (sym (flush_failed x w m e q)) (stopped (ground (arith, q)))
    | inl q ↦ elim (Result-cases (take_pending marshal w.rec)) [
      | inl (e, t) ↦ subst P (sym (flush_untaken x w m e q t)) (fails store_failure q)
      | inr ((r, none), t) ↦
          subst P
            (ap (λ (r : Record). record { writer = record w { rec = r }; store = m })
                (sym (take_pending-none marshal w.rec r t))
              ∙ sym (flush_nothing x w m r q t))
            (idle q)
      | inr ((r, some b), t) ↦
          subst P (sym (flush_batch x w m r b q t))
            (sends r b q (take_pending-Took marshal w.rec r b t))
    ]
  ]

  pub write_guarded :
      (x : Write G) (b : Batch) (w : Writer G) (m : MemoryStore) (g : G)
      → x.guard ≡ some g
      → (write_batch x b w m).0 ≡ record { writer = failed_with (refused g) w; store = m }
  unfolding write_batch
  write_guarded x b w m g q = ground (arith, q)

  pub write_sent :
      (x : Write G) (b : Batch) (w : Writer G) (m : MemoryStore)
      → x.guard ≡ none
      → (write_batch x b w m).0
        ≡ (settle b
            (append x.ctx w.rec.id
              (u64 (first_seq b.entries + 18446744073709551615))
              b.entries
              b.header
              m)
            w).0
  unfolding write_batch
  write_sent x b w m q = ground (arith, q)
