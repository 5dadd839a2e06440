-- ===== src/Store/Writer/Kept.antt =====
-- The calls of a Writer (store/writer.go) and of others on its log.
use gotato.Base.{
  ◌+◌, Bool, true, false, Option, none, some, List, [], ◌∷◌, ◌++◌, Bytes, bytes_eq, length, drop,
  append_assoc, u64, ◌≡◌, inl, inr, refl, arith, Option-cases, ap, sym, append-nil, ◌∙◌, subst, All,
}
use gotato.Record.Entry.{Entry}
use gotato.Record.Writing.{Event, Record, Batch, with_session}
use gotato.Store.Id.{StoreError}
use gotato.Store.Memory.{MemoryStore, append}
use gotato.Store.Memory.Step.{step-Longer, append_error_unchanged}
use gotato.Store.Writer.{
  WriterState, Write, refused, write_error, failed_with, first_seq, count_write, settle,
  write_batch, flush_locked, write,
}
use gotato.Store.Writer.Taken.{Took}
use gotato.Store.Writer.History.{
  Act, writes, emits, flushes, releases, reclaims, others, perform, perform_all, Keeps, Small,
  AllSmall, log_of, foreign_part, by_others,
}
use gotato.Store.Writer.Log.{
  IsWritten, rec-IsWritten, fail-IsWritten, others-IsWritten, settle_err, settle_ok,
  landed-IsWritten,
}
use gotato.Store.Writer.Flush.{
  flush_cases, write_guarded, write_sent, emit-Same, write_events-Same, reclaim-Same,
  release_record-Same,
}

abbrev is_own : {G : Type 0} → Act G → Bool
is_own (others c) = false
is_own _ = true

module _ {G : Type 0} (marshal : Event → Option Bytes) (id : Bytes)
    (before foreign : List Entry) where
  Took-rec :
      (r : Record) (b : Batch) (s : WriterState G)
      → IsWritten marshal id before foreign s
      → Took marshal s.writer.rec r b
      → IsWritten marshal id before foreign (record s { writer = record s.writer { rec = r } })
  Took-rec r b s h t =
      rec-IsWritten marshal id before foreign r s h (ap (λ (x : Record). x.head) t.rest)
        (ap (λ (x : Record). x.id) t.rest)

  refused_batch-IsWritten :
      (e : StoreError) (r : Record) (b : Batch) (s : WriterState G)
      → IsWritten marshal id before foreign s
      → Took marshal s.writer.rec r b
      → IsWritten marshal id before foreign (record {
        writer =
            failed_with
              (write_error e)
              (count_write b.entries (some e) (record s.writer { rec = r }));
        store = s.store;
      })
  unfolding count_write
  refused_batch-IsWritten e r b s h t = record {
    here = h.here;
    mid = h.mid;
    found = h.found;
    split = h.split;
    shown = h.shown;
    at_head = ap (λ (x : Record). x.head) t.rest ∙ h.at_head;
    named = ap (λ (x : Record). x.id) t.rest ∙ h.named;
    heard = h.heard;
  }

  write_batch-IsWritten :
      (x : Write G) (r : Record) (b : Batch) (s : WriterState G)
      → IsWritten marshal id before foreign s
      → s.writer.failed ≡ none
      → Took marshal s.writer.rec r b
      → Small id (write_batch x b (record s.writer { rec = r }) s.store).0.store
      → IsWritten marshal id before foreign
          (write_batch x b (record s.writer { rec = r }) s.store).0
  write_batch-IsWritten x r b s h f t small = elim (Option-cases x.guard) [
    | inr (g, q) ↦
        subst (IsWritten marshal id before foreign)
          (sym (write_guarded marshal x b (record s.writer { rec = r }) s.store g q))
          (fail-IsWritten marshal id before foreign (refused g)
            (record s { writer = record s.writer { rec = r } }) (Took-rec r b s h t))
    | inl q ↦
        let w = record s.writer { rec = r } in
        let after = u64 (first_seq b.entries + 18446744073709551615) in
        let p = append x.ctx id after b.entries b.header s.store in
        let named : r.id ≡ id = ap (λ (x : Record). x.id) t.rest ∙ h.named in
        let sent =
          write_sent marshal x b w s.store q
          ∙ ap (λ (i : Bytes). (settle b (append x.ctx i after b.entries b.header s.store) w).0)
              named in
        elim (Option-cases p.1) [
          | inr (e, z) ↦
              let same = append_error_unchanged x.ctx id after b.entries b.header s.store z in
              subst (IsWritten marshal id before foreign)
                (ap
                    (λ (m : MemoryStore). record {
                      writer = failed_with (write_error e) (count_write b.entries (some e) w);
                      store = m;
                    })
                    (sym same)
                  ∙ sym (sent ∙ settle_err b p w e z))
                (refused_batch-IsWritten e r b s h t)
          | inl z ↦
              let ended = sent ∙ settle_ok b p w z h.heard in
              subst (IsWritten marshal id before foreign) (sym ended) (
                landed-IsWritten marshal id before foreign b x.ctx r s h f t z
                  (subst (λ (y : WriterState G). Small id y.store) ended small))
        ]
  ]

  flush-IsWritten :
      (x : Write G) (s : WriterState G)
      → IsWritten marshal id before foreign s
      → Small id (flush_locked marshal x s.writer s.store).0.store
      → IsWritten marshal id before foreign (flush_locked marshal x s.writer s.store).0
  flush-IsWritten x s h =
      flush_cases marshal (λ y. Small id y.store → IsWritten marshal id before foreign y) x s.writer
        s.store (λ _ _. h) (λ e _ _. fail-IsWritten marshal id before foreign e s h) (λ _ _. h)
        (λ r b f t. write_batch-IsWritten x r b s h f t)

  perform-own :
      (a : Act G) (s : WriterState G)
      → is_own a ≡ true
      → Small id (perform marshal a s).store
      → IsWritten marshal id before foreign s
      → IsWritten marshal id before foreign (perform marshal a s)
  unfolding perform write
  perform-own (writes x events) s k small h =
      let (p, q) = write_events-Same x.now events s.writer.rec in
      flush-IsWritten x _ (rec-IsWritten marshal id before foreign _ s h p q) small
  perform-own (emits now e) s k small h =
      let (p, q) = emit-Same now (with_session e s.writer.rec.id) s.writer.rec in
      rec-IsWritten marshal id before foreign _ s h p q
  perform-own (flushes x) s k small h = flush-IsWritten x s h small
  perform-own (releases now) s k small h =
      let (p, q) = release_record-Same now s.writer.rec in
      rec-IsWritten marshal id before foreign _ s h p q
  perform-own (reclaims now) s k small h =
      let (p, q) = reclaim-Same now s.writer.rec in
      rec-IsWritten marshal id before foreign _ s h p q
  perform-own (others c) s k small h = absurd (ground arith)

module _ {G : Type 0} (marshal : Event → Option Bytes) (id : Bytes) (before : List Entry) where
  nothing_foreign :
      (a : Act G) (s : WriterState G) (foreign : List Entry)
      → IsWritten marshal id before foreign (perform marshal a s)
      → IsWritten marshal id before (foreign ++ []) (perform marshal a s)
  nothing_foreign a s foreign h =
      subst (λ (t : List Entry). IsWritten marshal id before t (perform marshal a s))
        (sym (append-nil foreign)) h

  perform-IsWritten :
      (a : Act G) (s : WriterState G) (foreign : List Entry)
      → Keeps id a
      → Small id (perform marshal a s).store
      → IsWritten marshal id before foreign s
      → IsWritten marshal id before
          (foreign
            ++ foreign_part a
                (drop (length (log_of id s.store)) (log_of id (perform marshal a s).store)))
          (perform marshal a s)
  unfolding perform
  perform-IsWritten (others c) s foreign k small h =
      others-IsWritten marshal id before foreign _ s h (λ r f. step-Longer c s.store id r k f)
  perform-IsWritten (writes x events) s foreign k small h =
      nothing_foreign (writes x events) s foreign
        (perform-own marshal id before foreign (writes x events) s refl small h)
  perform-IsWritten (emits now e) s foreign k small h =
      nothing_foreign (emits now e) s foreign
        (perform-own marshal id before foreign (emits now e) s refl small h)
  perform-IsWritten (flushes x) s foreign k small h =
      nothing_foreign (flushes x) s foreign
        (perform-own marshal id before foreign (flushes x) s refl small h)
  perform-IsWritten (releases now) s foreign k small h =
      nothing_foreign (releases now) s foreign
        (perform-own marshal id before foreign (releases now) s refl small h)
  perform-IsWritten (reclaims now) s foreign k small h =
      nothing_foreign (reclaims now) s foreign
        (perform-own marshal id before foreign (reclaims now) s refl small h)

  pub perform_all-IsWritten :
      (calls : List (Act G)) (s : WriterState G) (foreign : List Entry)
      → All (Keeps id) calls
      → AllSmall marshal id calls s
      → IsWritten marshal id before foreign s
      → IsWritten marshal id before
          (foreign ++ by_others marshal id calls s)
          (perform_all marshal calls s)
  unfolding perform_all by_others
  perform_all-IsWritten [] s foreign k small h =
      subst (λ (t : List Entry). IsWritten marshal id before t s) (sym (append-nil foreign)) h
  perform_all-IsWritten (a ∷ rest) s foreign k small h =
      let next = perform marshal a s in
      let part = foreign_part a (drop (length (log_of id s.store)) (log_of id next.store)) in
      subst (λ (t : List Entry). IsWritten marshal id before t (perform_all marshal rest next))
        (append_assoc foreign part (by_others marshal id rest next))
        (perform_all-IsWritten rest next (foreign ++ part) k.1 small.1
          (perform-IsWritten a s foreign k.0 small.0 h))
