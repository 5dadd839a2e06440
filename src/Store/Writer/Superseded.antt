-- ===== src/Store/Writer/Superseded.antt =====
-- A Writer that has failed, or whose Record another one took (store/writer.go).
use gotato.Base.{
  ◌+◌, ◌<◌, true, ◌||◌, ltb, Option, none, some, List, [], ◌∷◌, Bytes, bytes_eq, lookup, length,
  length-append, is_some, u64, ◌≡◌, inl, inr, refl, arith, Option-cases, ap, sym, ◌∙◌, subst, All,
}
use gotato.Record.Writing.{Event, Record, Batch, write_events, with_session}
use gotato.Store.Memory.{MemoryStore, MemoryRecord, append}
use gotato.Store.Memory.Step.{
  Call, Spares, step, run, step-Longer, append-ok, append_error_unchanged,
}
use gotato.Store.Writer.{
  Writer, WriterState, WriterError, Write, refused, write_error, failed_with, first_seq,
  count_write, settle, write_batch, flush_locked, write,
}
use gotato.Store.Writer.Taken.{at_end, Took}
use gotato.Store.Writer.History.{
  Act, writes, emits, flushes, releases, reclaims, others, perform, perform_all, Keeps, Small,
  AllSmall,
}
use gotato.Store.Writer.Log.{settle_err}
use gotato.Store.Writer.Flush.{
  Same, flush_cases, write_guarded, write_sent, emit-Same, write_events-Same, reclaim-Same,
  release_record-Same,
}

-- What the other callers called.
abbrev pub calls_of : {G : Type 0} → List (Act G) → List Call
calls_of [] = []
calls_of (others c ∷ rest) = c ∷ calls_of rest
calls_of (_ ∷ rest) = calls_of rest

module _ {G : Type 0} (marshal : Event → Option Bytes) (id : Bytes) where
  pub record IsOver (s : WriterState G) : Type 0 where
    pub here : MemoryRecord
    pub found : lookup id s.store.records ≡ some here
    pub over : is_some s.writer.failed || ltb s.writer.rec.head (length here.entries) ≡ true
    pub named : s.writer.rec.id ≡ id

  -- A state that a call of such a Writer leaves: the store and what was published are as they were.
  record Still (s s' : WriterState G) : Type 0 where
    pub store_same : s'.store ≡ s.store
    pub none_sent : s'.writer.published ≡ s.writer.published
    pub is_over : IsOver s'

  rec-IsOver :
      (r : Record) (s : WriterState G)
      → IsOver s
      → Same r s.writer.rec
      → IsOver (record s { writer = record s.writer { rec = r } })
  rec-IsOver r s h (p, q) = record {
    here = h.here;
    found = h.found;
    over = ground (arith, p, h.over);
    named = q ∙ h.named;
  }

  failed-Still :
      (e : WriterError G) (w : Writer G) (s : WriterState G)
      → IsOver s
      → w.published ≡ s.writer.published
      → w.rec.id ≡ s.writer.rec.id
      → Still s (record { writer = failed_with e w; store = s.store })
  failed-Still e w s h p q = record {
    store_same = refl;
    none_sent = p;
    is_over = record { here = h.here; found = h.found; over = refl; named = q ∙ h.named };
  }

  -- The store refuses its batch.
  append_over :
      (x : Write G) (r : Record) (b : Batch) (s : WriterState G)
      → IsOver s
      → s.writer.failed ≡ none
      → Took marshal s.writer.rec r b
      → Small id s.store
      → (append x.ctx id
          (u64 (first_seq b.entries + 18446744073709551615))
          b.entries
          b.header
          s.store).1
        ≡ none
      → ⊥
  append_over x r b s h f t small q =
      let (old, a, _) = append-ok x.ctx id _ b.entries b.header s.store q in
      let same : h.here ≡ old = ground (arith, h.found, a.found) in
      let short = small h.here h.found in
      let past : s.writer.rec.head < length h.here.entries = ground (arith, h.over, f) in
      let len : length old.entries ≡ length h.here.entries =
        ap (λ (y : MemoryRecord). length y.entries) (sym same) in
      let at =
        at_end s.writer.rec.head (first_seq b.entries) (length old.entries) t.starts
          (omega (arith, past, short)) (omega (arith, len, short)) a.at_head in
      omega (arith, at, len, past)

  write_batch-Still :
      (x : Write G) (r : Record) (b : Batch) (s : WriterState G)
      → IsOver s
      → s.writer.failed ≡ none
      → Took marshal s.writer.rec r b
      → Small id s.store
      → Still s (write_batch x b (record s.writer { rec = r }) s.store).0
  unfolding count_write
  write_batch-Still x r b s h f t small =
      let w = record s.writer { rec = r } in
      let same : r.id ≡ s.writer.rec.id = ap (λ (x : Record). x.id) t.rest in
      elim (Option-cases x.guard) [
        | inr (g, q) ↦
            subst (Still s) (sym (write_guarded marshal x b w s.store g q))
              (failed-Still (refused g) w s h refl same)
        | inl q ↦
            let after = u64 (first_seq b.entries + 18446744073709551615) in
            let p = append x.ctx id after b.entries b.header s.store in
            let sent =
              write_sent marshal x b w s.store q
              ∙ ap (λ (i : Bytes). (settle b (append x.ctx i after b.entries b.header s.store) w).0)
                  (same ∙ h.named) in
            elim (Option-cases p.1) [
              | inl z ↦ absurd (append_over x r b s h f t small z)
              | inr (e, z) ↦
                  subst (Still s)
                    (ap
                        (λ (m : MemoryStore). record {
                          writer = failed_with (write_error e) (count_write b.entries (some e) w);
                          store = m;
                        })
                        (sym (append_error_unchanged x.ctx id after b.entries b.header s.store z))
                      ∙ sym (sent ∙ settle_err b p w e z))
                    (failed-Still (write_error e) (count_write b.entries (some e) w) s h refl same)
            ]
      ]

  flush-Still :
      (x : Write G) (s : WriterState G)
      → IsOver s
      → Small id s.store
      → Still s (flush_locked marshal x s.writer s.store).0
  flush-Still x s h small =
      let same : Still s s = record { store_same = refl; none_sent = refl; is_over = h } in
      flush_cases marshal (Still s) x s.writer s.store (λ _. same)
        (λ e _. failed-Still e s.writer s h refl refl) (λ _. same)
        (λ r b f t. write_batch-Still x r b s h f t small)

  -- A call that changes the Record first.
  change-Still :
      (r : Record) (s s' : WriterState G)
      → Still (record s { writer = record s.writer { rec = r } }) s'
      → Still s s'
  change-Still r s s' h = record {
    store_same = h.store_same;
    none_sent = h.none_sent;
    is_over = h.is_over;
  }

  -- A call of the Writer's own.
  abbrev IsOwn : Act G → Type 0
  IsOwn (others c) = ⊥
  IsOwn _ = Unit {0}

  own-Still :
      (a : Act G) (s : WriterState G)
      → IsOwn a
      → IsOver s
      → Small id s.store
      → Still s (perform marshal a s)
  unfolding perform write
  own-Still (writes x events) s _ h small =
      let same = write_events-Same x.now events s.writer.rec in
      change-Still (write_events x.now events s.writer.rec).0 s _
        (flush-Still x _ (rec-IsOver _ s h same) small)
  own-Still (emits now e) s _ h small = record {
    store_same = refl;
    none_sent = refl;
    is_over = rec-IsOver _ s h (emit-Same now (with_session e s.writer.rec.id) s.writer.rec);
  }
  own-Still (flushes x) s _ h small = flush-Still x s h small
  own-Still (releases now) s _ h small = record {
    store_same = refl;
    none_sent = refl;
    is_over = rec-IsOver _ s h (release_record-Same now s.writer.rec);
  }
  own-Still (reclaims now) s _ h small = record {
    store_same = refl;
    none_sent = refl;
    is_over = rec-IsOver _ s h (reclaim-Same now s.writer.rec);
  }
  own-Still (others c) s o h small = absurd o

  others-IsOver :
      (c : Call) (s : WriterState G)
      → Spares id c
      → IsOver s
      → IsOver (record s { store = (step c s.store).0 })
  others-IsOver c s k h =
      let (suffix, r, found, grown, _) = step-Longer c s.store id h.here k h.found in
      record {
        here = r;
        found = found;
        over = ground (arith, h.over, ap length grown ∙ length-append h.here.entries suffix);
        named = h.named;
      }

  after_own :
      (rest : List (Act G)) (s s' : WriterState G)
      → Still s s'
      → (IsOver s'
          → ((perform_all marshal rest s').store ≡ run (calls_of rest) s'.store)
            × ((perform_all marshal rest s').writer.published ≡ s'.writer.published))
      → ((perform_all marshal rest s').store ≡ run (calls_of rest) s.store)
        × ((perform_all marshal rest s').writer.published ≡ s.writer.published)
  after_own rest s s' t ih =
      let (a, b) = ih t.is_over in (a ∙ ap (run (calls_of rest)) t.store_same, b ∙ t.none_sent)

  -- A Writer that has failed, or whose log goes on past its head, publishes nothing more and changes
  -- nothing in the store, whatever it and others call, but a delete of the Record and while the log stays
  -- below 2^64 Entries: the store ends as the calls of the others alone leave it.
  pub superseded_lem :
      (calls : List (Act G)) (s : WriterState G)
      → IsOver s
      → All (Keeps id) calls
      → Small id s.store
      → AllSmall marshal id calls s
      → ((perform_all marshal calls s).store ≡ run (calls_of calls) s.store)
        × ((perform_all marshal calls s).writer.published ≡ s.writer.published)
  unfolding perform_all run perform
  superseded_lem [] s h k small all = (refl, refl)
  superseded_lem (others c ∷ rest) s h k small all =
      superseded_lem rest (record s { store = (step c s.store).0 }) (others-IsOver c s k.0 h) k.1
        all.0 all.1
  superseded_lem (writes x events ∷ rest) s h k small all =
      after_own rest s (perform marshal (writes x events) s)
        (own-Still (writes x events) s tt h small) (λ o. superseded_lem rest _ o k.1 all.0 all.1)
  superseded_lem (emits now e ∷ rest) s h k small all =
      after_own rest s (perform marshal (emits now e) s) (own-Still (emits now e) s tt h small)
        (λ o. superseded_lem rest _ o k.1 all.0 all.1)
  superseded_lem (flushes x ∷ rest) s h k small all =
      after_own rest s (perform marshal (flushes x) s) (own-Still (flushes x) s tt h small)
        (λ o. superseded_lem rest _ o k.1 all.0 all.1)
  superseded_lem (releases now ∷ rest) s h k small all =
      after_own rest s (perform marshal (releases now) s) (own-Still (releases now) s tt h small)
        (λ o. superseded_lem rest _ o k.1 all.0 all.1)
  superseded_lem (reclaims now ∷ rest) s h k small all =
      after_own rest s (perform marshal (reclaims now) s) (own-Still (reclaims now) s tt h small)
        (λ o. superseded_lem rest _ o k.1 all.0 all.1)
