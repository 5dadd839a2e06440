-- ===== src/Store/Writer/Log.antt =====
-- The log that a Writer writes (store/writer.go), among the other callers of its store.
use gotato.Base.{
  ℕ, ◌+◌, ◌<◌, true, Option, none, some, List, [], ◌∷◌, ◌++◌, Bytes, bytes_eq, lookup,
  lookup-insert_self, length, drop, length-append, append_assoc, append-nil, map, u64, max, ◌≡◌,
  refl, arith, ap, sym, ◌∙◌, subst,
}
use gotato.Record.Entry.{Entry}
use gotato.Record.Writing.{Event, without_body, Record, Batch, stored}
use gotato.Store.Id.{StoreError}
use gotato.Store.Memory.{MemoryStore, MemoryRecord, append}
use gotato.Store.Memory.Step.{Longer, append-ok}
use gotato.Store.Writer.{
  Writer, WriterState, WriterError, write_error, failed_with, first_seq, last_seq, count_write,
  send, settle,
}
use gotato.Store.Writer.Taken.{at_end, AllShow, AllShow-append, Took}
use gotato.Store.Writer.History.{Small, log_of}

drop-append : (xs ys : List Entry) → drop (length xs) (xs ++ ys) ≡ ys
drop-append [] ys = refl
drop-append (x ∷ xs) ys = drop-append xs ys

module _ {G : Type 0} where
  pub settle_err :
      (b : Batch) (p : MemoryStore × Option StoreError) (w : Writer G) (e : StoreError)
      → p.1 ≡ some e
      → (settle b p w).0 ≡ record {
        writer = failed_with (write_error e) (count_write b.entries (some e) w);
        store = p.0;
      }
  unfolding settle
  settle_err b (m, none) w e q = absurd (ground arith)
  settle_err b (m, some x) w e q = ground arith

  pub settle_ok :
      (b : Batch) (p : MemoryStore × Option StoreError) (w : Writer G)
      → p.1 ≡ none
      → w.has_publisher ≡ true
      → (settle b p w).0 ≡ record {
        writer = record (count_write b.entries none w) {
          rec = stored (last_seq b.entries 0) w.rec;
          published = w.published ++ map without_body b.events;
        };
        store = p.0;
      }
  unfolding settle send count_write
  settle_ok b (m, none) w q h = ground (arith, h)
  settle_ok b (m, some x) w q h = absurd (ground arith)

module _ {G : Type 0} (marshal : Event → Option Bytes) (id : Bytes)
    (before foreign : List Entry) where
  -- The stored log is `before`, the Entries of the published Events, up to the head that the Writer
  -- knows, and then what others appended, which is `foreign`.
  pub record IsWritten (s : WriterState G) : Type 0 where
    pub here : MemoryRecord
    pub mid : List Entry
    pub found : lookup id s.store.records ≡ some here
    pub split : here.entries ≡ (before ++ mid) ++ foreign
    pub shown : AllShow marshal s.writer.published mid
    pub at_head : s.writer.rec.head ≡ length (before ++ mid)
    pub named : s.writer.rec.id ≡ id
    pub heard : s.writer.has_publisher ≡ true

  -- A change of the Record that is not of its head.
  pub rec-IsWritten :
      (r : Record) (s : WriterState G)
      → IsWritten s
      → r.head ≡ s.writer.rec.head
      → r.id ≡ s.writer.rec.id
      → IsWritten (record s { writer = record s.writer { rec = r } })
  rec-IsWritten r s h p q = record {
    here = h.here;
    mid = h.mid;
    found = h.found;
    split = h.split;
    shown = h.shown;
    at_head = p ∙ h.at_head;
    named = q ∙ h.named;
    heard = h.heard;
  }

  pub fail-IsWritten :
      (e : WriterError G) (s : WriterState G)
      → IsWritten s
      → IsWritten (record s { writer = failed_with e s.writer })
  fail-IsWritten e s h = record {
    here = h.here;
    mid = h.mid;
    found = h.found;
    split = h.split;
    shown = h.shown;
    at_head = h.at_head;
    named = h.named;
    heard = h.heard;
  }

  -- A batch that the store took.
  pub landed-IsWritten :
      (b : Batch) (ctx : Option StoreError) (r : Record) (s : WriterState G)
      → IsWritten s
      → s.writer.failed ≡ none
      → Took marshal s.writer.rec r b
      → (append ctx id
          (u64 (first_seq b.entries + 18446744073709551615))
          b.entries
          b.header
          s.store).1
        ≡ none
      → Small id
          (append ctx id
            (u64 (first_seq b.entries + 18446744073709551615))
            b.entries
            b.header
            s.store).0
      → IsWritten (record {
        writer = record (count_write b.entries none (record s.writer { rec = r })) {
          rec = stored (last_seq b.entries 0) r;
          published = s.writer.published ++ map without_body b.events;
        };
        store =
            (append ctx id
              (u64 (first_seq b.entries + 18446744073709551615))
              b.entries
              b.header
              s.store).0;
      })
  unfolding stored count_write
  landed-IsWritten b ctx r s h f t q small =
      let after = u64 (first_seq b.entries + 18446744073709551615) in
      let (old, a, w) = append-ok ctx id after b.entries b.header s.store q in
      let now_here =
        lookup-insert_self id (record { entries = old.entries ++ b.entries; header = b.header })
          s.store.records in
      let found' = ap (λ (m : MemoryStore). lookup id m.records) w ∙ now_here in
      let short : length old.entries + length b.entries < 18446744073709551616 =
        omega (arith, small _ found', length-append old.entries b.entries) in
      let same : h.here ≡ old = ground (arith, h.found, a.found) in
      let whole : old.entries ≡ (before ++ h.mid) ++ foreign =
        ap (λ (x : MemoryRecord). x.entries) (sym same) ∙ h.split in
      let len : length old.entries ≡ length (before ++ h.mid) + length foreign =
        ap length whole ∙ length-append (before ++ h.mid) foreign in
      let at =
        at_end s.writer.rec.head (first_seq b.entries) (length old.entries) t.starts
          (omega (arith, len, short, h.at_head)) (omega (arith, short)) a.at_head in
      let nothing : foreign ≡ [] = empty foreign (omega (arith, len, at, h.at_head)) in
      record {
        here = record { entries = old.entries ++ b.entries; header = b.header };
        mid = h.mid ++ b.entries;
        found = found';
        split =
            ap (λ (x : List Entry). x ++ b.entries)
              (whole
                ∙ ap (λ (x : List Entry). (before ++ h.mid) ++ x) nothing
                ∙ append-nil (before ++ h.mid))
            ∙ append_assoc before h.mid b.entries
            ∙ sym (append-nil (before ++ (h.mid ++ b.entries)))
            ∙ ap (λ (x : List Entry). (before ++ (h.mid ++ b.entries)) ++ x) (sym nothing);
        shown =
            AllShow-append marshal s.writer.published (map without_body b.events) h.mid b.entries
              h.shown
              (subst (λ (x : List Event). AllShow marshal (map without_body x) b.entries)
                (sym t.all) t.taken.shown);
        at_head =
            reaches s.writer.rec.head r.head (last_seq b.entries 0) (length s.writer.rec.pending)
              (length b.entries) (ap (λ (x : Record). x.head) t.rest) t.ends_at t.taken.many
              (omega (arith, at, short))
            ∙ sums h.at_head;
        named = ap (λ (x : Record). x.id) t.rest ∙ h.named;
        heard = h.heard;
      }
    where
      empty : (xs : List Entry) → length xs ≡ 0 → xs ≡ []
      empty [] q = refl
      empty (x ∷ xs) q = absurd (omega (arith, q))

      reaches :
          (head head' last n k : ℕ)
          → head' ≡ head
          → last ≡ u64 (head + n)
          → k ≡ n
          → head + k < 18446744073709551616
          → max head' last ≡ head + k
      reaches head head' last n k p q e small = omega (arith, p, q, e, small)

      sums :
          s.writer.rec.head ≡ length (before ++ h.mid)
          → s.writer.rec.head + length b.entries ≡ length (before ++ (h.mid ++ b.entries))
      sums at =
          ap (λ n. n + length b.entries) at
          ∙ sym (length-append (before ++ h.mid) b.entries)
          ∙ ap length (append_assoc before h.mid b.entries)

-- What the call of another appended.
module _ {G : Type 0} (marshal : Event → Option Bytes) (id : Bytes)
    (before foreign : List Entry) where
  grown-drop :
      (m : MemoryStore) (s : WriterState G) (r r' : MemoryRecord) (suffix : List Entry)
      → lookup id s.store.records ≡ some r
      → lookup id m.records ≡ some r'
      → r'.entries ≡ r.entries ++ suffix
      → drop (length (log_of id s.store)) (log_of id m) ≡ suffix
  unfolding log_of
  grown-drop m s r r' suffix e f g = rw (e, f, g) (drop-append r.entries suffix)

  pub others-IsWritten :
      (m : MemoryStore) (s : WriterState G)
      → IsWritten marshal id before foreign s
      → ((r : MemoryRecord) → lookup id s.store.records ≡ some r → Longer r (lookup id m.records))
      → IsWritten marshal id before
          (foreign ++ drop (length (log_of id s.store)) (log_of id m))
          (record s { store = m })
  others-IsWritten m s h longer =
      let (suffix, r, found, grown, _) = longer h.here h.found in
      record {
        here = r;
        mid = h.mid;
        found = found;
        split =
            grown
            ∙ ap (λ (t : List Entry). t ++ suffix) h.split
            ∙ append_assoc (before ++ h.mid) foreign suffix
            ∙ ap (λ (t : List Entry). (before ++ h.mid) ++ (foreign ++ t))
                (sym (grown-drop m s h.here r suffix h.found found grown));
        shown = h.shown;
        at_head = h.at_head;
        named = h.named;
        heard = h.heard;
      }
