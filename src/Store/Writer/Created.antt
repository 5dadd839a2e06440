-- ===== src/Store/Writer/Created.antt =====
-- The log of a Record from CreateWriter (store/writer.go) on.
use gotato.Base.{
  ℕ, ◌+◌, ◌<◌, Bool, true, ltb, Option, none, some, List, [], ◌∷◌, ◌++◌, Bytes, bytes_eq, lookup,
  lookup-insert_self, map, length, append-nil, u64, max, ok, ◌≡◌, ◌⊎◌, inl, inr, refl, arith,
  Bool-cases, Option-cases, ap, sym, ◌∙◌, subst, All, if_cases,
}
use gotato.Record.Entry.{Entry}
use gotato.Record.Writing.{
  Event, without_body, Record, Batch, take_pending, stored, number, number_all, emit, start_log,
  start_writing, claim_for, release_claim, ClaimWhy,
}
use gotato.Store.Id.{StoreError}
use gotato.Store.Batch.{check_batch}
use gotato.Store.Memory.{MemoryStore, MemoryRecord, create}
use gotato.Store.Memory.Step.{create-ok}
use gotato.Store.Writer.{
  Writer, Write, last_seq, count_write, send, made, no_batch, new_writer, create_started,
  create_writer,
}
use gotato.Store.Writer.Taken.{AllShow, Took, take_pending-Took, Result-cases}
use gotato.Store.Writer.History.{Act, perform_all, Keeps, Small, AllSmall, by_others}
use gotato.Store.Writer.Log.{IsWritten}
use gotato.Store.Writer.Kept.{perform_all-IsWritten}
use gotato.Store.Writer.Flush.{Same, claim_for-Same}

number_all-Same : (now : ℕ) (es : List Event) (s : Record) → Same (number_all now es s) s
unfolding number_all number
number_all-Same now [] s = (refl, refl)
number_all-Same now (e ∷ es) s = number_all-Same now es (number now e s).0

start_log-Same :
    (now : ℕ) (fresh : Bytes) (state : Event) (segments : List Event) (s : Record)
    → Same (start_log now fresh state segments s) s
unfolding start_log number
start_log-Same now fresh state segments s = number_all-Same now segments _

release_claim-Same : (now : ℕ) (s : Record) → Same (release_claim now s) s
unfolding release_claim emit number
release_claim-Same now s = (ground arith, ground arith)

start_writing-Same :
    (now : ℕ) (inst : Bytes) (is_idle : Bool) (fresh : Bytes) (state : Event)
    (segments : List Event) (s : Record)
    → Same (start_writing now inst is_idle fresh state segments s) s
unfolding start_writing
start_writing-Same now inst is_idle fresh state segments s =
    let s1 = record s { instance_id = inst; claim = record { instance_id = []; epoch = 0 } } in
    let s2 = start_log now fresh state segments s1 in
    let (a, b) = start_log-Same now fresh state segments s1 in
    let (c, d) = claim_for-Same now inst ClaimWhy.new_session s2 in
    let s3 = record (claim_for now inst ClaimWhy.new_session s2) { busy = true } in
    let (e, f) = release_claim-Same now s3 in
    if_cases (λ (r : Record). Same r s) is_idle _ _ (λ _. (e ∙ c ∙ a, f ∙ d ∙ b))
      (λ _. (c ∙ a, d ∙ b))

no_create :
    (ctx : Option StoreError) (id : Bytes) (m : MemoryStore)
    → (create ctx id [] no_batch.header m).1 ≡ none
    → ⊥
unfolding check_batch
no_create ctx id m q =
    let (_, c, _, _) = create-ok ctx id [] no_batch.header m q in ground (arith, c)

module _ {G : Type 0} where
  made_ok :
      (b : Batch) (w : Writer G) (p : MemoryStore × Option StoreError) (m : MemoryStore)
      (w' : Writer G)
      → made b w p ≡ (m, ok w')
      → (p.1 ≡ none)
        × (m ≡ p.0)
        × (w'
            ≡ send b.events (record (count_write b.entries none w) {
              rec = stored (last_seq b.entries 0) w.rec;
            }))
  unfolding made count_write
  made_ok b w (k, none) m w' q = ground (arith, q)
  made_ok b w (k, some e) m w' q = absurd (ground (arith, q))

  -- What CreateWriter, when it returns a Writer, took and gave the store.
  record Made (marshal : Event → Option Bytes) (x : Write G) (s : Record) (m m' : MemoryStore)
      (has_publisher : Bool) (w : Writer G) : Type 0 where
    pub r : Record
    pub b : Batch
    pub took : Took marshal s r b
    pub landed : (create x.ctx r.id b.entries b.header m).1 ≡ none
    pub store : m' ≡ (create x.ctx r.id b.entries b.header m).0
    pub writer :
        w
        ≡ send b.events (record (count_write b.entries none (new_writer has_publisher r)) {
          rec = stored (last_seq b.entries 0) r;
        })

  create_started-Made :
      (marshal : Event → Option Bytes) (x : Write G) (p : Bool) (s : Record) (m m' : MemoryStore)
      (w : Writer G)
      → create_started marshal x p s m ≡ (m', ok w)
      → Made marshal x s m m' p w
  unfolding create_started
  create_started-Made marshal x p s m m' w q = elim (Result-cases (take_pending marshal s)) [
    | inl (e, t) ↦ absurd (ground (arith, q, t))
    | inr ((r, o), t) ↦ elim (Option-cases x.guard) [
      | inr (g, z) ↦ absurd (ground (arith, q, t, z))
      | inl z ↦ by_batch r o t z (Option-cases o)
    ]
  ]
    where
      by_batch :
          (r : Record) (o : Option Batch)
          → take_pending marshal s ≡ ok (r, o)
          → x.guard ≡ none
          → (o ≡ none) ⊎ ((b : Batch) × (o ≡ some b))
          → Made marshal x s m m' p w
      by_batch r o t z (inl n) =
          let (a, _, _) =
            made_ok no_batch (new_writer p r) (create x.ctx r.id [] no_batch.header m) m' w
              (ground (arith, q, t, z, n)) in
          absurd (no_create x.ctx r.id m a)
      by_batch r o t z (inr (b, n)) =
          let (a, c, d) =
            made_ok b (new_writer p r) (create x.ctx r.id b.entries b.header m) m' w
              (ground (arith, q, t, z, n)) in
          record {
            r = r;
            b = b;
            took = take_pending-Took marshal s r b (t ∙ ap (λ (o : Option Batch). ok (r, o)) n);
            landed = a;
            store = c;
            writer = d;
          }

  Made-IsWritten :
      (marshal : Event → Option Bytes) (x : Write G) (s : Record) (m m' : MemoryStore)
      (w : Writer G)
      → s.head ≡ 0
      → Made marshal x s m m' true w
      → Small s.id m'
      → IsWritten marshal s.id [] [] (record { writer = w; store = m' })
  unfolding send count_write stored
  Made-IsWritten marshal x s m m' w zero_head h small =
      let (_, _, _, kept) = create-ok x.ctx h.r.id h.b.entries h.b.header m h.landed in
      let same : h.r.id ≡ s.id = ap (λ (y : Record). y.id) h.took.rest in
      let new : MemoryRecord = record { entries = h.b.entries; header = h.b.header } in
      let found' : lookup s.id m'.records ≡ some new =
        ap (λ (i : Bytes). lookup i m'.records) (sym same)
        ∙ ap (λ (k : MemoryStore). lookup h.r.id k.records) (h.store ∙ kept)
        ∙ lookup-insert_self h.r.id new m.records in
      record {
        here = new;
        mid = h.b.entries;
        found = found';
        split = sym (append-nil h.b.entries);
        shown =
            subst (λ (y : List Event). AllShow marshal y h.b.entries)
              (ap (map without_body) (sym h.took.all)
                ∙ ap (λ (y : Writer G). y.published) (sym h.writer))
              h.took.taken.shown;
        at_head =
            ap (λ (y : Writer G). y.rec.head) h.writer
            ∙ reaches s.head h.r.head (last_seq h.b.entries 0) (length s.pending)
                (length h.b.entries) (ap (λ (y : Record). y.head) h.took.rest) zero_head
                h.took.ends_at h.took.taken.many (small new found');
        named = ap (λ (y : Writer G). y.rec.id) h.writer ∙ same;
        heard = ap (λ (y : Writer G). y.has_publisher) h.writer;
      }
    where
      reaches :
          (head head' last n k : ℕ)
          → head' ≡ head
          → head ≡ 0
          → last ≡ u64 (head + n)
          → k ≡ n
          → k < 18446744073709551616
          → max head' last ≡ k
      reaches head head' last n k p z q e small = omega (arith, p, z, q, e, small)

  -- When CreateWriter returns a Writer with a publisher: after any calls of it and of others that
  -- do not delete the Record, while the log stays below 2^64 Entries, the log is an Entry for each
  -- Event that was published, in that order, which reach to the head of the Writer's Record, and
  -- then what the calls of others appended, in their order, and nothing else.
  pub created_lem :
      (marshal : Event → Option Bytes) (x : Write G) (inst : Bytes) (is_idle : Bool) (fresh : Bytes)
      (state : Event) (segments : List Event) (r : Record) (m m' : MemoryStore) (w : Writer G)
      (calls : List (Act G))
      → create_writer marshal x inst is_idle fresh state segments true r m ≡ (m', ok w)
      → All (Keeps r.id) calls
      → Small r.id m'
      → AllSmall marshal r.id calls (record { writer = w; store = m' })
      → (r' : MemoryRecord) × (mid : List Entry) × (lookup r.id
            (perform_all marshal calls (record { writer = w; store = m' })).store.records
          ≡ some r')
        × (r'.entries ≡ mid ++ by_others marshal r.id calls (record { writer = w; store = m' }))
        × AllShow marshal
            (perform_all marshal calls (record { writer = w; store = m' })).writer.published
            mid
        × ((perform_all marshal calls (record { writer = w; store = m' })).writer.rec.head
            ≡ length mid)
  unfolding create_writer
  created_lem marshal x inst is_idle fresh state segments r m m' w calls q keeps small all =
      elim (Bool-cases (ltb 0 r.head)) [
        | inl z ↦ absurd (ground (arith, q, z))
        | inr z ↦
            let s = start_writing x.now inst is_idle fresh state segments r in
            let (a, b) = start_writing-Same x.now inst is_idle fresh state segments r in
            let made' = create_started-Made marshal x true s m m' w (ground (arith, q, z)) in
            let first =
              subst (λ (i : Bytes). IsWritten marshal i [] [] (record { writer = w; store = m' })) b
                (Made-IsWritten marshal x s m m' w (ground (arith, a, z)) made'
                  (subst (λ (i : Bytes). Small i m') (sym b) small)) in
            let h = perform_all-IsWritten marshal r.id [] calls _ [] keeps all first in
            (h.here, h.mid, h.found, h.split, h.shown, h.at_head)
      ]
