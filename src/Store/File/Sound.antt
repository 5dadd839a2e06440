-- ===== src/Store/File/Sound.antt =====
-- What each step of the handles of a FileStore (store/file.go) keeps.
use gotato.Base.{
  ℕ, true, Option, some, List, ◌∷◌, ◌++◌, Bytes, lookup, insert, bytes_eq, nat_eq, ◌===◌,
  lookup-insert, lookup-delete, ◌≡◌, inl, inr, ◌∙◌, ap, subst, arith, if◌then◌else◌, Bool-cases,
  Option-cases, ◌==◌,
}
use gotato.Record.Entry.{Entry, Header}
use gotato.Store.Id.{StoreError}
use gotato.Store.File.{FileHead, FileStore}
use gotato.Store.File.Calls.{FileWrite}
use gotato.Store.File.Shows.{Shows, Good, IsKnown, Among}
use gotato.Store.File.Agree.{Agree}
use gotato.Store.File.Appending.{Pending, EpochsIn, Caches}
use gotato.Store.File.Ending.{Separated}
use gotato.Store.File.World.{World, heads_of, handle_of, put_handle}
use gotato.Store.Memory.{MemoryRecord, MemoryStore, create, append, delete_record}
use gotato.Store.Memory.Invariant.{IsStored}
use gotato.Store.Memory.Step.{
  create-ok, create_error_unchanged, append-ok, append_error_unchanged, extended,
}

pub create-EpochsIn :
    (used : List Bytes) (ctx : Option StoreError) (id : Bytes) (entries : List Entry) (h : Header)
    (m : MemoryStore)
    → EpochsIn used m
    → EpochsIn (h.epoch ∷ used) (create ctx id entries h m).0
create-EpochsIn used ctx id entries h m v k r e =
    elim (Option-cases (create ctx id entries h m).1) [
      | inr (x, q) ↦ inr (
          v k r (
            subst (λ (s : MemoryStore). lookup k s.records ≡ some r)
              (create_error_unchanged ctx id entries h m q) e))
      | inl q ↦
          let (free, batch, named, w) = create-ok ctx id entries h m q in
          let e' : lookup k (insert id (record { entries = entries; header = h }) m.records)
              ≡ some r =
            subst (λ (s : MemoryStore). lookup k s.records ≡ some r) w e in
          elim (Bool-cases (id === k)) [
            | inl same ↦ inl (ap (λ (x : MemoryRecord). x.header.epoch) (new_value same e'))
            | inr other ↦ inr (
                v k r (
                  ground (
                    arith,
                    e',
                    lookup-insert id k (record { entries = entries; header = h }) m.records,
                  )))
          ]
    ]
  where
    new_value :
        id === k ≡ true
        → lookup k (insert id (record { entries = entries; header = h }) m.records) ≡ some r
        → record { entries = entries; header = h } ≡ r
    new_value same e' =
        ground (arith, lookup-insert id k (record { entries = entries; header = h }) m.records)

pub append-EpochsIn :
    (used : List Bytes) (ctx : Option StoreError) (id : Bytes) (after : ℕ) (entries : List Entry)
    (h : Header) (m : MemoryStore)
    → EpochsIn used m
    → EpochsIn used (append ctx id after entries h m).0
append-EpochsIn used ctx id after entries h m v k r e =
    elim (Option-cases (append ctx id after entries h m).1) [
      | inr (x, q) ↦ v k r (
          subst (λ (s : MemoryStore). lookup k s.records ≡ some r)
            (append_error_unchanged ctx id after entries h m q) e)
      | inl q ↦
          let (old, a, w) = append-ok ctx id after entries h m q in
          let e' : lookup k (extended id entries h m old).records ≡ some r =
            subst (λ (s : MemoryStore). lookup k s.records ≡ some r) w e in
          elim (Bool-cases (id === k)) [
            | inl same ↦
                subst (λ x. Among x used)
                  (a.same_epoch ∙ ap (λ (x : MemoryRecord). x.header.epoch) (new_value old same e'))
                  (v id old a.found)
            | inr other ↦ v k r (
                ground (
                  arith,
                  e',
                  lookup-insert id k (record { entries = old.entries ++ entries; header = h })
                      m.records,
                ))
          ]
    ]
  where
    new_value :
        (old : MemoryRecord)
        → id === k ≡ true
        → lookup k (extended id entries h m old).records ≡ some r
        → record { entries = old.entries ++ entries; header = h } ≡ r
    new_value old same e' = ground (
      arith,
      lookup-insert id k (record { entries = old.entries ++ entries; header = h }) m.records,
    )

pub delete-EpochsIn :
    (used : List Bytes) (ctx : Option StoreError) (id : Bytes) (m : MemoryStore)
    → EpochsIn used m
    → EpochsIn used (delete_record ctx id m).0
unfolding delete_record
delete-EpochsIn used ctx id m v k r e = v k r (ground (arith, lookup-delete id k m.records))

module _ (hash : Bytes → Bytes) where
  -- The files stand for the Records, and what the handles and the Appends in flight know of them holds.
  pub record Sound (used : List Bytes) (w : World) (m : MemoryStore) : Type 0 where
    pub shows : Shows hash w.disk m
    pub stored : IsStored m
    pub epochs : EpochsIn used m
    pub apart : Separated hash used
    pub caches : (n : ℕ) → Caches hash used (handle_of n w) w.disk
    pub waiting :
        (t : ℕ) (q : ℕ × FileWrite) → lookup t w.pending ≡ some q → Pending hash used w.disk q.1

  Pending-keeps :
      (used made : List Bytes) (f : FileStore) (F : FileStore × Option StoreError)
      (M : MemoryStore × Option StoreError) (p : FileWrite)
      → ((x : Bytes) → Among x used → Among x made)
      → Agree hash used made f F M
      → Pending hash used f.disk p
      → Pending hash made F.0.disk p
  Pending-keeps used made f F M p more a q = record {
    short = q.short;
    id_ok = q.id_ok;
    batch_ok = q.batch_ok;
    at = q.at;
    known = more p.batch.header.epoch q.known;
    seen = q.seen;
    seen_after = q.seen_after;
    seen_dir = q.seen_dir;
    holds =
        a.keeps q.seen (p.batch.header.epoch, q.known, ap (λ x. x.1) (q.seen_dir ∙ q.at)) q.holds;
  }

  heads_of-put_handle :
      (n k : ℕ) (f : FileStore) (w : World)
      → heads_of k (put_handle n f w) ≡ (if n == k then f.heads else heads_of k w)
  heads_of-put_handle n k f w = ground (arith, lookup-insert n k f.heads w.handles)

  -- A call through a handle that agrees with the MemoryStore's keeps it all.
  pub Agree-Sound :
      (used made : List Bytes) (n : ℕ) (w : World) (m : MemoryStore)
      (F : FileStore × Option StoreError) (M : MemoryStore × Option StoreError)
      → ((x : Bytes) → Among x used → Among x made)
      → Agree hash used made (handle_of n w) F M
      → Sound used w m
      → IsStored M.0
      → EpochsIn made M.0
      → Separated hash made
      → Sound made (put_handle n F.0 w) M.0
  Agree-Sound used made n w m F M more a s stored epochs apart = record {
    shows = a.shows;
    stored = stored;
    epochs = epochs;
    apart = apart;
    caches = heads;
    waiting = λ t q e. Pending-keeps used made (handle_of n w) F M q.1 more a (s.waiting t q e);
  }
    where
      old :
          (k : ℕ) (j : Bytes) (c : FileHead)
          → lookup j (heads_of k w) ≡ some c
          → IsKnown hash made c.dir × Good c F.0.disk
      old k j c e =
          let ((x, i, q), g) = s.caches k j c e in ((x, more x i, q), a.keeps c (x, i, q) g)

      heads : (k : ℕ) → Caches hash made (handle_of k (put_handle n F.0 w)) F.0.disk
      heads k j c e = elim (Bool-cases (n == k)) [
        | inl same ↦
            elim (a.caches j c (
              subst (λ x. lookup j x ≡ some c) (ground (arith, heads_of-put_handle n k F.0 w)) e)) [
                | inl before ↦ old n j c before
                | inr new ↦ new
              ]
        | inr other ↦
            old k j c
              (subst (λ x. lookup j x ≡ some c) (ground (arith, heads_of-put_handle n k F.0 w)) e)
      ]
