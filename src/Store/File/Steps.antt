-- ===== src/Store/File/Steps.antt =====
-- One step of the handles of a FileStore (store/file.go) against the MemoryStore of store/memory.go.
use gotato.Base.{
  ℕ, Option, none, some, List, [], ◌∷◌, Bytes, lookup, insert, delete, bytes_eq, nat_eq,
  lookup-insert, lookup-delete, ◌==◌, Bool-cases, true, ◌≡◌, ◌≢◌, inl, inr, refl, sym, ◌∙◌, ap,
  subst, arith, Result, ok, err, All, Option-cases,
}
use gotato.Record.Entry.{Entry, Header}
use gotato.Store.Id.{StoreError}
use gotato.Store.File.{FileStore}
use gotato.Store.File.Calls.{FileWrite, append_checked, append_write}
use gotato.Store.File.Shows.{Shows, Good, IsKnown, All-Among}
use gotato.Store.File.Agree.{IsShort}
use gotato.Store.File.Creating.{create-Agree}
use gotato.Store.File.Deleting.{delete-Agree}
use gotato.Store.File.Appending.{Pending, Caches, Checked, append_checked-Checked}
use gotato.Store.File.Ending.{Separated, write-Agree}
use gotato.Store.File.Sound.{Sound, Agree-Sound, create-EpochsIn, append-EpochsIn, delete-EpochsIn}
use gotato.Store.File.World.{
  World, FileStep, creates, checks, writes, deletes, Ended, call_of, file_step, handle_of,
  put_handle,
}
use gotato.Store.Memory.{MemoryStore, append}
use gotato.Store.Memory.Step
use gotato.Store.Memory.Step.{Call}
use gotato.Store.Memory.Invariant.{Fits, create-IsStored, append-IsStored, delete-IsStored}

-- The store after a step in which this call ended, if one did.
abbrev pub follow : Option Ended → MemoryStore → MemoryStore
follow none m = m
follow (some c) m = (Step.step c.0 m).0

abbrev pub Same : Option Ended → MemoryStore → Type 0
Same none m = Unit {0}
Same (some c) m = (Step.step c.0 m).1 ≡ c.1

abbrev pub MayFit : Option Ended → MemoryStore → Type 0
MayFit none m = Unit {0}
MayFit (some c) m = Fits c.0 m

module _ (hash : Bytes → Bytes) where
  -- A create comes with an epoch whose directory differs from that of every create before it, also of
  -- one that failed or whose Record was deleted since; an append comes with an epoch that shares its
  -- directory with no other epoch of a create before it; and every id has a name that is short enough.
  abbrev pub Proper : List Bytes → FileStep → Type 0
  Proper used (creates n ctx id entries h) = IsShort id × All (λ e. hash e ≢ hash h.epoch) used
  Proper used (checks t n ctx id after entries h) =
      IsShort id × All (λ e. hash e ≡ hash h.epoch → e ≡ h.epoch) used
  Proper used (writes t) = Unit {0}
  Proper used (deletes n ctx id) = IsShort id

  abbrev pub used_after : List Bytes → FileStep → List Bytes
  used_after used (creates n ctx id entries h) = h.epoch ∷ used
  used_after used _ = used

  abbrev pub AllProper : List Bytes → List FileStep → Type 0
  AllProper used [] = Unit {0}
  AllProper used (s ∷ ss) = Proper used s × AllProper (used_after used s) ss

  Separated-cons :
      (used : List Bytes) (e : Bytes)
      → All (λ x. hash x ≢ hash e) used
      → Separated hash used
      → Separated hash (e ∷ used)
  Separated-cons used e fresh apart a b (inl p) (inl q) h = sym p ∙ q
  Separated-cons used e fresh apart a b (inl p) (inr j) h =
      absurd (All-Among (λ x. hash x ≢ hash e) used b fresh j (sym (ap hash p ∙ h)))
  Separated-cons used e fresh apart a b (inr i) (inl q) h =
      absurd (All-Among (λ x. hash x ≢ hash e) used a fresh i (h ∙ sym (ap hash q)))
  Separated-cons used e fresh apart a b (inr i) (inr j) h = apart a b i j h

  -- What a step keeps, and that the call that ends in it gives the MemoryStore's result.
  abbrev pub Kept : List Bytes → World × Option Ended → MemoryStore → Type 0
  Kept made next m = MayFit next.1 m → Sound hash made next.0 (follow next.1 m) × Same next.1 m

  create_step :
      (used : List Bytes) (n : ℕ) (ctx : Option StoreError) (id : Bytes) (entries : List Entry)
      (h : Header) (w : World) (m : MemoryStore)
      → Proper used (creates n ctx id entries h)
      → Sound hash used w m
      → Kept (h.epoch ∷ used) (file_step hash (creates n ctx id entries h) w) m
  unfolding file_step Step.step
  create_step used n ctx id entries h w m p s fits =
      let a = create-Agree hash used ctx id entries h (handle_of n w) m p.0 fits p.1 s.shows in
      (
        Agree-Sound hash used (h.epoch ∷ used) n w m _ _ (λ x i. inr i) a s
            (create-IsStored ctx id entries h m fits s.stored)
            (create-EpochsIn used ctx id entries h m s.epochs)
            (Separated-cons used h.epoch p.1 s.apart),
        sym a.result,
      )

  delete_step :
      (used : List Bytes) (n : ℕ) (ctx : Option StoreError) (id : Bytes) (w : World)
      (m : MemoryStore)
      → IsShort id
      → Sound hash used w m
      → Kept used (file_step hash (deletes n ctx id) w) m
  unfolding file_step Step.step
  delete_step used n ctx id w m p s fits =
      let a = delete-Agree hash used ctx id (handle_of n w) m p s.shows in
      (
        Agree-Sound hash used used n w m _ _ (λ x i. i) a s (delete-IsStored ctx id m s.stored)
            (delete-EpochsIn used ctx id m s.epochs) s.apart,
        sym a.result,
      )

  with_pending :
      (used : List Bytes) (w : World) (m : MemoryStore) (ps : List (ℕ × (ℕ × FileWrite)))
      → Sound hash used w m
      → ((t : ℕ) (q : ℕ × FileWrite) → lookup t ps ≡ some q → Pending hash used w.disk q.1)
      → Sound hash used (record w { pending = ps }) m
  with_pending used w m ps s h = record {
    shows = s.shows;
    stored = s.stored;
    epochs = s.epochs;
    apart = s.apart;
    caches = s.caches;
    waiting = h;
  }

  -- The world after the write of a pending Append.
  abbrev written : ℕ → ℕ × FileWrite → World → World × Option Ended
  written t q w =
      let (f, e) = append_write q.1 (handle_of q.0 w) in
      (record (put_handle q.0 f w) { pending = delete t w.pending }, some (call_of q.1, e))

  writes-some :
      (t : ℕ) (q : ℕ × FileWrite) (w : World)
      → lookup t w.pending ≡ some q
      → file_step hash (writes t) w ≡ written t q w
  unfolding file_step
  writes-some t q w e = ground (arith, e)

  writes-none :
      (t : ℕ) (w : World) → lookup t w.pending ≡ none → file_step hash (writes t) w ≡ (w, none)
  unfolding file_step
  writes-none t w e = ground (arith, e)

  pending_step :
      (used : List Bytes) (t : ℕ) (q : ℕ × FileWrite) (w : World) (m : MemoryStore)
      → lookup t w.pending ≡ some q
      → Sound hash used w m
      → Kept used (written t q w) m
  unfolding Step.step
  pending_step used t q w m e s fits =
      let p = s.waiting t q e in
      let a =
        write-Agree hash used q.1 (handle_of q.0 w) m p s.apart s.shows s.stored s.epochs fits in
      let next = append_write q.1 (handle_of q.0 w) in
      let moved = append none q.1.id q.1.after q.1.batch.entries q.1.batch.header m in
      let v =
        Agree-Sound hash used used q.0 w m next moved (λ x i. i) a s
          (append-IsStored none q.1.id q.1.after q.1.batch.entries q.1.batch.header m fits s.stored)
          (append-EpochsIn used none q.1.id q.1.after q.1.batch.entries q.1.batch.header m s.epochs)
          s.apart in
      (
        with_pending used (put_handle q.0 next.0 w) moved.0 (delete t w.pending) v
            (λ u x i. v.waiting u x (ground (arith, i, lookup-delete t u w.pending))),
        sym a.result,
      )

  write_step :
      (used : List Bytes) (t : ℕ) (w : World) (m : MemoryStore)
      → Sound hash used w m
      → Kept used (file_step hash (writes t) w) m
  write_step used t w m s = elim (Option-cases (lookup t w.pending)) [
    | inl e ↦ subst (λ x. Kept used x m) (sym (writes-none t w e)) (λ fits. (s, tt))
    | inr (q, e) ↦
        subst (λ x. Kept used x m) (sym (writes-some t q w e)) (pending_step used t q w m e s)
  ]

  -- The handle after checks that agree with the MemoryStore.
  checked_world :
      (used : List Bytes) (n : ℕ) (f : FileStore) (w : World) (m : MemoryStore)
      → f.disk ≡ w.disk
      → Caches hash used f w.disk
      → Sound hash used w m
      → Sound hash used (put_handle n f w) m
  checked_world used n f w m d c s =
      Agree-Sound hash used used n w m (f, none) (m, none) (λ x i. i)
        (record {
          result = refl;
          shows = subst (λ x. Shows hash x m) (sym d) s.shows;
          keeps = λ x known g. subst (λ y. Good x y) (sym d) g;
          caches = λ k x e. inr (subst (λ y. IsKnown hash used x.dir × Good x y) (sym d) (c k x e));
        })
        s s.stored s.epochs s.apart

  check_step :
      (used : List Bytes) (t n : ℕ) (ctx : Option StoreError) (id : Bytes) (after : ℕ)
      (entries : List Entry) (h : Header) (w : World) (m : MemoryStore)
      → Proper used (checks t n ctx id after entries h)
      → Sound hash used w m
      → Kept used (file_step hash (checks t n ctx id after entries h) w) m
  unfolding file_step Step.step
  check_step used t n ctx id after entries h w m p s =
      go (append_checked hash ctx id after entries h (handle_of n w)) (
        append_checked-Checked hash used ctx id after entries h (handle_of n w) m p.0 p.1 s.shows
          s.stored s.epochs (s.caches n))
    where
      go :
          (next : FileStore × Result StoreError FileWrite)
          → Checked hash used ctx id after entries h (handle_of n w) m next
          → Kept used
              (elim next.1 [
                | err e ↦
                    (put_handle n next.0 w, some (Step.appends ctx id after entries h, some e))
                | ok p ↦
                    (record (put_handle n next.0 w) { pending = insert t (n, p) w.pending }, none)
              ])
              m
      go (f, err e) c fits =
          let v = checked_world used n f w m c.same_disk c.caches s in
          subst
            (λ (x : MemoryStore × Option StoreError).
              Sound hash used (put_handle n f w) x.0 × (x.1 ≡ some e))
            (sym c.outcome) (v, refl)
      go (f, ok x) c fits =
          let v = checked_world used n f w m c.same_disk c.caches s in
          (
            with_pending used (put_handle n f w) m (insert t (n, x) w.pending) v (λ u q e.
                elim (Bool-cases (t == u)) [
                  | inl same ↦
                      subst (λ (z : ℕ × FileWrite). Pending hash used f.disk z.1)
                        (the_new u q same e)
                        (subst (λ y. Pending hash used y x) (sym c.same_disk) c.outcome.0)
                  | inr other ↦
                      v.waiting u q (ground (arith, e, lookup-insert t u (n, x) w.pending))
                ]),
            tt,
          )
        where
          the_new :
              (u : ℕ) (q : ℕ × FileWrite)
              → t == u ≡ true
              → lookup u (insert t (n, x) w.pending) ≡ some q
              → (n, x) ≡ q
          the_new u q same e = ground (arith, e, lookup-insert t u (n, x) w.pending)

  pub file_step-Kept :
      (used : List Bytes) (a : FileStep) (w : World) (m : MemoryStore)
      → Proper used a
      → Sound hash used w m
      → Kept (used_after used a) (file_step hash a w) m
  file_step-Kept used (creates n ctx id entries h) w m p s =
      create_step used n ctx id entries h w m p s
  file_step-Kept used (checks t n ctx id after entries h) w m p s =
      check_step used t n ctx id after entries h w m p s
  file_step-Kept used (writes t) w m p s = write_step used t w m s
  file_step-Kept used (deletes n ctx id) w m p s = delete_step used n ctx id w m p s
