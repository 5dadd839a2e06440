-- ===== src/Store/Memory/Reads.antt =====
-- What Load and Log return of a stored log.
use gotato.Base.{
  ℕ, zero, suc, ◌+◌, ◌<◌, ◌≤◌, true, false, none, some, List, [], ◌∷◌, ◌++◌, Bytes, length, lookup,
  bytes_eq, ◌≡◌, ◌⊎◌, inl, inr, refl, arith, All, select, take, drop, subst, ap, ok, Option-cases,
  take-append-drop, length-take, drop_all, take_all, drop-drop, ◌∙◌,
}
use native.Mathlib.Nat.{zero-add, add-zero}
use gotato.Record.Entry.{Entry, is_checkpoint, is_fact, is_segment_closed}
use gotato.Store.Id.{check_id}
use gotato.Store.Batch.{loaded_from, last_checkpoint, starts_record}
use gotato.Store.Memory.{MemoryRecord, MemoryStore, load, log_after, page_after}
use gotato.Store.Memory.Invariant.{Numbered, IsStored, position_bound}

abbrev pub NoCheckpoint : List Entry → Type 0
NoCheckpoint = All (λ e. is_checkpoint e ≡ false)

-- A log split at its last Checkpoint.
pub record Split (entries : List Entry) (before : List Entry) (c : Entry) (after : List Entry)
    : Type 0 where
  pub whole : entries ≡ before ++ c ∷ after
  pub checkpoint : is_checkpoint c ≡ true
  pub last : NoCheckpoint after
  pub start : last_checkpoint entries ≡ some (length before)

last-none : (es : List Entry) → last_checkpoint es ≡ none → NoCheckpoint es
unfolding last_checkpoint
last-none [] e = tt
last-none (x ∷ xs) e = (ground arith, last-none xs (ground arith))

last-Split :
    (es : List Entry) (i : ℕ)
    → last_checkpoint es ≡ some i
    → (before : List Entry) × (c : Entry) × (after : List Entry) × Split es before c after
unfolding last_checkpoint
last-Split [] i e = cc
last-Split (x ∷ xs) i e = elim (Option-cases (last_checkpoint xs)) [
  | inl none_left ↦ (
    [],
    x,
    xs,
    record {
      whole = refl;
      checkpoint = ground arith;
      last = last-none xs none_left;
      start = ground arith;
    },
  )
  | inr (j, found) ↦
      let (before, c, after, s) = last-Split xs j found in
      (
        x ∷ before,
        c,
        after,
        record {
          whole = ap (λ (t : List Entry). x ∷ t) s.whole;
          checkpoint = s.checkpoint;
          last = s.last;
          start = ground (arith, s.start);
        },
      )
]

starts-Split :
    (es : List Entry)
    → starts_record es ≡ true
    → (before : List Entry) × (c : Entry) × (after : List Entry) × Split es before c after
starts-Split es h = elim (Option-cases (last_checkpoint es)) [
  | inl none_left ↦ absurd (go es h (last-none es none_left))
  | inr (i, found) ↦ last-Split es i found
]
  where
    go : (es : List Entry) → starts_record es ≡ true → NoCheckpoint es → ⊥
    go [] h n = cc
    go (x ∷ xs) h n = ground arith

take-length_append : (xs ys : List Entry) → take (length xs) (xs ++ ys) ≡ xs
take-length_append [] ys = refl
take-length_append (x ∷ xs) ys = ap (λ (t : List Entry). x ∷ t) (take-length_append xs ys)

drop-length_append : (xs ys : List Entry) → drop (length xs) (xs ++ ys) ≡ ys
drop-length_append [] ys = refl
drop-length_append (x ∷ xs) ys = drop-length_append xs ys

loaded_from-Split :
    (es before : List Entry) (c : Entry) (after : List Entry)
    → Split es before c after
    → loaded_from es
      ≡ (select (λ e. is_fact e.layer) (c ∷ after), select (λ e. is_segment_closed e.kind) before)
unfolding loaded_from
loaded_from-Split es before c after s = ground (
  arith,
  s.start,
  s.whole,
  take-length_append before (c ∷ after),
  drop-length_append before (c ∷ after),
)

-- Load, of a stored Record: the facts from the last Checkpoint on and nothing before it, the Segments
-- closed before it, the number of Entries the log holds, and the Header of the last write.
pub load_lem :
    (id : Bytes) (m : MemoryStore) (r : MemoryRecord)
    → IsStored m
    → check_id id ≡ none
    → lookup id m.records ≡ some r
    → (before : List Entry) × (c : Entry) × (after : List Entry) × Split r.entries before c after
      × (load none id m
          ≡ ok (record {
            entries = select (λ e. is_fact e.layer) (c ∷ after);
            segments = select (λ e. is_segment_closed e.kind) before;
            seq = length r.entries;
            header = r.header;
          }))
unfolding load
load_lem id m r v named found =
    let l = v id r found in
    let (before, c, after, s) = starts-Split r.entries l.starts in
    (before, c, after, s, ground (arith, l.bounded, loaded_from-Split r.entries before c after s))

Numbered-take : (n k : ℕ) (xs : List Entry) → Numbered n xs → Numbered n (take k xs)
Numbered-take n zero xs h = tt
Numbered-take n (suc k) [] h = tt
Numbered-take n (suc k) (x ∷ xs) h = (h.0, Numbered-take (suc n) k xs h.1)

Numbered-drop : (n k : ℕ) (xs : List Entry) → Numbered n xs → Numbered (k + n) (drop k xs)
Numbered-drop n zero xs h = rw zero-add h
Numbered-drop n (suc k) [] h = tt
Numbered-drop n (suc k) (x ∷ xs) h =
    let q : suc k + n ≡ k + suc n = omega arith in rw q (Numbered-drop (suc n) k xs h.1)

-- What a page holds, by the limit.
abbrev pub page_of : ℕ → List Entry → List Entry
page_of zero rest = rest
page_of (suc n) rest = take (suc n) rest

pub page_after_lem :
    (after limit : ℕ) (es : List Entry)
    → length es < position_bound
    → page_after after limit es ≡ page_of limit (drop after es)
unfolding page_after
page_after_lem after zero es b = ground (arith, drop_all after es)
page_after_lem after (suc n) es b =
    ground (arith, drop_all after es, take_all (suc n) (drop after es))

log_of :
    (id : Bytes) (after limit : ℕ) (m : MemoryStore) (p : List Entry)
    → log_after none id after limit m ≡ ok p
    → (r : MemoryRecord) × (lookup id m.records ≡ some r) × (p ≡ page_after after limit r.entries)
unfolding log_after
log_of id after limit m p h = elim (Option-cases (lookup id m.records)) [
  | inl e ↦ absurd (ground arith)
  | inr (r, e) ↦ (r, e, ground arith)
]

rest-Numbered : (after : ℕ) (es : List Entry) → Numbered 0 es → Numbered after (drop after es)
rest-Numbered after es h =
    subst (λ k. Numbered k (drop after es)) (add-zero after) (Numbered-drop 0 after es h)

page-Numbered :
    (after limit : ℕ) (es : List Entry)
    → Numbered 0 es
    → Numbered after (page_of limit (drop after es))
page-Numbered after zero es h = rest-Numbered after es h
page-Numbered after (suc n) es h =
    Numbered-take after (suc n) (drop after es) (rest-Numbered after es h)

-- Log returns Entries numbered after + 1, after + 2 and so on, with no gap, and no more than a
-- limit that is not 0.
log-Numbered :
    (id : Bytes) (after limit : ℕ) (m : MemoryStore) (p : List Entry)
    → IsStored m
    → log_after none id after limit m ≡ ok p
    → Numbered after p × ((length p ≤ limit) ⊎ (limit ≡ 0))
log-Numbered id after limit m p v h =
    let (r, found, e) = log_of id after limit m p h in
    let q = e ∙ page_after_lem after limit r.entries (v id r found).bounded in
    rw q (
      page-Numbered after limit r.entries (v id r found).numbered,
      short limit (drop after r.entries),
    )
  where
    short : (limit : ℕ) (rest : List Entry) → (length (page_of limit rest) ≤ limit) ⊎ (limit ≡ 0)
    short zero rest = inr refl
    short (suc n) rest = inl (omega (arith, length-take (suc n) rest))

page-append :
    (after limit : ℕ) (es : List Entry)
    → 0 < limit
    → page_of limit (drop after es) ++ drop (after + limit) es ≡ drop after es
page-append after zero es pos = absurd (omega arith)
page-append after (suc n) es pos =
    rw (← drop-drop after (suc n) es) (take-append-drop (suc n) (drop after es))

-- Pages fit together: a page of `limit` Entries, and all that follow position after + limit, are
-- together what one read without a limit returns. The limit is not 0.
pub log_pages :
    (id : Bytes) (after limit : ℕ) (m : MemoryStore) (p q : List Entry)
    → IsStored m
    → 0 < limit
    → log_after none id after limit m ≡ ok p
    → log_after none id (after + limit) 0 m ≡ ok q
    → log_after none id after 0 m ≡ ok (p ++ q)
unfolding log_after
log_pages id after limit m p q v pos hp hq =
    let (r, found, e) = log_of id after limit m p hp in
    let (s, found', e') = log_of id (after + limit) 0 m q hq in
    let b = (v id r found).bounded in
    ground (
      arith,
      page_after_lem after limit r.entries b,
      page_after_lem (after + limit) 0 r.entries b,
      page_after_lem after 0 r.entries b,
      page-append after limit r.entries pos,
    )
