-- ===== src/Store/Writer/Taken.antt =====
-- What TakePending (record/record_log.go) takes: an Entry for each pending Event, from the head on.
use gotato.Base.{
  List-cases, ℕ, suc, ◌+◌, ◌<◌, Option, none, some, List, [], ◌∷◌, ◌++◌, Bytes, length, map, Result,
  ok, err, u64, ◌≡◌, ◌⊎◌, inl, inr, refl, arith, ap, sym, ◌∙◌, subst,
}
use gotato.Store.Writer.{first_seq, last_seq}
use gotato.Record.Entry.{Entry}
use gotato.Record.Writing.{
  Event, without_body, Record, Batch, event_entry, entries_from, take_pending,
}

pub Result-cases {ℓ κ} :
    {X : Type ℓ} {A : Type κ} (r : Result X A) → ((x : X) × (r ≡ err x)) ⊎ ((a : A) × (r ≡ ok a))
Result-cases (ok a) = inr (a, refl)
Result-cases (err x) = inl (x, refl)

-- The store takes a batch at the end of its log alone.
pub at_end :
    (head first len : ℕ)
    → first ≡ u64 (head + 1)
    → head < 18446744073709551616
    → len < 18446744073709551616
    → u64 len ≡ u64 (first + 18446744073709551615)
    → len ≡ head
at_end head first len a b c d = omega (arith, a, b, c, d)

module _ (marshal : Event → Option Bytes) where
  -- The Event that a publisher is given is that of the stored Entry, less the body of a spilled result.
  abbrev pub Shows : Event → Entry → Type 0
  Shows p e = (x : Event) × (i : Bytes) × (p ≡ without_body x) × (event_entry marshal x i ≡ ok e)

  abbrev pub AllShow : List Event → List Entry → Type 0
  AllShow [] [] = Unit {0}
  AllShow (p ∷ ps) (e ∷ es) = Shows p e × AllShow ps es
  AllShow _ _ = ⊥

  pub AllShow-append :
      (ps qs : List Event) (es fs : List Entry)
      → AllShow ps es
      → AllShow qs fs
      → AllShow (ps ++ qs) (es ++ fs)
  AllShow-append [] qs [] fs h k = k
  AllShow-append [] qs (e ∷ es) fs h k = absurd h
  AllShow-append (p ∷ ps) qs [] fs h k = absurd h
  AllShow-append (p ∷ ps) qs (e ∷ es) fs (a, h) k = (a, AllShow-append ps qs es fs h k)

  pub record Taken (head i : ℕ) (events : List Event) (entries : List Entry) : Type 0 where
    pub shown : AllShow (map without_body events) entries
    pub many : length entries ≡ length events
    pub ends : (n : ℕ) → n ≡ u64 (head + i) → last_seq entries n ≡ u64 (head + i + length events)

  -- One step of the loop.
  entries_from-cons :
      (inst : Bytes) (head i : ℕ) (e : Event) (es : List Event) (entries : List Entry)
      → entries_from marshal inst head i (e ∷ es) ≡ ok entries
      → (x : Entry) × (xs : List Entry) × (event_entry marshal e inst ≡ ok x)
        × (x.seq ≡ u64 (head + i + 1))
        × (entries_from marshal inst head (i + 1) es ≡ ok xs)
        × (entries ≡ x ∷ xs)
  unfolding entries_from
  entries_from-cons inst head i e es entries q = elim (Result-cases (event_entry marshal e inst)) [
    | inl (x, p) ↦ absurd (ground (arith, q, p))
    | inr (x, p) ↦ elim (Result-cases (entries_from marshal inst head (i + 1) es)) [
      | inl (y, r) ↦ absurd (ground (arith, q, p, r))
      | inr (xs, r) ↦ (x, xs, p, ground (arith, q, p, r), r, ground (arith, q, p, r))
    ]
  ]

  entries_from-Taken :
      (inst : Bytes) (head i : ℕ) (events : List Event) (entries : List Entry)
      → entries_from marshal inst head i events ≡ ok entries
      → Taken head i events entries
  unfolding entries_from
  entries_from-Taken inst head i [] entries q =
      let p : [] ≡ entries = ground (arith, q) in
      subst (Taken head i []) p (record { shown = tt; many = refl; ends = λ n h. omega (arith, h) })
  entries_from-Taken inst head i (e ∷ es) entries q =
      let (x, xs, a, b, r, p) = entries_from-cons inst head i e es entries q in
      let t = entries_from-Taken inst head (i + 1) es xs r in
      rw p (record {
        shown = ((e, inst, refl, a), t.shown);
        many = ap suc t.many;
        ends = λ n h. t.ends x.seq (b ∙ ap u64 (next head i)) ∙ ap u64 (total head i (length es));
      })
    where
      next : (head i : ℕ) → head + i + 1 ≡ head + (i + 1)
      next head i = omega arith

      total : (head i n : ℕ) → head + (i + 1) + n ≡ head + i + suc n
      total head i n = omega arith

  -- What a call of TakePending that found something pending returned.
  pub record Took (s r : Record) (b : Batch) : Type 0 where
    pub rest : r ≡ record s { pending = [] }
    pub all : b.events ≡ s.pending
    pub taken : Taken s.head 0 s.pending b.entries
    pub starts : first_seq b.entries ≡ u64 (s.head + 1)
    pub ends_at : last_seq b.entries 0 ≡ u64 (s.head + length s.pending)

  pub take_pending-Took :
      (s r : Record) (b : Batch) → take_pending marshal s ≡ ok (r, some b) → Took s r b
  unfolding take_pending
  take_pending-Took s r b q = elim (List-cases s.pending) [
    | inl p ↦ absurd (ground (arith, q, p))
    | inr (e, es, p) ↦ elim (Result-cases (entries_from marshal s.instance_id s.head 0 (e ∷ es))) [
      | inl (x, z) ↦ absurd (ground (arith, q, p, z))
      | inr (xs, z) ↦
          let (x, ys, _, at, _, w) = entries_from-cons s.instance_id s.head 0 e es xs z in
          let made : xs ≡ b.entries = ground (arith, q, p, z) in
          record {
            rest = ground (arith, q, p, z);
            all = ground (arith, q, p, z);
            taken =
                subst (λ (t : List Event). Taken s.head 0 t b.entries) (sym p)
                  (subst (Taken s.head 0 (e ∷ es)) made
                    (entries_from-Taken s.instance_id s.head 0 (e ∷ es) xs z));
            starts =
                subst (λ (t : List Entry). first_seq t ≡ u64 (s.head + 1)) (sym w ∙ made)
                  (at ∙ ap u64 (plain s.head));
            ends_at =
                subst (λ (t : List Entry). last_seq t 0 ≡ u64 (s.head + length s.pending))
                  (sym w ∙ made)
                  ((subst (Taken s.head 0 (e ∷ es)) w
                        (entries_from-Taken s.instance_id s.head 0 (e ∷ es) xs z)).ends
                      (u64 (s.head + 0)) refl
                    ∙ ap u64
                        (full s.head (length (e ∷ es)) (length s.pending) (ap length (sym p))));
          }
    ]
  ]
    where
      plain : (n : ℕ) → n + 0 + 1 ≡ n + 1
      plain n = omega arith

      full : (n k j : ℕ) → k ≡ j → n + 0 + k ≡ n + j
      full n k j q = omega (arith, q)

  pub take_pending-none : (s r : Record) → take_pending marshal s ≡ ok (r, none) → r ≡ s
  unfolding take_pending
  take_pending-none s r q = elim (List-cases s.pending) [
    | inl p ↦ ground (arith, q, p)
    | inr (e, es, p) ↦ elim (Result-cases (entries_from marshal s.instance_id s.head 0 (e ∷ es))) [
      | inl (x, z) ↦ absurd (ground (arith, q, p, z))
      | inr (xs, z) ↦ absurd (ground (arith, q, p, z))
    ]
  ]
