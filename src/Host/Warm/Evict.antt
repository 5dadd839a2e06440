-- ===== src/Host/Warm/Evict.antt =====
-- Which copy is evicted: the longest idle of those that no Run is on, in whatever order the map is read.
use gotato.Base.{
  ◌≤◌, Bool, true, false, Option, none, some, List, [], ◌∷◌, Bytes, bytes_eq, insert, delete, ◌≡◌,
  ◌⊎◌, inl, inr, refl, arith, sym, ◌∙◌, ap, Bool-cases, subst, bytes_beq,
}
use gotato.Host.Warm.{Entry, Cache, earlier, better, victim, victim_from}

module _ {V : Type 0} where
  -- The Entry is in the map.
  abbrev pub In : Entry V → List (Bytes × Entry V) → Type 0
  In x [] = ⊥
  In x ((k, e) ∷ es) = (e ≡ x) ⊎ In x es

  -- v is one of the Entries that busy does not name, and none of those went idle before it.
  pub record Longest (busy : Bytes → Bool) (es : List (Bytes × Entry V)) (v : Entry V)
      : Type 0 where
    pub kept : In v es
    pub free : busy v.id ≡ false
    pub first : (e : Entry V) → In e es → busy e.id ≡ false → earlier e v ≡ false

  -- What the loop has found, from a victim so far.
  abbrev Found :
      (Bytes → Bool) → List (Bytes × Entry V) → Option (Entry V) → Option (Entry V) → Type 0
  Found busy es acc none = (acc ≡ none) × ((e : Entry V) → In e es → busy e.id ≡ true)
  Found busy es acc (some v) =
      ((acc ≡ some v) ⊎ (In v es × (busy v.id ≡ false)))
      × ((e : Entry V) → In e es → busy e.id ≡ false → earlier e v ≡ false)
      × ((a : Entry V) → acc ≡ some a → earlier a v ≡ false)

  earlier_self : (e : Entry V) → earlier e e ≡ false
  earlier_self e = ground arith

  earlier_trans :
      (a b c : Entry V) → earlier b a ≡ false → earlier c b ≡ false → earlier c a ≡ false
  earlier_trans a b c h k = ground arith

  -- An Entry that busy names is passed over.
  Found-skip :
      (busy : Bytes → Bool) (k : Bytes) (x : Entry V) (es : List (Bytes × Entry V))
      (acc r : Option (Entry V))
      → busy x.id ≡ true
      → Found busy es acc r
      → Found busy ((k, x) ∷ es) acc r
  Found-skip busy k x es acc none b f = (f.0, λ e. elim [ inl q ↦ rw q at b | inr m ↦ f.1 e m ])
  Found-skip busy k x es acc (some v) b f = (
    elim f.0 [ inl q ↦ inl q | inr (m, c) ↦ inr (inr m, c) ],
    (λ e. elim [ inl q ↦ λ c. ground arith | inr m ↦ f.1 e m ]),
    f.2,
  )

  -- Any other becomes the victim so far, or does not come before it.
  Found-take :
      (busy : Bytes → Bool) (k : Bytes) (x : Entry V) (es : List (Bytes × Entry V))
      (acc r : Option (Entry V))
      → busy x.id ≡ false
      → Found busy es (some x) r
      → ((a : Entry V) → acc ≡ some a → earlier a x ≡ false)
      → Found busy ((k, x) ∷ es) acc r
  Found-take busy k x es acc none b f h = absurd (cc f.0)
  Found-take busy k x es acc (some v) b f h = (
    elim f.0 [ inl q ↦ inr (inl (ground arith), ground arith) | inr (m, c) ↦ inr (inr m, c) ],
    (λ e. elim [ inl q ↦ λ c. subst (λ y. earlier y v ≡ false) q (f.2 x refl) | inr m ↦ f.1 e m ]),
    λ a q. earlier_trans v x a (f.2 x refl) (h a q),
  )

  Found-keep :
      (busy : Bytes → Bool) (k : Bytes) (x a : Entry V) (es : List (Bytes × Entry V))
      (r : Option (Entry V))
      → earlier x a ≡ false
      → Found busy es (some a) r
      → Found busy ((k, x) ∷ es) (some a) r
  Found-keep busy k x a es none n f = absurd (cc f.0)
  Found-keep busy k x a es (some v) n f = (
    elim f.0 [ inl q ↦ inl q | inr (m, c) ↦ inr (inr m, c) ],
    (λ e. elim [
      | inl q ↦ λ c. subst (λ y. earlier y v ≡ false) q (earlier_trans v a x (f.2 a refl) n)
      | inr m ↦ f.1 e m
    ]),
    f.2,
  )

  Found-better :
      (busy : Bytes → Bool) (k : Bytes) (x : Entry V) (es : List (Bytes × Entry V))
      (acc r : Option (Entry V))
      → busy x.id ≡ false
      → Found busy es (better x acc) r
      → Found busy ((k, x) ∷ es) acc r
  unfolding better
  Found-better busy k x es none r b f = Found-take busy k x es none r b f (λ a q. cc)
  Found-better busy k x es (some a) r b f = elim (Bool-cases (earlier x a)) [
    | inl e ↦ Found-take busy k x es (some a) r b (rw e at f) (λ c q. ground arith)
    | inr e ↦ Found-keep busy k x a es r e (rw e at f)
  ]

  victim_from-Found :
      (busy : Bytes → Bool) (es : List (Bytes × Entry V)) (acc : Option (Entry V))
      → Found busy es acc (victim_from busy es acc)
  unfolding victim_from
  victim_from-Found busy [] none = (refl, λ e h. absurd h)
  victim_from-Found busy [] (some a) =
      (inl refl, (λ e h. absurd h), λ b e. ground (arith, earlier_self a))
  victim_from-Found busy ((k, x) ∷ es) acc = elim (Bool-cases (busy x.id)) [
    | inl b ↦ rw b (Found-skip busy k x es acc _ b (victim_from-Found busy es acc))
    | inr b ↦ rw b (Found-better busy k x es acc _ b (victim_from-Found busy es (better x acc)))
  ]

  -- The victim is an Entry of the cache that busy does not name, such that no other of these went idle
  -- earlier, or at the same time with a lower number; and there is none only if busy names every Entry.
  pub victim-Longest :
      (busy : Bytes → Bool) (c : Cache V)
      → ((victim busy c ≡ none) × ((e : Entry V) → In e c.entries → busy e.id ≡ true))
        ⊎ ((v : Entry V) × (victim busy c ≡ some v) × Longest busy c.entries v)
  unfolding victim
  victim-Longest busy c =
      of_result (victim_from busy c.entries none) refl (victim_from-Found busy c.entries none)
    where
      of_result :
          (r : Option (Entry V))
          → victim_from busy c.entries none ≡ r
          → Found busy c.entries none r
          → ((victim_from busy c.entries none ≡ none)
              × ((e : Entry V) → In e c.entries → busy e.id ≡ true))
            ⊎ ((v : Entry V) × (victim_from busy c.entries none ≡ some v)
                × Longest busy c.entries v)
      of_result none q f = inl (q, f.1)
      of_result (some v) q f = inr (
        v,
        q,
        record {
          kept = elim f.0 [ inl n ↦ absurd (cc n) | inr m ↦ m.0 ];
          free = elim f.0 [ inl n ↦ absurd (cc n) | inr m ↦ m.1 ];
          first = f.1;
        },
      )

  -- The Entries have different numbers, which the cache has given out.
  pub record Numbered (c : Cache V) : Type 0 where
    pub known : (e : Entry V) → In e c.entries → e.seq ≤ c.seq
    pub once : (e f : Entry V) → In e c.entries → In f c.entries → e.seq ≡ f.seq → e ≡ f

  same_victim :
      (busy : Bytes → Bool) (es es' : List (Bytes × Entry V)) (v w : Entry V)
      → ((e : Entry V) → In e es → In e es')
      → ((e : Entry V) → In e es' → In e es)
      → ((e f : Entry V) → In e es → In f es → e.seq ≡ f.seq → e ≡ f)
      → Longest busy es v
      → Longest busy es' w
      → v ≡ w
  same_victim busy es es' v w to from once l l' =
      once v w l.kept (from w l'.kept)
        (ground (arith, l.first w (from w l'.kept) l'.free, l'.first v (to v l.kept) l.free))

  -- The victim does not depend on the order in which the map is read.
  victim_any_order :
      (busy : Bytes → Bool) (c c' : Cache V)
      → Numbered c
      → ((e : Entry V) → In e c.entries → In e c'.entries)
      → ((e : Entry V) → In e c'.entries → In e c.entries)
      → victim busy c ≡ victim busy c'
  victim_any_order busy c c' n to from = elim (victim-Longest busy c) [
    | inl (q, all_busy) ↦ elim (victim-Longest busy c') [
      | inl (q', _) ↦ q ∙ sym q'
      | inr (w, q', l) ↦ absurd (ground (arith, all_busy w (from w l.kept), l.free))
    ]
    | inr (v, q, l) ↦ elim (victim-Longest busy c') [
      | inl (q', all_busy) ↦ absurd (ground (arith, all_busy v (to v l.kept), l.free))
      | inr (w, q', l') ↦
          q ∙ ap some (same_victim busy c.entries c'.entries v w to from n.once l l') ∙ sym q'
    ]
  ]

  pub In-insert :
      (x e : Entry V) (k : Bytes) (m : List (Bytes × Entry V))
      → In x (insert k e m)
      → (e ≡ x) ⊎ In x m
  unfolding insert
  In-insert x e k [] h = h
  In-insert x e k ((j, y) ∷ m) h = elim (Bool-cases (bytes_beq j k)) [
    | inl b ↦ elim (rw b at h) [ inl q ↦ inl q | inr i ↦ inr (inr i) ]
    | inr b ↦ elim (rw b at h) [
      | inl q ↦ inr (inl q)
      | inr i ↦ elim (In-insert x e k m i) [ inl q ↦ inl q | inr r ↦ inr (inr r) ]
    ]
  ]

  pub In-delete :
      (x : Entry V) (k : Bytes) (m : List (Bytes × Entry V)) → In x (delete k m) → In x m
  unfolding delete
  In-delete x k [] h = h
  In-delete x k ((j, y) ∷ m) h = elim (Bool-cases (bytes_beq j k)) [
    | inl b ↦ inr (In-delete x k m (rw b at h))
    | inr b ↦ elim (rw b at h) [ inl q ↦ inl q | inr i ↦ inr (In-delete x k m i) ]
  ]
