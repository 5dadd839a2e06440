-- ===== src/Host/Runs/Bound.antt =====
-- The memory bound: an admission does not take an Instance past the Sessions that it may keep.
use gotato.Base.{
  ℕ, suc, ◌+◌, ◌≤◌, ◌<◌, Bool, true, false, ◌&&◌, ltb, leb, if◌then◌else◌, Option, none, some, List,
  [], ◌∷◌, ◌++◌, Bytes, bytes_eq, bytes_beq_iff, length, length-append, lookup, insert, is_some,
  lookup-insert, Result, ok, err, ◌≡◌, ◌⊎◌, inl, inr, refl, arith, Bool-cases, Eq, ◌===◌, lt→ltb,
}
use gotato.Host.Warm
use gotato.Host.Warm.{Cache, Entry}
use gotato.Host.Runs.{
  Table, Decide, Admission, admitted, refused_draining, admit, bounded, enter, over_bound,
  activates, ask, counts, live, register, busy, of, active_sessions, is_empty,
}

module _ {ℓ κ} {K : Type ℓ} {A : Type κ} ⦃e : Eq K⦄ where
  length-insert :
      (k : K) (v : A) (m : List (K × A))
      → length (insert k v m) ≡ (if is_some (lookup k m) then length m else suc (length m))
  unfolding insert lookup
  length-insert k v [] = refl
  length-insert k v ((j, w) ∷ m) = ground (arith, length-insert k v m)

is_empty-append : {A : Type 0} (xs : List A) (x : A) → is_empty (xs ++ x ∷ []) ≡ false
is_empty-append [] x = refl
is_empty-append (y ∷ ys) x = refl

module _ {H : Type 0} where
  of-register :
      (h : H) (id j : Bytes) (t : Table H)
      → of j (register h id t) ≡ (if id === j then of id t ++ h ∷ [] else of j t)
  unfolding register of
  of-register h id j t = ground (arith, lookup-insert id j (of id t ++ h ∷ []) t.handles)

  busy-register :
      (h : H) (id j : Bytes) (t : Table H)
      → busy (register h id t) j ≡ (if id === j then true else busy t j)
  unfolding busy
  busy-register h id j t = ground (arith, of-register h id j t, is_empty-append (of id t) h)

  active-register :
      (h : H) (id : Bytes) (t : Table H) → active_sessions (register h id t) ≤ active_sessions t + 1
  unfolding active_sessions register of
  active-register h id t = ground (
    arith,
    length-insert id (of id t ++ h ∷ []) t.handles,
    lookup-insert id [] (of id t ++ h ∷ []) t.handles,
    bytes_beq_iff id [],
    length-append (of id t) (h ∷ []),
  )

  -- A Session with a Run has a list already, so another Run adds none.
  active-register-busy :
      (h : H) (id : Bytes) (t : Table H)
      → is_empty id ≡ false
      → busy t id ≡ true
      → active_sessions (register h id t) ≡ active_sessions t
  unfolding active_sessions register of busy
  active-register-busy h id t n b = ground (
    arith,
    length-insert id (of id t ++ h ∷ []) t.handles,
    lookup-insert id [] (of id t ++ h ∷ []) t.handles,
    bytes_beq_iff id [],
  )

module _ {V : Type 0} where
  idle_mono :
      (b b' : Bytes → Bool) (es : List (Bytes × Entry V))
      → ((j : Bytes) → b j ≡ true → b' j ≡ true)
      → Warm.idle_count b' es ≤ Warm.idle_count b es
  unfolding Warm.idle_count
  idle_mono b b' [] h = omega arith
  idle_mono b b' ((k, x) ∷ es) h = ground (arith, idle_mono b b' es h, h k)

  -- A copy that stood idle, and does no more, counts no more.
  idle-less :
      (b b' : Bytes → Bool) (id : Bytes) (es : List (Bytes × Entry V))
      → ((j : Bytes) → b j ≡ true → b' j ≡ true)
      → b id ≡ false
      → b' id ≡ true
      → is_some (lookup id es) ≡ true
      → suc (Warm.idle_count b' es) ≤ Warm.idle_count b es
  unfolding Warm.idle_count lookup
  idle-less b b' id [] h p q s = cc
  idle-less b b' id ((k, x) ∷ es) h p q s =
      ground (arith, idle_mono b b' es h, idle-less b b' id es h p q, h k, bytes_beq_iff k id)

module _ {H : Type 0} where
  busy-grows :
      (h : H) (id : Bytes) (t : Table H) (j : Bytes)
      → busy t j ≡ true
      → busy (register h id t) j ≡ true
  busy-grows h id t j b = ground (arith, busy-register h id j t)

module _ {H V : Type 0} where
  live-register :
      (h : H) (id : Bytes) (c : Cache V) (t : Table H)
      → live (some c) (register h id t) ≤ live (some c) t + 1
  unfolding live Warm.idle
  live-register h id c t = omega (
    arith,
    active-register h id t,
    idle_mono (busy t) (busy (register h id t)) c.entries (busy-grows h id t),
  )

  -- A Run on a Session that the Instance keeps adds none.
  live-register_kept :
      (h : H) (id : Bytes) (c : Cache V) (t : Table H)
      → activates id c t ≡ false
      → live (some c) (register h id t) ≤ live (some c) t
  unfolding live activates Warm.idle Warm.get
  live-register_kept h id c t a = elim (Bool-cases (busy t id)) [
    | inl b ↦ omega (
      arith,
      active-register-busy h id t (ground arith) b,
      idle_mono (busy t) (busy (register h id t)) c.entries (busy-grows h id t),
    )
    | inr b ↦ omega (
      arith,
      active-register h id t,
      idle-less (busy t) (busy (register h id t)) id c.entries (busy-grows h id t) b
          (ground (arith, busy-register h id id t, bytes_beq_iff id id)) (ground arith),
    )
  ]

lt_of_not_leb : {a b : ℕ} → leb a b ≡ false → b < a
lt_of_not_leb h = ground arith

module _ {H E R V : Type 0} where
  enter_ok :
      (h : H) (id : Bytes) (d : Result E (Option R)) (c : Cache V) (t : Table H) (r : Option R)
      → (enter {V = V} h id d t).1 ≡ admitted r
      → live (some c) (enter {V = V} h id d t).0 ≡ live (some c) (register h id t)
  unfolding enter live active_sessions busy of
  enter_ok h id (err x) c t r q = absurd (cc q)
  enter_ok h id (ok release) c t r q = refl

  -- What is claimed of an outcome.
  abbrev Keeps : ℕ → Cache V → Table H → Option R → Table H × Admission E R V → Type 0
  Keeps limit c t r (t', a) =
      a ≡ admitted r → (live (some c) t' ≤ limit) ⊎ (live (some c) t' ≤ live (some c) t)

  over_bound-Keeps :
      (limit : ℕ) (c : Cache V) (t : Table H) (r : Option R) (v : Option (Entry V))
      → Keeps limit c t r (over_bound v t)
  unfolding over_bound
  over_bound-Keeps limit c t r none q = absurd (cc q)
  over_bound-Keeps limit c t r (some v) q = absurd (cc q)

  bounded-Keeps :
      (h : H) (id : Bytes) (limit : ℕ) (c : Cache V) (d : Result E (Option R)) (t : Table H)
      (r : Option R) (a b : Bool)
      → activates id c t ≡ a
      → leb limit (live (some c) t) ≡ b
      → Keeps limit c t r (
          if◌then◌else◌ {A = Table H × Admission E R V}
            (a && b)
            (over_bound (Warm.victim (busy t) c) t)
            (enter h id d t))
  bounded-Keeps h id limit c d t r true true e f q =
      over_bound-Keeps limit c t r (Warm.victim (busy t) c) q
  bounded-Keeps h id limit c d t r true false e f q =
      inl (omega (arith, enter_ok h id d c t r q, live-register h id c t, lt_of_not_leb f))
  bounded-Keeps h id limit c d t r false b e f q =
      inr (omega (arith, enter_ok h id d c t r q, live-register_kept h id c t e))

  admit-Keeps :
      (limit : ℕ) (c : Cache V) (t : Table H) (r : Option R) (draining limited : Bool)
      (x y : Table H × Admission E R V)
      → limited ≡ true
      → Keeps limit c t r x
      → Keeps limit c t r (if draining then (t, refused_draining) else if limited then x else y)
  admit-Keeps limit c t r true limited x y e k q = absurd (cc q)
  admit-Keeps limit c t r false true x y e k q = k q
  admit-Keeps limit c t r false false x y e k q = absurd (cc e)

  -- Under a limit on the Sessions that an Instance keeps, a Run that is admitted leaves no more of them
  -- than the limit, or than there were before it: those with an admitted Run and the warm copies of the
  -- others.
  pub admit_bound :
      (h : H) (id : Bytes) (limit : ℕ) (c : Cache V) (decide : Decide E R) (t : Table H)
      (r : Option R)
      → 0 < limit
      → let (t', a) = admit h id (record { max_sessions = limit; cache = some c }) decide t in
        a ≡ admitted r → (live (some c) t' ≤ limit) ⊎ (live (some c) t' ≤ live (some c) t)
  unfolding admit bounded
  admit_bound h id limit c decide t r pos =
      admit-Keeps limit c t r t.draining (ltb 0 limit) _ _ (lt→ltb 0 limit pos) (
        bounded-Keeps h id limit c (ask decide (counts (some c) t)) t r (activates id c t)
          (leb limit (live (some c) t)) refl refl)
