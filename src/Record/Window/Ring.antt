-- ===== src/Record/Window/Ring.antt =====
-- The ring of record/events.go holds the last Events, as many as its limit.
use gotato.Base.{
  ℕ, zero, suc, ◌+◌, ◌-◌, ◌%◌, ◌≤◌, ◌<◌, ltb, Option, some, List, [], ◌∷◌, ◌++◌, length, set, take,
  drop, length-append, length-set, length-drop, length-take, append_assoc, append-nil, drop_all,
  take_all, Bool-cases, ltb→lt, ◌≡◌, refl, sym, ap, ◌∙◌, arith, inl, inr,
}
use native.Mathlib.Nat.{mod_self, mod-eq_of_lt, mod-lt}
use gotato.Record.Window.{Window, overwrite, normalized, retain, retained_events}

module _ {E : Type 0} where
  -- The last n of a list.
  abbrev pub last_of : ℕ → List E → List E
  last_of n xs = drop (length xs - n) xs

  -- The list read from the head on, and round.
  abbrev rotated : ℕ → List E → List E
  rotated h xs = drop h xs ++ take h xs

  drop-set : (h : ℕ) (xs : List E) (e : E) → drop (suc h) (set xs h e) ≡ drop (suc h) xs
  drop-set h [] e = refl
  drop-set zero (x ∷ xs) e = refl
  drop-set (suc h) (x ∷ xs) e = drop-set h xs e

  take-set :
      (h : ℕ) (xs : List E) (e : E)
      → h < length xs
      → take (suc h) (set xs h e) ≡ take h xs ++ e ∷ []
  take-set h [] e l = absurd (omega arith)
  take-set zero (x ∷ xs) e l = refl
  take-set (suc h) (x ∷ xs) e l = ap (λ (t : List E). x ∷ t) (take-set h xs e (omega arith))

  drop_first :
      (h : ℕ) (xs zs : List E) → h < length xs → drop 1 (drop h xs ++ zs) ≡ drop (suc h) xs ++ zs
  drop_first h [] zs l = absurd (omega arith)
  drop_first zero (x ∷ xs) zs l = refl
  drop_first (suc h) (x ∷ xs) zs l = drop_first h xs zs (omega arith)

  length-rotated : (h : ℕ) (xs : List E) → length (rotated h xs) ≡ length xs
  length-rotated h xs =
      omega (arith, length-append (drop h xs) (take h xs), length-drop h xs, length-take h xs)

  -- A full ring takes the place of its oldest Event.
  rotated-set :
      (h : ℕ) (xs : List E) (e : E)
      → h < length xs
      → rotated (suc h) (set xs h e) ≡ drop 1 (rotated h xs ++ e ∷ [])
  rotated-set h xs e l = cc (
    drop-set h xs e,
    take-set h xs e l,
    drop_first h xs (take h xs ++ e ∷ []) l,
    append_assoc (drop h xs) (take h xs) (e ∷ []),
  )

  -- How a ring of this limit stands: it is no longer than the limit, and its head is at the start
  -- as long as it is not full.
  pub record IsRing (limit : ℕ) (w : Window E) : Type 0 where
    pub limited : w.event_limit ≡ some limit
    pub short : length w.events ≤ limit
    pub inside : w.event_head < limit
    pub start : length w.events < limit → w.event_head ≡ 0

  retained-rotated :
      (limit : ℕ) (w : Window E)
      → IsRing limit w
      → retained_events w ≡ rotated w.event_head w.events
  unfolding retained_events
  retained-rotated limit w r = ground (arith, append-nil w.events, r.short, r.inside, r.start)

  pub last_of_short : (n : ℕ) (xs : List E) → length xs ≤ n → last_of n xs ≡ xs
  last_of_short n xs h =
      let none_off : length xs - n ≡ 0 = omega arith in ap (λ k. drop k xs) none_off

  last_of_full :
      (limit : ℕ) (w : Window E) (e : E)
      → IsRing limit w
      → length w.events ≡ limit
      → last_of limit (retained_events w ++ e ∷ [])
        ≡ drop 1 (rotated w.event_head w.events ++ e ∷ [])
  last_of_full limit w e r l =
      let q = retained-rotated limit w r in
      let one_off : length (rotated w.event_head w.events ++ e ∷ []) - limit ≡ 1 = omega (
        arith,
        length-append (rotated w.event_head w.events) (e ∷ []),
        length-rotated w.event_head w.events,
      ) in
      ap (λ (t : List E). last_of limit (t ++ e ∷ [])) q
      ∙ ap (λ k. drop k (rotated w.event_head w.events ++ e ∷ [])) one_off

  retained_full :
      (limit h : ℕ) (xs : List E) (e : E) (o : Option ℕ)
      → h < limit
      → length xs ≡ limit
      → retained_events
          (record { events = set xs h e; event_head = (h + 1) % limit; event_limit = o })
        ≡ rotated (suc h) (set xs h e)
  unfolding retained_events
  retained_full limit h xs e o l q = elim (Bool-cases (ltb (h + 1) limit)) [
    | inl b ↦ rw (mod-eq_of_lt (ltb→lt (h + 1) limit b)) (ground (arith, length-set xs h e))
    | inr b ↦
        let full : h + 1 ≡ limit = ground arith in
        rw (ap (λ n. n % limit) full ∙ mod_self limit) (
          ground (
            arith,
            drop_all (suc h) (set xs h e),
            take_all (suc h) (set xs h e),
            length-set xs h e,
          ))
  ]

  -- A ring that is not full.
  pub retain_short :
      (limit : ℕ) (w : Window E) (e : E)
      → IsRing limit w
      → length w.events < limit
      → let w' = record w { events = w.events ++ e ∷ [] } in
        (retain e w ≡ some w')
        × IsRing limit w'
        × (retained_events w' ≡ last_of limit (retained_events w ++ e ∷ []))
  unfolding retain retained_events
  retain_short limit w e r l = (
    ground (arith, r.limited),
    record {
      limited = r.limited;
      short = omega (arith, length-append w.events (e ∷ []));
      inside = r.inside;
      start = λ _. r.start l;
    },
    ground (
      arith,
      r.start l,
      length-append w.events (e ∷ []),
      last_of_short limit (w.events ++ e ∷ []),
    ),
  )

  pub retain_full :
      (limit : ℕ) (w : Window E) (e : E)
      → IsRing limit w
      → length w.events ≡ limit
      → let w' = record w {
        events = set w.events w.event_head e;
        event_head = (w.event_head + 1) % limit;
      } in
        (retain e w ≡ some w')
        × IsRing limit w'
        × (retained_events w' ≡ last_of limit (retained_events w ++ e ∷ []))
  unfolding retain overwrite normalized
  retain_full limit w e r l = (
    ground (arith, r.limited, r.inside),
    record {
      limited = r.limited;
      short = omega (arith, length-set w.events w.event_head e);
      inside = mod-lt (w.event_head + 1) (omega (arith, r.inside));
      start = λ s. absurd (omega (arith, length-set w.events w.event_head e));
    },
    retained_full limit w.event_head w.events e w.event_limit r.inside l
        ∙ rotated-set w.event_head w.events e (omega (arith, r.inside))
        ∙ sym (last_of_full limit w e r l),
  )

  pub length-retained_events :
      (limit : ℕ) (w : Window E) → IsRing limit w → length (retained_events w) ≤ limit
  length-retained_events limit w r =
      rw (retained-rotated limit w r) (omega (arith, length-rotated w.event_head w.events, r.short))
