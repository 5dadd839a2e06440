-- ===== src/Record/Window/Last.antt =====
-- The window of record/events.go after any Events: the last of them.
use gotato.Base.{
  ℕ, zero, suc, ◌+◌, ◌-◌, ◌≤◌, ◌<◌, Option, none, some, List, [], ◌∷◌, ◌++◌, length, drop,
  length-append, length-drop, append_assoc, append-nil, drop-drop, ◌≡◌, refl, sym, ap, ◌∙◌, arith,
  inl, inr, Bool-cases, ltb, ltb→lt,
}
use gotato.Record.Window.{Window, new_window, retain, retained_events}
use gotato.Record.Window.Ring.{
  last_of, IsRing, retain_short, retain_full, last_of_short, length-retained_events,
}

module _ {E : Type 0} where
  unfoldable pub retain_all : List E → Window E → Option (Window E)
  retain_all [] w = some w
  retain_all (e ∷ es) w = elim (retain e w) [ none ↦ none | some w' ↦ retain_all es w' ]

  drop-append : (n : ℕ) (xs ys : List E) → n ≤ length xs → drop n (xs ++ ys) ≡ drop n xs ++ ys
  drop-append zero xs ys h = refl
  drop-append (suc n) [] ys h = absurd (omega arith)
  drop-append (suc n) (x ∷ xs) ys h = drop-append n xs ys (omega arith)

  -- What fell out of the window does not come back.
  last_of-append : (n : ℕ) (xs ys : List E) → last_of n (last_of n xs ++ ys) ≡ last_of n (xs ++ ys)
  last_of-append n xs ys =
      let k = length xs - n in
      let sum : k + (length (drop k (xs ++ ys)) - n) ≡ length (xs ++ ys) - n =
        omega (arith, length-append xs ys, length-drop k (xs ++ ys)) in
      ap (last_of n) (sym (drop-append k xs ys (omega arith)))
      ∙ drop-drop k (length (drop k (xs ++ ys)) - n) (xs ++ ys)
      ∙ ap (λ m. drop m (xs ++ ys)) sum

  -- What the window is after these Events.
  abbrev pub Retains : ℕ → List E → List E → Option (Window E) → Type 0
  Retains limit kept es o =
      (w : Window E) × (o ≡ some w)
      × IsRing limit w
      × (retained_events w ≡ last_of limit (kept ++ es))

  retain_one :
      (limit : ℕ) (w : Window E) (e : E)
      → IsRing limit w
      → Retains limit (retained_events w) (e ∷ []) (retain e w)
  retain_one limit w e r = elim (Bool-cases (ltb (length w.events) limit)) [
    | inl b ↦
        let (q, r', s) = retain_short limit w e r (ltb→lt (length w.events) limit b) in
        (_, q, r', s)
    | inr b ↦ let (q, r', s) = retain_full limit w e r (ground (arith, r.short)) in (_, q, r', s)
  ]

  retain_all-cons :
      (e : E) (es : List E) (w w' : Window E)
      → retain e w ≡ some w'
      → retain_all (e ∷ es) w ≡ retain_all es w'
  unfolding retain_all
  retain_all-cons e es w w' q = ground (arith, q)

  retain_all_from :
      (limit : ℕ) (es : List E) (w : Window E)
      → IsRing limit w
      → Retains limit (retained_events w) es (retain_all es w)
  unfolding retain_all
  retain_all_from limit [] w r = (
    w,
    refl,
    r,
    sym (
        ap (last_of limit) (append-nil (retained_events w))
        ∙ last_of_short limit (retained_events w) (length-retained_events limit w r)),
  )
  retain_all_from limit (e ∷ es) w r =
      let (w', q, r', s) = retain_one limit w e r in
      let (w'', q', r'', s') = retain_all_from limit es w' r' in
      let old = retained_events w in
      (
        w'',
        retain_all-cons e es w w' q ∙ q',
        r'',
        s'
            ∙ ap (λ (t : List E). last_of limit (t ++ es)) s
            ∙ last_of-append limit (old ++ e ∷ []) es
            ∙ ap (last_of limit) (append_assoc old (e ∷ []) es),
      )

  -- With a limit above 0, a new window that retained any Events has done so without a panic, and
  -- returns the last of them in order, as many as the limit.
  pub window_last :
      (limit : ℕ) (es : List E)
      → 0 < limit
      → (w : Window E) × (retain_all es (new_window (some limit)) ≡ some w)
        × (retained_events w ≡ last_of limit es)
  unfolding retained_events
  window_last limit es h =
      let r : IsRing limit (new_window (some limit)) = record {
        limited = refl;
        short = omega arith;
        inside = h;
        start = λ _. refl;
      } in
      let (w, q, _, s) = retain_all_from limit es (new_window (some limit)) r in (w, q, s)
