-- ===== src/Record/Window/After.antt =====
-- EventsAfter of record/events.go: what it returns of all the Events that a Record had.
use gotato.Base.{
  ℕ, zero, suc, ◌+◌, ◌-◌, ◌≤◌, ◌<◌, ltb, leb, if◌then◌else◌, some, List, [], ◌∷◌, length, drop,
  length-drop, select, ok, err, ◌≡◌, refl, arith, subst,
}
use gotato.Record.Window.{Window, new_window, events_lost, events_after, begins_later}
use gotato.Record.Window.Last.{retain_all, window_last}

module _ {E : Type 0} (number : E → ℕ) where
  -- Events with the numbers that follow k, and no gap.
  abbrev pub Numbered : ℕ → List E → Type 0
  Numbered k [] = Unit {0}
  Numbered k (e ∷ es) = (number e ≡ suc k) × Numbered (suc k) es

  drop-Numbered : (k d j : ℕ) (es : List E) → Numbered k es → d + k ≡ j → Numbered j (drop d es)
  drop-Numbered k zero j es n q =
      let same : k ≡ j = omega arith in subst (λ i. Numbered i es) same n
  drop-Numbered k (suc d) j [] n q = tt
  drop-Numbered k (suc d) j (e ∷ es) n q = drop-Numbered (suc k) d j es n.1 (omega arith)

  -- The Events that fell out have numbers up to `after`.
  select-drop :
      (k d after : ℕ) (es : List E)
      → Numbered k es
      → d + k ≤ after
      → select (λ e. ltb after (number e)) (drop d es) ≡ select (λ e. ltb after (number e)) es
  unfolding select
  select-drop k zero after es n h = refl
  select-drop k (suc d) after [] n h = refl
  select-drop k (suc d) after (e ∷ es) n h =
      ground (arith, n.0, select-drop (suc k) d after es n.1 (omega arith))

  begins_later-Numbered :
      (d last after : ℕ) (es : List E)
      → Numbered d es
      → last ≡ d + length es
      → after + 1 < 18446744073709551616
      → begins_later number last after es ≡ ltb after d
  unfolding begins_later
  begins_later-Numbered d last after [] n l b = ground arith
  begins_later-Numbered d last after (e ∷ es) n l b = ground (arith, n.0)

  -- Of Events numbered from 1 that a new window with a limit above 0 retained, EventsAfter returns
  -- all that come after a number, in order, if no more than the limit come after it, and otherwise
  -- says that Events were lost: it never leaves one out. The number asked for is below 2^64 - 1.
  pub events_after_lem :
      (limit after : ℕ) (es : List E)
      → 0 < limit
      → Numbered 0 es
      → after + 1 < 18446744073709551616
      → (w : Window E) × (retain_all es (new_window (some limit)) ≡ some w)
        × (events_after number (length es) after w ≡ (
            if leb (length es) (after + limit)
            then ok (select (λ e. ltb after (number e)) es)
            else err events_lost))
  unfolding events_after
  events_after_lem limit after es pos n b =
      let (w, q, s) = window_last limit es pos in
      let d = length es - limit in
      let n' = drop-Numbered 0 d d es n (omega arith) in
      (
        w,
        q,
        rw s (
            ground (
              arith,
              begins_later-Numbered d (length es) after (drop d es) n'
                  (omega (arith, length-drop d es)) b,
              select-drop 0 d after es n,
            )),
      )
