-- ===== src/Record/Cut/Budget.antt =====
-- withinBudget of record/compact_cut.go: the longest tail of the Messages that fits a budget.
use gotato.Base.{
  ℕ, zero, suc, ◌+◌, ◌≤◌, ◌<◌, true, false, ltb, ltb→lt, some, List, [], ◌∷◌, length, drop,
  drop_all, get_elem?, ◌≡◌, refl, sym, ap, subst, ◌⊎◌, arith, Bool-cases, inl, inr,
}
use gotato.Session.Types.{Message}
use gotato.Record.Cut.{estimate_tokens, budget_from, within_budget}

module _ (encoded : Message → ℕ) where
  unfoldable pub tokens : List Message → ℕ
  tokens [] = 0
  tokens (m ∷ ms) = estimate_tokens encoded m + tokens ms

  message_at :
      (i : ℕ) (ms : List Message)
      → i < length ms
      → (m : Message) × (get_elem? ms i ≡ some m)
        × (tokens (drop i ms) ≡ tokens (drop (suc i) ms) + estimate_tokens encoded m)
  unfolding tokens
  message_at i [] h = absurd (omega arith)
  message_at zero (m ∷ ms) h = (m, refl, omega arith)
  message_at (suc i) (m ∷ ms) h = message_at i ms (omega arith)

  -- The tail from s fits, one Message more does not unless the floor forbids it, and the floor holds.
  abbrev pub Longest : ℕ → ℕ → List Message → ℕ → Type 0
  Longest budget floor ms s =
      (s ≤ length ms)
      × (tokens (drop s ms) ≤ budget)
      × ((floor ≤ s) ⊎ (s ≡ length ms))
      × ((k : ℕ) → suc k ≡ s → floor ≤ k → budget < tokens (drop k ms))

  stops_at_floor :
      (i budget floor total : ℕ) (ms : List Message) (start : ℕ)
      → ltb i floor ≡ true
      → budget_from encoded (suc i) budget floor total ms start ≡ start
  unfolding budget_from
  stops_at_floor i budget floor total ms start h = ground (arith, h)

  stops_over :
      (i budget floor total : ℕ) (ms : List Message) (start : ℕ) (m : Message)
      → ltb i floor ≡ false
      → get_elem? ms i ≡ some m
      → ltb budget (total + estimate_tokens encoded m) ≡ true
      → budget_from encoded (suc i) budget floor total ms start ≡ start
  unfolding budget_from
  stops_over i budget floor total ms start m h e o = ground (arith, h, e, o)

  goes_on :
      (i budget floor total : ℕ) (ms : List Message) (start : ℕ) (m : Message)
      → ltb i floor ≡ false
      → get_elem? ms i ≡ some m
      → ltb budget (total + estimate_tokens encoded m) ≡ false
      → budget_from encoded (suc i) budget floor total ms start
        ≡ budget_from encoded i budget floor (total + estimate_tokens encoded m) ms i
  unfolding budget_from
  goes_on i budget floor total ms start m h e o = ground (arith, h, e, o)

  over :
      (k i : ℕ) (ms : List Message) (budget : ℕ)
      → suc k ≡ suc i
      → budget < tokens (drop i ms)
      → budget < tokens (drop k ms)
  over k i ms budget q h =
      let same : i ≡ k = omega (arith, q) in subst (λ j. budget < tokens (drop j ms)) same h

  budget_from-Longest :
      (n budget floor : ℕ) (ms : List Message)
      → n ≤ length ms
      → tokens (drop n ms) ≤ budget
      → (floor ≤ n) ⊎ (n ≡ length ms)
      → Longest budget floor ms (budget_from encoded n budget floor (tokens (drop n ms)) ms n)
  unfolding budget_from
  budget_from-Longest zero budget floor ms le fit at =
      (le, fit, at, λ k e _. absurd (omega (arith, e)))
  budget_from-Longest (suc i) budget floor ms le fit at = elim (Bool-cases (ltb i floor)) [
    | inl b ↦
        rw (stops_at_floor i budget floor (tokens (drop (suc i) ms)) ms (suc i) b)
          (le, fit, at, λ k e f. absurd (omega (arith, e, ltb→lt i floor b)))
    | inr b ↦
        let (m, e, t) = message_at i ms (omega arith) in
        let total = tokens (drop (suc i) ms) in
        elim (Bool-cases (ltb budget (total + estimate_tokens encoded m))) [
          | inl o ↦ rw (stops_over i budget floor total ms (suc i) m b e o) (
            le,
            fit,
            at,
            λ k q f.
                over k i ms budget q
                  (omega (arith, t, ltb→lt budget (total + estimate_tokens encoded m) o)),
          )
          | inr o ↦
              rw (goes_on i budget floor total ms (suc i) m b e o, sym t)
                (budget_from-Longest i budget floor ms (omega arith) (ground (arith, t, o))
                  (inl (ground (arith, b))))
        ]
  ]

  nothing_left : (ms : List Message) → tokens (drop (length ms) ms) ≡ 0
  unfolding tokens
  nothing_left ms = ap tokens (drop_all (length ms) ms (omega arith))

  -- The Messages from the index that withinBudget returns fit the budget, and one more in front does
  -- not, unless it lies below the floor. The index is not below the floor, if it is not the end.
  pub within_budget-Longest :
      (budget floor : ℕ) (ms : List Message)
      → Longest budget floor ms (within_budget encoded ms budget floor)
  unfolding within_budget
  within_budget-Longest budget floor ms =
      subst
        (λ total.
          Longest budget floor ms
            (budget_from encoded (length ms) budget floor total ms (length ms)))
        (nothing_left ms)
        (budget_from-Longest (length ms) budget floor ms (omega arith)
          (omega (arith, nothing_left ms)) (inr refl))
