-- ===== src/Session/Subscription/Log.antt =====
-- The log that a stream of gotato/subscription.go reads: `log` gives the stored Event of each number.
use gotato.Base.{
  ℕ, zero, suc, ◌+◌, ◌-◌, ◌≤◌, Bool, if◌then◌else◌, List, [], ◌∷◌, ◌++◌, select, select-append, ◌≡◌,
  refl, sym, ap, ap₂, ◌∙◌, arith,
}
use gotato.Session.Subscription.{EventClass, is_stored}

module _ {E : Type 0} (class : E → EventClass) where
  abbrev pub has_number : E → Bool
  has_number e = is_stored (class e)

  -- The stored ones of a list.
  abbrev pub kept_ones : List E → List E
  kept_ones es = select has_number es

module _ {E : Type 0} (log : ℕ → E) where
  -- The m stored Events after number a.
  unfoldable pub range : ℕ → ℕ → List E
  range a zero = []
  range a (suc m) = log (suc a) ∷ range (suc a) m

  range-append : (a m k b n : ℕ) → b ≡ a + m → n ≡ m + k → range a m ++ range b k ≡ range a n
  unfolding range
  range-append a zero k b n p q =
      let start : b ≡ a = omega arith in let size : k ≡ n = omega arith in ap₂ range start size
  range-append a (suc m) k b zero p q = absurd (omega arith)
  range-append a (suc m) k b (suc n) p q =
      ap (λ (t : List E). log (suc a) ∷ t)
        (range-append (suc a) m k b n (omega arith) (omega arith))

  -- Those after number a up to number b that pass a filter.
  abbrev pub visible : (E → Bool) → ℕ → ℕ → List E
  visible keep a b = select keep (range a (b - a))

  -- A longer stretch is a stretch and the one after it.
  pub visible-append :
      (keep : E → Bool) (a b c : ℕ)
      → a ≤ b
      → b ≤ c
      → visible keep a b ++ visible keep b c ≡ visible keep a c
  visible-append keep a b c ab bc =
      sym (select-append keep (range a (b - a)) (range b (c - b)))
      ∙ ap (select keep) (range-append a (b - a) (c - b) b (c - a) (omega arith) (omega arith))

  pub visible-suc :
      (keep : E → Bool) (a b : ℕ)
      → a ≤ b
      → visible keep a (suc b)
        ≡ visible keep a b ++ (if keep (log (suc b)) then log (suc b) ∷ [] else [])
  unfolding range select
  visible-suc keep a b ab =
      let one : suc b - b ≡ 1 = omega arith in
      sym (visible-append keep a b (suc b) ab (omega arith))
      ∙ ap (λ m. visible keep a b ++ select keep (range b m)) one
      ∙ ap (λ (t : List E). visible keep a b ++ t) (one_kept b)
    where
      one_kept :
          (b : ℕ) → select keep (range b 1) ≡ (if keep (log (suc b)) then log (suc b) ∷ [] else [])
      one_kept b = refl

  pub visible_none : (keep : E → Bool) (a : ℕ) → visible keep a a ≡ []
  unfolding range select
  visible_none keep a =
      let nothing : a - a ≡ 0 = omega arith in ap (λ m. select keep (range a m)) nothing
