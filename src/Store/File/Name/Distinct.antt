-- ===== src/Store/File/Name/Distinct.antt =====
-- The file names of store/file_name.go on a file system that ignores the case of ASCII letters.
use gotato.Base.{
  ℕ, ◌+◌, ◌/◌, ◌%◌, ◌<◌, if◌then◌else◌, [], ◌∷◌, ◌++◌, Bytes, All, map, ◌≡◌, ◌≢◌, ap₂, sym, refl,
  arith, inl, inr, Bool-cases,
}
use gotato.Store.File.Name.{is_own, is_capital, hex_digit, spell, name_of}

-- A byte as such a file system reads it.
abbrev folded : ℕ → ℕ
folded c = if is_capital c then c + 32 else c

same_digit : (v w : ℕ) → v < 16 → w < 16 → folded (hex_digit v) ≡ folded (hex_digit w) → v ≡ w
unfolding hex_digit is_capital
same_digit v w hv hw e = ground arith

-- The three ways to spell a byte, folded.
data Spelled (c : ℕ) (s : Bytes) : Type 0 where
  itself : c ≢ b'!' → c ≢ b'%' → map folded (spell c ++ s) ≡ c ∷ map folded s → Spelled c s
  banged : map folded (spell c ++ s) ≡ b'!' ∷ (c + 32) ∷ map folded s → Spelled c s
  percent :
      map folded (spell c ++ s)
        ≡ b'%' ∷ folded (hex_digit (c / 16)) ∷ folded (hex_digit (c % 16)) ∷ map folded s
      → Spelled c s

spelled : (c : ℕ) (s : Bytes) → Spelled c s
unfolding spell is_own is_capital
spelled c s = elim (Bool-cases (is_own c)) [
  | inl o ↦ itself (λ q. ground arith) (λ q. ground arith) (ground arith)
  | inr lacks ↦ elim (Bool-cases (is_capital c)) [
    | inl k ↦ banged (ground arith)
    | inr neither ↦ percent (ground arith)
  ]
]

abbrev SameHead : ℕ → ℕ → Bytes → Bytes → Type 0
SameHead c d s t = (c ≡ d) × (map folded s ≡ map folded t)

same_code : (c d : ℕ) → c / 16 ≡ d / 16 → c % 16 ≡ d % 16 → c ≡ d
same_code c d p q = omega arith

nothing : (c : ℕ) (s : Bytes) → [] ≡ map folded (spell c ++ s) → ⊥
nothing c s e = elim (spelled c s) [
  | itself a b p ↦ grind (arith, p, e)
  | banged p ↦ grind (arith, p, e)
  | percent p ↦ grind (arith, p, e)
]

spell_head :
    (c d : ℕ) (s t : Bytes)
    → c < 256
    → d < 256
    → map folded (spell c ++ s) ≡ map folded (spell d ++ t)
    → SameHead c d s t
spell_head c d s t hc hd e = elim (spelled c s) [
  | itself a b p ↦ elim (spelled d t) [
    | itself a' b' q ↦ (grind (arith, p, q, e), grind (arith, p, q, e))
    | banged q ↦ absurd (grind (arith, a, p, q, e))
    | percent q ↦ absurd (grind (arith, b, p, q, e))
  ]
  | banged p ↦ elim (spelled d t) [
    | itself a b q ↦ absurd (grind (arith, a, p, q, e))
    | banged q ↦ (grind (arith, p, q, e), grind (arith, p, q, e))
    | percent q ↦ absurd (grind (arith, p, q, e))
  ]
  | percent p ↦ elim (spelled d t) [
    | itself a b q ↦ absurd (grind (arith, b, p, q, e))
    | banged q ↦ absurd (grind (arith, p, q, e))
    | percent q ↦
        let high =
          same_digit (c / 16) (d / 16) (omega arith) (omega arith) (grind (arith, p, q, e)) in
        let low =
          same_digit (c % 16) (d % 16) (omega arith) (omega arith) (grind (arith, p, q, e)) in
        (same_code c d high low, grind (arith, p, q, e))
  ]
]

-- Two ids whose names are the same but for the case of their letters are the same id, if their bytes
-- are below 256.
pub name_of_distinct :
    (a b : Bytes)
    → All (λ c. c < 256) a
    → All (λ c. c < 256) b
    → map folded (name_of a) ≡ map folded (name_of b)
    → a ≡ b
unfolding name_of
name_of_distinct [] [] ha hb e = refl
name_of_distinct [] (d ∷ b) ha hb e = absurd (nothing d (name_of b) e)
name_of_distinct (c ∷ a) [] ha hb e = absurd (nothing c (name_of a) (sym e))
name_of_distinct (c ∷ a) (d ∷ b) ha hb e =
    let (same, rest) = spell_head c d (name_of a) (name_of b) ha.0 hb.0 e in
    ap₂ (λ (x : ℕ) (xs : Bytes). x ∷ xs) same (name_of_distinct a b ha.1 hb.1 rest)
