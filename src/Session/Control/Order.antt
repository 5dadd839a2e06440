-- ===== src/Session/Control/Order.antt =====
-- Lists of waiting messages: how often one stands in a list, and the order of their numbers.
use gotato.Base.{
  ℕ, suc, ◌+◌, ◌≤◌, ◌<◌, Bool, not, ◌==◌, if◌then◌else◌, List, [], ◌∷◌, ◌++◌, select, ◌≡◌, refl,
  arith, All,
}
use gotato.Session.Control.{Control, count_if, place, sort}

pub count_if-append :
    (p : Control → Bool) (xs ys : List Control)
    → count_if p (xs ++ ys) ≡ count_if p xs + count_if p ys
unfolding count_if
count_if-append p [] ys = omega arith
count_if-append p (x ∷ xs) ys = omega (arith, count_if-append p xs ys)

-- What is selected, and what is left.
pub count_if-select :
    (p pick : Control → Bool) (xs : List Control)
    → count_if p (select pick xs) + count_if p (select (λ c. not (pick c)) xs) ≡ count_if p xs
unfolding count_if select
count_if-select p pick [] = omega arith
count_if-select p pick (x ∷ xs) = ground (arith, count_if-select p pick xs)

count_if-place :
    (p : Control → Bool) (c : Control) (ds : List Control)
    → count_if p (place c ds) ≡ (if p c then 1 else 0) + count_if p ds
unfolding count_if place
count_if-place p c [] = refl
count_if-place p c (d ∷ ds) = ground (arith, count_if-place p c ds)

pub count_if-sort : (p : Control → Bool) (xs : List Control) → count_if p (sort xs) ≡ count_if p xs
unfolding count_if sort
count_if-sort p [] = refl
count_if-sort p (x ∷ xs) = omega (arith, count_if-place p x (sort xs), count_if-sort p xs)

-- How many messages carry this number.
abbrev pub occurs : ℕ → List Control → ℕ
occurs n = count_if (λ c. c.seq == n)

-- The numbers do not fall, from b on.
abbrev pub Sorted : ℕ → List Control → Type 0
Sorted b [] = Unit {0}
Sorted b (c ∷ cs) = (b ≤ c.seq) × Sorted c.seq cs

-- The numbers rise, all of them above b.
abbrev pub Ascending : ℕ → List Control → Type 0
Ascending b [] = Unit {0}
Ascending b (c ∷ cs) = (b < c.seq) × Ascending c.seq cs

pub Sorted-mono : (a b : ℕ) (cs : List Control) → a ≤ b → Sorted b cs → Sorted a cs
Sorted-mono a b [] h s = tt
Sorted-mono a b (c ∷ cs) h s = (omega arith, s.1)

place-Sorted :
    (b : ℕ) (c : Control) (ds : List Control) → b ≤ c.seq → Sorted b ds → Sorted b (place c ds)
unfolding place
place-Sorted b c [] h s = (h, tt)
place-Sorted b c (d ∷ ds) h s = ground (arith, place-Sorted d.seq c ds)

pub sort-Sorted : (xs : List Control) → Sorted 0 (sort xs)
unfolding sort
sort-Sorted [] = tt
sort-Sorted (x ∷ xs) = place-Sorted 0 x (sort xs) (omega arith) (sort-Sorted xs)

pub select-Sorted :
    (p : Control → Bool) (b : ℕ) (cs : List Control) → Sorted b cs → Sorted b (select p cs)
unfolding select
select-Sorted p b [] s = tt
select-Sorted p b (c ∷ cs) s =
    ground (arith, select-Sorted p c.seq cs s.1, Sorted-mono b c.seq (select p cs))

-- A message with a number that no other is above goes to the end.
pub append-Sorted :
    (b n : ℕ) (cs : List Control) (c : Control)
    → Sorted b cs
    → All (λ d. d.seq ≤ n) cs
    → n ≤ c.seq
    → b ≤ c.seq
    → Sorted b (cs ++ c ∷ [])
append-Sorted b n [] c s a h k = (k, tt)
append-Sorted b n (d ∷ ds) c s a h k = (s.0, append-Sorted d.seq n ds c s.1 a.1 h (omega arith))

-- In a list in order whose numbers are above b, each number once.
pub Sorted-Ascending :
    (b : ℕ) (cs : List Control) → Sorted (suc b) cs → ((n : ℕ) → occurs n cs ≤ 1) → Ascending b cs
unfolding count_if
Sorted-Ascending b [] s once = tt
Sorted-Ascending b (c ∷ []) s once = (omega arith, tt)
Sorted-Ascending b (c ∷ d ∷ ds) s once = (
  omega arith,
  Sorted-Ascending c.seq (d ∷ ds) (ground (arith, once c.seq), s.1.1) (λ n. ground (arith, once n)),
)

pub All-select {ℓ} :
    (P : Control → Type ℓ) (p : Control → Bool) (cs : List Control) → All P cs → All P (select p cs)
unfolding select
All-select P p [] a = tt
All-select P p (c ∷ cs) a = ground (arith, All-select P p cs a.1)

All-place {ℓ} :
    (P : Control → Type ℓ) (c : Control) (cs : List Control) → P c → All P cs → All P (place c cs)
unfolding place
All-place P c [] h a = (h, tt)
All-place P c (d ∷ ds) h a = ground (arith, All-place P c ds h a.1)

pub All-sort {ℓ} : (P : Control → Type ℓ) (cs : List Control) → All P cs → All P (sort cs)
unfolding sort
All-sort P [] a = tt
All-sort P (c ∷ cs) a = All-place P c (sort cs) a.0 (All-sort P cs a.1)

-- A number that the queue has given out.
abbrev pub IsKnown : ℕ → Control → Type 0
IsKnown n c = (1 ≤ c.seq) × (c.seq ≤ n)

pub IsKnown-mono : (m n : ℕ) (cs : List Control) → m ≤ n → All (IsKnown m) cs → All (IsKnown n) cs
IsKnown-mono m n [] h a = tt
IsKnown-mono m n (c ∷ cs) h a = ((a.0.0, omega arith), IsKnown-mono m n cs h a.1)

pub Sorted-known : (n : ℕ) (cs : List Control) → All (IsKnown n) cs → Sorted 0 cs → Sorted 1 cs
Sorted-known n [] a s = tt
Sorted-known n (c ∷ cs) a s = (a.0.0, s.1)

pub known_le : (n : ℕ) (cs : List Control) → All (IsKnown n) cs → All (λ c. c.seq ≤ n) cs
known_le n [] a = tt
known_le n (c ∷ cs) a = (a.0.1, known_le n cs a.1)

pub occurs-append_one :
    (n : ℕ) (xs : List Control) (c : Control)
    → occurs n (xs ++ c ∷ []) ≡ occurs n xs + (if c.seq == n then 1 else 0)
unfolding count_if
occurs-append_one n xs c = ground (arith, count_if-append (λ c. c.seq == n) xs (c ∷ []))
