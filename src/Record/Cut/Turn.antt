-- ===== src/Record/Cut/Turn.antt =====
-- turnCut of record/compact_cut.go keeps a Tool call with its results.
use gotato.Base.{
  ℕ, zero, suc, ◌+◌, ◌≤◌, min, Bool, true, false, not, ◌&&◌, ltb, ltb→lt, List, [], ◌∷◌, ◌++◌,
  length, take, drop, take-append-drop, length-drop, drop-drop, ◌⊎◌, drop_all, ◌≡◌, refl, sym, ap,
  ◌∙◌, arith, Bool-cases, inl, inr,
}
use gotato.Session.Types.{Message}
use gotato.Record.Repair.{is_tool_result, results, result_ids, missing, unanswered, mem}
use gotato.Record.Repair.Complete.{all_answered}
use gotato.Record.Cut.{turn_from, turn_cut}

abbrev pub starts_turn : List Message → Bool
starts_turn [] = true
starts_turn (m ∷ ms) = not (is_tool_result m.role)

results-append : (xs ys : List Message) → starts_turn ys ≡ true → results (xs ++ ys) ≡ results xs
unfolding results
results-append [] [] h = refl
results-append [] (y ∷ ys) h = ground arith
results-append (x ∷ xs) ys h = ground (arith, results-append xs ys h)

missing-append :
    (m : Message) (xs ys : List Message)
    → starts_turn ys ≡ true
    → missing m (xs ++ ys) ≡ missing m xs
unfolding missing
missing-append m xs ys h =
    ap (λ (t : List Message). unanswered m.tool_calls (mem (result_ids t))) (results-append xs ys h)

-- A boundary of Turns divides the calls and their results.
answered-append :
    (xs ys : List Message)
    → starts_turn ys ≡ true
    → all_answered (xs ++ ys) ≡ all_answered xs && all_answered ys
unfolding all_answered
answered-append [] ys h = refl
answered-append (x ∷ xs) ys h = ground (arith, missing-append x xs ys h, answered-append xs ys h)

-- The loop stops at the first boundary.
turn_from_stops :
    (i : ℕ) (ms : List Message)
    → (k : ℕ) × (turn_from i ms ≡ i + k) × (k ≤ length ms) × (starts_turn (drop k ms) ≡ true)
unfolding turn_from
turn_from_stops i [] = (0, omega arith, omega arith, refl)
turn_from_stops i (m ∷ ms) = elim (Bool-cases (is_tool_result m.role)) [
  | inl t ↦
      let (k, e, le, s) = turn_from_stops (suc i) ms in
      (suc k, rw t (omega (arith, e)), omega arith, s)
  | inr t ↦ (0, rw t (omega arith), omega arith, ground arith)
]

-- Where a cut may stand.
abbrev Boundary : List Message → ℕ → ℕ → Type 0
Boundary ms want c =
    (min want (length ms) ≤ c) × (c ≤ length ms) × ((c ≡ 0) ⊎ (starts_turn (drop c ms) ≡ true))

turn_cut_zero : (ms : List Message) → turn_cut ms 0 ≡ 0
unfolding turn_cut
turn_cut_zero ms = refl

turn_cut_past :
    (ms : List Message) (w : ℕ) → ltb (length ms) (suc w) ≡ true → turn_cut ms (suc w) ≡ length ms
unfolding turn_cut
turn_cut_past ms w h = ground arith

turn_cut_inside :
    (ms : List Message) (w : ℕ)
    → ltb (length ms) (suc w) ≡ false
    → turn_cut ms (suc w) ≡ turn_from (suc w) (drop (suc w) ms)
unfolding turn_cut
turn_cut_inside ms w h = ground arith

turn_cut-Boundary : (ms : List Message) (want : ℕ) → Boundary ms want (turn_cut ms want)
turn_cut-Boundary ms zero = rw (turn_cut_zero ms) (omega arith, omega arith, inl refl)
turn_cut-Boundary ms (suc w) = elim (Bool-cases (ltb (length ms) (suc w))) [
  | inl b ↦ rw (turn_cut_past ms w b) (
    omega (arith, ltb→lt (length ms) (suc w) b),
    omega arith,
    inr (ap starts_turn (drop_all (length ms) ms (omega arith))),
  )
  | inr b ↦
      let (k, e, le, s) = turn_from_stops (suc w) (drop (suc w) ms) in
      let inside : suc w ≤ length ms = ground arith in
      rw (turn_cut_inside ms w b, e)
        (
          omega arith,
          omega (arith, length-drop (suc w) ms),
          inr (ap starts_turn (sym (drop-drop (suc w) k ms)) ∙ s),
        )
]

pub answered_parts :
    (c : ℕ) (ms : List Message)
    → (c ≡ 0) ⊎ (starts_turn (drop c ms) ≡ true)
    → all_answered ms ≡ true
    → (all_answered (take c ms) ≡ true) × (all_answered (drop c ms) ≡ true)
unfolding all_answered
answered_parts c ms (inl z) h = rw z (refl, h)
answered_parts c ms (inr s) h =
    let both = answered-append (take c ms) (drop c ms) s in
    let whole = ap all_answered (take-append-drop c ms) ∙ h in (ground arith, ground arith)

-- A cut of Messages whose calls all have results lies at the place asked for or after it, or at the
-- end, and on both sides of it the calls all have their results still.
pub turn_cut_answered :
    (ms : List Message) (want : ℕ)
    → all_answered ms ≡ true
    → let c = turn_cut ms want in
      (min want (length ms) ≤ c)
      × (c ≤ length ms)
      × (all_answered (take c ms) ≡ true)
      × (all_answered (drop c ms) ≡ true)
turn_cut_answered ms want h =
    let (lo, hi, s) = turn_cut-Boundary ms want in
    let (left, right) = answered_parts (turn_cut ms want) ms s h in (lo, hi, left, right)
