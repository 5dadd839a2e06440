-- ===== src/Record/Cut/Last.antt =====
-- lastTurnStart of record/compact_cut.go: where the Turn that it finds begins.
use gotato.Base.{
  ℕ, zero, suc, ◌-◌, ◌≤◌, ◌<◌, Bool, true, not, ltb, if◌then◌else◌, Option, none, some, List, [],
  ◌∷◌, length, drop, get_elem?, Bytes, bytes_eq, ◌≡◌, refl, ap, ◌∙◌, ◌⊎◌, arith, inl, inr,
  Bool-cases, Option-cases,
}
use gotato.Session.Types.{Message}
use gotato.Record.Repair.{is_tool_result}
use gotato.Record.Repair.Complete.{all_answered}
use gotato.Record.Cut.{run_from, back_from, last_turn_start}
use gotato.Record.Cut.Turn.{starts_turn, answered_parts}
use gotato.Base.{take}

abbrev within : ℕ → Option ℕ → Bool
within n none = true
within n (some i) = ltb i n

run_from-within :
    (n i : ℕ) (run : Bytes) (ms : List Message) (first : Option ℕ)
    → i ≤ n
    → within n first ≡ true
    → within n (run_from i run ms first) ≡ true
unfolding run_from
run_from-within n zero run ms first le h = h
run_from-within n (suc i) run ms first le h = ground (
  arith,
  run_from-within n i run ms first (omega arith) h,
  run_from-within n i run ms (some i) (omega arith) (ground arith),
)

back_from_bound : (i : ℕ) (ms : List Message) → back_from i ms ≤ i
unfolding back_from
back_from_bound zero ms = omega arith
back_from_bound (suc i) ms = ground (arith, back_from_bound i ms)

first_starts :
    (i : ℕ) (ms : List Message) (m : Message)
    → get_elem? ms i ≡ some m
    → starts_turn (drop i ms) ≡ not (is_tool_result m.role)
first_starts i [] m e = ground arith
first_starts zero (x ∷ ms) m e = ground (arith, e)
first_starts (suc i) (x ∷ ms) m e = first_starts i ms m e

past_starts : (i : ℕ) (ms : List Message) → get_elem? ms i ≡ none → starts_turn (drop i ms) ≡ true
past_starts zero [] e = refl
past_starts (suc i) [] e = refl
past_starts zero (x ∷ ms) e = ground arith
past_starts (suc i) (x ∷ ms) e = past_starts i ms e

back_from_past :
    (i : ℕ) (ms : List Message) → get_elem? ms (suc i) ≡ none → back_from (suc i) ms ≡ suc i
unfolding back_from
back_from_past i ms e = ground (arith, e)

back_from_at :
    (i : ℕ) (ms : List Message) (m : Message)
    → get_elem? ms (suc i) ≡ some m
    → back_from (suc i) ms ≡ (if is_tool_result m.role then back_from i ms else suc i)
unfolding back_from
back_from_at i ms m e = ground (arith, e)

back_from_stops :
    (i : ℕ) (ms : List Message)
    → (back_from i ms ≡ 0) ⊎ (starts_turn (drop (back_from i ms) ms) ≡ true)
back_from_stops zero ms = inl (omega (arith, back_from_bound zero ms))
back_from_stops (suc i) ms = elim (Option-cases (get_elem? ms (suc i))) [
  | inl e ↦ rw (back_from_past i ms e) (inr (past_starts (suc i) ms e))
  | inr (m, e) ↦ elim (Bool-cases (is_tool_result m.role)) [
    | inl t ↦ rw (back_from_at i ms m e, t) (back_from_stops i ms)
    | inr t ↦ rw (back_from_at i ms m e, t) (inr (first_starts (suc i) ms m e ∙ ap not t))
  ]
]

last_turn_start_within :
    (ms : List Message) (run : Bytes) → 0 < length ms → last_turn_start ms run < length ms
unfolding last_turn_start
last_turn_start_within ms run h =
    ground (
      arith,
      run_from-within (length ms) (length ms) run ms none,
      back_from_bound (length ms - 1) ms,
    )

-- The Turn that lastTurnStart finds among Messages whose calls all have results, one Message at least,
-- begins at one of them, and with no Run given, the calls on both sides of that Message all have
-- their results.
last_turn_start_answered :
    (ms : List Message) (run : Bytes)
    → 0 < length ms
    → all_answered ms ≡ true
    → let c = last_turn_start ms [] in
      (last_turn_start ms run < length ms)
      × (all_answered (take c ms) ≡ true)
      × (all_answered (drop c ms) ≡ true)
unfolding last_turn_start
last_turn_start_answered ms run h k =
    let c = back_from (length ms - 1) ms in
    let (left, right) = answered_parts c ms (back_from_stops (length ms - 1) ms) k in
    (last_turn_start_within ms run h, left, right)
