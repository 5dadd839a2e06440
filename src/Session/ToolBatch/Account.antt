-- ===== src/Session/ToolBatch/Account.antt =====
-- What one group of a batch has of its calls' outcomes (gotato/toolbatch.go).
use gotato.Base.{
  ℕ, suc, ◌+◌, ◌≤◌, ◌<◌, ◌==◌, ltb, if◌then◌else◌, Option, none, some, is_some, List, [], ◌∷◌, ◌++◌,
  length, lookup, insert, lookup-insert, nat_eq, Bytes, ◌≡◌, inl, inr, refl, ap, arith, Bool-cases,
}
use gotato.Session.Types.{ToolResult}
use gotato.Session.ToolBatch.{
  ToolSignal, update, finished, ToolGroupRun, settle_call, canceled_outcome, drain_signals,
}

-- How often a number stands in a list.
abbrev pub one : ℕ → ℕ → ℕ
one x i = if x == i then 1 else 0

abbrev pub times : ℕ → List ℕ → ℕ
times i [] = 0
times i (x ∷ xs) = one x i + times i xs

times-snoc : (i x : ℕ) (xs : List ℕ) → times i (xs ++ x ∷ []) ≡ times i xs + one x i
times-snoc i x [] = omega arith
times-snoc i x (y ∷ ys) = omega (arith, times-snoc i x ys)

-- A list with one of its numbers taken out.
pub record Without (x : ℕ) (xs ys : List ℕ) : Type 0 where
  pub counted : (i : ℕ) → times i xs ≡ one x i + times i ys
  pub shorter : length xs ≡ suc (length ys)

pub take_out : (x : ℕ) (xs : List ℕ) → 0 < times x xs → (ys : List ℕ) × Without x xs ys
take_out x [] h = absurd (omega (arith, h))
take_out x (y ∷ ys) h = elim (Bool-cases (y == x)) [
  | inl e ↦
      let same : y ≡ x = ground (arith, e) in
      (ys, record { counted = λ i. ap (λ z. one z i + times i ys) same; shorter = refl })
  | inr e ↦
      let (zs, w) = take_out x ys (ground (arith, h, e)) in
      (
        y ∷ zs,
        record { counted = λ i. omega (arith, w.counted i); shorter = omega (arith, w.shorter) },
      )
]

pub no_times : (xs : List ℕ) → ((i : ℕ) → times i xs ≡ 0) → xs ≡ []
no_times [] h = refl
no_times (x ∷ xs) h = absurd (ground (arith, h x))

length-insert :
    (k : ℕ) (v : ToolResult) (m : List (ℕ × ToolResult))
    → lookup k m ≡ none
    → length (insert k v m) ≡ suc (length m)
unfolding lookup insert
length-insert k v [] h = refl
length-insert k v ((j, w) ∷ m) h = elim (Bool-cases (j == k)) [
  | inl e ↦ absurd (ground (arith, h, e))
  | inr e ↦ ground (arith, h, e, length-insert k v m (ground (arith, h, e)))
]

-- The results that are reported.
abbrev pub results_of : List ToolSignal → List ℕ
results_of [] = []
results_of (update i text ∷ signals) = results_of signals
results_of (finished i result ∷ signals) = i ∷ results_of signals

abbrev pub received_of : {C : Type 0} → List (C × ToolSignal) → List ToolSignal
received_of [] = []
received_of ((c, signal) ∷ signals) = signal ∷ received_of signals

abbrev pub waiting_of : Option (Bytes × List ToolSignal) → List ToolSignal
waiting_of none = []
waiting_of (some (text, waiting)) = waiting

-- The calls of `todo` have no outcome yet, the other ones of the group have theirs.
pub record IsAccount (group : List ℕ) (g : ToolGroupRun) (todo : List ℕ) : Type 0 where
  pub same : g.group ≡ group
  pub counted : (i : ℕ) → times i g.ended + times i todo ≡ times i group
  pub sized : length g.outcomes + length todo ≡ length group
  pub known : (i : ℕ) → is_some (lookup i g.outcomes) ≡ ltb 0 (times i g.ended)

abbrev pub Distinct : List ℕ → Type 0
Distinct group = (i : ℕ) → times i group ≤ 1

pub settle_call-IsAccount :
    (group todo : List ℕ) (i : ℕ) (result : ToolResult) (g : ToolGroupRun)
    → Distinct group
    → IsAccount group g todo
    → 0 < times i todo
    → (rest : List ℕ) × Without i todo rest × IsAccount group (settle_call i result g) rest
unfolding settle_call
settle_call-IsAccount group todo i result g d h here =
    let (rest, w) = take_out i todo here in
    let fresh : lookup i g.outcomes ≡ none = ground (arith, h.known i, h.counted i, d i, here) in
    (
      rest,
      w,
      record {
        same = h.same;
        counted = λ j. omega (arith, times-snoc j i g.ended, w.counted j, h.counted j);
        sized = omega (arith, length-insert i result g.outcomes fresh, w.shorter, h.sized);
        known = λ j.
            ground (arith, lookup-insert i j result g.outcomes, times-snoc j i g.ended, h.known j);
      },
    )

pub drain_signals-IsAccount :
    (group todo : List ℕ) (text : Bytes) (waiting : List ToolSignal) (g : ToolGroupRun)
    → Distinct group
    → IsAccount group g todo
    → ((i : ℕ) → times i (results_of waiting) ≤ times i todo)
    → (rest : List ℕ) × IsAccount group (drain_signals text waiting g) rest
unfolding drain_signals
drain_signals-IsAccount group todo text [] g d h r = (todo, h)
drain_signals-IsAccount group todo text (update i t ∷ waiting) g d h r =
    drain_signals-IsAccount group todo text waiting g d h r
drain_signals-IsAccount group todo text (finished i result ∷ waiting) g d h r =
    let (rest, w, k) =
      settle_call-IsAccount group todo i (canceled_outcome (some text) result) g d h
        (ground (arith, r i)) in
    drain_signals-IsAccount group rest text waiting _ d k (λ j. omega (arith, r j, w.counted j))
