-- ===== src/Base/Fallible.antt =====
-- Go's (value, error) results, and the error alone of a call that returns no value.
use mathlib.Core.Bool.{Bool, true, false}
use mathlib.Core.Option.{Option, none, some}

pub data Result {ℓ κ} (E : Type ℓ) (A : Type κ) : Type (ℓ ⊔ κ) where
  ok : A → Result E A
  err : E → Result E A

abbrev pub is_some {ℓ} : {A : Type ℓ} → Option A → Bool
is_some none = false
is_some (some a) = true

abbrev pub or_default {ℓ} : {A : Type ℓ} → A → Option A → A
or_default d none = d
or_default d (some a) = a

-- `if err := check; err != nil { return err }` before a step on a state that the check leaves alone.
abbrev pub refuse {ℓ κ} : {E : Type ℓ} {S : Type κ} → S → Option E → S × Option E → S × Option E
refuse s none next = next
refuse s (some e) next = (s, some e)

-- The same before a value is computed.
abbrev pub check {ℓ κ} : {E : Type ℓ} {A : Type κ} → Option E → Result E A → Result E A
check none next = next
check (some e) next = err e

-- And before a step that returns a value or an error.
abbrev pub reject {ℓ κ ν} :
    {E : Type ℓ} {S : Type κ} {A : Type ν} → S → Option E → S × Result E A → S × Result E A
reject s none next = next
reject s (some e) next = (s, err e)
