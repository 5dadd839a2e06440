-- ===== src/Base/Int.antt =====
-- Go's int where it may fall below zero: a counter that steps by one.
use Prim.Native.Nat.{ℕ, zero, suc, ◌+◌}
use mathlib.Core.Bool.{Bool, true, false}
use gotato.Base.Tests.{leb}

-- `negsuc n` is -(n + 1).
pub data ℤ : Type 0 where
  pos : ℕ → ℤ
  negsuc : ℕ → ℤ

abbrev pub succ : ℤ → ℤ
succ (pos n) = pos (suc n)
succ (negsuc zero) = pos 0
succ (negsuc (suc n)) = negsuc n

abbrev pub pred : ℤ → ℤ
pred (pos zero) = negsuc 0
pred (pos (suc n)) = pos n
pred (negsuc n) = negsuc (suc n)

-- `n + z >= limit`.
abbrev pub reaches : ℕ → ℤ → ℕ → Bool
reaches n (pos z) limit = leb limit (n + z)
reaches n (negsuc z) limit = leb (limit + suc z) n

-- `z > 0`.
abbrev pub positive : ℤ → Bool
positive (pos (suc n)) = true
positive _ = false
