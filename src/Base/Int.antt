-- ===== src/Base/Int.antt =====
-- The integers that a counter takes.
use Prim.Native.Nat.{ℕ, zero, suc, ◌+◌}
use mathlib.Core.Bool.{Bool, false}
use notify_queue.Base.Tests.{ltb}

-- `negsuc n` is -(n + 1).
pub data ℤ : Type 0 where
  pos : ℕ → ℤ
  negsuc : ℕ → ℤ

abbrev pub suc_ℤ : ℤ → ℤ
suc_ℤ (pos n) = pos (n + 1)
suc_ℤ (negsuc zero) = pos 0
suc_ℤ (negsuc (suc n)) = negsuc n

abbrev pub pred_ℤ : ℤ → ℤ
pred_ℤ (pos zero) = negsuc 0
pred_ℤ (pos (suc n)) = pos n
pred_ℤ (negsuc n) = negsuc (n + 1)

-- Is an integer above a bound?
abbrev pub above : ℕ → ℤ → Bool
above bound (pos n) = ltb bound n
above bound (negsuc n) = false
