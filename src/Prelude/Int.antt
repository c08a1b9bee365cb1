-- ===== src/Prelude/Int.antt =====
-- `i32` values: exit codes and the adjustment of the out-of-memory score.
use flint_init.Prelude.Equality.{nat_beq}
use Prim.Native.Nat.{ℕ}
use mathlib.Core.Bool.{Bool, false}

-- `negsuc n` is -(n + 1).
pub data ℤ : Type 0 where
  pos : ℕ → ℤ
  negsuc : ℕ → ℤ

abbrev pub is_zero : ℤ → Bool
is_zero (pos n) = nat_beq n 0
is_zero (negsuc n) = false
