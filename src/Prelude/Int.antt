-- ===== src/Prelude/Int.antt =====
-- The signed integers that the programs read: an `i64` is only ever converted to a `u64`.
use Prim.Native.Nat.{ℕ}
use mathlib.Core.Option.{Option, none, some}

-- `negsuc n` is -(n + 1).
pub data ℤ : Type 0 where
  pos : ℕ → ℤ
  negsuc : ℕ → ℤ

-- `i64::try_into::<u64>`: a negative number does not fit.
abbrev pub u64_try_from : ℤ → Option ℕ
u64_try_from (pos n) = some n
u64_try_from (negsuc n) = none
