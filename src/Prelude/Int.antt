-- ===== src/Prelude/Int.antt =====
-- The integers over the native numbers, and the checked operations of `i64`.
use Prim.Native.Nat.{ℕ, suc, ◌+◌, ◌-◌, ◌^◌}
use mathlib.Core.Option.{Option, none, some}
use kanatoko.Prelude.Tests.{ltb, leb, if◌then◌else◌}

pub data ℤ : Type 0 where
  pos : ℕ → ℤ
  -- `negsuc n` is -(n + 1)
  negsuc : ℕ → ℤ

-- Twice the number of values that an `i64` has from zero on.
abbrev pub i64_bound : ℕ
i64_bound = 2 ^ 63

-- A value that is not negative, as an `i64`.
abbrev pub checked_i64 : ℕ → Option ℤ
checked_i64 n = if ltb n i64_bound then some (pos n) else none

-- `i64::checked_add` of an amount that is not negative.
unfoldable pub checked_add : ℤ → ℕ → Option ℤ
checked_add (pos n) amount = checked_i64 (n + amount)
checked_add (negsuc n) amount =
    if leb amount n then some (negsuc (n - amount)) else checked_i64 (amount - suc n)
