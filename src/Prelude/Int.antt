-- ===== src/Prelude/Int.antt =====
-- Signed integers over the native numbers.
use Prim.Native.Nat.{ℕ, suc, ◌+◌, ◌-◌}
use trilith.Prelude.Tests.{leb, if◌then◌else◌}

-- `negsuc n` is -(n + 1).
pub data ℤ : Type 0 where
  pos : ℕ → ℤ
  negsuc : ℕ → ℤ

abbrev pub pos_part : ℤ → ℕ
pos_part (pos n) = n
pos_part (negsuc n) = 0

-- a natural number plus an integer
abbrev pub offset_by : ℕ → ℤ → ℤ
offset_by a (pos n) = pos (a + n)
offset_by a (negsuc n) = if leb (suc n) a then pos (a - suc n) else negsuc (n - a)
