-- ===== src/Prelude/Int.antt =====
-- Signed integers, and the one that a two's complement bit pattern stands for.
use Prim.Native.Nat.{ℕ, ◌-◌, ◌^◌}
use lopack.Prelude.Tests.{ltb, if◌then◌else◌}

-- `negsuc n` is -(n + 1).
pub data ℤ : Type 0 where
  pos : ℕ → ℤ
  negsuc : ℕ → ℤ

abbrev pub signed32 : ℕ → ℤ
signed32 v = if ltb v (2 ^ 31) then pos v else negsuc (2 ^ 32 - v - 1)

abbrev pub signed64 : ℕ → ℤ
signed64 v = if ltb v (2 ^ 63) then pos v else negsuc (2 ^ 64 - v - 1)
