-- ===== src/Prelude/Words.antt =====
-- Casts to the unsigned types of C, and the `int` that a 32-bit pattern stands for.
use Prim.Native.Nat.{ℕ, ◌-◌, ◌%◌, ◌^◌}
use grnvs.Prelude.Tests.{ltb, if◌then◌else◌}
use grnvs.Prelude.Int.{ℤ, pos, negsuc}

abbrev pub u16 : ℕ → ℕ
u16 n = n % 2 ^ 16

abbrev pub u32 : ℕ → ℕ
u32 n = n % 2 ^ 32

abbrev pub signed32 : ℕ → ℤ
signed32 w = if ltb w (2 ^ 31) then pos w else negsuc (2 ^ 32 - w - 1)
