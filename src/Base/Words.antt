-- ===== src/Base/Words.antt =====
-- C integers as bit patterns. An `int` is its 32-bit two's-complement pattern, an
-- `unsigned long` a number below 2 ^ 64.
use Prim.Native.Nat.{ℕ, ◌+◌, ◌-◌, ◌^◌, bit_and}
use mathlib.Core.Bool.{Bool, not}
use watch_it.Base.Tests.{ltb, ◌==◌, if◌then◌else◌}

-- `UINT32_MAX`, which marks a file without a close time.
abbrev pub uint32_max : ℕ
uint32_max = 4294967295

-- The conversion of an `int` to `unsigned long`: a negative number is sign-extended.
abbrev pub ulong_of_int : ℕ → ℕ
ulong_of_int w = if ltb w (2 ^ 31) then w else w + (2 ^ 64 - 2 ^ 32)

-- The C condition `a & mask`.
abbrev pub has_bits : ℕ → ℕ → Bool
has_bits a mask = not (bit_and a mask == 0)
