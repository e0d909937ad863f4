-- ===== src/Base/Words.antt =====
-- Machine words as natural numbers: wrap-around is written out, and a mask is a quotient or a
-- remainder, which the arithmetic tactics read.
use Prim.Native.Nat.{ℕ, ◌+◌, ◌/◌, ◌%◌}
use mathlib.Core.Bool.{Bool}
use sync_perf.Base.Tests.{◌==◌, if◌then◌else◌}

abbrev pub u32 : ℕ → ℕ
u32 n = n % 4294967296

-- `++x` and `--x` on an `unsigned int`.
abbrev pub inc32 : ℕ → ℕ
inc32 n = u32 (n + 1)

abbrev pub dec32 : ℕ → ℕ
dec32 n = u32 (n + 4294967295)

abbrev pub u64 : ℕ → ℕ
u64 n = n % 18446744073709551616

-- `(x & b) != 0`, where b is a power of two.
abbrev pub has_bit : ℕ → ℕ → Bool
has_bit b x = x / b % 2 == 1

-- `x | b`, where b is a power of two.
abbrev pub set_bit : ℕ → ℕ → ℕ
set_bit b x = if has_bit b x then x else x + b
