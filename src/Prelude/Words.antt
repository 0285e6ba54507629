-- ===== src/Prelude/Words.antt =====
-- 64-bit machine words as bit patterns below 2^64: `usize`, `u64`, and `isize` in two's complement.
use Prim.Native.Nat.{ℕ, ◌+◌, ◌-◌, ◌%◌, ◌^◌}
use mathlib.Core.Bool.{Bool}
use krcore_artifacts.Prelude.Tests.{ltb}

abbrev pub word : ℕ
word = 2 ^ 64

abbrev pub add64 : ℕ → ℕ → ℕ
add64 a b = (a + b) % word

abbrev pub sub64 : ℕ → ℕ → ℕ
sub64 a b = (a + word - b) % word

-- The order of `isize`: moving both patterns by 2^63 makes it the order of the numbers.
abbrev pub lt_isize : ℕ → ℕ → Bool
lt_isize a b = ltb (add64 a (2 ^ 63)) (add64 b (2 ^ 63))

-- -1
abbrev pub minus_one : ℕ
minus_one = word - 1

abbrev pub u32 : ℕ → ℕ
u32 n = n % 2 ^ 32
