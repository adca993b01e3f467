-- ===== src/Prelude/Word.antt =====
-- Go's fixed-width unsigned integers: the wrap-around is written out.
use Prim.Native.Nat.{ℕ, ◌%◌, ◌^◌, bit_and, bit_xor}

abbrev pub u8 : ℕ → ℕ
u8 n = n % 2 ^ 8

abbrev pub u64 : ℕ → ℕ
u64 n = n % 2 ^ 64

-- The nanoseconds of a second.
abbrev pub second : ℕ
second = 1000000000

-- `a &^ b` on bytes.
abbrev pub and_not8 : ℕ → ℕ → ℕ
and_not8 a b = bit_and a (bit_xor b 255)
