-- ===== src/Prelude/Int.antt =====
-- Go's signed integers: `pos n` is n, and `negsuc n` is the negative of n + 1.
use Prim.Native.Nat.{ℕ}

pub data ℤ : Type 0 where
  pos negsuc : ℕ → ℤ
