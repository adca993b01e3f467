-- ===== src/Prelude/Pigeon.antt =====
-- The pigeonhole principle for functions on numbers.
use Prim.Native.Nat.{ℕ, zero, suc, ◌≤◌, ◌<◌}
use mathlib.Core.Path.{◌≡◌}
use native.Mathlib.Omega.{arith}
use siros_status_service.Prelude.Tests.{◌==◌, if◌then◌else◌}

-- `m` distinct values below `c` are at most `c`.
pub pigeonhole :
    (c m : ℕ) (f : ℕ → ℕ)
    → ((j : ℕ) → j < m → f j < c)
    → ((i j : ℕ) → i < m → j < m → f i ≡ f j → i ≡ j)
    → m ≤ c
pigeonhole c zero f small distinct = omega arith
pigeonhole zero (suc m) f small distinct = absurd (omega (arith, small m (omega arith)))
pigeonhole (suc c) (suc m) f small distinct = omega (
  arith,
  pigeonhole c m (λ j. if f j == c then f m else f j)
      (λ j h. ground (
        arith,
        small j (omega arith),
        small m (omega arith),
        distinct j m (omega arith) (omega arith),
      ))
      (λ i j h k e. ground (
        arith,
        distinct i j (omega arith) (omega arith),
        distinct i m (omega arith) (omega arith),
        distinct j m (omega arith) (omega arith),
      )),
)
