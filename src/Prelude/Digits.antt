-- ===== src/Prelude/Digits.antt =====
-- Laws of the native bit operations at every width, from the recursion on binary digits that they
-- stand for.
use Prim.Native.Nat.{
  ℕ, zero, suc, ◌+◌, ◌-◌, ◌*◌, ◌/◌, ◌%◌, ◌^◌, ◌≤◌, ◌<◌, min, max, differ, digits, bit_and, bit_or,
  bit_xor, bit_and-bitwise, bit_or-bitwise, bit_xor-bitwise,
}
use mathlib.Core.Path.{◌≡◌, refl, ◌∙◌, ap}
use native.Mathlib.Omega.{arith}
use native.Mathlib.Nat.{
  pow-suc, one-le-pow, div-add-mod, mod-lt, mod-eq_of_lt, add-mul-mod_self_right,
}

-- One digit of an operation that is given by `z` past the first number's end and `f` before.
module _ (z : ℕ → ℕ) (f : ℕ → ℕ → ℕ) (edge : (b : ℕ) → z b ≡ z (b / 2) * 2 + f 0 (b % 2)) where
  -- More fuel than digits changes nothing.
  enough : (m n a b : ℕ) → a ≤ n → n ≤ m → digits z f m a b ≡ digits z f n a b
  enough m zero (suc a) b h k = elim h [ ]
  enough zero zero zero b h k = refl
  enough (suc m) zero zero b h k = refl
  enough zero (suc n) a b h k = elim k [ ]
  enough (suc m) (suc n) zero b h k = refl
  enough (suc m) (suc n) (suc a) b h k =
      ap (λ t. t * 2 + f (suc a % 2) (b % 2))
        (enough m n (suc a / 2) (b / 2) (omega arith) (omega arith))

  unroll : (a b : ℕ) → digits z f a a b ≡ digits z f (a / 2) (a / 2) (b / 2) * 2 + f (a % 2) (b % 2)
  unroll zero b = edge b
  unroll (suc a) b =
      ap (λ t. t * 2 + f (suc a % 2) (b % 2))
        (enough a (suc a / 2) (suc a / 2) (b / 2) (omega arith) (omega arith))

bit_and-digit : (a b : ℕ) → bit_and a b ≡ bit_and (a / 2) (b / 2) * 2 + min (a % 2) (b % 2)
bit_and-digit a b = simp bit_and-bitwise (unroll (λ _. 0) min (λ b. omega arith) a b)

bit_or-digit : (a b : ℕ) → bit_or a b ≡ bit_or (a / 2) (b / 2) * 2 + max (a % 2) (b % 2)
bit_or-digit a b = simp bit_or-bitwise (unroll (λ b. b) max (λ b. omega arith) a b)

differ-zero : (x : ℕ) → x < 2 → differ 0 x ≡ x
differ-zero zero h = refl
differ-zero (suc zero) h = refl
differ-zero (suc (suc x)) h = absurd (omega arith)

bit_xor-digit : (a b : ℕ) → bit_xor a b ≡ bit_xor (a / 2) (b / 2) * 2 + differ (a % 2) (b % 2)
bit_xor-digit a b =
    simp bit_xor-bitwise
      (unroll (λ b. b) differ (λ b. omega (arith, differ-zero (b % 2) (omega arith))) a b)

differ-lt : (x y : ℕ) → x < 2 → y < 2 → differ x y < 2
differ-lt zero y h k = k
differ-lt (suc zero) zero h k = h
differ-lt (suc zero) (suc zero) h k = omega arith
differ-lt (suc zero) (suc (suc y)) h k = absurd (omega arith)
differ-lt (suc (suc x)) y h k = absurd (omega arith)

differ_cancel : (x y : ℕ) → x < 2 → y < 2 → differ (differ x y) y ≡ x
differ_cancel zero zero h k = refl
differ_cancel zero (suc zero) h k = refl
differ_cancel (suc zero) zero h k = refl
differ_cancel (suc zero) (suc zero) h k = refl
differ_cancel zero (suc (suc y)) h k = absurd (omega arith)
differ_cancel (suc zero) (suc (suc y)) h k = absurd (omega arith)
differ_cancel (suc (suc x)) y h k = absurd (omega arith)

pub bit_xor-lt : (w a b : ℕ) → a < 2 ^ w → b < 2 ^ w → bit_xor a b < 2 ^ w
bit_xor-lt zero a b ha hb =
    let ea : a ≡ 0 = omega arith in
    let eb : b ≡ 0 = omega arith in rw (ea, eb) (omega (arith, bit_xor-bitwise 0 0))
bit_xor-lt (suc w) a b ha hb = omega (
  arith,
  pow-suc 2 w,
  bit_xor-digit a b,
  differ-lt (a % 2) (b % 2) (omega arith) (omega arith),
  bit_xor-lt w (a / 2) (b / 2) (omega (arith, pow-suc 2 w)) (omega (arith, pow-suc 2 w)),
)

-- Exclusive or with the same number twice gives the first number back.
pub bit_xor_cancel : (w a b : ℕ) → a < 2 ^ w → b < 2 ^ w → bit_xor (bit_xor a b) b ≡ a
bit_xor_cancel zero a b ha hb =
    let ea : a ≡ 0 = omega arith in let eb : b ≡ 0 = omega arith in rw (ea, eb) refl
bit_xor_cancel (suc w) a b ha hb =
    let d = bit_xor-digit a b in
    let low = differ-lt (a % 2) (b % 2) (omega arith) (omega arith) in
    let high : bit_xor a b / 2 ≡ bit_xor (a / 2) (b / 2) = omega (arith, d, low) in
    let last : bit_xor a b % 2 ≡ differ (a % 2) (b % 2) = omega (arith, d, low) in
    let rest =
      bit_xor_cancel w (a / 2) (b / 2) (omega (arith, pow-suc 2 w)) (omega (arith, pow-suc 2 w)) in
    let back = differ_cancel (a % 2) (b % 2) (omega arith) (omega arith) in
    bit_xor-digit (bit_xor a b) b ∙ rw (high, last, rest, back) (omega arith)

-- With enough fuel `n`, operations whose second number is 0.
bit_and-zero_fuel : (n a : ℕ) → a ≤ n → bit_and a 0 ≡ 0
bit_and-zero_fuel zero a h = let e : a ≡ 0 = omega arith in rw e refl
bit_and-zero_fuel (suc n) zero h = refl
bit_and-zero_fuel (suc n) (suc a) h =
    omega (arith, bit_and-digit (suc a) 0, bit_and-zero_fuel n (suc a / 2) (omega arith))

bit_or-zero_fuel : (n a : ℕ) → a ≤ n → bit_or a 0 ≡ a
bit_or-zero_fuel zero a h = let e : a ≡ 0 = omega arith in rw e refl
bit_or-zero_fuel (suc n) zero h = refl
bit_or-zero_fuel (suc n) (suc a) h =
    omega (arith, bit_or-digit (suc a) 0, bit_or-zero_fuel n (suc a / 2) (omega arith))

-- The remainder by a power of two, one digit at a time.
mod_pow-digit : (w a : ℕ) → a % 2 ^ suc w ≡ a / 2 % 2 ^ w * 2 + a % 2
mod_pow-digit w a =
    let q = a / 2 / 2 ^ w in
    let x = a / 2 % 2 ^ w * 2 + a % 2 in
    let split : a ≡ x + q * 2 ^ suc w =
      omega (arith, div-add-mod (a / 2) (2 ^ w), ap (λ (t : ℕ). q * t) (pow-suc 2 w)) in
    let small : x < 2 ^ suc w =
      omega (arith, pow-suc 2 w, mod-lt (a / 2) (one-le-pow w 2 (omega arith))) in
    ap (λ t. t % 2 ^ suc w) split ∙ (add-mul-mod_self_right x q (2 ^ suc w) ∙ mod-eq_of_lt small)

-- `x & (1<<w - 1)`
pub bit_and_mask : (w a : ℕ) → bit_and a (2 ^ w - 1) ≡ a % 2 ^ w
bit_and_mask zero a = omega (arith, bit_and-zero_fuel a a (omega arith))
bit_and_mask (suc w) a =
    let one : 1 ≤ 2 ^ w = one-le-pow w 2 (omega arith) in
    let half : (2 ^ suc w - 1) / 2 ≡ 2 ^ w - 1 = omega (arith, pow-suc 2 w) in
    let odd : (2 ^ suc w - 1) % 2 ≡ 1 = omega (arith, pow-suc 2 w) in
    bit_and-digit a (2 ^ suc w - 1)
    ∙ rw (half, odd, bit_and_mask w (a / 2)) (omega (arith, mod_pow-digit w a))

-- `(q<<w) | r`, where `r` has at most `w` bits.
pub bit_or_shifted : (w q r : ℕ) → r < 2 ^ w → bit_or (q * 2 ^ w) r ≡ q * 2 ^ w + r
bit_or_shifted zero q r h =
    let e : r ≡ 0 = omega arith in
    let f : q * 2 ^ 0 ≡ q = omega arith in
    rw (e, f) (omega (arith, bit_or-zero_fuel q q (omega arith)))
bit_or_shifted (suc w) q r h =
    let twice : q * 2 ^ suc w ≡ 2 * (q * 2 ^ w) =
      omega (arith, ap (λ (t : ℕ). q * t) (pow-suc 2 w)) in
    let half : 2 * (q * 2 ^ w) / 2 ≡ q * 2 ^ w = omega arith in
    let even : 2 * (q * 2 ^ w) % 2 ≡ 0 = omega arith in
    rw twice (
      bit_or-digit (2 * (q * 2 ^ w)) r
      ∙ rw (half, even, bit_or_shifted w q (r / 2) (omega (arith, pow-suc 2 w))) (omega arith))
