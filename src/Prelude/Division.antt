-- ===== src/Prelude/Division.antt =====
-- Quotients and remainders, and powers of two.
use Prim.Native.Nat.{ℕ, ◌+◌, ◌*◌, ◌/◌, ◌%◌, ◌^◌, ◌<◌, zero, suc}
use mathlib.Core.Path.{◌≡◌, ◌∙◌, sym, ap}
use native.Mathlib.Nat.{
  add_comm, div-add-mod, div-lt_iff_lt-mul, mod-eq_of_lt, add-mul-mod_self_right, add-mul-div_right,
  div-eq_of_lt, pow-suc, zero-add,
}
use native.Mathlib.Omega.{arith}

pub eq_of_div_mod : (n i j : ℕ) → i / n ≡ j / n → i % n ≡ j % n → i ≡ j
eq_of_div_mod n i j e f = cc (div-add-mod i n, div-add-mod j n)

-- Two digits to the base `p` are determined by their number.
pub digits_unique :
    (p l r l' r' : ℕ) → r < p → r' < p → l * p + r ≡ l' * p + r' → (l ≡ l') × (r ≡ r')
digits_unique p l r l' r' h h' e = (
  sym (quotient l r h) ∙ (ap (λ t. t / p) e ∙ quotient l' r' h'),
  sym (rest l r h) ∙ (ap (λ t. t % p) e ∙ rest l' r' h'),
)
  where
    quotient : (m s : ℕ) → s < p → (m * p + s) / p ≡ m
    quotient m s k =
        rw add_comm (add-mul-div_right s m (omega arith) ∙ rw (div-eq_of_lt k) (omega arith))

    rest : (m s : ℕ) → s < p → (m * p + s) % p ≡ s
    rest m s k = rw add_comm (add-mul-mod_self_right s m p ∙ mod-eq_of_lt k)

-- So are two digits that are taken out of a number below `p * p`.
pub eq_of_digits :
    (p x y : ℕ) → x < p * p → y < p * p → x / p % p ≡ y / p % p → x % p ≡ y % p → x ≡ y
eq_of_digits p x y hx hy e f = eq_of_div_mod p x y (sym (top x hx) ∙ (e ∙ top y hy)) f
  where
    top : (z : ℕ) → z < p * p → z / p % p ≡ z / p
    top z h = mod-eq_of_lt ((div-lt_iff_lt-mul (grind arith)).1 h)

pub pow-add : (i j : ℕ) → 2 ^ i * 2 ^ j ≡ 2 ^ (i + j)
pow-add zero j = simp zero-add (omega arith)
pow-add (suc i) j =
    let ih : 2 * (2 ^ i * 2 ^ j) ≡ 2 * 2 ^ (i + j) = ap (λ (t : ℕ). 2 * t) (pow-add i j) in
    let e : suc i + j ≡ suc (i + j) = omega arith in
    rw (e, pow-suc 2 (i + j), pow-suc 2 i) (omega (arith, ih))
