-- ===== src/Allocator/Feistel.antt =====
-- internal/allocator/allocator.go: the Feistel network on numbers of `2 * half` bits, for any round
-- function.
use Prim.Native.Nat.{bit_and, bit_or, bit_xor}
use native.Mathlib.Nat.{mul-le-mul_left, one-le-pow, pow-le-pow_right, mod-lt, mod-eq_of_lt}
use siros_status_service.Prelude.{
  ℕ, zero, suc, ◌+◌, ◌-◌, ◌*◌, ◌/◌, ◌%◌, ◌^◌, ◌≤◌, ◌<◌, ◌≡◌, ap, ◌∙◌, sym, List, arith,
}
use siros_status_service.Prelude.Digits.{bit_xor-lt, bit_xor_cancel, bit_and_mask, bit_or_shifted}
use siros_status_service.Prelude.Division.{digits_unique, eq_of_digits}
use siros_status_service.Allocator.{Allocator, rounds, half_mask, round, feistel, permute}

-- With at most 32 bits to a half no shift loses bits.
half_mask-eq : (half : ℕ) → half ≤ 32 → half_mask half ≡ 2 ^ half - 1
unfolding half_mask
half_mask-eq half h =
    omega (arith, pow-le-pow_right {n = 2} (omega arith) h, one-le-pow half 2 (omega arith))

shift_fits : (l p : ℕ) → l < p → p ≤ 2 ^ 32 → l * p < 2 ^ 64
shift_fits l p h k = let m : l * p ≤ l * 2 ^ 32 = mul-le-mul_left l k in omega (arith, m)

below_square : (l r p : ℕ) → l < p → r < p → l * p + r < p * p
below_square l r p h k = grind arith

pair_eq : (s t : ℕ × ℕ) → s.0 ≡ t.0 → s.1 ≡ t.1 → s ≡ t
pair_eq s t e f = λ i. (e i, f i)

module _ (hmac : List ℕ → List ℕ → List ℕ) (a : Allocator) (narrow : a.half ≤ 32) where
  abbrev P : ℕ
  P = 2 ^ a.half

  masked-eq : (x : ℕ) → bit_and x (half_mask a.half) ≡ x % P
  masked-eq x = rw (half_mask-eq a.half narrow) (bit_and_mask a.half x)

  masked-lt : (x : ℕ) → bit_and x (half_mask a.half) < P
  masked-lt x = rw (masked-eq x) (mod-lt x (one-le-pow a.half 2 (omega arith)))

  feistel-lt :
      (left i l r : ℕ)
      → l < P
      → r < P
      → ((feistel hmac a left i l r).0 < P) × ((feistel hmac a left i l r).1 < P)
  unfolding feistel
  feistel-lt zero i l r hl hr = (hl, hr)
  feistel-lt (suc left) i l r hl hr = feistel-lt left (i + 1) r _ hr (
      bit_xor-lt a.half l (bit_and (round hmac a i r) (half_mask a.half)) hl
        (masked-lt (round hmac a i r)))

  -- A round is undone by a second exclusive or with the same round value.
  feistel_injective :
      (left i l r l' r' : ℕ)
      → l < P
      → r < P
      → l' < P
      → r' < P
      → feistel hmac a left i l r ≡ feistel hmac a left i l' r'
      → (l ≡ l') × (r ≡ r')
  unfolding feistel
  feistel_injective zero i l r l' r' hl hr hl' hr' e = (ap (λ t. t.0) e, ap (λ t. t.1) e)
  feistel_injective (suc left) i l r l' r' hl hr hl' hr' e =
      let f = λ (x : ℕ). bit_and (round hmac a i x) (half_mask a.half) in
      let small = λ (x : ℕ). masked-lt (round hmac a i x) in
      let ih =
        feistel_injective left (i + 1) r (bit_xor l (f r)) r' (bit_xor l' (f r')) hr
          (bit_xor-lt a.half l (f r) hl (small r)) hr' (bit_xor-lt a.half l' (f r') hl' (small r'))
          e in
      let back = bit_xor_cancel a.half l (f r) hl (small r) in
      let back' = bit_xor_cancel a.half l' (f r') hl' (small r') in
      let same : f r ≡ f r' = ap f ih.0 in
      (
        sym back
            ∙ (ap (λ t. bit_xor t (f r)) ih.1 ∙ (ap (bit_xor (bit_xor l' (f r'))) same ∙ back')),
        ih.0,
      )

  halves : ℕ → ℕ × ℕ
  halves x =
      feistel hmac a rounds 0 (bit_and (x / P) (half_mask a.half)) (bit_and x (half_mask a.half))

  halves-lt : (x : ℕ) → ((halves x).0 < P) × ((halves x).1 < P)
  unfolding halves
  halves-lt x = feistel-lt rounds 0 _ _ (masked-lt (x / P)) (masked-lt x)

  permute-eq : (x : ℕ) → permute hmac a x ≡ (halves x).0 * P + (halves x).1
  unfolding permute halves
  permute-eq x =
      let h = halves-lt x in
      ap (λ t. bit_or t (halves x).1)
        (mod-eq_of_lt (shift_fits _ P h.0 (pow-le-pow_right {n = 2} (omega arith) narrow)))
      ∙ bit_or_shifted a.half (halves x).0 (halves x).1 h.1

  -- The network maps the numbers below `2 ^ half * 2 ^ half` to themselves.
  pub permute-lt : (x : ℕ) → permute hmac a x < 2 ^ a.half * 2 ^ a.half
  permute-lt x = let h = halves-lt x in rw (permute-eq x) (below_square _ _ P h.0 h.1)

  -- Two numbers of its domain with the same image are the same.
  pub permute_injective :
      (x y : ℕ)
      → x < 2 ^ a.half * 2 ^ a.half
      → y < 2 ^ a.half * 2 ^ a.half
      → permute hmac a x ≡ permute hmac a y
      → x ≡ y
  unfolding halves
  permute_injective x y hx hy e =
      let h = halves-lt x in
      let k = halves-lt y in
      let parts = digits_unique P _ _ _ _ h.1 k.1 (sym (permute-eq x) ∙ (e ∙ permute-eq y)) in
      let same =
        feistel_injective rounds 0 _ _ _ _ (masked-lt (x / P)) (masked-lt x) (masked-lt (y / P))
          (masked-lt y) (pair_eq _ _ parts.0 parts.1) in
      eq_of_digits P x y hx hy (sym (masked-eq (x / P)) ∙ (same.0 ∙ masked-eq (y / P)))
        (sym (masked-eq x) ∙ (same.1 ∙ masked-eq y))
