-- ===== src/Allocator/Walk.antt =====
-- The cycle walk over the Feistel network, read backwards from its result, and what `New` returns.
use native.Mathlib.Nat.{pow-suc, pow-le-pow_right}
use native.Mathlib.Numerals.{towards_suc}
use siros_status_service.Prelude.{
  ℕ, zero, suc, ◌+◌, ◌-◌, ◌*◌, ◌/◌, ◌^◌, ◌≤◌, ◌<◌, ◌≡◌, ◌≢◌, ◌⊎◌, inl, inr, refl, List, Bool-cases,
  arith, length, ◌==◌,
}
use siros_status_service.Prelude.Division.{pow-add}
use siros_status_service.Result.{Result, ok, err, bad_key, bad_capacity}
use siros_status_service.Allocator.{
  Allocator, key_size, bit_length, half_of, half_width, new_allocator, permute, walk,
}
use siros_status_service.Allocator.Feistel.{permute-lt}

-- What `New` establishes: the halves are at most 32 bits wide, and the network's domain holds the
-- whole capacity.
pub record IsValid (a : Allocator) : Type 0 where
  pub some_capacity : 0 < a.n
  pub narrow : a.half ≤ 32
  pub room : a.n ≤ 2 ^ a.half * 2 ^ a.half

bit_length-le : (fuel n : ℕ) → bit_length fuel n ≤ fuel
unfolding bit_length
bit_length-le zero n = omega arith
bit_length-le (suc fuel) n = ground (arith, bit_length-le fuel (n / 2))

bit_length-room : (fuel n : ℕ) → n < 2 ^ fuel → n < 2 ^ bit_length fuel n
unfolding bit_length
bit_length-room zero n h = h
bit_length-room (suc fuel) n h = elim (Bool-cases (n == 0)) [
  | inl none_left ↦ rw none_left (ground arith)
  | inr more ↦ rw more (
      let k = bit_length fuel (n / 2) in
      let ih = bit_length-room fuel (n / 2) (omega (arith, pow-suc 2 fuel)) in
      simp towards_suc (omega (arith, pow-suc 2 k, ih)))
]

half_of_lem : (len : ℕ) → len ≤ 64 → (half_of len ≤ 32) × (len ≤ half_of len + half_of len)
unfolding half_of
half_of_lem len h = ground arith

half_width_lem :
    (n : ℕ) → 0 < n → n ≤ 2 ^ 64 → (half_width n ≤ 32) × (n ≤ 2 ^ half_width n * 2 ^ half_width n)
unfolding half_width
half_width_lem n pos h =
    let len = bit_length 64 (n - 1) in
    let room : n - 1 < 2 ^ len = bit_length-room 64 (n - 1) (omega arith) in
    let halves = half_of_lem len (bit_length-le 64 (n - 1)) in
    let wide : 2 ^ len ≤ 2 ^ (half_of len + half_of len) =
      pow-le-pow_right {n = 2} (omega arith) halves.1 in
    (halves.0, rw (pow-add (half_of len) (half_of len)) (omega (arith, room, wide)))

-- What `New` may return.
abbrev pub NewOutcome : List ℕ → ℕ → Result Allocator → Type 0
NewOutcome key n (ok a) = (length key ≡ key_size) × IsValid a × (a.n ≡ n) × (a.key ≡ key)
NewOutcome key n (err e) =
    ((length key ≢ key_size) × (e ≡ bad_key))
    ⊎ ((length key ≡ key_size) × (n ≡ 0) × (e ≡ bad_capacity))

-- For a capacity of 64 bits, `New` returns an allocator with that key and capacity whose halves are
-- at most 32 bits wide and whose domain holds the capacity; or it reports first a key that is not
-- 32 bytes long and then a capacity of zero.
pub new_allocator-NewOutcome :
    (key : List ℕ) (n : ℕ) → n < 2 ^ 64 → NewOutcome key n (new_allocator key n)
unfolding new_allocator
new_allocator-NewOutcome key n h = elim (Bool-cases (length key == key_size)) [
  | inr bad ↦ rw bad (inl (ground arith, refl))
  | inl good ↦ rw good (elim (Bool-cases (n == 0)) [
    | inl none_left ↦ rw none_left (inr (ground arith, ground arith, refl))
    | inr some_left ↦
        let w = half_width_lem n (ground arith) (omega arith) in
        rw some_left (
          ground arith,
          record { some_capacity = ground arith; narrow = w.0; room = w.1 },
          refl,
          refl,
        )
  ])
]

module _ (hmac : List ℕ → List ℕ → List ℕ) (a : Allocator) (v : IsValid a) where
  -- A walk that ends has stayed at or above the capacity until its last step: it is described
  -- backwards from its result by the number of steps and the start.
  step-lt : (x : ℕ) → permute hmac a x < 2 ^ a.half * 2 ^ a.half
  step-lt x = permute-lt hmac a v.narrow x

  domain : (x : ℕ) → x < a.n → x < 2 ^ a.half * 2 ^ a.half
  domain x h = omega (arith, v.room)

  walk-lt : (left x i : ℕ) → walk hmac a left x ≡ ok i → i < a.n
  unfolding walk
  walk-lt zero x i e = cc
  walk-lt (suc left) x i e = ground (arith, walk-lt left (permute hmac a x) i)
