-- ===== src/Allocator.antt =====
-- internal/allocator/allocator.go: a keyed permutation of the indices below a capacity, from a
-- balanced Feistel network and cycle walking. HMAC-SHA256 is a parameter.
pub mod Feistel
pub mod Walk
pub mod Index
use Prim.Native.Nat.{bit_and, bit_or, bit_xor}
use mathlib.Core.List.{foldl}
use siros_status_service.Prelude.{
  ℕ, zero, suc, ◌+◌, ◌-◌, ◌*◌, ◌/◌, ◌%◌, ◌^◌, Bool, not, List, [], ◌∷◌, ltb, leb, ◌==◌,
  if◌then◌else◌, length, take,
}
use siros_status_service.Prelude.Word.{u64}
use siros_status_service.Result.{
  Result, ok, err, bad_key, bad_capacity, bad_cursor, no_convergence, fail_if, ◌>>=◌, ◌>>◌,
}

abbrev pub key_size : ℕ
key_size = 32

abbrev pub rounds : ℕ
rounds = 4

abbrev pub max_cycle_walks : ℕ
max_cycle_walks = 1000

pub record Allocator : Type 0 where
  pub key : List ℕ
  pub n : ℕ
  pub half : ℕ

-- `bits.Len64`, one binary digit for each of at most `fuel` rounds.
unfoldable pub bit_length : ℕ → ℕ → ℕ
bit_length zero n = 0
bit_length (suc fuel) n = let rest = bit_length fuel (n / 2) in if n == 0 then 0 else rest + 1

-- Half of a bit length, which is first made at least 1 and then even.
unfoldable pub half_of : ℕ → ℕ
half_of len =
    let some_len = if len == 0 then 1 else len in
    let total = if some_len % 2 == 0 then some_len else some_len + 1 in
    if total / 2 == 0 then 1 else total / 2

-- The width of each half for capacity `n`.
unfoldable pub half_width : ℕ → ℕ
half_width n = half_of (bit_length 64 (n - 1))

unfoldable pub new_allocator : List ℕ → ℕ → Result Allocator
new_allocator key n = do
  fail_if (not (length key == key_size)) bad_key
  fail_if (n == 0) bad_capacity
  ok (record { key = key; n = n; half = half_width n })

-- `binary.BigEndian.PutUint64`: the `k` lowest bytes, highest first.
unfoldable pub put_big_endian : ℕ → ℕ → List ℕ
put_big_endian zero x = []
put_big_endian (suc k) x = (x / 2 ^ (8 * k)) % 256 ∷ put_big_endian k x

-- `binary.BigEndian.Uint64`
unfoldable pub big_endian : List ℕ → ℕ
big_endian = foldl (λ acc b. u64 (acc * 256 + b)) 0

-- `uint64(1)<<half - 1`
unfoldable pub half_mask : ℕ → ℕ
half_mask half = u64 (u64 (2 ^ half) + (2 ^ 64 - 1))

module _ (hmac : List ℕ → List ℕ → List ℕ) (a : Allocator) where
  unfoldable pub round : ℕ → ℕ → ℕ
  unfolding put_big_endian big_endian
  round i r = big_endian (take 8 (hmac a.key (i ∷ put_big_endian 8 r)))

  -- The `for` loop, with the number of rounds left and the round's index.
  unfoldable pub feistel : ℕ → ℕ → ℕ → ℕ → ℕ × ℕ
  unfolding round half_mask
  feistel zero i l r = (l, r)
  feistel (suc left) i l r =
      feistel left (i + 1) r (bit_xor l (bit_and (round i r) (half_mask a.half)))

  unfoldable pub permute : ℕ → ℕ
  unfolding feistel
  permute x =
      let l = bit_and (x / 2 ^ a.half) (half_mask a.half) in
      let r = bit_and x (half_mask a.half) in
      let (l', r') = feistel rounds 0 l r in bit_or (u64 (l' * 2 ^ a.half)) r'

  -- The cycle walk, with the number of steps left.
  unfoldable pub walk : ℕ → ℕ → Result ℕ
  unfolding permute
  walk zero cursor = err no_convergence
  walk (suc left) cursor =
      let next = permute cursor in
      let rest = walk left next in if ltb next a.n then ok next else rest

  unfoldable pub index : ℕ → Result ℕ
  index cursor = do fail_if (leb a.n cursor) bad_cursor; walk max_cycle_walks cursor
