-- ===== src/Signer/Raw.antt =====
-- internal/statuslist/signer.go: the raw form of a signature read back.
use mathlib.Core.List.{foldl}
use native.Mathlib.Nat.{
  one-le-pow, mod-lt, mod-eq_of_lt, div-add-mod', add-mul-mod_self_right, mul-le-mul_right,
}
use siros_status_service.Prelude.{
  ℕ, zero, suc, ◌+◌, ◌*◌, ◌/◌, ◌%◌, ◌^◌, ◌≤◌, ◌<◌, ◌≡◌, refl, sym, ap, subst, ◌∙◌, true, ◌++◌,
  arith, length, length-append, take, drop, take-append, drop-append,
}
use siros_status_service.Prelude.Division.{pow-add}
use siros_status_service.Result.{ok}
use siros_status_service.Allocator.{put_big_endian}
use siros_status_service.Signer.{
  Key, Primitives, Signs, asn1_to_raw_ecdsa, Bytes, fill_bytes, set_bytes,
}

length-put_big_endian : (n x : ℕ) → length (put_big_endian n x) ≡ n
unfolding put_big_endian
length-put_big_endian zero x = refl
length-put_big_endian (suc n) x = ap suc (length-put_big_endian n x)

-- A number modulo one more byte.
mod-byte : (x p : ℕ) → 0 < p → x % (p * 256) ≡ x / p % 256 * p + x % p
mod-byte x p pos =
    let q = x / p / 256 in
    let y = x / p % 256 * p + x % p in
    let whole : x / p ≡ q * 256 + x / p % 256 = omega arith in
    let split : x ≡ y + q * (p * 256) =
      grind (arith, div-add-mod' x p, ap (λ (t : ℕ). t * p) whole) in
    let small : y < p * 256 = grind (arith, mod-lt x pos, mul-le-mul_right p (digit (x / p))) in
    ap (λ t. t % (p * 256)) split ∙ (add-mul-mod_self_right y q (p * 256) ∙ mod-eq_of_lt small)
  where
    digit : (n : ℕ) → n % 256 ≤ 255
    digit n = omega arith

byte-pow : (n : ℕ) → 2 ^ (8 * suc n) ≡ 2 ^ (8 * n) * 256
byte-pow n = ap (λ k. 2 ^ k) (omega arith) ∙ sym (pow-add (8 * n) 8)

-- The bytes after an accumulator.
value : ℕ → Bytes → ℕ
value = foldl (λ acc b. acc * 256 + b)

value-put_big_endian :
    (n acc x : ℕ) → value acc (put_big_endian n x) ≡ acc * 2 ^ (8 * n) + x % 2 ^ (8 * n)
unfolding value put_big_endian
value-put_big_endian zero acc x = omega arith
value-put_big_endian (suc n) acc x =
    let p = 2 ^ (8 * n) in
    value-put_big_endian n (acc * 256 + x / p % 256) x
    ∙ rw (byte-pow n, mod-byte x p (one-le-pow (8 * n) 2 (omega arith))) (grind arith)

-- A number that fits in `n` bytes is read back from them.
pub fill_bytes-set_bytes :
    (n x : ℕ)
    → x < 2 ^ (8 * n)
    → (b : Bytes) × (fill_bytes n x ≡ ok b) × (length b ≡ n) × (set_bytes b ≡ x)
unfolding fill_bytes set_bytes value
fill_bytes-set_bytes n x h = (
  put_big_endian n x,
  ground arith,
  length-put_big_endian n x,
  value-put_big_endian n 0 x ∙ (omega (arith, mod-eq_of_lt h)),
)

-- The raw form of a signature is 64 bytes, and its halves are the two numbers that verify.
pub asn1_to_raw_ecdsa-verify :
    (p : Primitives) (k : Key) (h der : Bytes)
    → Signs p k
    → k.sign h ≡ ok der
    → (sig : Bytes) × (asn1_to_raw_ecdsa p der 32 ≡ ok sig)
      × (length sig ≡ 64)
      × (k.verify h (set_bytes (take 32 sig)) (set_bytes (drop 32 sig)) ≡ true)
unfolding asn1_to_raw_ecdsa
asn1_to_raw_ecdsa-verify p k h der signs signed =
    let (r, s, parsed, hr, hs, verified) = signs.signature h der signed in
    let (high, fill_r, len_r, back_r) = fill_bytes-set_bytes 32 r hr in
    let (low, fill_s, len_s, back_s) = fill_bytes-set_bytes 32 s hs in
    let first : take 32 (high ++ low) ≡ high =
      subst (λ n. take n (high ++ low) ≡ high) len_r (take-append high low) in
    let last : drop 32 (high ++ low) ≡ low =
      subst (λ n. drop n (high ++ low) ≡ low) len_r (drop-append high low) in
    (
      high ++ low,
      rw (parsed, fill_r, fill_s) refl,
      omega (arith, length-append high low, len_r, len_s),
      rw (first, last, back_r, back_s) verified,
    )
