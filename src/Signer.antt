-- ===== src/Signer.antt =====
-- internal/statuslist/signer.go: an ES256 signature, from ASN.1 to two numbers of fixed width. The
-- curve, the DER parser and SHA-256 are the standard library's: parameters.
pub mod Raw
use mathlib.Core.List.{foldl}
use siros_status_service.Prelude.{
  ℕ, ◌+◌, ◌*◌, ◌^◌, ◌≡◌, ◌<◌, Bool, true, not, List, [], ◌∷◌, ◌++◌, leb, ◌==◌, if◌then◌else◌,
}
use siros_status_service.Result.{
  Result, ok, err, panic, not_ecdsa, wrong_curve, fail_if, ◌>>=◌, ◌>>◌,
}
use siros_status_service.Allocator.{put_big_endian}

abbrev pub Bytes : Type 0
Bytes = List ℕ

-- `crypto.Signer`, with what the code asks of its public key, and `ecdsa.Verify` at that key.
pub record Key : Type 0 where
  pub is_ecdsa : Bool
  pub bit_size : ℕ
  pub sign : Bytes → Result Bytes
  pub verify : Bytes → ℕ → ℕ → Bool

-- `sha256.Sum256` and `asn1.Unmarshal` into the pair of numbers.
pub record Primitives : Type 0 where
  pub sha256 : Bytes → Bytes
  pub parse_der : Bytes → Result (ℕ × ℕ)

-- What the documentation of crypto/ecdsa says of a P-256 key: a signature is the DER form of two
-- numbers of at most 256 bits, and it verifies.
pub record Signs (p : Primitives) (k : Key) : Type 0 where
  pub signature :
      (h der : Bytes)
      → k.sign h ≡ ok der
      → (r s : ℕ) × (p.parse_der der ≡ ok (r, s))
        × (r < 2 ^ 256)
        × (s < 2 ^ 256)
        × (k.verify h r s ≡ true)

-- `big.Int.FillBytes` into `n` bytes, which panics if the number does not fit.
unfoldable pub fill_bytes : ℕ → ℕ → Result Bytes
unfolding put_big_endian
fill_bytes n x = if leb (2 ^ (8 * n)) x then err panic else ok (put_big_endian n x)

-- `big.Int.SetBytes`
unfoldable pub set_bytes : Bytes → ℕ
set_bytes = foldl (λ acc b. acc * 256 + b) 0

module _ (p : Primitives) where
  -- `asn1ToRawECDSA`
  unfoldable pub asn1_to_raw_ecdsa : Bytes → ℕ → Result Bytes
  unfolding fill_bytes
  asn1_to_raw_ecdsa der byte_len = do
    (r, s) ← p.parse_der der
    high ← fill_bytes byte_len r
    low ← fill_bytes byte_len s
    ok (high ++ low)

  -- `es256CryptoSignerMethod.Sign`
  unfoldable pub es256_sign : Key → Bytes → Result Bytes
  unfolding asn1_to_raw_ecdsa
  es256_sign key signing_string = do
    fail_if (not key.is_ecdsa) not_ecdsa
    fail_if (not (key.bit_size == 256)) wrong_curve
    der ← key.sign (p.sha256 signing_string)
    asn1_to_raw_ecdsa der 32
