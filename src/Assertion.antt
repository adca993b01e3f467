-- ===== src/Assertion.antt =====
-- internal/clientassertion/verify.go: the assertion by which an issuer proves its identity. Parsing
-- and verifying JWTs, decoding keys and certificates are third-party packages: parameters. Times are
-- in nanoseconds, a claim's in seconds.
pub mod Proof
use siros_status_service.Prelude.{
  ℕ, ◌-◌, ◌*◌, Bool, true, false, not, ◌||◌, List, [], ◌∷◌, Option, none, some, ltb, if◌then◌else◌,
}
use siros_status_service.Prelude.Str.{Str, bytes_of, str_eq}
pub use siros_status_service.Prelude.Word.{second}
use siros_status_service.Result.{
  Result, ok, both_proofs, no_proof, not_object, not_array, not_string, unsupported_key, bad_claims,
  too_long, fail_if, ◌>>=◌, ◌>>◌, err,
}
use siros_status_service.Signer.{Bytes}
use siros_status_service.Token.{Jwk}

-- A JSON value of the header; an element of an array is the text that it is, if it is one.
pub data Value : Type 0 where
  object : Jwk → Value
  array : List (Option Str) → Value
  other : Value

abbrev pub Header : Type 0
Header = Str → Option Value

-- `jwt.RegisteredClaims`
pub record Claims : Type 0 where
  pub issuer : Str
  pub subject : Str
  pub audience : List Str
  pub issued_at : Option ℕ
  pub expires_at : Option ℕ

-- The packages. `none` is a key of another kind than `ecdsa.PublicKey`.
pub record Packages : Type 1 where
  pub PublicKey : Type 0
  pub parse_unverified : Str → Result Header
  -- `json.Marshal` and `JSONWebKey.UnmarshalJSON`
  pub jwk_key : Jwk → Result (Option PublicKey)
  pub decode_base64 : Str → Result Bytes
  -- `x509.ParseCertificate` and its public key
  pub certificate_key : Bytes → Result (Option PublicKey)
  -- `ParseWithClaims` with a key, for ES256 alone, an audience, a required expiry and the time
  pub parse_with_claims : Str → PublicKey → Str → ℕ → Result Claims

-- `Result`
pub record Verified : Type 0 where
  pub issuer_id : Str
  pub jwk : Option Jwk
  pub x5c : List Str

-- `maxLifetime`, in seconds
abbrev pub max_lifetime : ℕ
max_lifetime = 300

abbrev pub is_empty : Str → Bool
is_empty [] = true
is_empty (c ∷ s) = false

module _ (p : Packages) where
  abbrev pub ecdsa_only : Option p.PublicKey → Result p.PublicKey
  ecdsa_only none = err unsupported_key
  ecdsa_only (some key) = ok key

  -- `resolveJWK`
  unfoldable pub resolve_jwk : Value → Result (p.PublicKey × Jwk)
  resolve_jwk (array _) = err not_object
  resolve_jwk other = err not_object
  resolve_jwk (object jwk) = do decoded ← p.jwk_key jwk; key ← ecdsa_only decoded; ok (key, jwk)

  -- The loop of `resolveX5C`.
  unfoldable pub strings : List (Option Str) → Result (List Str)
  strings [] = ok []
  strings (none ∷ rest) = err not_string
  strings (some s ∷ rest) = do chain ← strings rest; ok (s ∷ chain)

  -- The part of `resolveX5C` past the loop, with the first element of the chain.
  unfoldable pub leaf_key : Str → Result p.PublicKey
  leaf_key leaf = do der ← p.decode_base64 leaf; decoded ← p.certificate_key der; ecdsa_only decoded

  -- `resolveX5C`
  unfoldable pub resolve_x5c : Value → Result (p.PublicKey × List Str)
  unfolding strings leaf_key
  resolve_x5c (object _) = err not_array
  resolve_x5c other = err not_array
  resolve_x5c (array []) = err not_array
  resolve_x5c (array (none ∷ items)) = err not_string
  resolve_x5c (array (some leaf ∷ items)) = do
    chain ← strings items
    key ← leaf_key leaf
    ok (key, leaf ∷ chain)

  -- `resolveProofOfPossession`, with the values of `jwk` and `x5c` that are present.
  unfoldable pub resolve_proof_of_possession :
      Option Value → Option Value → Result (p.PublicKey × Option Jwk × List Str)
  unfolding resolve_jwk resolve_x5c
  resolve_proof_of_possession (some _) (some _) = err both_proofs
  resolve_proof_of_possession none none = err no_proof
  resolve_proof_of_possession (some raw) none = do
    (key, jwk) ← resolve_jwk raw
    ok (key, some jwk, [])
  resolve_proof_of_possession none (some raw) = do
    (key, chain) ← resolve_x5c raw
    ok (key, none, chain)

  -- The test of the lifetime, for an assertion that has both times.
  abbrev pub is_too_long : Option ℕ → Option ℕ → Bool
  is_too_long (some iat) (some exp) = ltb max_lifetime (exp - iat)
  is_too_long _ _ = false

  -- `Verify`
  unfoldable pub verify : Str → Str → ℕ → Result Verified
  unfolding resolve_proof_of_possession
  verify assertion audience now = do
    header ← p.parse_unverified assertion
    (key, jwk, x5c) ←
        resolve_proof_of_possession (header (bytes_of "jwk")) (header (bytes_of "x5c"))
    claims ← p.parse_with_claims assertion key audience now
    fail_if (is_empty claims.subject || not (str_eq claims.issuer claims.subject)) bad_claims
    fail_if (is_too_long claims.issued_at claims.expires_at) too_long
    ok (record { issuer_id = claims.subject; jwk = jwk; x5c = x5c })
