-- ===== src/Token.antt =====
-- internal/statuslist/token.go: a Status List Token as a JWT. The JWT package, zlib and base64 are
-- outside the repository: parameters. A JSON object is a function from its names.
pub mod RoundTrip
use siros_status_service.Prelude.{
  ℕ, ◌/◌, Bool, true, false, not, List, [], ◌∷◌, Option, none, some, if◌then◌else◌,
}
use siros_status_service.Prelude.Str.{Str, bytes_of, put_key}
use siros_status_service.Prelude.Word.{second}
use siros_status_service.Result.{Result, ok, err, bad_method, bad_signature, fail_if, ◌>>=◌, ◌>>◌}
use siros_status_service.Bitmap.{Bitmap}
use siros_status_service.Signer.{Bytes, Key, Primitives, es256_sign}

-- A JWK, whose values are JSON texts.
abbrev pub Jwk : Type 0
Jwk = Str → Option Str

-- The time is in nanoseconds.
pub record TokenParams : Type 0 where
  pub list_url : Str
  pub issued_at : ℕ
  pub ttl : ℕ
  pub bitmap : Bitmap
  pub key_id : Str
  pub jwk : Option Jwk
  pub x5c : List Str

-- `Claims`, with the claims of `StatusListClaim` that are ever set. A numeric date is a number
-- of seconds.
pub record Claims : Type 0 where
  pub subject : Str
  pub issued_at : ℕ
  pub ttl : ℕ
  pub bits : ℕ
  pub lst : Str

-- The JOSE header but for the algorithm, which the method gives.
pub record Header : Type 0 where
  pub typ : Str
  pub kid : Option Str
  pub jwk : Option Jwk
  pub x5c : Option (List Str)

-- The packages. `parse` splits a token into its method's family, its signing string, its signature
-- and its claims; `verify` is `jwt.SigningMethodES256.Verify`.
pub record Codec : Type 0 where
  pub compress : Bytes → Result Bytes
  pub decompress : Bytes → Result Bytes
  pub encode_base64 : Bytes → Str
  pub decode_base64 : Str → Result Bytes
  pub signing_string : Header → Claims → Result Str
  pub serialize : Str → Bytes → Str
  pub parse : Str → Result (Bool × Str × Bytes × Claims)
  pub verify : Key → Str → Bytes → Bool

abbrev pub non_empty : Str → Option Str
non_empty [] = none
non_empty (c ∷ s) = some (c ∷ s)

abbrev pub non_empty_list : List Str → Option (List Str)
non_empty_list [] = none
non_empty_list (x ∷ xs) = some (x ∷ xs)

-- The embedded key: a copy of the caller's, with the header's `kid` if there is one.
abbrev pub embedded_jwk : Option Str → Option Jwk → Option Jwk
embedded_jwk kid none = none
embedded_jwk none (some jwk) = some jwk
embedded_jwk (some k) (some jwk) = some (put_key jwk (bytes_of "kid") (some k))

unfoldable pub header_of : TokenParams → Header
header_of t = record {
  typ = bytes_of "statuslist+jwt";
  kid = non_empty t.key_id;
  jwk = embedded_jwk (non_empty t.key_id) t.jwk;
  x5c = non_empty_list t.x5c;
}

module _ (c : Codec) (p : Primitives) where
  -- `EncodeLst`
  unfoldable pub encode_lst : Bytes → Result Str
  encode_lst raw = do compressed ← c.compress raw; ok (c.encode_base64 compressed)

  -- `DecodeLst`
  unfoldable pub decode_lst : Str → Result Bytes
  decode_lst lst = do compressed ← c.decode_base64 lst; c.decompress compressed

  -- `BuildToken`
  unfoldable pub build_token : Key → TokenParams → Result Str
  unfolding encode_lst header_of es256_sign
  build_token key t = do
    lst ← encode_lst t.bitmap.bytes
    signed ← c.signing_string (header_of t) (record {
      subject = t.list_url;
      issued_at = t.issued_at / second;
      ttl = t.ttl;
      bits = t.bitmap.bits;
      lst = lst;
    })
    sig ← es256_sign p key signed
    ok (c.serialize signed sig)

  -- `ParseToken`
  unfoldable pub parse_token : Key → Str → Result Claims
  parse_token key token = do
    (is_ecdsa, signed, sig, claims) ← c.parse token
    fail_if (not is_ecdsa) bad_method
    fail_if (not (c.verify key signed sig)) bad_signature
    ok claims
