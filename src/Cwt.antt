-- ===== src/Cwt.antt =====
-- internal/statuslist/cwt.go, and the compression of token.go: a Status List Token as CBOR signed
-- by COSE. CBOR is a third-party package, and zlib, base64 and the curve are the standard library's:
-- parameters. A header is kept as the record of its entries.
pub mod RoundTrip
use siros_status_service.Prelude.{
  ℕ, ◌*◌, ◌/◌, Bool, true, false, not, List, [], ◌∷◌, Option, none, some, ◌==◌, if◌then◌else◌,
  length, take, drop,
}
use siros_status_service.Prelude.Str.{Str}
use siros_status_service.Prelude.Word.{second}
use siros_status_service.Result.{
  Result, ok, err, not_ecdsa, wrong_curve, bad_tag, bad_parts, bad_signature_length, bad_signature,
  fail_if, ◌>>=◌, ◌>>◌,
}
use siros_status_service.Token.{TokenParams, non_empty}
use siros_status_service.Signer.{Bytes, Key, Primitives, asn1_to_raw_ecdsa, set_bytes}

-- `cwtStatusListClaim`
pub record StatusListClaim : Type 0 where
  pub bits : ℕ
  pub lst : Bytes
  pub aggregation_uri : Str

-- `cwtClaims`; a time is in seconds.
pub record Claims : Type 0 where
  pub sub : Str
  pub iat : ℕ
  pub ttl : ℕ
  pub status_list : StatusListClaim

-- `x5chain`: one certificate alone, or an array of them.
pub data Chain : Type 0 where
  single : Bytes → Chain
  several : List Bytes → Chain

-- The protected header, whose algorithm and type never vary.
pub record Header : Type 0 where
  pub kid : Option Bytes
  pub x5chain : Option Chain

-- The packages' functions: `Marshal` and `Unmarshal` at each type that the code uses them at.
pub record Codec : Type 0 where
  pub compress : Bytes → Result Bytes
  pub decompress : Bytes → Result Bytes
  pub decode_base64 : Str → Result Bytes
  pub marshal_claims : Claims → Result Bytes
  pub unmarshal_claims : Bytes → Result Claims
  pub marshal_header : Header → Result Bytes
  -- `["Signature1", protected, h'', payload]`
  pub marshal_sig_structure : Bytes → Bytes → Result Bytes
  -- The tag's number with `[protected, {}, payload, signature]`.
  pub marshal_sign1 : ℕ → Bytes → Bytes → Bytes → Result Bytes
  -- The tag's number with its content, the content's raw elements, and a raw element as bytes.
  pub unmarshal_tag : Bytes → Result (ℕ × Bytes)
  pub unmarshal_parts : Bytes → Result (List Bytes)
  pub unmarshal_bytes : Bytes → Result Bytes

-- `CWTClaimsResult`, whose time is in nanoseconds again.
pub record CwtClaimsResult : Type 0 where
  pub subject : Str
  pub issued_at : ℕ
  pub ttl : ℕ
  pub bits : ℕ
  pub lst : Bytes
  pub aggregation_uri : Str

abbrev pub sign1_tag : ℕ
sign1_tag = 18

module _ (c : Codec) (p : Primitives) where
  -- `decodeX5CToDER`
  unfoldable pub decode_x5c_to_der : List Str → Result (List Bytes)
  decode_x5c_to_der [] = ok []
  decode_x5c_to_der (e ∷ es) = do
    der ← c.decode_base64 e
    rest ← decode_x5c_to_der es
    ok (der ∷ rest)

  abbrev pub chain_of : List Bytes → Chain
  chain_of (der ∷ []) = single der
  chain_of ders = several ders

  -- The header's chain: none where `X5C` is empty.
  unfoldable pub x5chain_of : List Str → Result (Option Chain)
  unfolding decode_x5c_to_der
  x5chain_of [] = ok none
  x5chain_of (e ∷ es) = do ders ← decode_x5c_to_der (e ∷ es); ok (some (chain_of ders))

  -- `signCOSESign1`
  unfoldable pub sign_cose_sign1 : Key → Bytes → Bytes → Result Bytes
  unfolding asn1_to_raw_ecdsa
  sign_cose_sign1 key protected payload = do
    to_be_signed ← c.marshal_sig_structure protected payload
    der ← key.sign (p.sha256 to_be_signed)
    asn1_to_raw_ecdsa p der 32

  -- `BuildCWTToken`
  unfoldable pub build_cwt_token : Key → TokenParams → Result Bytes
  unfolding x5chain_of sign_cose_sign1
  build_cwt_token key t = do
    fail_if (not key.is_ecdsa) not_ecdsa
    fail_if (not (key.bit_size == 256)) wrong_curve
    compressed ← c.compress t.bitmap.bytes
    payload ← c.marshal_claims (record {
      sub = t.list_url;
      iat = t.issued_at / second;
      ttl = t.ttl;
      status_list = record { bits = t.bitmap.bits; lst = compressed; aggregation_uri = [] };
    })
    chain ← x5chain_of t.x5c
    protected ← c.marshal_header (record { kid = non_empty t.key_id; x5chain = chain })
    sig ← sign_cose_sign1 key protected payload
    c.marshal_sign1 sign1_tag protected payload sig

  -- `verifyCOSESign1`
  unfoldable pub verify_cose_sign1 : Key → Bytes → Bytes → Bytes → Result (Unit {0})
  unfolding set_bytes
  verify_cose_sign1 key protected payload sig = do
    fail_if (not (length sig == 64)) bad_signature_length
    to_be_signed ← c.marshal_sig_structure protected payload
    let hash = p.sha256 to_be_signed
    fail_if (not (key.verify hash (set_bytes (take 32 sig)) (set_bytes (drop 32 sig))))
        bad_signature

  -- `len(parts) != 4`
  abbrev pub four_parts : List Bytes → Result (Bytes × Bytes × Bytes)
  four_parts (a ∷ u ∷ b ∷ s ∷ []) = ok (a, b, s)
  four_parts _ = err bad_parts

  -- `ParseCWTToken`
  unfoldable pub parse_cwt_token : Key → Bytes → Result CwtClaimsResult
  unfolding verify_cose_sign1
  parse_cwt_token key token = do
    (number, content) ← c.unmarshal_tag token
    fail_if (not (number == sign1_tag)) bad_tag
    raw_parts ← c.unmarshal_parts content
    (first, third, fourth) ← four_parts raw_parts
    protected ← c.unmarshal_bytes first
    payload ← c.unmarshal_bytes third
    sig ← c.unmarshal_bytes fourth
    verify_cose_sign1 key protected payload sig
    claims ← c.unmarshal_claims payload
    raw ← c.decompress claims.status_list.lst
    ok (record {
      subject = claims.sub;
      issued_at = claims.iat * second;
      ttl = claims.ttl;
      bits = claims.status_list.bits;
      lst = raw;
      aggregation_uri = claims.status_list.aggregation_uri;
    })
