-- ===== src/Tests/Tokens.antt =====
-- Tokens with toy packages: a codec that writes lengths, and a key with one signature.
use siros_status_service.Prelude.{
  ℕ, ◌≡◌, refl, sym, ap, subst, ◌∙◌, Bool, true, List, [], ◌∷◌, ◌++◌, none, ◌==◌, ◌&&◌, arith,
  length, take, drop, take-append, drop-append,
}
use siros_status_service.Prelude.Str.{Str, bytes_of}
use siros_status_service.Result.{Result, ok, err, panic, ◌>>=◌}
use siros_status_service.Allocator.{put_big_endian}
use siros_status_service.Bitmap.{wrap_bitmap}
use siros_status_service.Signer.{
  Bytes, Key, Primitives, Signs, set_bytes, es256_sign, asn1_to_raw_ecdsa, fill_bytes,
}
use siros_status_service.Token.{
  TokenParams, Codec as JwtCodec, Claims as JwtClaims, build_token, parse_token, encode_lst,
  decode_lst, header_of,
}
use siros_status_service.Token.RoundTrip.{Laws as JwtLaws, parse_token-build_token}
use siros_status_service.Cwt.{
  Codec as CwtCodec, Claims as CwtClaims, build_cwt_token, parse_cwt_token, x5chain_of,
  decode_x5c_to_der, sign_cose_sign1,
}
use siros_status_service.Cwt.RoundTrip.{Laws as CwtLaws, parse_cwt_token-build_cwt_token, claims_of}
use siros_status_service.Tests.Data.{bitmap_a, bitmap_a-IsValid}

abbrev pub primitives : Primitives
primitives = record { sha256 = λ b. b; parse_der = λ _. ok (5, 7) }

abbrev pub key : Key
key = record {
  is_ecdsa = true;
  bit_size = 256;
  sign = λ _. ok [];
  verify = λ _ r s. r == 5 && s == 7;
}

pub key-Signs : Signs primitives key
key-Signs = record { signature = λ h der _. (5, 7, refl, omega arith, omega arith, refl) }

abbrev pub params_a : TokenParams
params_a = record {
  list_url = bytes_of "https://s/lists/a";
  issued_at = 1000500000000;
  ttl = 60;
  bitmap = bitmap_a;
  key_id = bytes_of "k";
  jwk = none;
  x5c = bytes_of "Y2VydA==" ∷ [];
}

abbrev jwt_claims : Str → JwtClaims
jwt_claims (t ∷ l ∷ b ∷ n ∷ rest) = record {
  subject = take n rest;
  issued_at = t;
  ttl = l;
  bits = b;
  lst = drop n rest;
}
jwt_claims _ = record { subject = []; issued_at = 0; ttl = 0; bits = 0; lst = [] }

abbrev jwt_parse : Str → Result (Bool × Str × Bytes × JwtClaims)
jwt_parse [] = err panic
jwt_parse (n ∷ rest) = ok (true, take n rest, drop n rest, jwt_claims (take n rest))

abbrev jwt_signing : JwtClaims → Str
jwt_signing x = x.issued_at ∷ x.ttl ∷ x.bits ∷ length x.subject ∷ x.subject ++ x.lst

abbrev pub jwt : JwtCodec
jwt = record {
  compress = ok;
  decompress = ok;
  encode_base64 = λ b. b;
  decode_base64 = ok;
  signing_string = λ _ x. ok (jwt_signing x);
  serialize = λ signed sig. length signed ∷ signed ++ sig;
  parse = jwt_parse;
  verify = λ k signed sig. k.verify signed (set_bytes (take 32 sig)) (set_bytes (drop 32 sig));
}

jwt_split :
    (s : Str) (sig : Bytes) → jwt_parse (length s ∷ s ++ sig) ≡ ok (true, s, sig, jwt_claims s)
jwt_split s sig = rw (take-append s sig, drop-append s sig) refl

jwt_read : (x : JwtClaims) → jwt_claims (jwt_signing x) ≡ x
jwt_read x = rw (take-append x.subject x.lst, drop-append x.subject x.lst) refl

pub jwt-Laws : JwtLaws jwt primitives
jwt-Laws = record {
  decompress-compress = λ raw z e. sym e;
  decode-encode_base64 = λ z. refl;
  parse-serialize = λ h x signed sig made.
      let eq : jwt_signing x ≡ signed = ground (arith, made) in
      subst (λ b. jwt_parse (length b ∷ b ++ sig) ≡ ok (true, b, sig, x)) eq
        (jwt_split (jwt_signing x) sig ∙ ap (λ c. ok (true, jwt_signing x, sig, c)) (jwt_read x));
  verify_lem = λ k signed sig len e. e;
}

abbrev or_empty : Result Bytes → Bytes
or_empty (ok b) = b
or_empty (err e) = []

abbrev cwt_claims : Bytes → Result CwtClaims
cwt_claims (t ∷ l ∷ b ∷ n ∷ m ∷ rest) = ok (record {
  sub = take n rest;
  iat = t;
  ttl = l;
  status_list = record {
    bits = b;
    lst = take m (drop n rest);
    aggregation_uri = drop m (drop n rest);
  };
})
cwt_claims _ = err panic

abbrev cwt_parts : Bytes → Result (List Bytes)
cwt_parts (n ∷ m ∷ rest) = ok (take n rest ∷ [] ∷ take m (drop n rest) ∷ drop m (drop n rest) ∷ [])
cwt_parts _ = err panic

abbrev cwt_tag : Bytes → Result (ℕ × Bytes)
cwt_tag (n ∷ rest) = ok (n, rest)
cwt_tag [] = err panic

abbrev cwt_payload : CwtClaims → Bytes
cwt_payload x =
    x.iat ∷ x.ttl ∷ x.status_list.bits ∷ length x.sub ∷ length x.status_list.lst ∷ x.sub
    ++ (x.status_list.lst ++ x.status_list.aggregation_uri)

abbrev cwt_content : Bytes → Bytes → Bytes → Bytes
cwt_content a b s = length a ∷ length b ∷ a ++ (b ++ s)

abbrev pub cwt : CwtCodec
cwt = record {
  compress = ok;
  decompress = ok;
  decode_base64 = ok;
  marshal_claims = λ x. ok (cwt_payload x);
  unmarshal_claims = cwt_claims;
  marshal_header = λ h. ok [];
  marshal_sig_structure = λ a b. ok (a ++ b);
  marshal_sign1 = λ n a b s. ok (n ∷ cwt_content a b s);
  unmarshal_tag = cwt_tag;
  unmarshal_parts = cwt_parts;
  unmarshal_bytes = ok;
}

cwt_read : (x : CwtClaims) → cwt_claims (cwt_payload x) ≡ ok x
cwt_read x =
    let rest = x.status_list.lst ++ x.status_list.aggregation_uri in
    rw
      (
        take-append x.sub rest,
        drop-append x.sub rest,
        take-append x.status_list.lst x.status_list.aggregation_uri,
        drop-append x.status_list.lst x.status_list.aggregation_uri,
      )
      refl

cwt_split : (a b s : Bytes) → cwt_parts (cwt_content a b s) ≡ ok (a ∷ [] ∷ b ∷ s ∷ [])
cwt_split a b s =
    rw (take-append a (b ++ s), drop-append a (b ++ s), take-append b s, drop-append b s) refl

pub cwt-Laws : CwtLaws cwt
cwt-Laws = record {
  decompress-compress = λ raw z e. sym e;
  unmarshal-marshal_claims = λ x b made.
      let eq : cwt_payload x ≡ b = ground (arith, made) in
      subst (λ c. cwt_claims c ≡ ok x) eq (cwt_read x);
  unmarshal-marshal_sign1 = λ n a b s token made.
      let eq : n ∷ cwt_content a b s ≡ token = ground (arith, made) in
      (
        cwt_content a b s,
        a,
        [],
        b,
        s,
        subst (λ c. cwt_tag c ≡ ok (n, cwt_content a b s)) eq refl,
        cwt_split a b s,
        refl,
        refl,
        refl,
      );
}

abbrev pub token_a : Str
token_a = or_empty (build_token jwt primitives key params_a)

pub token_a_built : build_token jwt primitives key params_a ≡ ok token_a
unfolding build_token encode_lst header_of es256_sign asn1_to_raw_ecdsa fill_bytes put_big_endian
token_a_built = refl

parse_token-build_token_example :
    (x : JwtClaims) × (parse_token jwt primitives key token_a ≡ ok x)
    × (x.subject ≡ bytes_of "https://s/lists/a")
    × (x.issued_at ≡ 1000)
    × (x.ttl ≡ 60)
    × ((decode_lst jwt primitives x.lst >>= λ raw. wrap_bitmap raw 4 x.bits) ≡ ok bitmap_a)
parse_token-build_token_example =
    parse_token-build_token jwt primitives key jwt-Laws key-Signs params_a token_a bitmap_a-IsValid
      token_a_built

abbrev cwt_a : Bytes
cwt_a = or_empty (build_cwt_token cwt primitives key params_a)

cwt_a_built : build_cwt_token cwt primitives key params_a ≡ ok cwt_a
unfolding build_cwt_token x5chain_of decode_x5c_to_der sign_cose_sign1 asn1_to_raw_ecdsa fill_bytes
    put_big_endian
cwt_a_built = refl

parse_cwt_token-build_cwt_token_example :
    (parse_cwt_token cwt primitives key cwt_a ≡ ok (claims_of params_a))
    × ((parse_cwt_token cwt primitives key cwt_a >>= λ r. wrap_bitmap r.lst 4 r.bits) ≡ ok bitmap_a)
parse_cwt_token-build_cwt_token_example =
    parse_cwt_token-build_cwt_token cwt primitives key cwt-Laws key-Signs params_a cwt_a
      bitmap_a-IsValid cwt_a_built
