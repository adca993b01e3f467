-- ===== src/Token/RoundTrip.antt =====
-- internal/statuslist/token.go: a token that is built and parsed again.
use siros_status_service.Prelude.{◌/◌, ◌≡◌, refl, subst, true, not, length, take, drop, arith, ◌==◌}
use siros_status_service.Prelude.Str.{Str}
use siros_status_service.Prelude.Word.{second}
use siros_status_service.Result.{bind_ok, ok, not_ecdsa, wrong_curve, fail_if, ◌>>=◌}
use siros_status_service.Bitmap.{wrap_bitmap}
use siros_status_service.Bitmap.Entries.{IsValid}
use siros_status_service.Bitmap.Laws.{wrap_bitmap-bytes}
use siros_status_service.Signer.{Bytes, Key, Primitives, Signs, set_bytes, es256_sign}
use siros_status_service.Signer.Raw.{asn1_to_raw_ecdsa-verify}
use siros_status_service.Token.{
  Codec, Claims, Header, TokenParams, encode_lst, decode_lst, build_token, parse_token, header_of,
}

-- What the documentation of the packages says.
pub record Laws (c : Codec) (p : Primitives) : Type 0 where
  pub decompress-compress : (raw z : Bytes) → c.compress raw ≡ ok z → c.decompress z ≡ ok raw
  pub decode-encode_base64 : (z : Bytes) → c.decode_base64 (c.encode_base64 z) ≡ ok z
  pub parse-serialize :
      (h : Header) (x : Claims) (signed : Str) (sig : Bytes)
      → c.signing_string h x ≡ ok signed
      → c.parse (c.serialize signed sig) ≡ ok (true, signed, sig, x)
  -- The package takes the two halves of 64 bytes for the two numbers of a signature.
  pub verify_lem :
      (k : Key) (signed : Str) (sig : Bytes)
      → length sig ≡ 64
      → k.verify (p.sha256 signed) (set_bytes (take 32 sig)) (set_bytes (drop 32 sig)) ≡ true
      → c.verify k signed sig ≡ true

module _ (c : Codec) (p : Primitives) (k : Key) (laws : Laws c p) (signs : Signs p k) where
  es256_sign-verify :
      (signed : Str) (sig : Bytes) → es256_sign p k signed ≡ ok sig → c.verify k signed sig ≡ true
  unfolding es256_sign
  es256_sign-verify signed sig e =
      let (_, _, e₁) = bind_ok (fail_if (not k.is_ecdsa) not_ecdsa) e in
      let (_, _, e₂) = bind_ok (fail_if (not (k.bit_size == 256)) wrong_curve) e₁ in
      let (der, made, raw) = bind_ok (k.sign (p.sha256 signed)) e₂ in
      let (sig', same, len, verified) =
        asn1_to_raw_ecdsa-verify p k (p.sha256 signed) der signs made in
      let eq : sig' ≡ sig = ground (arith, same, raw) in
      subst (λ b. c.verify k signed b ≡ true) eq (laws.verify_lem k signed sig' len verified)

  -- The round trip, for a bitmap that its own bytes wrap to.
  pub build_token-parses :
      (t : TokenParams) (token : Str)
      → wrap_bitmap t.bitmap.bytes t.bitmap.size t.bitmap.bits ≡ ok t.bitmap
      → build_token c p k t ≡ ok token
      → (x : Claims) × (parse_token c p k token ≡ ok x)
        × (x.subject ≡ t.list_url)
        × (x.issued_at ≡ t.issued_at / second)
        × (x.ttl ≡ t.ttl)
        × ((decode_lst c p x.lst >>= λ raw. wrap_bitmap raw t.bitmap.size x.bits) ≡ ok t.bitmap)
  unfolding build_token parse_token encode_lst decode_lst
  build_token-parses t token wraps e =
      let (lst, encoded, e₁) = bind_ok (encode_lst c p t.bitmap.bytes) e in
      let (z, compressed, done) = bind_ok (c.compress t.bitmap.bytes) encoded in
      let lst_eq : c.encode_base64 z ≡ lst = ground (arith, done) in
      let x : Claims = record {
        subject = t.list_url;
        issued_at = t.issued_at / second;
        ttl = t.ttl;
        bits = t.bitmap.bits;
        lst = lst;
      } in
      let (signed, made, e₂) = bind_ok (c.signing_string (header_of t) x) e₁ in
      let (sig, signature, e₃) = bind_ok (es256_sign p k signed) e₂ in
      let token_eq : c.serialize signed sig ≡ token = ground (arith, e₃) in
      (
        x,
        rw (← token_eq) (
            rw
              (
                laws.parse-serialize (header_of t) x signed sig made,
                es256_sign-verify signed sig signature,
              )
              refl),
        refl,
        refl,
        refl,
        rw (← lst_eq) (
            rw (laws.decode-encode_base64 z, laws.decompress-compress t.bitmap.bytes z compressed)
              wraps),
      )

  -- With a key whose signatures verify and packages that give back what they encoded, a token that
  -- `BuildToken` built from a valid bitmap is accepted by `ParseToken` with the same key; its
  -- claims are the list's URL, the whole seconds of the time, the lifetime and the width, and its `lst` decodes to
  -- bytes that wrap to the very bitmap.
  pub parse_token-build_token :
      (t : TokenParams) (token : Str)
      → IsValid t.bitmap
      → build_token c p k t ≡ ok token
      → (x : Claims) × (parse_token c p k token ≡ ok x)
        × (x.subject ≡ t.list_url)
        × (x.issued_at ≡ t.issued_at / second)
        × (x.ttl ≡ t.ttl)
        × ((decode_lst c p x.lst >>= λ raw. wrap_bitmap raw t.bitmap.size x.bits) ≡ ok t.bitmap)
  parse_token-build_token t token v e = build_token-parses t token (wrap_bitmap-bytes t.bitmap v) e
