-- ===== src/Cwt/RoundTrip.antt =====
-- internal/statuslist/cwt.go: a token that is built and parsed again.
use siros_status_service.Prelude.{
  ℕ, ◌*◌, ◌/◌, ◌≡◌, refl, sym, ap, subst, ◌∙◌, not, [], ◌∷◌, ◌==◌, length, take, drop, arith,
}
use siros_status_service.Prelude.Word.{second}
use siros_status_service.Result.{bind_ok, ok, fail_if, not_ecdsa, wrong_curve, bad_signature, ◌>>=◌}
use siros_status_service.Bitmap.{wrap_bitmap}
use siros_status_service.Bitmap.Entries.{IsValid}
use siros_status_service.Bitmap.Laws.{wrap_bitmap-bytes}
use siros_status_service.Signer.{Bytes, Key, Primitives, Signs, set_bytes}
use siros_status_service.Signer.Raw.{asn1_to_raw_ecdsa-verify}
use siros_status_service.Token.{TokenParams, non_empty}
use siros_status_service.Cwt.{
  Codec, Claims, CwtClaimsResult, sign1_tag, x5chain_of, sign_cose_sign1, build_cwt_token,
  verify_cose_sign1, parse_cwt_token,
}

-- What the documentation of the packages says: what is compressed or marshalled comes back.
pub record Laws (c : Codec) : Type 0 where
  pub decompress-compress : (raw z : Bytes) → c.compress raw ≡ ok z → c.decompress z ≡ ok raw
  pub unmarshal-marshal_claims :
      (x : Claims) (b : Bytes) → c.marshal_claims x ≡ ok b → c.unmarshal_claims b ≡ ok x
  pub unmarshal-marshal_sign1 :
      (n : ℕ) (protected payload sig b : Bytes)
      → c.marshal_sign1 n protected payload sig ≡ ok b
      → (content first second third fourth : Bytes) × (c.unmarshal_tag b ≡ ok (n, content))
        × (c.unmarshal_parts content ≡ ok (first ∷ second ∷ third ∷ fourth ∷ []))
        × (c.unmarshal_bytes first ≡ ok protected)
        × (c.unmarshal_bytes third ≡ ok payload)
        × (c.unmarshal_bytes fourth ≡ ok sig)

-- What a verifier reads from a token that was built from `t`.
abbrev pub claims_of : TokenParams → CwtClaimsResult
claims_of t = record {
  subject = t.list_url;
  issued_at = t.issued_at / second * second;
  ttl = t.ttl;
  bits = t.bitmap.bits;
  lst = t.bitmap.bytes;
  aggregation_uri = [];
}

-- The claims that are signed, with the compressed bitmap.
abbrev issued : TokenParams → Bytes → Claims
issued t z = record {
  sub = t.list_url;
  iat = t.issued_at / second;
  ttl = t.ttl;
  status_list = record { bits = t.bitmap.bits; lst = z; aggregation_uri = [] };
}

module _ (c : Codec) (p : Primitives) (k : Key) (laws : Laws c) (signs : Signs p k) where
  signature-verifies :
      (protected payload sig : Bytes)
      → sign_cose_sign1 c p k protected payload ≡ ok sig
      → verify_cose_sign1 c p k protected payload sig ≡ ok tt
  unfolding sign_cose_sign1 verify_cose_sign1
  signature-verifies protected payload sig e =
      let (message, marshalled, e') = bind_ok (c.marshal_sig_structure protected payload) e in
      let (der, signed, raw) = bind_ok (k.sign (p.sha256 message)) e' in
      let (sig', same, len, verified) =
        asn1_to_raw_ecdsa-verify p k (p.sha256 message) der signs signed in
      let eq : sig' ≡ sig = ground (arith, same, raw) in
      rw (marshalled, ap (λ b. length b) (sym eq) ∙ len)
        (subst
          (λ b.
            fail_if
              (not (k.verify (p.sha256 message) (set_bytes (take 32 b)) (set_bytes (drop 32 b))))
              bad_signature
            ≡ ok tt)
          eq (rw verified refl))

  -- The round trip, for a bitmap that its own bytes wrap to.
  pub build_cwt_token-parses :
      (t : TokenParams) (token : Bytes)
      → wrap_bitmap t.bitmap.bytes t.bitmap.size t.bitmap.bits ≡ ok t.bitmap
      → build_cwt_token c p k t ≡ ok token
      → (parse_cwt_token c p k token ≡ ok (claims_of t))
        × ((parse_cwt_token c p k token >>= λ r. wrap_bitmap r.lst t.bitmap.size r.bits)
            ≡ ok t.bitmap)
  unfolding build_cwt_token parse_cwt_token
  build_cwt_token-parses t token wraps e =
      let (_, _, e₁) = bind_ok (fail_if (not k.is_ecdsa) not_ecdsa) e in
      let (_, _, e₂) = bind_ok (fail_if (not (k.bit_size == 256)) wrong_curve) e₁ in
      let (z, compressed, e₃) = bind_ok (c.compress t.bitmap.bytes) e₂ in
      let (payload, claims, e₄) = bind_ok (c.marshal_claims (issued t z)) e₃ in
      let (chain, _, e₅) = bind_ok (x5chain_of c p t.x5c) e₄ in
      let (protected, _, e₆) =
        bind_ok (c.marshal_header (record { kid = non_empty t.key_id; x5chain = chain })) e₅ in
      let (sig, signed, built) = bind_ok (sign_cose_sign1 c p k protected payload) e₆ in
      let (content, first, second, third, fourth, tag, parts, p₁, p₃, p₄) =
        laws.unmarshal-marshal_sign1 sign1_tag protected payload sig token built in
      let parsed : parse_cwt_token c p k token ≡ ok (claims_of t) =
        rw
          (
            tag,
            parts,
            p₁,
            p₃,
            p₄,
            signature-verifies protected payload sig signed,
            laws.unmarshal-marshal_claims (issued t z) payload claims,
            laws.decompress-compress t.bitmap.bytes z compressed,
          )
          refl in
      (parsed, ap (λ r. r >>= λ x. wrap_bitmap x.lst t.bitmap.size x.bits) parsed ∙ wraps)

  -- With a key whose signatures verify and packages that give back what they marshalled or
  -- compressed, a token that `BuildCWTToken` built from a valid bitmap is accepted by
  -- `ParseCWTToken` with the same key, and gives back the list's URL, the time cut to whole
  -- seconds, the lifetime, the width and the bytes, which wrap to the very bitmap.
  pub parse_cwt_token-build_cwt_token :
      (t : TokenParams) (token : Bytes)
      → IsValid t.bitmap
      → build_cwt_token c p k t ≡ ok token
      → (parse_cwt_token c p k token ≡ ok (claims_of t))
        × ((parse_cwt_token c p k token >>= λ r. wrap_bitmap r.lst t.bitmap.size r.bits)
            ≡ ok t.bitmap)
  parse_cwt_token-build_cwt_token t token v e =
      build_cwt_token-parses t token (wrap_bitmap-bytes t.bitmap v) e
