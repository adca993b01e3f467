-- ===== src/Tests/Grants.antt =====
-- The token endpoint with toy packages: every assertion has one bare key and is issued by `x`.
use mathlib.Core.List.{Mem, mem-cons_self}
use siros_status_service.Prelude.{
  ℕ, Bool-cases, inl, inr, subst, sym, ◌<◌, ◌≤◌, ◌+◌, ◌*◌, ◌≡◌, ◌⊎◌, refl, true, false, List, [],
  ◌∷◌, none, some, if◌then◌else◌, ltb, arith, take,
}
use siros_status_service.Prelude.Str.{Str, bytes_of, str_eq, str_eq_iff}
use siros_status_service.Result.{Result, ok, err, bad_claims}
use siros_status_service.Signer.{Bytes}
use siros_status_service.Token.{Jwk}
use siros_status_service.Assertion.{
  Value, Header, Claims, Packages, Verified, verify, second, max_lifetime, is_empty,
  resolve_proof_of_possession, resolve_jwk,
}
use siros_status_service.Assertion.Proof.{Documented, IsProof, verify-proves}
use siros_status_service.Trust.{
  AuthzenEvaluator, KeyItem, Response, credential_from_jwk, credential_key, evaluate,
  max_response_bytes, request_for,
}
use siros_status_service.Trust.Closed.{Carries, evaluate_trusts}
use siros_status_service.AuthServer.{
  Server, TokenRequest, grant_type_client_credentials, client_assertion_type_jwt_bearer,
  handle_token,
}
use siros_status_service.AuthServer.Grants.{TokenOutcome, handle_token-TokenOutcome}
use siros_status_service.Shards.{Database}

abbrev jwk_a : Jwk
jwk_a = λ _. none

abbrev header_a : Header
header_a name = if str_eq name (bytes_of "jwk") then some (Value.object jwk_a) else none

abbrev endpoint : Str
endpoint = bytes_of "https://as/token"

abbrev claims_a : Claims
claims_a = record {
  issuer = bytes_of "x";
  subject = bytes_of "x";
  audience = endpoint ∷ [];
  issued_at = some 100;
  expires_at = some 400;
}

-- Any token whose audience is asked for, before its expiry.
abbrev accept : Str → ℕ → Result Claims
accept audience now =
    if str_eq audience endpoint
    then if ltb now (400 * second) then ok claims_a else err bad_claims
    else err bad_claims

abbrev pub packages_a : Packages
packages_a = record {
  PublicKey = ℕ;
  parse_unverified = λ _. ok header_a;
  jwk_key = λ _. ok (some 7);
  decode_base64 = ok;
  certificate_key = λ _. ok none;
  parse_with_claims = λ assertion key audience now. accept audience now;
}

accept_lem :
    (audience : Str) (now : ℕ) (claims : Claims)
    → accept audience now ≡ ok claims
    → Mem audience claims.audience
      × (exp : ℕ) × (claims.expires_at ≡ some exp)
      × (now < exp * second)
accept_lem audience now claims e = elim (Bool-cases (str_eq audience endpoint)) [
  | inr other ↦ absurd (ground (arith, e, other))
  | inl same ↦ elim (Bool-cases (ltb now (400 * second))) [
    | inr late ↦ absurd (ground (arith, e, same, late))
    | inl early ↦
        let eq : claims_a ≡ claims = ground (arith, e, same, early) in
        subst
          (λ c.
            Mem audience c.audience × (exp : ℕ) × (c.expires_at ≡ some exp) × (now < exp * second))
          eq
          (
            subst (λ a. Mem a (endpoint ∷ [])) (sym ((str_eq_iff audience endpoint).0 same))
                mem-cons_self,
            400,
            refl,
            ground (arith, early),
          )
  ]
]

packages_a-Documented : Documented packages_a
packages_a-Documented = record {
  verifies = λ assertion key. true;
  parse_with_claims_lem = λ assertion key audience now claims e.
      let (mem, exp, expires, alive) = accept_lem audience now claims e in
      (refl, mem, exp, expires, alive);
}

abbrev pub authzen_a : AuthzenEvaluator
authzen_a = record {
  base_url = bytes_of "https://pdp";
  action_name = [];
  pdp = record {
    marshal = λ _. ok [];
    post = λ _ _. ok (200, []);
    decode = λ _. ok (record { decision = true; message = none });
  };
}

abbrev as_a : Server
as_a = record {
  base_url = bytes_of "https://as";
  access_token_ttl = 3600 * second;
  access_token_audience = bytes_of "status";
  shards = bytes_of "a" ∷ [];
  packages = packages_a;
  evaluator = evaluate authzen_a;
  km = record { validate = λ _. ok tt; new_signer = ok tt; sign = λ c. ok c.tenant_id };
  sha256 = λ s. s;
}

abbrev verified_a : Verified
verified_a = record { issuer_id = bytes_of "x"; jwk = some jwk_a; x5c = [] }

abbrev pub now_a : ℕ
now_a = 200 * second

assertion_verifies : verify packages_a (bytes_of "j") endpoint now_a ≡ ok verified_a
unfolding verify resolve_proof_of_possession resolve_jwk str_eq
assertion_verifies = refl

abbrev pub database_a : Database
database_a = record { rows = []; faults = λ _. false; calls = 0; others = λ _. [] }

abbrev pub request_a : TokenRequest
request_a = record {
  grant_type = grant_type_client_credentials;
  client_assertion_type = client_assertion_type_jwt_bearer;
  client_assertion = bytes_of "j";
}

handle_token-TokenOutcome_example :
    TokenOutcome as_a request_a
      (ok (1 ∷ []))
      now_a
      database_a
      (handle_token as_a request_a (ok (1 ∷ [])) now_a database_a)
handle_token-TokenOutcome_example =
    handle_token-TokenOutcome as_a request_a (ok (1 ∷ [])) now_a database_a (omega arith)

believed :
    evaluate authzen_a (bytes_of "x") (credential_from_jwk jwk_a)
    ≡ ok (record { trusted = true; reason = bytes_of "trusted by policy" })
unfolding evaluate credential_key str_eq
believed = refl

evaluate_trusts_example :
    (key : List KeyItem) × (body answer : Bytes) × (r : Response) × Carries
      (credential_from_jwk jwk_a)
      key
    × (authzen_a.pdp.marshal (request_for authzen_a (bytes_of "x") (credential_from_jwk jwk_a) key)
        ≡ ok body)
    × (authzen_a.pdp.post (bytes_of "https://pdp/evaluation") body ≡ ok (200, answer))
    × (authzen_a.pdp.decode (take max_response_bytes answer) ≡ ok r)
    × (r.decision ≡ true)
evaluate_trusts_example =
    evaluate_trusts authzen_a (bytes_of "x") (credential_from_jwk jwk_a)
      (record { trusted = true; reason = bytes_of "trusted by policy" }) believed refl

verify-proves_example :
    (header : Header) × (key : packages_a.PublicKey) × (claims : Claims) × (exp : ℕ)
    × (packages_a.parse_unverified (bytes_of "j") ≡ ok header)
    × IsProof packages_a (header (bytes_of "jwk")) (header (bytes_of "x5c")) key (some jwk_a) []
    × (packages_a.parse_with_claims (bytes_of "j") key endpoint now_a ≡ ok claims)
    × (packages_a-Documented.verifies (bytes_of "j") key ≡ true)
    × Mem endpoint claims.audience
    × (claims.issuer ≡ bytes_of "x")
    × (claims.subject ≡ bytes_of "x")
    × (is_empty (bytes_of "x") ≡ false)
    × (claims.expires_at ≡ some exp)
    × (now_a < exp * second)
    × ((claims.issued_at ≡ none)
        ⊎ ((s : ℕ) × (claims.issued_at ≡ some s) × (exp ≤ s + max_lifetime)))
verify-proves_example =
    verify-proves packages_a packages_a-Documented (bytes_of "j") endpoint now_a verified_a
      assertion_verifies
