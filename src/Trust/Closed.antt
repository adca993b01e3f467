-- ===== src/Trust/Closed.antt =====
-- internal/trust/authzen.go: what it takes for the decision point to be believed.
use siros_status_service.Prelude.{
  ℕ, ◌≡◌, refl, ap, ◌∙◌, ◌⊎◌, inl, inr, true, false, not, List, [], ◌∷◌, ◌++◌, Option, none, some,
  ◌==◌, take, arith, Bool-cases,
}
use siros_status_service.Prelude.Str.{Str, bytes_of, str_eq, str_eq_iff}
use siros_status_service.Result.{ok, bind_ok, fail_if, fail_if-ok, not_200}
use siros_status_service.Signer.{Bytes}
use siros_status_service.Token.{Jwk}
use siros_status_service.Trust.{
  Decision, Credential, credential_jwk, credential_x5c, KeyItem, certificates, x5c_items, jwk_items,
  AuthzenEvaluator, Response, credential_key, request_for, max_response_bytes, evaluate,
}

-- The key of a request is that of the credential: the one JWK, or the whole chain in its order.
abbrev pub Carries : Credential → List KeyItem → Type 0
Carries cred key =
    ((jwk : Jwk) × (cred.type ≡ credential_jwk)
      × (cred.jwk ≡ some jwk)
      × (key ≡ KeyItem.key_object jwk ∷ []))
    ⊎ ((c : Str) × (cs : List Str) × (cred.type ≡ credential_x5c)
        × (cred.x5c ≡ c ∷ cs)
        × (key ≡ certificates (c ∷ cs)))

x5c_items-ok :
    (chain : List Str) (key : List KeyItem)
    → x5c_items chain ≡ ok key
    → (c : Str) × (cs : List Str) × (chain ≡ c ∷ cs) × (key ≡ certificates (c ∷ cs))
x5c_items-ok [] key e = cc
x5c_items-ok (c ∷ cs) key e = (c, cs, refl, ground (arith, e))

jwk_items-ok :
    (o : Option Jwk) (key : List KeyItem)
    → jwk_items o ≡ ok key
    → (jwk : Jwk) × (o ≡ some jwk) × (key ≡ KeyItem.key_object jwk ∷ [])
jwk_items-ok none key e = cc
jwk_items-ok (some jwk) key e = (jwk, refl, ground (arith, e))

credential_key-Carries :
    (cred : Credential) (key : List KeyItem) → credential_key cred ≡ ok key → Carries cred key
unfolding credential_key
credential_key-Carries cred key e = elim (Bool-cases (str_eq cred.type credential_jwk)) [
  | inl bare ↦
      let (jwk, has, eq) = jwk_items-ok cred.jwk key (ground (arith, e, bare)) in
      inl (jwk, (str_eq_iff cred.type credential_jwk).0 bare, has, eq)
  | inr other ↦ elim (Bool-cases (str_eq cred.type credential_x5c)) [
    | inr neither ↦ absurd (ground (arith, e, other, neither))
    | inl chained ↦
        let (c, cs, has, eq) = x5c_items-ok cred.x5c key (ground (arith, e, other, chained)) in
        inr (c, cs, (str_eq_iff cred.type credential_x5c).0 chained, has, eq)
  ]
]

is_200 : (n : ℕ) → not (n == 200) ≡ false → n ≡ 200
is_200 n h = ground arith

-- The evaluator trusts a credential only where the decision point answered a POST of this very
-- subject and credential with status 200 and a body that decodes to the decision true: any failure
-- on the way is an error or a denial.
pub evaluate_trusts :
    (e : AuthzenEvaluator) (subject : Str) (cred : Credential) (d : Decision)
    → evaluate e subject cred ≡ ok d
    → d.trusted ≡ true
    → (key : List KeyItem) × (body answer : Bytes) × (r : Response) × Carries cred key
      × (e.pdp.marshal (request_for e subject cred key) ≡ ok body)
      × (e.pdp.post (e.base_url ++ bytes_of "/evaluation") body ≡ ok (200, answer))
      × (e.pdp.decode (take max_response_bytes answer) ≡ ok r)
      × (r.decision ≡ true)
unfolding evaluate
evaluate_trusts e subject cred d done trusted =
    let (key, keyed, e₁) = bind_ok (credential_key cred) done in
    let (body, marshalled, e₂) = bind_ok (e.pdp.marshal (request_for e subject cred key)) e₁ in
    let (posted, answered, e₃) =
      bind_ok (e.pdp.post (e.base_url ++ bytes_of "/evaluation") body) e₂ in
    let (_, status, e₄) = bind_ok (fail_if (not (posted.0 == 200)) not_200) e₃ in
    let (r, decoded, e₅) = bind_ok (e.pdp.decode (take max_response_bytes posted.1)) e₄ in
    (
      key,
      body,
      posted.1,
      r,
      credential_key-Carries cred key keyed,
      marshalled,
      answered
          ∙ ap (λ n. ok (n, posted.1))
              (is_200 posted.0 (fail_if-ok (not (posted.0 == 200)) not_200 status)),
      decoded,
      ground (arith, e₅, trusted),
    )
