-- ===== src/AuthServer/Grants.antt =====
-- internal/as/handlers.go: what it takes to be given an access token.
use siros_status_service.Prelude.{
  ℕ, ◌+◌, ◌/◌, ◌<◌, ◌≡◌, ◌⊎◌, inl, inr, refl, sym, subst, Bool-cases, true, List, [], ◌∷◌, ◌++◌,
  Option-cases, some, length, arith,
}
use siros_status_service.Prelude.Str.{Str, bytes_of, str_eq, str_eq_iff}
use siros_status_service.Result.{Result, Result-cases, ok, bind_ok}
use siros_status_service.Shards.{Database, lookup, assign_or_lookup}
use siros_status_service.Shards.Assignment.{Assigned, assign_or_lookup-Assigned}
use siros_status_service.Assertion.{Verified, verify, is_empty, second}
use siros_status_service.Trust.{Credential, Decision}
use siros_status_service.AccessToken.{
  IssueParams, KeyManager, AccessTokenClaims, claims_of, random_id, issue,
}
use siros_status_service.AuthServer.{
  TokenRequest, Server, TokenResponse, credential_of, params_for, grant, authenticate, handle_token,
  grant_type_client_credentials, client_assertion_type_jwt_bearer,
}

issue-sign :
    (m : KeyManager) (p : IssueParams) (random : Result (List ℕ)) (now : ℕ) (t : Str)
    → issue m p random now ≡ ok t
    → (id : Str) × (random_id random ≡ ok id) × (m.sign (claims_of p id now) ≡ ok t)
unfolding issue
issue-sign m p random now t e =
    let (_, _, e₁) = bind_ok (m.validate p.tac) e in
    let (id, drawn, e₂) = bind_ok (random_id random) e₁ in
    let (_, _, signed) = bind_ok m.new_signer e₂ in (id, drawn, signed)

module _ (s : Server) where
  -- The token is signed over claims that name the issuer and the shard that the tables have for it,
  -- with what the server is set up with.
  abbrev pub IsIssued : Verified → Result (List ℕ) → ℕ → Str → Database → Type 0
  IsIssued v random now t d' =
      (claims : AccessTokenClaims) × (s.km.sign claims ≡ ok t)
      × (claims.subject ≡ v.issuer_id)
      × (lookup v.issuer_id d'.rows ≡ some claims.tenant_id)
      × (claims.issuer ≡ s.base_url)
      × (claims.audience ≡ s.access_token_audience ∷ [])
      × (claims.tac ≡ bytes_of "riw")
      × (claims.issued_at ≡ now / second)
      × (claims.expiry ≡ (now + s.access_token_ttl) / second)
      × (random_id random ≡ ok claims.id)

  abbrev Granted : Verified → Result (List ℕ) → ℕ → TokenResponse × Database → Type 0
  Granted v random now (TokenResponse.token t lifetime, d') =
      IsIssued v random now t d' × (lifetime ≡ s.access_token_ttl / second)
  Granted v random now (TokenResponse.failed status _, d') = status ≡ 500

  grant-Granted :
      (v : Verified) (random : Result (List ℕ)) (now : ℕ) (d : Database)
      → 0 < length s.shards
      → Granted v random now (grant s v random now d)
  unfolding grant
  grant-Granted v random now d h =
      let (r, d') = assign_or_lookup s.sha256 s.shards v.issuer_id d in
      let assigned = assign_or_lookup-Assigned s.sha256 s.shards v.issuer_id d h in
      elim (Result-cases r) [
        | inl (e, bad) ↦ ground (arith, bad)
        | inr (shard, good) ↦
            let found : lookup v.issuer_id d'.rows ≡ some shard =
              subst (λ a. Assigned v.issuer_id (a, d')) good assigned in
            elim (Result-cases (issue s.km (params_for s v.issuer_id shard) random now)) [
              | inl (e, bad) ↦ ground (arith, good, bad)
              | inr (t, made) ↦
                  let (id, drawn, signed) =
                    issue-sign s.km (params_for s v.issuer_id shard) random now t made in
                  let step : grant s v random now d
                      ≡ (TokenResponse.token t (s.access_token_ttl / second), d') =
                    ground (arith, good, made) in
                  subst (λ o. Granted v random now o) (sym step)
                    (
                      (
                        claims_of (params_for s v.issuer_id shard) id now,
                        signed,
                        refl,
                        found,
                        refl,
                        refl,
                        refl,
                        refl,
                        refl,
                        drawn,
                      ),
                      refl,
                    )
            ]
      ]

  -- What becomes of an assertion that verified: a token for a trusted credential, or an error's
  -- status.
  abbrev pub Authentic :
      Verified → Result (List ℕ) → ℕ → Database → TokenResponse × Database → Type 0
  Authentic v random now d (TokenResponse.token t lifetime, d') =
      (cred : Credential) × (decision : Decision) × (credential_of v.jwk v.x5c ≡ some cred)
      × (s.evaluator v.issuer_id cred ≡ ok decision)
      × (decision.trusted ≡ true)
      × IsIssued v random now t d'
      × (lifetime ≡ s.access_token_ttl / second)
  Authentic v random now d (TokenResponse.failed status _, d') = (status ≡ 500) ⊎ (d' ≡ d)

  Granted-Authentic :
      (v : Verified) (random : Result (List ℕ)) (now : ℕ) (d : Database) (cred : Credential)
      (decision : Decision) (o : TokenResponse × Database)
      → credential_of v.jwk v.x5c ≡ some cred
      → s.evaluator v.issuer_id cred ≡ ok decision
      → decision.trusted ≡ true
      → Granted v random now o
      → Authentic v random now d o
  Granted-Authentic v random now d cred decision (TokenResponse.token t l, d') has says trusted
        (issued, lifetime) =
      (cred, decision, has, says, trusted, issued, lifetime)
  Granted-Authentic v random now d cred decision (TokenResponse.failed n e, d') has says trusted
        status =
      inl status

  authenticate-Authentic :
      (v : Verified) (random : Result (List ℕ)) (now : ℕ) (d : Database)
      → 0 < length s.shards
      → Authentic v random now d (authenticate s v random now d)
  unfolding authenticate
  authenticate-Authentic v random now d h = elim (Option-cases (credential_of v.jwk v.x5c)) [
    | inl bare ↦ ground (arith, bare)
    | inr (cred, has) ↦ elim (Result-cases (s.evaluator v.issuer_id cred)) [
      | inl (e, down) ↦ ground (arith, has, down)
      | inr (decision, says) ↦ elim (Bool-cases decision.trusted) [
        | inr denies ↦ ground (arith, has, says, denies)
        | inl agrees ↦
            let step : authenticate s v random now d ≡ grant s v random now d =
              ground (arith, has, says, agrees) in
            subst (λ o. Authentic v random now d o) (sym step)
              (Granted-Authentic v random now d cred decision (grant s v random now d) has says
                agrees (grant-Granted v random now d h))
      ]
    ]
  ]

  -- The answer to a request: a token, or an error's status.
  abbrev pub TokenOutcome :
      TokenRequest → Result (List ℕ) → ℕ → Database → TokenResponse × Database → Type 0
  TokenOutcome r random now d (TokenResponse.token t lifetime, d') =
      (v : Verified) × (r.grant_type ≡ grant_type_client_credentials)
      × (r.client_assertion_type ≡ client_assertion_type_jwt_bearer)
      × (verify s.packages r.client_assertion (s.base_url ++ bytes_of "/token") now ≡ ok v)
      × Authentic v random now d (TokenResponse.token t lifetime, d')
  TokenOutcome r random now d (TokenResponse.failed status _, d') = (status ≡ 500) ⊎ (d' ≡ d)

  Authentic-TokenOutcome :
      (r : TokenRequest) (random : Result (List ℕ)) (now : ℕ) (d : Database) (v : Verified)
      (o : TokenResponse × Database)
      → r.grant_type ≡ grant_type_client_credentials
      → r.client_assertion_type ≡ client_assertion_type_jwt_bearer
      → verify s.packages r.client_assertion (s.base_url ++ bytes_of "/token") now ≡ ok v
      → Authentic v random now d o
      → TokenOutcome r random now d o
  Authentic-TokenOutcome r random now d v (TokenResponse.token t l, d') e₁ e₂ e₃ made =
      (v, e₁, e₂, e₃, made)
  Authentic-TokenOutcome r random now d v (TokenResponse.failed n e, d') e₁ e₂ e₃ made = made

  -- With at least one shard configured, a token is issued only for a request of the right grant
  -- and assertion types whose assertion verifies for the token endpoint, if the evaluator says for
  -- the identity and the credential of that assertion that it is trusted; the token is signed over
  -- claims with that identity as their subject and the shard that the tables have for it as their
  -- tenant, the server's own address and audience, the permissions `riw`, the time in seconds, the
  -- time in seconds at which the server's lifetime of tokens has passed, and a random ID. A refusal other than 500 leaves the tables as
  -- they were.
  pub handle_token-TokenOutcome :
      (r : TokenRequest) (random : Result (List ℕ)) (now : ℕ) (d : Database)
      → 0 < length s.shards
      → TokenOutcome r random now d (handle_token s r random now d)
  unfolding handle_token
  handle_token-TokenOutcome r random now d h =
      elim (Bool-cases (str_eq r.grant_type grant_type_client_credentials)) [
        | inr bad ↦ ground (arith, bad)
        | inl grant_ok ↦
            elim (Bool-cases (str_eq r.client_assertion_type client_assertion_type_jwt_bearer)) [
              | inr bad ↦ ground (arith, grant_ok, bad)
              | inl type_ok ↦ elim (Bool-cases (is_empty r.client_assertion)) [
                | inl bad ↦ ground (arith, grant_ok, type_ok, bad)
                | inr full ↦
                    elim (Result-cases (
                      verify s.packages r.client_assertion (s.base_url ++ bytes_of "/token") now)) [
                        | inl (e, bad) ↦ ground (arith, grant_ok, type_ok, full, bad)
                        | inr (v, verified) ↦
                            let step : handle_token s r random now d
                                ≡ authenticate s v random now d =
                              ground (arith, grant_ok, type_ok, full, verified) in
                            subst (λ o. TokenOutcome r random now d o) (sym step)
                              (Authentic-TokenOutcome r random now d v
                                (authenticate s v random now d)
                                ((str_eq_iff r.grant_type grant_type_client_credentials).0 grant_ok)
                                ((str_eq_iff r.client_assertion_type
                                    client_assertion_type_jwt_bearer).0
                                  type_ok)
                                verified (authenticate-Authentic v random now d h))
                      ]
              ]
            ]
      ]
