-- ===== src/AuthServer.antt =====
-- internal/as/handlers.go: the token endpoint of the authorization server. It verifies the client's
-- assertion, asks whether the key is trusted, finds the issuer's shard and issues an access token.
pub mod Grants
pub mod Startup
use siros_status_service.Prelude.{
  ℕ, ◌/◌, Bool, true, false, not, List, [], ◌∷◌, ◌++◌, Option, none, some, if◌then◌else◌,
}
use siros_status_service.Prelude.Str.{Str, bytes_of, str_eq}
use siros_status_service.Result.{Result, ok, err}
use siros_status_service.Token.{Jwk}
use siros_status_service.Shards.{Database, assign_or_lookup}
use siros_status_service.Assertion.{Packages, Verified, verify, is_empty, second}
use siros_status_service.Trust.{
  Credential, Decision, Evaluator, credential_from_jwk, credential_from_x5c,
}
use siros_status_service.AccessToken.{IssueParams, KeyManager, issue}

abbrev pub grant_type_client_credentials : Str
grant_type_client_credentials = bytes_of "client_credentials"

abbrev pub client_assertion_type_jwt_bearer : Str
client_assertion_type_jwt_bearer = bytes_of "urn:ietf:params:oauth:client-assertion-type:jwt-bearer"

-- The form's fields that the handler reads; a missing one is empty.
pub record TokenRequest : Type 0 where
  pub grant_type : Str
  pub client_assertion_type : Str
  pub client_assertion : Str

-- The server with what it has of the outside: the packages, the evaluator, the signer and SHA-256.
pub record Server : Type 1 where
  pub base_url : Str
  pub access_token_ttl : ℕ
  pub access_token_audience : Str
  pub shards : List Str
  pub packages : Packages
  pub evaluator : Evaluator
  pub km : KeyManager
  pub sha256 : Str → List ℕ

-- A status code with `error`, or 200 with the token and its lifetime in seconds.
pub data TokenResponse : Type 0 where
  token : Str → ℕ → TokenResponse
  failed : ℕ → Str → TokenResponse

abbrev pub chain_credential : List Str → Option Credential
chain_credential [] = none
chain_credential (c ∷ cs) = some (credential_from_x5c (c ∷ cs))

-- The credential of a verified assertion, if it carries one.
abbrev pub credential_of : Option Jwk → List Str → Option Credential
credential_of (some jwk) x5c = some (credential_from_jwk jwk)
credential_of none x5c = chain_credential x5c

module _ (s : Server) where
  abbrev pub params_for : Str → Str → IssueParams
  params_for issuer shard = record {
    issuer = s.base_url;
    audience = s.access_token_audience;
    subject = issuer;
    tenant_id = shard;
    tac = bytes_of "riw";
    ttl = s.access_token_ttl;
  }

  abbrev pub minted : Result Str → TokenResponse
  minted (err e) = failed 500 (bytes_of "server_error")
  minted (ok t) = token t (s.access_token_ttl / second)

  -- The part of `handleToken` for a key that is trusted.
  unfoldable pub grant : Verified → Result (List ℕ) → ℕ → Database → TokenResponse × Database
  grant v random now d =
      let (r, d') = assign_or_lookup s.sha256 s.shards v.issuer_id d in
      elim r [
        | err e ↦ (failed 500 (bytes_of "server_error"), d')
        | ok shard ↦ (minted (issue s.km (params_for v.issuer_id shard) random now), d')
      ]

  -- The part for an assertion that verified.
  unfoldable pub authenticate : Verified → Result (List ℕ) → ℕ → Database → TokenResponse × Database
  authenticate v random now d = elim (credential_of v.jwk v.x5c) [
    | none ↦ (failed 401 (bytes_of "invalid_client"), d)
    | some cred ↦ elim (s.evaluator v.issuer_id cred) [
      | err e ↦ (failed 500 (bytes_of "server_error"), d)
      | ok decision ↦
          if not decision.trusted
          then (failed 401 (bytes_of "invalid_client"), d)
          else grant v random now d
    ]
  ]

  -- `handleToken`
  unfoldable pub handle_token :
      TokenRequest → Result (List ℕ) → ℕ → Database → TokenResponse × Database
  handle_token r random now d =
      if not (str_eq r.grant_type grant_type_client_credentials)
      then (failed 400 (bytes_of "unsupported_grant_type"), d)
      else if not (str_eq r.client_assertion_type client_assertion_type_jwt_bearer)
      then (failed 400 (bytes_of "invalid_request"), d)
      else if is_empty r.client_assertion
      then (failed 400 (bytes_of "invalid_request"), d)
      else elim (verify s.packages r.client_assertion (s.base_url ++ bytes_of "/token") now) [
        | err e ↦ (failed 401 (bytes_of "invalid_client"), d)
        | ok v ↦ authenticate v random now d
      ]
