-- ===== src/AuthServer/Startup.antt =====
-- cmd/as/main.go: the authorization server that the settings describe, and what a decision point
-- in them means for the tokens it issues.
use siros_status_service.Prelude.{
  ℕ, ◌<◌, ◌≡◌, ◌⊎◌, false, true, List, ◌++◌, subst, length, take, some, if◌then◌else◌,
}
use siros_status_service.Prelude.Int.{pos}
use siros_status_service.Prelude.Str.{Str, bytes_of}
use siros_status_service.Strings.{comma, length-split}
use siros_status_service.Result.{Result, ok, ok_injective, bind_ok_then}
use siros_status_service.Signer.{Bytes}
use siros_status_service.Assertion.{Packages, Verified, verify, is_empty}
use siros_status_service.Trust.{
  Credential, Evaluator, AuthzenEvaluator, KeyItem, Pdp, Response, allow_all, evaluate, request_for,
  max_response_bytes,
}
use siros_status_service.Trust.Closed.{Carries, evaluate_trusts}
use siros_status_service.AccessToken.{KeyManager}
use siros_status_service.Config.{Environment, get_env, get_duration_env, require_ec_key_env}
use siros_status_service.Config.Load.{AsConfig, load_as, hour}
use siros_status_service.Shards.{Database}
use siros_status_service.AuthServer.{
  TokenRequest, Server, TokenResponse, credential_of, handle_token,
}
use siros_status_service.AuthServer.Grants.{IsIssued, TokenOutcome, handle_token-TokenOutcome}

-- What the server uses of the outside. `key_manager` is `NewKeyManager`, whose keys are the JOSE
-- package's.
pub record Outside (e : Environment) : Type 1 where
  pub packages : Packages
  pub pdp : Pdp
  pub key_manager : e.PrivateKey → Str → KeyManager
  pub sha256 : Str → List ℕ

-- `NewAuthZENEvaluator`
abbrev pub new_authzen_evaluator : Str → Str → Pdp → AuthzenEvaluator
new_authzen_evaluator base_url action_name pdp = record {
  base_url = base_url;
  action_name = action_name;
  pdp = pdp;
}

module _ (e : Environment) (o : Outside e) where
  -- The trust source of `run`.
  unfoldable pub choose_evaluator : AsConfig e → Evaluator
  choose_evaluator cfg =
      if is_empty cfg.trust_pdp_url
      then allow_all
      else evaluate (new_authzen_evaluator cfg.trust_pdp_url cfg.trust_action_name o.pdp)

  -- The server of `run`, for a lifetime of tokens that is a number of nanoseconds, not negative.
  abbrev pub as_server : AsConfig e → ℕ → Server
  as_server cfg ttl = record {
    base_url = cfg.base_url;
    access_token_ttl = ttl;
    access_token_audience = cfg.access_token_audience;
    shards = cfg.shards;
    packages = o.packages;
    evaluator = choose_evaluator cfg;
    km = o.key_manager cfg.signing_key cfg.signing_key_id;
    sha256 = o.sha256;
  }

  load_as-shards : (cfg : AsConfig e) → load_as e ≡ ok cfg → 0 < length cfg.shards
  unfolding load_as
  load_as-shards cfg h =
      bind_ok_then (get_duration_env e (bytes_of "ACCESS_TOKEN_TTL") (pos hour)) h λ _ _ h.
        bind_ok_then (require_ec_key_env e (bytes_of "AS_SIGNING_KEY_PEM")) h λ _ _ h.
          subst (λ c. 0 < length c.shards) (ok_injective h)
            (length-split comma (get_env e (bytes_of "SHARDS") (bytes_of "default")))

  -- The decision point answered for the credential of the assertion that was verified.
  abbrev pub IsApproved : AsConfig e → Verified → Type 0
  IsApproved cfg v =
      let pdp = new_authzen_evaluator cfg.trust_pdp_url cfg.trust_action_name o.pdp in
      (cred : Credential) × (key : List KeyItem) × (body answer : Bytes) × (r : Response)
      × (credential_of v.jwk v.x5c ≡ some cred)
      × Carries cred key
      × (o.pdp.marshal (request_for pdp v.issuer_id cred key) ≡ ok body)
      × (o.pdp.post (cfg.trust_pdp_url ++ bytes_of "/evaluation") body ≡ ok (200, answer))
      × (o.pdp.decode (take max_response_bytes answer) ≡ ok r)
      × (r.decision ≡ true)

  abbrev pub ClosedOutcome :
      AsConfig e
      → ℕ
      → TokenRequest
      → Result (List ℕ)
      → ℕ
      → Database
      → TokenResponse × Database
      → Type 0
  ClosedOutcome cfg ttl r random now d (TokenResponse.token t lifetime, d') =
      (v : Verified) × (verify o.packages r.client_assertion (cfg.base_url ++ bytes_of "/token") now
        ≡ ok v)
      × IsApproved cfg v
      × IsIssued (as_server cfg ttl) v random now t d'
  ClosedOutcome cfg ttl r random now d (TokenResponse.failed status _, d') =
      (status ≡ 500) ⊎ (d' ≡ d)

  TokenOutcome-ClosedOutcome :
      (cfg : AsConfig e) (ttl : ℕ) (r : TokenRequest) (random : Result (List ℕ)) (now : ℕ)
      (d : Database) (a : TokenResponse × Database)
      → is_empty cfg.trust_pdp_url ≡ false
      → TokenOutcome (as_server cfg ttl) r random now d a
      → ClosedOutcome cfg ttl r random now d a
  unfolding choose_evaluator
  TokenOutcome-ClosedOutcome cfg ttl r random now d (TokenResponse.failed n x, d') set out = out
  TokenOutcome-ClosedOutcome cfg ttl r random now d (TokenResponse.token t l, d') set
        (v, _, _, verified, (cred, decision, has, says, trusted, issued, _)) =
      let pdp = new_authzen_evaluator cfg.trust_pdp_url cfg.trust_action_name o.pdp in
      let answered : evaluate pdp v.issuer_id cred ≡ ok decision =
        subst (λ b. (if b then allow_all else evaluate pdp) v.issuer_id cred ≡ ok decision) set
          says in
      let (key, body, answer, resp, carried, sent, posted, decoded, yes_) =
        evaluate_trusts pdp v.issuer_id cred decision answered trusted in
      (
        v,
        verified,
        (cred, key, body, answer, resp, has, carried, sent, posted, decoded, yes_),
        issued,
      )

  -- The authorization server that `LoadAS` and `run` set up with a decision point's address fails
  -- closed, whatever shards are configured: it issues a token only to an assertion that verifies,
  -- where the decision point answered a POST of its identity and its credential with status 200 and
  -- a body that decodes to the decision true, and the token names the identity and the shard that
  -- the tables have for it. Any other answer is a 500 or leaves the tables as they were.
  pub load_as-handle_token :
      (cfg : AsConfig e) (ttl : ℕ) (r : TokenRequest) (random : Result (List ℕ)) (now : ℕ)
      (d : Database)
      → load_as e ≡ ok cfg
      → cfg.access_token_ttl ≡ pos ttl
      → is_empty cfg.trust_pdp_url ≡ false
      → ClosedOutcome cfg ttl r random now d (handle_token (as_server cfg ttl) r random now d)
  load_as-handle_token cfg ttl r random now d loaded lifetime set =
      TokenOutcome-ClosedOutcome cfg ttl r random now d _ set
        (handle_token-TokenOutcome (as_server cfg ttl) r random now d (load_as-shards cfg loaded))
