-- ===== src/Config/Agreed.antt =====
-- internal/config/config.go: the settings that services of one environment have alike.
use siros_status_service.Prelude.{
  ◌*◌, ◌≡◌, ◌⊎◌, inl, inr, Bool-cases, refl, sym, subst, ◌∙◌, true, false,
}
use siros_status_service.Prelude.Int.{pos}
use siros_status_service.Prelude.Str.{Str, bytes_of}
use siros_status_service.Result.{ok, ok_injective, bind_ok_then}
use siros_status_service.Assertion.{is_empty}
use siros_status_service.Config.{
  Environment, get_env, get_int64_env, get_duration_env, required, require_ec_key_env,
  load_signing_source, optional_cert_chain_env,
}
use siros_status_service.Config.Load.{
  IngestionConfig, VerifierConfig, AsConfig, IngressConfig, load_ingestion, load_verifier, load_as,
  load_ingress, minute, hour, day,
}
use siros_status_service.Config.Read.{same_value, required-ok, IsRead, load_ingestion-IsRead}

module _ (e : Environment) where
  -- One address of two services that both read `BASE_URL`, if it is set, or else the two defaults.
  abbrev pub IsAddressed : Str → Str → Type 0
  IsAddressed ingestion verifier =
      ((is_empty (e.getenv (bytes_of "BASE_URL")) ≡ false)
        × (ingestion ≡ e.getenv (bytes_of "BASE_URL"))
        × (verifier ≡ e.getenv (bytes_of "BASE_URL")))
      ⊎ ((is_empty (e.getenv (bytes_of "BASE_URL")) ≡ true)
          × (ingestion ≡ bytes_of "http://localhost:8080")
          × (verifier ≡ bytes_of "http://localhost:8081"))

  get_env-IsAddressed :
      IsAddressed
        (get_env e (bytes_of "BASE_URL") (bytes_of "http://localhost:8080"))
        (get_env e (bytes_of "BASE_URL") (bytes_of "http://localhost:8081"))
  unfolding get_env
  get_env-IsAddressed = elim (Bool-cases (is_empty (e.getenv (bytes_of "BASE_URL")))) [
    | inl unset ↦ inr (unset, rw unset refl, rw unset refl)
    | inr given ↦ inl (given, rw given refl, rw given refl)
  ]

  -- The settings that the ingestion service and the verifier share: the tables, the identity that
  -- signs tokens, their lifetime, the retention, and the address where the environment gives it.
  abbrev pub Matches : IngestionConfig e → VerifierConfig e → Type 0
  Matches c v =
      (c.postgres_dsn ≡ v.postgres_dsn)
      × (c.signing ≡ v.signing)
      × (c.signing_key_id ≡ v.signing_key_id)
      × (c.signing_cert_chain ≡ v.signing_cert_chain)
      × (c.default_ttl_seconds ≡ v.default_ttl_seconds)
      × (c.gc_retention_period ≡ v.gc_retention_period)
      × IsAddressed c.base_url v.base_url

  load_verifier-Matches :
      (c : IngestionConfig e) (v : VerifierConfig e)
      → IsRead e c
      → load_verifier e ≡ ok v
      → Matches c v
  unfolding load_verifier
  load_verifier-Matches c v r h =
      bind_ok_then (get_int64_env e (bytes_of "DEFAULT_TTL_SECONDS") (pos 3600)) h λ _ ttl h.
        bind_ok_then (get_duration_env e (bytes_of "GC_RETENTION_PERIOD") (pos (30 * day))) h
          λ _ retention h.
            bind_ok_then (load_signing_source e (bytes_of "SIGNING_KEY_PEM")) h λ _ signing h.
              bind_ok_then (optional_cert_chain_env e (bytes_of "SIGNING_CERT_CHAIN_PEM")) h
                λ _ chain h. bind_ok_then (required e (bytes_of "SHARD_REDIS_URLS")) h λ raw _ h.
                  bind_ok_then (e.parse_map raw) h λ _ _ h. subst (Matches c) (ok_injective h) (
                    r.7,
                    same_value r.3 signing,
                    r.8,
                    same_value r.4 chain,
                    same_value r.0 ttl,
                    same_value r.1 retention,
                    subst
                        (λ b.
                          IsAddressed b
                            (get_env e (bytes_of "BASE_URL") (bytes_of "http://localhost:8081")))
                        (sym r.10) get_env-IsAddressed,
                  )

  -- The settings for access tokens that the ingestion service, the ingress router and the
  -- authorization server share.
  abbrev pub Accepts : IngestionConfig e → IngressConfig e → AsConfig e → Type 0
  Accepts c i a =
      (c.access_token_audience ≡ a.access_token_audience)
      × (i.access_token_audience ≡ a.access_token_audience)
      × (i.access_token_issuer ≡ c.access_token_issuer)
      × (i.as_jwks_url ≡ c.as_jwks_url)
      × (i.jwks_refresh_interval ≡ c.jwks_refresh_interval)
      × (is_empty i.access_token_issuer ≡ false)
      × (is_empty i.as_jwks_url ≡ false)

  load_ingress-Accepts :
      (c : IngestionConfig e) (i : IngressConfig e) (a : AsConfig e)
      → IsRead e c
      → a.access_token_audience
        ≡ get_env e (bytes_of "ACCESS_TOKEN_AUDIENCE") (bytes_of "siros-status-service")
      → load_ingress e ≡ ok i
      → Accepts c i a
  unfolding load_ingress
  load_ingress-Accepts c i a r audience h =
      bind_ok_then (get_duration_env e (bytes_of "JWKS_REFRESH_INTERVAL") (pos (5 * minute))) h
        λ _ refresh h. bind_ok_then (required e (bytes_of "AS_JWKS_URL")) h λ jwks_url url h.
          bind_ok_then (required e (bytes_of "ACCESS_TOKEN_ISSUER")) h λ issuer_url issuer h.
            bind_ok_then (required e (bytes_of "SHARD_BACKENDS")) h λ raw _ h.
              bind_ok_then (e.parse_map raw) h λ _ _ h.
                subst (λ k. Accepts c k a) (ok_injective h)
                  (
                    r.9 ∙ sym audience,
                    sym audience,
                    same_value issuer r.6,
                    same_value url r.5,
                    same_value refresh r.2,
                    (required-ok e (bytes_of "ACCESS_TOKEN_ISSUER") issuer_url issuer).1,
                    (required-ok e (bytes_of "AS_JWKS_URL") jwks_url url).1,
                  )

  load_as-audience :
      (a : AsConfig e)
      → load_as e ≡ ok a
      → a.access_token_audience
        ≡ get_env e (bytes_of "ACCESS_TOKEN_AUDIENCE") (bytes_of "siros-status-service")
  unfolding load_as
  load_as-audience a h =
      bind_ok_then (get_duration_env e (bytes_of "ACCESS_TOKEN_TTL") (pos hour)) h λ _ _ h.
        bind_ok_then (require_ec_key_env e (bytes_of "AS_SIGNING_KEY_PEM")) h λ _ _ h.
          subst
            (λ k.
              k.access_token_audience
              ≡ get_env e (bytes_of "ACCESS_TOKEN_AUDIENCE") (bytes_of "siros-status-service"))
            (ok_injective h) refl

  -- Services that all load their settings from one environment agree on these: the ingestion
  -- service and the verifier on the tables, the identity that signs tokens, their lifetime and the
  -- retention, and on the base URL if `BASE_URL` is set, but not if it is unset, when their
  -- defaults differ; the ingestion service, the ingress router and the authorization
  -- server on the audience of access tokens; the first two on their issuer and its key URL, which
  -- are not empty, and on the interval at which the keys are fetched.
  pub load_agree :
      (c : IngestionConfig e) (v : VerifierConfig e) (i : IngressConfig e) (a : AsConfig e)
      → load_ingestion e ≡ ok c
      → load_verifier e ≡ ok v
      → load_ingress e ≡ ok i
      → load_as e ≡ ok a
      → Matches c v × Accepts c i a
  load_agree c v i a hc hv hi ha =
      let r = load_ingestion-IsRead e c hc in
      (load_verifier-Matches c v r hv, load_ingress-Accepts c i a r (load_as-audience a ha) hi)
