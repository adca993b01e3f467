-- ===== src/Config/Read.antt =====
-- internal/config/config.go: what an ingestion service that starts has read of the environment.
use siros_status_service.Prelude.{◌*◌, ◌≡◌, refl, sym, subst, false, arith}
use siros_status_service.Prelude.Int.{pos}
use siros_status_service.Prelude.Str.{Str, bytes_of}
use siros_status_service.Result.{
  Result, ok, ok_injective, bind_ok_then, bind_ok, fail_if, fail_if-ok, missing_variable,
}
use siros_status_service.Assertion.{is_empty, second}
use siros_status_service.Config.{
  Environment, get_env, get_int_env, get_int64_env, get_uint64_env, get_float64_env,
  get_duration_env, required, load_signing_source, optional_cert_chain_env,
}
use siros_status_service.Config.Load.{
  IngestionConfig, load_ingestion, minute, hour, day, default_postgres_dsn,
}

-- Two values of one result.
pub same_value : {A : Type 0} {a b : A} {r : Result A} → r ≡ ok a → r ≡ ok b → a ≡ b
same_value p q = ground (arith, p, q)

module _ (e : Environment) where
  pub required-ok :
      (name v : Str) → required e name ≡ ok v → (v ≡ e.getenv name) × (is_empty v ≡ false)
  required-ok name v h =
      let (_, there, eq) = bind_ok (fail_if (is_empty (e.getenv name)) missing_variable) h in
      let same : e.getenv name ≡ v = ground (arith, eq) in
      (sym same, subst (λ s. is_empty s ≡ false) same (fail_if-ok _ missing_variable there))

  -- What an ingestion service that starts has read.
  abbrev pub IsRead : IngestionConfig e → Type 0
  IsRead c =
      (get_int64_env e (bytes_of "DEFAULT_TTL_SECONDS") (pos 3600) ≡ ok c.default_ttl_seconds)
      × (get_duration_env e (bytes_of "GC_RETENTION_PERIOD") (pos (30 * day))
          ≡ ok c.gc_retention_period)
      × (get_duration_env e (bytes_of "JWKS_REFRESH_INTERVAL") (pos (5 * minute))
          ≡ ok c.jwks_refresh_interval)
      × (load_signing_source e (bytes_of "SIGNING_KEY_PEM") ≡ ok c.signing)
      × (optional_cert_chain_env e (bytes_of "SIGNING_CERT_CHAIN_PEM") ≡ ok c.signing_cert_chain)
      × (required e (bytes_of "AS_JWKS_URL") ≡ ok c.as_jwks_url)
      × (required e (bytes_of "ACCESS_TOKEN_ISSUER") ≡ ok c.access_token_issuer)
      × (c.postgres_dsn ≡ get_env e (bytes_of "DATABASE_URL") default_postgres_dsn)
      × (c.signing_key_id ≡ get_env e (bytes_of "SIGNING_KEY_ID") (bytes_of "prototype-1"))
      × (c.access_token_audience
          ≡ get_env e (bytes_of "ACCESS_TOKEN_AUDIENCE") (bytes_of "siros-status-service"))
      × (c.base_url ≡ get_env e (bytes_of "BASE_URL") (bytes_of "http://localhost:8080"))

  pub load_ingestion-IsRead : (c : IngestionConfig e) → load_ingestion e ≡ ok c → IsRead c
  unfolding load_ingestion
  load_ingestion-IsRead c h =
      bind_ok_then (get_uint64_env e (bytes_of "LIST_CAPACITY") 100000) h λ _ _ h.
        bind_ok_then (get_int_env e (bytes_of "LIST_BITS") (pos 2)) h λ _ _ h.
          bind_ok_then (get_int_env e (bytes_of "POOL_WIDTH") (pos 4)) h λ _ _ h.
            bind_ok_then (get_duration_env e (bytes_of "ROTATION_MAX_AGE") (pos (24 * hour))) h
              λ _ _ h.
                bind_ok_then
                  (get_duration_env e (bytes_of "POOL_CHECK_INTERVAL") (pos (30 * second))) h
                  λ _ _ h.
                    bind_ok_then (get_int64_env e (bytes_of "DEFAULT_TTL_SECONDS") (pos 3600)) h
                      λ _ ttl h.
                        bind_ok_then
                          (get_duration_env e (bytes_of "PUBLISH_INTERVAL") (pos (10 * second))) h
                          λ _ _ h.
                            bind_ok_then
                              (get_float64_env e (bytes_of "DECOY_NOISE_RATE") e.float_zero) h
                              λ _ _ h.
                                bind_ok_then
                                  (get_duration_env e (bytes_of "DECOY_CHECK_INTERVAL")
                                    (pos (15 * minute)))
                                  h
                                  λ _ _ h.
                                    bind_ok_then
                                      (get_duration_env e (bytes_of "MAX_EXPIRY") (pos (365 * day)))
                                      h
                                      λ _ _ h.
                                        bind_ok_then
                                          (get_duration_env e (bytes_of "GC_GRACE_PERIOD")
                                            (pos (24 * hour)))
                                          h
                                          λ _ _ h.
                                            bind_ok_then
                                              (get_duration_env e (bytes_of "GC_RETENTION_PERIOD")
                                                (pos (30 * day)))
                                              h
                                              λ _ retention h.
                                                bind_ok_then
                                                  (get_duration_env e (bytes_of "GC_CHECK_INTERVAL")
                                                    (pos hour))
                                                  h
                                                  λ _ _ h.
                                                    bind_ok_then
                                                      (get_duration_env e
                                                        (bytes_of "DB_RETENTION_PERIOD") (pos 0))
                                                      h
                                                      λ _ _ h.
                                                        bind_ok_then
                                                          (get_duration_env e
                                                            (bytes_of "JWKS_REFRESH_INTERVAL")
                                                            (pos (5 * minute)))
                                                          h
                                                          λ _ refresh h.
                                                            bind_ok_then
                                                            (load_signing_source e
                                                            (bytes_of "SIGNING_KEY_PEM"))
                                                            h
                                                            λ _ signing h.
                                                            bind_ok_then
                                                            (optional_cert_chain_env e
                                                            (bytes_of "SIGNING_CERT_CHAIN_PEM"))
                                                            h
                                                            λ _ chain h.
                                                            bind_ok_then
                                                            (required e (bytes_of "AS_JWKS_URL")) h
                                                            λ _ url h.
                                                            bind_ok_then
                                                            (required e
                                                            (bytes_of "ACCESS_TOKEN_ISSUER"))
                                                            h
                                                            λ _ issuer h.
                                                            subst IsRead (ok_injective h) (
                                                            ttl, retention, refresh, signing, chain,
                                                            url, issuer, refl, refl, refl, refl,
                                                            )
