-- ===== src/Config/Signing.antt =====
-- internal/config/config.go: the one source of the key, and the end of the certificate loop.
use siros_status_service.Prelude.{
  ℕ, zero, suc, ◌<◌, ◌≡◌, refl, sym, ap, subst, ◌⊎◌, inl, inr, Bool, Bool-cases, true, false, [],
  Option-cases, none, some, arith, length, if◌then◌else◌,
}
use siros_status_service.Prelude.Str.{Str, bytes_of}
use siros_status_service.Result.{Result, Result-cases, ok, err, two_sources}
use siros_status_service.Signer.{Bytes}
use siros_status_service.Assertion.{is_empty}
use siros_status_service.Config.{
  Block, Environment, Pkcs11Config, SigningSource, require_ec_key_env, load_pkcs11,
  load_signing_source, certificates_in, some_chain, optional_cert_chain_env,
}

-- What the documentation of `pem.Decode` says: what follows a block is shorter than the text.
pub record Documented (e : Environment) : Type 0 where
  pub shortens :
      (text : Bytes) (found : Block × Bytes)
      → e.decode text ≡ some found
      → length found.1 < length text

module _ (e : Environment) where
  -- What the environment gives against what the loader returns.
  abbrev pub SourceOutcome :
      Bool → Bool → Result e.PrivateKey → Result Pkcs11Config → Result (SigningSource e) → Type 0
  SourceOutcome no_path no_pem key config (ok s) =
      ((k : e.PrivateKey) × (no_path ≡ true) × (key ≡ ok k) × (s.key ≡ some k) × (s.pkcs11 ≡ none))
      ⊎ ((c : Pkcs11Config) × (no_path ≡ false)
          × (no_pem ≡ true)
          × (config ≡ ok c)
          × (s.key ≡ none)
          × (s.pkcs11 ≡ some c))
  SourceOutcome no_path no_pem key config (err x) =
      ((no_path ≡ false) × (no_pem ≡ false) × (x ≡ two_sources))
      ⊎ (((no_path ≡ true) × (key ≡ err x))
          ⊎ ((no_path ≡ false) × (no_pem ≡ true) × (config ≡ err x)))

  -- The loader returns either the key alone, where no module path is set and the key's variable
  -- gives one, or the PKCS#11 settings alone, where a path is set and the key's variable is not;
  -- it refuses both at once, and its other errors are those of the one source that is set.
  pub load_signing_source-SourceOutcome :
      (name : Str)
      → SourceOutcome
          (is_empty (e.getenv (bytes_of "PKCS11_MODULE_PATH")))
          (is_empty (e.getenv name))
          (require_ec_key_env e name)
          (load_pkcs11 e (e.getenv (bytes_of "PKCS11_MODULE_PATH")))
          (load_signing_source e name)
  unfolding load_signing_source
  load_signing_source-SourceOutcome name =
      let path = e.getenv (bytes_of "PKCS11_MODULE_PATH") in
      elim (Bool-cases (is_empty path)) [
        | inl no_path ↦ elim (Result-cases (require_ec_key_env e name)) [
          | inl (x, bad) ↦ ground (arith, no_path, bad)
          | inr (k, good) ↦
              let step : load_signing_source e name ≡ ok (record { key = some k; pkcs11 = none }) =
                ground (arith, no_path, good) in
              subst
                (λ r.
                  SourceOutcome (is_empty path) (is_empty (e.getenv name))
                    (require_ec_key_env e name) (load_pkcs11 e path) r)
                (sym step) (inl (k, no_path, good, refl, refl))
        ]
        | inr path_set ↦ elim (Bool-cases (is_empty (e.getenv name))) [
          | inr pem_set ↦ ground (arith, path_set, pem_set)
          | inl no_pem ↦ elim (Result-cases (load_pkcs11 e path)) [
            | inl (x, bad) ↦ ground (arith, path_set, no_pem, bad)
            | inr (c, good) ↦
                let step : load_signing_source e name
                    ≡ ok (record { key = none; pkcs11 = some c }) =
                  ground (arith, path_set, no_pem, good) in
                subst
                  (λ r.
                    SourceOutcome (is_empty path) (is_empty (e.getenv name))
                      (require_ec_key_env e name) (load_pkcs11 e path) r)
                  (sym step) (inr (c, path_set, no_pem, good, refl, refl))
          ]
        ]
      ]

  certificates_in_enough :
      (doc : Documented e) (text : Bytes) (fuel more : ℕ)
      → length text < fuel
      → length text < more
      → certificates_in e fuel text ≡ certificates_in e more text
  unfolding certificates_in
  certificates_in_enough doc text zero more h h' = absurd (omega arith)
  certificates_in_enough doc text (suc fuel) zero h h' = absurd (omega arith)
  certificates_in_enough doc text (suc fuel) (suc more) h h' = elim (Option-cases (e.decode text)) [
    | inl end ↦ ground (arith, end)
    | inr (found, next) ↦
        let shorter = doc.shortens text found next in
        ground (
          arith,
          next,
          certificates_in_enough doc found.1 fuel more (omega (arith, shorter))
              (omega (arith, shorter)),
        )
  ]

  -- Where what follows a PEM block is shorter than the text, the loop over the blocks ends within
  -- as many rounds as the text has bytes and one more: any greater number gives the same chain.
  pub optional_cert_chain_env_enough :
      (doc : Documented e) (name : Str) (rounds : ℕ)
      → length (e.getenv name) < rounds
      → optional_cert_chain_env e name ≡ (
          if is_empty (e.getenv name)
          then ok []
          else some_chain e (certificates_in e rounds (e.getenv name)))
  unfolding optional_cert_chain_env
  optional_cert_chain_env_enough doc name rounds h =
      let text = e.getenv name in
      ap (λ chain. if is_empty text then ok [] else some_chain e chain)
        (certificates_in_enough doc text (suc (length text)) rounds (omega arith) h)
