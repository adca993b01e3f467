-- ===== src/Tests/Settings.antt =====
-- A key in the environment and a bundle of one certificate; a block is `1` and a byte.
use siros_status_service.Prelude.{
  ℕ, ◌<◌, ◌≡◌, subst, [], ◌∷◌, Option, none, some, arith, length, if◌then◌else◌,
}
use siros_status_service.Prelude.Str.{bytes_of, str_eq}
use siros_status_service.Result.{ok, err, panic}
use siros_status_service.Signer.{Bytes}
use siros_status_service.Assertion.{is_empty}
use siros_status_service.Config.{
  Block, Environment, require_ec_key_env, load_pkcs11, load_signing_source, certificates_in,
  some_chain, optional_cert_chain_env,
}
use siros_status_service.Config.Signing.{
  Documented, SourceOutcome, load_signing_source-SourceOutcome, optional_cert_chain_env_enough,
}

abbrev one_block : Bytes → Option (Block × Bytes)
one_block (c ∷ d ∷ rest) = some (record { type = bytes_of "CERTIFICATE"; bytes = d ∷ [] }, rest)
one_block _ = none

abbrev environment : Environment
environment = record {
  PrivateKey = ℕ;
  getenv = λ name. if str_eq name (bytes_of "PKCS11_MODULE_PATH") then [] else 1 ∷ 65 ∷ [];
  decode = one_block;
  parse_ec_private_key = λ b. ok 7;
  encode_base64 = λ b. b;
  parse_int = λ s. err panic;
  parse_int64 = λ s. err panic;
  parse_uint64 = λ s. err panic;
  Float = ℕ;
  float_zero = 0;
  parse_float64 = λ s. err panic;
  parse_duration = λ s. err panic;
  parse_map = λ s. err panic;
}

one_block_shortens :
    (text : Bytes) (found : Block × Bytes)
    → one_block text ≡ some found
    → length found.1 < length text
one_block_shortens [] found e = cc
one_block_shortens (c ∷ []) found e = cc
one_block_shortens (c ∷ d ∷ rest) found e =
    let eq : rest ≡ found.1 = ground (arith, e) in
    subst (λ r. length r < length (c ∷ d ∷ rest)) eq (omega arith)

environment-Documented : Documented environment
environment-Documented = record { shortens = one_block_shortens }

load_signing_source-SourceOutcome_example :
    SourceOutcome environment
      (is_empty (environment.getenv (bytes_of "PKCS11_MODULE_PATH")))
      (is_empty (environment.getenv (bytes_of "SIGNING_KEY_PEM")))
      (require_ec_key_env environment (bytes_of "SIGNING_KEY_PEM"))
      (load_pkcs11 environment (environment.getenv (bytes_of "PKCS11_MODULE_PATH")))
      (load_signing_source environment (bytes_of "SIGNING_KEY_PEM"))
load_signing_source-SourceOutcome_example =
    load_signing_source-SourceOutcome environment (bytes_of "SIGNING_KEY_PEM")

short_enough : length (environment.getenv (bytes_of "SIGNING_CERT_CHAIN_PEM")) < 9
unfolding str_eq
short_enough = omega arith

optional_cert_chain_env_enough_example :
    optional_cert_chain_env environment (bytes_of "SIGNING_CERT_CHAIN_PEM") ≡ (
      if is_empty (environment.getenv (bytes_of "SIGNING_CERT_CHAIN_PEM"))
      then ok []
      else some_chain environment
          (certificates_in environment 9 (environment.getenv (bytes_of "SIGNING_CERT_CHAIN_PEM"))))
optional_cert_chain_env_enough_example =
    optional_cert_chain_env_enough environment environment-Documented
      (bytes_of "SIGNING_CERT_CHAIN_PEM") 9 short_enough
