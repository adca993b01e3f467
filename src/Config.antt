-- ===== src/Config.antt =====
-- internal/config/config.go: the readers of single variables, and where the signing key and its
-- certificates come from. PEM, X.509, base64, JSON and the parsing of numbers are the standard
-- library's: parameters.
pub mod Load
pub mod Read
pub mod Agreed
pub mod Signing
use siros_status_service.Prelude.{
  ℕ, zero, suc, Bool, true, false, not, ◌&&◌, List, [], ◌∷◌, Option, none, some, if◌then◌else◌,
  length,
}
use siros_status_service.Prelude.Int.{ℤ, pos}
use siros_status_service.Prelude.Str.{Str, bytes_of, str_eq}
use siros_status_service.Result.{
  Result, ok, err, two_sources, missing_variable, no_block, no_certificate, fail_if, ◌>>=◌, ◌>>◌,
}
use siros_status_service.Signer.{Bytes}
use siros_status_service.Assertion.{is_empty}

-- `pem.Block`
pub record Block : Type 0 where
  pub type : Str
  pub bytes : Bytes

-- The process's environment, where a missing variable is empty, and the packages. `decode` is
-- `pem.Decode`: the first block and what follows it, if there is one. `parse_int` is `strconv.Atoi`,
-- and `parse_int64`, `parse_uint64` and `parse_float64` are `strconv`'s functions with base 10 and 64
-- bits; a duration is its number of nanoseconds. `parse_map` is `json.Unmarshal` into a map of texts.
pub record Environment : Type 1 where
  pub PrivateKey : Type 0
  pub getenv : Str → Str
  pub decode : Bytes → Option (Block × Bytes)
  pub parse_ec_private_key : Bytes → Result PrivateKey
  pub encode_base64 : Bytes → Str
  pub parse_int : Str → Result ℤ
  pub parse_int64 : Str → Result ℤ
  pub parse_uint64 : Str → Result ℕ
  pub Float : Type 0
  pub float_zero : Float
  pub parse_float64 : Str → Result Float
  pub parse_duration : Str → Result ℤ
  pub parse_map : Str → Result (Str → Option Str)

-- `PKCS11Config`, whose `SlotID` is never set.
pub record Pkcs11Config : Type 0 where
  pub module_path : Str
  pub token_label : Str
  pub pin : Str
  pub key_label : Str
  pub pool_size : ℤ

module _ (e : Environment) where
  -- `SigningSource`, with `nil` as `none`.
  pub record SigningSource : Type 0 where
    pub key : Option e.PrivateKey
    pub pkcs11 : Option Pkcs11Config

  -- `getEnv`
  unfoldable pub get_env : Str → Str → Str
  get_env name default = if is_empty (e.getenv name) then default else e.getenv name

  -- `getIntEnv`
  unfoldable pub get_int_env : Str → ℤ → Result ℤ
  get_int_env name default =
      if is_empty (e.getenv name) then ok default else e.parse_int (e.getenv name)

  -- `getInt64Env`
  unfoldable pub get_int64_env : Str → ℤ → Result ℤ
  get_int64_env name default =
      if is_empty (e.getenv name) then ok default else e.parse_int64 (e.getenv name)

  -- `getUint64Env`
  unfoldable pub get_uint64_env : Str → ℕ → Result ℕ
  get_uint64_env name default =
      if is_empty (e.getenv name) then ok default else e.parse_uint64 (e.getenv name)

  -- `getFloat64Env`
  unfoldable pub get_float64_env : Str → e.Float → Result e.Float
  get_float64_env name default =
      if is_empty (e.getenv name) then ok default else e.parse_float64 (e.getenv name)

  -- `getDurationEnv`
  unfoldable pub get_duration_env : Str → ℤ → Result ℤ
  get_duration_env name default =
      if is_empty (e.getenv name) then ok default else e.parse_duration (e.getenv name)

  abbrev pub first_block : Bytes → Result Block
  first_block text = elim (e.decode text) [ none ↦ err no_block | some found ↦ ok found.0 ]

  -- `requireECKeyEnv`
  unfoldable pub require_ec_key_env : Str → Result e.PrivateKey
  require_ec_key_env name = do
    fail_if (is_empty (e.getenv name)) missing_variable
    block ← first_block (e.getenv name)
    e.parse_ec_private_key block.bytes

  -- A variable that has to be set.
  abbrev pub required : Str → Result Str
  required name = do fail_if (is_empty (e.getenv name)) missing_variable; ok (e.getenv name)

  -- The part of `loadSigningSource` for a module path.
  unfoldable pub load_pkcs11 : Str → Result Pkcs11Config
  unfolding get_int_env
  load_pkcs11 module_path = do
    pool_size ← get_int_env (bytes_of "PKCS11_POOL_SIZE") (pos 4)
    token_label ← required (bytes_of "PKCS11_TOKEN_LABEL")
    key_label ← required (bytes_of "PKCS11_KEY_LABEL")
    pin ← required (bytes_of "PKCS11_PIN")
    ok (record {
      module_path = module_path;
      token_label = token_label;
      pin = pin;
      key_label = key_label;
      pool_size = pool_size;
    })

  abbrev pub from_key : Result e.PrivateKey → Result SigningSource
  from_key r = do key ← r; ok (record { key = some key; pkcs11 = none })

  abbrev pub from_pkcs11 : Result Pkcs11Config → Result SigningSource
  from_pkcs11 r = do config ← r; ok (record { key = none; pkcs11 = some config })

  -- `loadSigningSource`
  unfoldable pub load_signing_source : Str → Result SigningSource
  load_signing_source pem_env_var =
      let module_path = e.getenv (bytes_of "PKCS11_MODULE_PATH") in
      if not (is_empty module_path) && not (is_empty (e.getenv pem_env_var))
      then err two_sources
      else if is_empty module_path
      then from_key (require_ec_key_env pem_env_var)
      else from_pkcs11 (load_pkcs11 module_path)

  -- The loop of `optionalCertChainEnv`, with a bound on its rounds.
  unfoldable pub certificates_in : ℕ → Bytes → List Str
  certificates_in zero text = []
  certificates_in (suc fuel) text = elim (e.decode text) [
    | none ↦ []
    | some found ↦
        let rest = certificates_in fuel found.1 in
        if str_eq found.0.type (bytes_of "CERTIFICATE")
        then e.encode_base64 found.0.bytes ∷ rest
        else rest
  ]

  abbrev pub some_chain : List Str → Result (List Str)
  some_chain [] = err no_certificate
  some_chain (c ∷ cs) = ok (c ∷ cs)

  -- `optionalCertChainEnv`; no chain is the empty one.
  unfoldable pub optional_cert_chain_env : Str → Result (List Str)
  unfolding certificates_in
  optional_cert_chain_env name =
      let text = e.getenv name in
      if is_empty text then ok [] else some_chain (certificates_in (suc (length text)) text)
