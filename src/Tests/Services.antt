-- ===== src/Tests/Services.antt =====
-- Services with their settings: an environment in which all four load, a token endpoint set up from
-- it, and a publisher over toy packages.
use siros_status_service.Prelude.{
  ℕ, ◌*◌, ◌≡◌, refl, true, false, Bool, [], ◌∷◌, ◌||◌, none, some, if◌then◌else◌,
}
use siros_status_service.Prelude.Int.{pos}
use siros_status_service.Prelude.Str.{Str, bytes_of, str_eq}
use siros_status_service.Result.{Result, ok, err, panic}
use siros_status_service.Assertion.{is_empty, second}
use siros_status_service.Config.{
  Environment, get_env, get_int_env, get_int64_env, get_uint64_env, get_float64_env,
  get_duration_env, require_ec_key_env, load_signing_source, optional_cert_chain_env,
}
use siros_status_service.Config.Load.{
  IngestionConfig, VerifierConfig, AsConfig, IngressConfig, load_ingestion, load_verifier, load_as,
  load_ingress,
}
use siros_status_service.Config.Agreed.{Matches, Accepts, load_agree}
use siros_status_service.AuthServer.{handle_token}
use siros_status_service.AuthServer.Startup.{
  Outside, as_server, ClosedOutcome, load_as-handle_token,
}
use siros_status_service.Publisher.{Cache, Format, handle_get_list}
use siros_status_service.Publisher.New.{Packages, signed_by}
use siros_status_service.Publisher.Authentic.{ServedOutcome, handle_get_list-ServedOutcome}
use siros_status_service.Publisher.Backstop.{
  lists_for_publishing, run_tick, TickOutcome, run_tick-TickOutcome,
}
use siros_status_service.Tests.Tokens.{primitives, key, jwt, cwt, key-Signs, jwt-Laws, cwt-Laws}
use siros_status_service.Tests.Grants.{packages_a, authzen_a, now_a, request_a, database_a}
use siros_status_service.Tests.Data.{memory, list_a, new_db, world_of}

-- The value of a result that has one.
abbrev is_ok {ℓ} : {A : Type ℓ} → Result A → Bool
is_ok (ok a) = true
is_ok (err e) = false

absent : false ≡ true → ⊥
absent h = cc

abbrev value_of {ℓ} : {A : Type ℓ} (r : Result A) → is_ok r ≡ true → A
value_of (ok a) h = a
value_of (err e) h = elim (absent h) [ ]

value_of-ok {ℓ} : {A : Type ℓ} (r : Result A) (h : is_ok r ≡ true) → r ≡ ok (value_of r h)
value_of-ok (ok a) h = refl
value_of-ok (err e) h = absurd cc

abbrev is_set : Str → Bool
is_set name =
    str_eq name (bytes_of "SIGNING_KEY_PEM")
    || str_eq name (bytes_of "AS_SIGNING_KEY_PEM")
    || str_eq name (bytes_of "AS_JWKS_URL")
    || str_eq name (bytes_of "ACCESS_TOKEN_ISSUER")
    || str_eq name (bytes_of "SHARD_REDIS_URLS")
    || str_eq name (bytes_of "SHARD_BACKENDS")
    || str_eq name (bytes_of "TRUST_PDP_URL")

abbrev variable : Str → Str
variable name =
    if is_set name
    then bytes_of "x"
    else if str_eq name (bytes_of "BASE_URL")
    then bytes_of "https://as"
    else []

abbrev settings : Environment
settings = record {
  PrivateKey = ℕ;
  getenv = variable;
  decode = λ text. some (record { type = bytes_of "EC PRIVATE KEY"; bytes = text }, []);
  parse_ec_private_key = λ b. ok 7;
  encode_base64 = λ b. b;
  parse_int = λ s. err panic;
  parse_int64 = λ s. err panic;
  parse_uint64 = λ s. err panic;
  Float = ℕ;
  float_zero = 0;
  parse_float64 = λ s. err panic;
  parse_duration = λ s. err panic;
  parse_map = λ s. ok (λ shard. some s);
}

as_loads : is_ok (load_as settings) ≡ true
unfolding load_as get_env get_duration_env require_ec_key_env str_eq
as_loads = refl

verifier_loads : is_ok (load_verifier settings) ≡ true
unfolding load_verifier get_env get_duration_env get_int64_env load_signing_source
    require_ec_key_env optional_cert_chain_env str_eq
verifier_loads = refl

ingress_loads : is_ok (load_ingress settings) ≡ true
unfolding load_ingress get_env get_duration_env str_eq
ingress_loads = refl

ingestion_loads : is_ok (load_ingestion settings) ≡ true
unfolding load_ingestion get_env get_duration_env get_int_env get_int64_env get_uint64_env
    get_float64_env load_signing_source require_ec_key_env optional_cert_chain_env str_eq
ingestion_loads = refl

abbrev as_config : AsConfig settings
as_config = value_of (load_as settings) as_loads

abbrev ingestion_config : IngestionConfig settings
ingestion_config = value_of (load_ingestion settings) ingestion_loads

abbrev verifier_config : VerifierConfig settings
verifier_config = value_of (load_verifier settings) verifier_loads

abbrev ingress_config : IngressConfig settings
ingress_config = value_of (load_ingress settings) ingress_loads

load_agree_example :
    Matches settings ingestion_config verifier_config
    × Accepts settings ingestion_config ingress_config as_config
load_agree_example =
    load_agree settings ingestion_config verifier_config ingress_config as_config
      (value_of-ok (load_ingestion settings) ingestion_loads)
      (value_of-ok (load_verifier settings) verifier_loads)
      (value_of-ok (load_ingress settings) ingress_loads) (value_of-ok (load_as settings) as_loads)

abbrev outside : Outside settings
outside = record {
  packages = packages_a;
  pdp = authzen_a.pdp;
  key_manager =
      λ k id. record { validate = λ _. ok tt; new_signer = ok tt; sign = λ c. ok c.tenant_id };
  sha256 = λ s. s;
}

as_lifetime : as_config.access_token_ttl ≡ pos (3600 * second)
unfolding load_as get_env get_duration_env require_ec_key_env str_eq
as_lifetime = refl

pdp_set : is_empty as_config.trust_pdp_url ≡ false
unfolding load_as get_env get_duration_env require_ec_key_env str_eq
pdp_set = refl

load_as-handle_token_example :
    ClosedOutcome settings outside as_config
      (3600 * second)
      request_a
      (ok (1 ∷ []))
      now_a
      database_a
      (handle_token
        (as_server settings outside as_config (3600 * second))
        request_a
        (ok (1 ∷ []))
        now_a
        database_a)
load_as-handle_token_example =
    load_as-handle_token settings outside as_config (3600 * second) request_a (ok (1 ∷ [])) now_a
      database_a (value_of-ok (load_as settings) as_loads) as_lifetime pdp_set

abbrev packages_b : Packages
packages_b = record {
  jwt = jwt;
  cbor = cwt;
  primitives = primitives;
  marshal_jwk = λ k. ok [];
  unmarshal_jwk = λ b. ok (λ _. none);
}

abbrev empty : Cache
empty = λ _. none

abbrev base : Str
base = bytes_of "https://s"

handle_get_list-ServedOutcome_example :
    ServedOutcome packages_b key
      (some Format.jwt_format)
      base
      list_a
      (handle_get_list memory
        (signed_by packages_b key (λ _. true) (bytes_of "k") base [] (λ _. none))
        empty
        list_a
        1000
        60
        (some Format.jwt_format)
        none
        (world_of new_db)).0
handle_get_list-ServedOutcome_example =
    handle_get_list-ServedOutcome packages_b key jwt-Laws cwt-Laws key-Signs memory (λ _. true)
      (bytes_of "k") base [] (λ _. none) empty list_a 1000 60 (some Format.jwt_format) none
      (world_of new_db) (λ id. tt)

run_tick-TickOutcome_example :
    TickOutcome packages_b key jwt-Laws cwt-Laws key-Signs memory
      (λ _. true)
      (bytes_of "k")
      base
      []
      (λ _. none)
      (world_of new_db)
      (run_tick memory
        (signed_by packages_b key (λ _. true) (bytes_of "k") base [] (λ _. none))
        empty
        (lists_for_publishing memory (bytes_of "a") 60)
        (world_of new_db))
run_tick-TickOutcome_example =
    run_tick-TickOutcome packages_b key jwt-Laws cwt-Laws key-Signs memory (λ _. true)
      (bytes_of "k") base [] (λ _. none) empty (bytes_of "a") 60 (world_of new_db) (λ id. tt)
