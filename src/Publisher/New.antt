-- ===== src/Publisher/New.antt =====
-- internal/publisher/publisher.go and internal/statuslist/token.go: how a publisher is built from the
-- signing key. The packages for JWTs, CBOR and JWKs are parameters.
use siros_status_service.Prelude.{Bool, not, List, some}
use siros_status_service.Prelude.Str.{Str}
use siros_status_service.Result.{Result, ok, not_ecdsa, fail_if, ◌>>=◌, ◌>>◌}
use siros_status_service.Signer.{Bytes, Key, Primitives}
use siros_status_service.Token.{Jwk, build_token}
use siros_status_service.Cwt.{build_cwt_token}
use siros_status_service.Publisher.{Publisher}

-- `marshal_jwk` is `MarshalJSON` of a JOSE key made of the public half.
pub record Packages : Type 0 where
  pub jwt : siros_status_service.Token.Codec
  pub cbor : siros_status_service.Cwt.Codec
  pub primitives : Primitives
  pub marshal_jwk : Key → Result Bytes
  pub unmarshal_jwk : Bytes → Result Jwk

-- What the publisher of a key is, with the key's public half as `jwk`.
abbrev pub signed_by : Packages → Key → (Str → Bool) → Str → Str → List Str → Jwk → Publisher
signed_by pk key has_store key_id base_url cert_chain jwk = record {
  has_store = has_store;
  base_url = base_url;
  key_id = key_id;
  jwk = some jwk;
  cert_chain = cert_chain;
  build_token = build_token pk.jwt pk.primitives key;
  build_cwt_token = build_cwt_token pk.cbor pk.primitives key;
}

-- `JWKFromPublicKey`
unfoldable pub jwk_from_public_key : Packages → Key → Result Jwk
jwk_from_public_key pk key = do raw ← pk.marshal_jwk key; pk.unmarshal_jwk raw

-- `New`, with the shards that have a bitmap store.
unfoldable pub new_publisher :
    Packages → Key → (Str → Bool) → Str → Str → List Str → Result Publisher
unfolding jwk_from_public_key
new_publisher pk key has_store key_id base_url cert_chain = do
  fail_if (not key.is_ecdsa) not_ecdsa
  jwk ← jwk_from_public_key pk key
  ok (signed_by pk key has_store key_id base_url cert_chain jwk)
