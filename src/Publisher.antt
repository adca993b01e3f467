-- ===== src/Publisher.antt =====
-- internal/publisher/publisher.go and internal/verifier/handlers.go: the cache of signed tokens and
-- the endpoint that serves them. The builders of Token.antt and Cwt.antt with the signing
-- key are two fields of the publisher. The choice of a format from the `Accept` header is an argument of the handler, and
-- `If-None-Match` is the version whose entity tag it holds, if it holds one.
pub mod New
pub mod Signed
pub mod Authentic
pub mod Backstop
pub mod Served
use siros_status_service.Prelude.{
  ℕ, ◌-◌, Bool, true, false, not, ◌&&◌, List, ◌++◌, Option, none, some, ltb, ◌==◌, if◌then◌else◌,
}
use siros_status_service.Prelude.Str.{Str, bytes_of, put_key}
use siros_status_service.Result.{Result, ok, err, no_shard}
use siros_status_service.Redis.{Redis}
use siros_status_service.Rows.{ListMeta, is_archived}
use siros_status_service.World.{M, ◌>>=◌, ◌>>◌, pure, throw, lift, try, get_now}
use siros_status_service.Bitmap.{Bitmap, byte_len, wrap_bitmap}
use siros_status_service.Token.{Jwk, TokenParams}
use siros_status_service.Store.{get_list}
use siros_status_service.BitmapStore.{snapshot, version}

pub record Published : Type 0 where
  pub token : List ℕ
  pub cwt : List ℕ
  pub version : ℕ
  pub bits : ℕ
  pub ttl : ℕ

abbrev pub Cache : Type 0
Cache = Str → Option Published

-- The publisher's configuration: the shards that it has a bitmap store for, and the two builders.
pub record Publisher : Type 0 where
  pub has_store : Str → Bool
  pub base_url : Str
  pub key_id : Str
  pub jwk : Option Jwk
  pub cert_chain : List Str
  -- `BuildToken` and `BuildCWTToken` with the signing key.
  pub build_token : TokenParams → Result Str
  pub build_cwt_token : TokenParams → Result (List ℕ)

-- The cached token, if it has the live version and the lifetime asked for.
abbrev pub cached : Option Published → ℕ → ℕ → Option Published
cached none live ttl = none
cached (some p) live ttl = if p.version == live && p.ttl == ttl then some p else none

-- The two wire formats.
pub data Format : Type 0 where
  jwt_format cwt_format : Format

abbrev pub body_of : Format → Published → List ℕ
body_of Format.jwt_format p = p.token
body_of Format.cwt_format p = p.cwt

-- A response: 200 with its entity tag, lifetime and body, 304, or an error's status code.
pub data GetResponse : Type 0 where
  listed : ℕ → ℕ → Format → List ℕ → GetResponse
  not_modified : ℕ → GetResponse
  failed : ℕ → GetResponse

module _ (R : Redis) (p : Publisher) where
  -- The two tokens of a bitmap, and what is kept of them.
  unfoldable pub build_both : TokenParams → ℕ → ℕ → Result Published
  build_both params live bits = elim (p.build_token params) [
    | err e ↦ err e
    | ok token ↦ elim (p.build_cwt_token params) [
      | err e ↦ err e
      | ok cwt ↦
          ok (record { token = token; cwt = cwt; version = live; bits = bits; ttl = params.ttl })
    ]
  ]

  abbrev pub params_for : ListMeta → ℕ → Bitmap → ℕ → TokenParams
  params_for lm ttl bm now = record {
    list_url = p.base_url ++ (bytes_of "/lists/" ++ lm.id);
    issued_at = now;
    ttl = ttl;
    bitmap = bm;
    key_id = p.key_id;
    jwk = p.jwk;
    x5c = p.cert_chain;
  }

  abbrev pub keep : Cache → ListMeta → Published → M R (Published × Cache)
  keep cache lm built = pure (built, put_key cache lm.id (some built))

  -- The part of `PublishIfStale` for a bitmap that was read.
  abbrev pub sign : Cache → ListMeta → ℕ → ℕ → Bitmap → M R (Published × Cache)
  sign cache lm ttl live bm = do
    now ← get_now
    built ← lift (build_both (params_for lm ttl bm now) live lm.bits)
    keep cache lm built

  abbrev pub wrap_and_sign : Cache → ListMeta → ℕ → ℕ → List ℕ → M R (Published × Cache)
  wrap_and_sign cache lm ttl live raw = do
    bm ← lift (wrap_bitmap raw lm.size lm.bits)
    sign cache lm ttl live bm

  -- The part of `PublishIfStale` past the cache.
  unfoldable pub rebuild : Cache → ListMeta → ℕ → ℕ → M R (Published × Cache)
  rebuild cache lm ttl live = do
    raw ← snapshot R lm.shard_id lm.id (byte_len lm.size lm.bits)
    wrap_and_sign cache lm ttl live raw

  unfoldable pub publish_if_stale : Cache → ListMeta → ℕ → M R (Published × Cache)
  unfolding version rebuild
  publish_if_stale cache lm ttl = elim (p.has_store lm.shard_id) [
    | false ↦ throw no_shard
    | true ↦ do
      live ← version R lm.shard_id lm.id
      elim (cached (cache lm.id) live ttl) [
        | some hit ↦ pure (hit, cache)
        | none ↦ rebuild cache lm ttl live
      ]
  ]

  -- An archived list is served for `retention` after it was archived.
  abbrev pub is_gone : ListMeta → ℕ → ℕ → Bool
  is_gone lm retention now =
      is_archived lm.state && elim lm.archived_at [ none ↦ true | some t ↦ ltb retention (now - t) ]

  abbrev pub respond : Format → Option ℕ → Published → GetResponse
  respond format none built = listed built.version built.ttl format (body_of format built)
  respond format (some v) built =
      if v == built.version
      then not_modified v
      else listed built.version built.ttl format (body_of format built)

  -- The part of `handleGetList` for a list that was found, with the negotiated format.
  unfoldable pub serve_list :
      Cache → ListMeta → ℕ → ℕ → Option Format → Option ℕ → M R (GetResponse × Cache)
  unfolding publish_if_stale
  serve_list cache lm retention ttl negotiated if_none_match = do
    now ← get_now
    elim (is_gone lm retention now) [
      | true ↦ pure (failed 410, cache)
      | false ↦ elim negotiated [
        | none ↦ pure (failed 406, cache)
        | some format ↦ do
          done ← try (publish_if_stale cache lm ttl)
          elim done [
            | err e ↦ pure (failed 500, cache)
            | ok (built, cache') ↦ pure (respond format if_none_match built, cache')
          ]
      ]
    ]

  unfoldable pub handle_get_list :
      Cache → Str → ℕ → ℕ → Option Format → Option ℕ → M R (GetResponse × Cache)
  unfolding get_list serve_list
  handle_get_list cache id retention ttl negotiated if_none_match = do
    found ← try (get_list R id)
    elim found [
      | err e ↦ pure (failed 500, cache)
      | ok none ↦ pure (failed 404, cache)
      | ok (some lm) ↦ serve_list cache lm retention ttl negotiated if_none_match
    ]
