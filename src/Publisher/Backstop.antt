-- ===== src/Publisher/Backstop.antt =====
-- internal/publisher/publisher.go and internal/ingestion/server.go: the periodic publishing of all live
-- lists. One tick of the timer is modelled; when it ticks is not.
use siros_status_service.Prelude.{
  ℕ, ◌+◌, ◌≡◌, ◌∙◌, refl, inl, inr, List, [], ◌∷◌, sym, subst, arith, Bool, Bool-cases, ◌&&◌, ◌||◌,
}
use siros_status_service.Prelude.Str.{Str, str_eq}
use siros_status_service.Result.{Result, Result-cases, ok, err}
use siros_status_service.Redis.{Redis}
use siros_status_service.Rows.{ListMeta, is_active, is_frozen, select, order_by_age}
use siros_status_service.World.{World, M, call, ◌>>=◌, pure, try}
use siros_status_service.Store.{live_lists, query_lists}
use siros_status_service.Signer.{Key, Signs}
use siros_status_service.Token.{Jwk}
use siros_status_service.Publisher.{Publisher, Cache, publish_if_stale}
use siros_status_service.Publisher.New.{Packages, signed_by}
use siros_status_service.Publisher.Served.{IsFresh, publish_if_stale-IsFresh}
use siros_status_service.Publisher.Signed.{SignedOutcome, AllSigned, publish_if_stale-SignedOutcome}

-- `ListsForPublishing`
unfoldable pub lists_for_publishing : (R : Redis) → Str → ℕ → M R (List ListMeta × ℕ)
lists_for_publishing R shard ttl = do lists ← live_lists R shard; pure (lists, ttl)

module _ (R : Redis) (p : Publisher) where
  -- The loop over the lists: an error of one list is logged.
  unfoldable pub publish_all : Cache → List ListMeta → ℕ → M R Cache
  publish_all cache [] ttl = pure cache
  publish_all cache (lm ∷ lms) ttl = do
    done ← try (publish_if_stale R p cache lm ttl)
    elim done [ err e ↦ publish_all cache lms ttl | ok (_, cache') ↦ publish_all cache' lms ttl ]

  -- One tick of `Run`.
  unfoldable pub run_tick : Cache → M R (List ListMeta × ℕ) → M R Cache
  unfolding publish_all
  run_tick cache list_ids = do
    found ← try list_ids
    elim found [ err e ↦ pure cache | ok (lists, ttl) ↦ publish_all cache lists ttl ]

module _ (pk : Packages) (key : Key)
    (jwt_laws : siros_status_service.Token.RoundTrip.Laws pk.jwt pk.primitives)
    (cwt_laws : siros_status_service.Cwt.RoundTrip.Laws pk.cbor) (signs : Signs pk.primitives key)
    (R : Redis) (has_store : Str → Bool) (key_id base_url : Str) (cert_chain : List Str)
    (jwk : Jwk) where
  abbrev pub_b : Publisher
  pub_b = signed_by pk key has_store key_id base_url cert_chain jwk

  -- The cache has signed tokens only, and nothing was written.
  abbrev pub TickOutcome : World R → Result Cache × World R → Type 0
  TickOutcome w (ok cache', w') =
      AllSigned pk key base_url cache' × (w'.redis ≡ w.redis) × (w'.db ≡ w.db)
  TickOutcome w (err e, w') = ⊥

  TickOutcome-then :
      (w w₁ : World R) (o : Result Cache × World R)
      → w₁.redis ≡ w.redis
      → w₁.db ≡ w.db
      → TickOutcome w₁ o
      → TickOutcome w o
  TickOutcome-then w w₁ (ok cache', w') redis db (all, redis', db') =
      (all, redis' ∙ redis, db' ∙ db)
  TickOutcome-then w w₁ (err e, w') redis db o = o

  publish_all-TickOutcome :
      (cache : Cache) (lms : List ListMeta) (ttl : ℕ) (w : World R)
      → AllSigned pk key base_url cache
      → TickOutcome w (publish_all R pub_b cache lms ttl w)
  unfolding publish_all
  publish_all-TickOutcome cache [] ttl w all = (all, refl, refl)
  publish_all-TickOutcome cache (lm ∷ lms) ttl w all =
      let done = publish_if_stale R pub_b cache lm ttl w in
      let fresh = publish_if_stale-IsFresh R pub_b cache lm ttl w in
      let signed =
        publish_if_stale-SignedOutcome pk key jwt_laws cwt_laws signs R has_store key_id base_url
          cert_chain jwk cache lm ttl w all in
      elim (Result-cases done.0) [
        | inl (e, bad) ↦
            let (redis, db) = subst (λ r. IsFresh R pub_b cache lm ttl w (r, done.1)) bad fresh in
            let step : publish_all R pub_b cache (lm ∷ lms) ttl w
                ≡ publish_all R pub_b cache lms ttl done.1 =
              ground (arith, bad) in
            subst (TickOutcome w) (sym step) (
              TickOutcome-then w done.1 _ redis db
                (publish_all-TickOutcome cache lms ttl done.1 all))
        | inr ((b, cache'), good) ↦
            let (_, _, _, redis, db) =
              subst (λ r. IsFresh R pub_b cache lm ttl w (r, done.1)) good fresh in
            let (_, all') =
              subst
                (λ r.
                  SignedOutcome pk key R base_url cache lm (record w { calls = w.calls + 1 })
                    (r, done.1))
                good signed in
            let step : publish_all R pub_b cache (lm ∷ lms) ttl w
                ≡ publish_all R pub_b cache' lms ttl done.1 =
              ground (arith, good) in
            subst (TickOutcome w) (sym step) (
              TickOutcome-then w done.1 _ redis db
                (publish_all-TickOutcome cache' lms ttl done.1 all'))
      ]

  -- With a key whose signatures verify and packages that give back what they encoded, and a cache of
  -- signed tokens: a tick of the periodic publishing never fails, whatever fails within it, leaves a
  -- cache of signed tokens, and writes neither to Redis nor to the tables.
  pub run_tick-TickOutcome :
      (cache : Cache) (shard : Str) (ttl : ℕ) (w : World R)
      → AllSigned pk key base_url cache
      → TickOutcome w (run_tick R pub_b cache (lists_for_publishing R shard ttl) w)
  unfolding run_tick lists_for_publishing live_lists query_lists call
  run_tick-TickOutcome cache shard ttl w all =
      let w₁ = record w { calls = w.calls + 1 } in
      elim (Bool-cases (w.faults w.calls)) [
        | inl down ↦
            let step : run_tick R pub_b cache (lists_for_publishing R shard ttl) w
                ≡ (ok cache, w₁) =
              ground (arith, down) in
            subst (TickOutcome w) (sym step) (all, refl, refl)
        | inr up ↦
            let lists = order_by_age (
              select (λ r. str_eq r.shard_id shard && (is_active r.state || is_frozen r.state))
                w.db.lists) in
            let step : run_tick R pub_b cache (lists_for_publishing R shard ttl) w
                ≡ publish_all R pub_b cache lists ttl w₁ =
              ground (arith, up) in
            subst (TickOutcome w) (sym step)
              (TickOutcome-then w w₁ _ refl refl (publish_all-TickOutcome cache lists ttl w₁ all))
      ]
