-- ===== src/Publisher/Served.antt =====
-- internal/publisher/publisher.go: what `PublishIfStale` returns and keeps.
use siros_status_service.Prelude.{
  ℕ, ◌≡◌, ◌⊎◌, inl, inr, false, Bool-cases, Option, some, Option-cases, arith,
}
use siros_status_service.Prelude.Str.{str_eq_refl}
use siros_status_service.Result.{Result, Result-cases, ok, err}
use siros_status_service.Redis.{Redis, version_key, int_or_zero}
use siros_status_service.Rows.{ListMeta}
use siros_status_service.World.{World}
use siros_status_service.BitmapStore.{snapshot}
use siros_status_service.Publisher.{
  Published, Publisher, Cache, publish_if_stale, serve_list, is_gone, Format, GetResponse, listed,
  not_modified, failed, build_both,
}

module _ (R : Redis) (p : Publisher) where
  abbrev live_version : ListMeta → World R → ℕ
  live_version lm w = int_or_zero (R.get_int (w.redis lm.shard_id) (version_key lm.id))

  -- What a call gives back and leaves in the cache.
  abbrev pub IsFresh :
      Cache → ListMeta → ℕ → World R → Result (Published × Cache) × World R → Type 0
  IsFresh cache lm ttl w (ok (built, cache'), w') =
      (built.version ≡ live_version lm w)
      × (built.ttl ≡ ttl)
      × (cache' lm.id ≡ some built)
      × (w'.redis ≡ w.redis)
      × (w'.db ≡ w.db)
  IsFresh cache lm ttl w (err e, w') = (w'.redis ≡ w.redis) × (w'.db ≡ w.db)

  -- A token that is returned, built anew or taken from the cache, has the version that the list's
  -- bitmap has in Redis and the lifetime asked for, and is the one in the cache afterwards; nothing
  -- is written to Redis or to the tables.
  pub publish_if_stale-IsFresh :
      (cache : Cache) (lm : ListMeta) (ttl : ℕ) (w : World R)
      → IsFresh cache lm ttl w (publish_if_stale R p cache lm ttl w)
  unfolding publish_if_stale snapshot build_both
  publish_if_stale-IsFresh cache lm ttl w = ground (arith, str_eq_refl lm.id)

  -- What a response to a verifier rests on.
  abbrev pub Rests : ListMeta → ℕ → ℕ → Option ℕ → World R → Result (GetResponse × Cache) → Type 0
  Rests lm retention ttl asked w (ok (listed v t f b, cache')) =
      (is_gone R p lm retention w.now ≡ false) × (v ≡ live_version lm w) × (t ≡ ttl)
  Rests lm retention ttl asked w (ok (not_modified v, cache')) =
      (is_gone R p lm retention w.now ≡ false) × (v ≡ live_version lm w) × (asked ≡ some v)
  Rests lm retention ttl asked w (ok (failed code, cache')) =
      (code ≡ 410) ⊎ (code ≡ 406) ⊎ (code ≡ 500)
  Rests lm retention ttl asked w (err e) = ⊥

  -- A list that the tables have is answered with a token or with 304 only while it is not archived
  -- for longer than the retention, and then with the version that its bitmap has in Redis and, in a
  -- 200, the lifetime asked for; a 304 only to a request that has that version already. Any other
  -- answer is 410, 406 or 500.
  pub serve_list-Rests :
      (cache : Cache) (lm : ListMeta) (retention ttl : ℕ) (negotiated : Option Format)
      (asked : Option ℕ) (w : World R)
      → Rests lm retention ttl asked w (serve_list R p cache lm retention ttl negotiated asked w).0
  unfolding serve_list
  serve_list-Rests cache lm retention ttl negotiated asked w =
      let fresh = publish_if_stale-IsFresh cache lm ttl w in
      elim (Bool-cases (is_gone R p lm retention w.now)) [
        | inl gone ↦ ground (arith, gone)
        | inr there ↦ elim (Option-cases negotiated) [
          | inl refused ↦ ground (arith, there, refused)
          | inr (format, chosen) ↦ elim (Result-cases (publish_if_stale R p cache lm ttl w).0) [
            | inl (e, f) ↦ ground (arith, there, chosen, f)
            | inr (built, f) ↦ ground (arith, there, chosen, f, fresh)
          ]
        ]
      ]
