-- ===== src/LoadTest/Verify.antt =====
-- tools/loadtest/verify.go: the check after a run, directly against the tables and the shards' Redis.
-- The connections are opened before it; `covered` says which shards have one.
use siros_status_service.Prelude.{
  ℕ, zero, suc, ◌+◌, Bool, true, false, not, List, [], ◌∷◌, Option, none, some, if◌then◌else◌,
}
use siros_status_service.Prelude.Str.{Str, str_eq, put_key}
use siros_status_service.Result.{Result, ok, err, no_rows, no_shard, status_mismatch}
use siros_status_service.Redis.{Redis}
use siros_status_service.Rows.{ListMeta}
use siros_status_service.World.{M, ◌>>=◌, pure, throw, lift}
use siros_status_service.Bitmap.{byte_len, wrap_bitmap, get_status}
use siros_status_service.Store.{get_list}
use siros_status_service.BitmapStore.{snapshot}
use siros_status_service.LoadTest.{AllocRecord, WorkerResult, status_name}

-- `listMetaCache` and `snapshotCache`
pub record Caches : Type 0 where
  pub lists : Str → Option ListMeta
  pub snapshots : Str → Option (List ℕ)

abbrev pub no_caches : Caches
no_caches = record { lists = λ _. none; snapshots = λ _. none }

module _ (R : Redis) (covered : Str → Bool) where
  abbrev pub loaded : Option ListMeta → M R ListMeta
  loaded none = throw no_rows
  loaded (some lm) = pure lm

  -- The row of a list, from the cache or the tables.
  abbrev pub list_of : Option ListMeta → Str → M R ListMeta
  list_of (some lm) id = pure lm
  list_of none id = get_list R id >>= loaded

  -- The bytes of a list, from the cache or its shard's Redis.
  abbrev pub bytes_of_list : Option (List ℕ) → ListMeta → Str → M R (List ℕ)
  bytes_of_list (some raw) lm id = pure raw
  bytes_of_list none lm id = snapshot R lm.shard_id id (byte_len lm.size lm.bits)

  abbrev pub differs : ListMeta → AllocRecord → List ℕ → Result Bool
  differs lm rec raw = elim (wrap_bitmap raw lm.size lm.bits) [
    | err e ↦ err e
    | ok bm ↦ elim (get_status bm rec.index) [
      | err e ↦ err e
      | ok actual ↦ ok (not (str_eq (status_name actual) rec.expected))
    ]
  ]

  abbrev pub compare_with : Caches → AllocRecord → ListMeta → List ℕ → M R (Caches × Bool)
  compare_with c rec lm raw = do
    wrong ← lift (differs lm rec raw)
    pure (
      record {
        lists = put_key c.lists rec.list_id (some lm);
        snapshots = put_key c.snapshots rec.list_id (some raw);
      },
      wrong,
    )

  abbrev pub check_list : Caches → AllocRecord → ListMeta → M R (Caches × Bool)
  check_list c rec lm = elim (covered lm.shard_id) [
    | false ↦ throw no_shard
    | true ↦ bytes_of_list (c.snapshots rec.list_id) lm rec.list_id >>= compare_with c rec lm
  ]

  -- One record: the caches after it, and whether its status is another than what was written.
  unfoldable pub check_record : Caches → AllocRecord → M R (Caches × Bool)
  check_record c rec = list_of (c.lists rec.list_id) rec.list_id >>= check_list c rec

  -- The records of one worker, with the mismatches counted.
  unfoldable pub check_records : List AllocRecord → Caches × ℕ → M R (Caches × ℕ)
  check_records [] (c, n) = pure (c, n)
  check_records (rec ∷ recs) (c, n) = do
    (c', wrong) ← check_record c rec
    check_records recs (c', if wrong then n + 1 else n)

  unfoldable pub check_results : List WorkerResult → Caches × ℕ → M R (Caches × ℕ)
  unfolding check_records
  check_results [] (c, n) = pure (c, n)
  check_results (r ∷ rs) (c, n) = check_records r.allocs (c, n) >>= check_results rs

  abbrev pub verdict : Caches × ℕ → M R (Unit {0})
  verdict (c, zero) = pure tt
  verdict (c, suc n) = throw status_mismatch

  -- `verifyDecoySafety`
  unfoldable pub verify_decoy_safety : List WorkerResult → M R (Unit {0})
  unfolding check_results
  verify_decoy_safety results = check_results results (no_caches, 0) >>= verdict
