-- ===== src/Gc.antt =====
-- internal/gc/sweeper.go: archiving, purging and deleting lists. A sweeper's `bitmaps` is the Redis
-- of its own shard; the tables are shared by all shards.
pub mod Expired
pub mod Shards
use siros_status_service.Prelude.{ℕ, ◌-◌, List, [], ◌∷◌, ◌==◌, if◌then◌else◌}
use siros_status_service.Prelude.Str.{Str}
use siros_status_service.Redis.{Redis}
use siros_status_service.Rows.{ListMeta}
use siros_status_service.World.{M, ◌>>=◌, ◌>>◌, pure, get_now}
use siros_status_service.Store.{
  archive, archived_lists_past_retention, delete_list, frozen_lists_past_grace, mark_purged,
  purged_lists_past_db_retention,
}
use siros_status_service.BitmapStore.{purge}

pub record Sweeper : Type 0 where
  -- The shard whose Redis `bitmaps` is.
  pub shard : Str
  pub grace : ℕ
  pub retention : ℕ
  pub db_retention : ℕ

module _ (R : Redis) where
  unfoldable pub archive_each : List ListMeta → M R (Unit {0})
  archive_each [] = pure tt
  archive_each (lm ∷ lms) = do archive R lm.id; archive_each lms

  unfoldable pub purge_each : Str → List ListMeta → M R (Unit {0})
  purge_each shard [] = pure tt
  purge_each shard (lm ∷ lms) = do purge R shard lm.id; mark_purged R lm.id; purge_each shard lms

  unfoldable pub delete_each : List ListMeta → M R (Unit {0})
  delete_each [] = pure tt
  delete_each (lm ∷ lms) = do delete_list R lm.id; delete_each lms

  -- The three phases. `now.Add(-d)` is truncated at the epoch.
  unfoldable pub sweep : Sweeper → M R (Unit {0})
  sweep s = do
    now ← get_now
    expired ← frozen_lists_past_grace R (now - s.grace)
    archive_each expired
    archived ← archived_lists_past_retention R (now - s.retention)
    purge_each s.shard archived
    if s.db_retention == 0
        then pure tt
        else do purged ← purged_lists_past_db_retention R (now - s.db_retention); delete_each purged
