-- ===== src/Store.antt =====
-- internal/store/postgres.go: the operations of `MetaStore`.
pub mod Reserve
pub mod Invariant
pub mod Allocate
pub mod Delete
pub mod Lifecycle
pub mod Recorded
pub mod Accounts
use siros_status_service.Prelude.{
  ℕ, Bool, true, false, not, ◌&&◌, ◌||◌, List, Option, none, some, if◌then◌else◌,
}
use siros_status_service.Prelude.Str.{Str, str_eq}
use siros_status_service.Result.{Result, ok, err, not_owner}
use siros_status_service.Redis.{Redis}
use siros_status_service.Rows.{
  ListMeta, ListState, Allocation, Usage, order_by_shard, is_active, is_frozen, is_archived, select,
  select_one, order_by_age, at_most, is_null, insert_list, freeze_list, archive_list,
  mark_list_purged, delete_allocations, delete_list_row, reserve_cursor, bump_max_exp,
  insert_allocation, same_slot, count_usage,
}
use siros_status_service.World.{
  M, ◌>>=◌, ◌>>◌, pure, lift, call, get_db, put_db, modify_db, get_now, transaction,
}

module _ (R : Redis) where
  unfoldable pub create_list : Str → ℕ → ℕ → List ℕ → Str → M R ListMeta
  unfolding call
  create_list id bits size key shard = do
    call
    now ← get_now
    db ← lift (insert_list id bits size key shard now (← get_db))
    put_db db
    pure (record {
      id = id;
      bits = bits;
      size = size;
      cursor = 0;
      fpe_key = key;
      max_exp = none;
      state = ListState.active;
      created_at = 0;
      archived_at = none;
      shard_id = shard;
      purged = false;
      purged_at = none;
    })

  -- `queryLists`
  unfoldable pub query_lists : (ListMeta → Bool) → M R (List ListMeta)
  unfolding call
  query_lists p = do call; db ← get_db; pure (order_by_age (select p db.lists))

  unfoldable pub active_lists : Str → M R (List ListMeta)
  unfolding query_lists
  active_lists shard = query_lists (λ r. str_eq r.shard_id shard && is_active r.state)

  unfoldable pub live_lists : Str → M R (List ListMeta)
  unfolding query_lists
  live_lists shard =
      query_lists (λ r. str_eq r.shard_id shard && (is_active r.state || is_frozen r.state))

  unfoldable pub noise_lists : Str → M R (List ListMeta)
  unfolding query_lists
  noise_lists shard = query_lists λ r.
      str_eq r.shard_id shard
      && (is_active r.state || is_frozen r.state || is_archived r.state)
      && not r.purged

  unfoldable pub get_list : Str → M R (Option ListMeta)
  unfolding call
  get_list id = do call; db ← get_db; pure (select_one (λ r. str_eq r.id id) db.lists)

  unfoldable pub freeze : Str → M R (Unit {0})
  unfolding call
  freeze id = do call; modify_db (freeze_list id)

  unfoldable pub frozen_lists_past_grace : ℕ → M R (List ListMeta)
  unfolding query_lists
  frozen_lists_past_grace cutoff =
      query_lists (λ r. is_frozen r.state && (is_null r.max_exp || at_most r.max_exp cutoff))

  unfoldable pub archive : Str → M R (Unit {0})
  unfolding call
  archive id = do call; now ← get_now; modify_db (archive_list id now)

  unfoldable pub archived_lists_past_retention : ℕ → M R (List ListMeta)
  unfolding query_lists
  archived_lists_past_retention cutoff =
      query_lists (λ r. is_archived r.state && not r.purged && at_most r.archived_at cutoff)

  unfoldable pub mark_purged : Str → M R (Unit {0})
  unfolding call
  mark_purged id = do call; now ← get_now; modify_db (mark_list_purged id now)

  unfoldable pub purged_lists_past_db_retention : ℕ → M R (List ListMeta)
  unfolding query_lists
  purged_lists_past_db_retention cutoff = query_lists (λ r. r.purged && at_most r.purged_at cutoff)

  unfoldable pub delete_list : Str → M R (Unit {0})
  unfolding call transaction
  delete_list id = transaction do
    call
    modify_db (delete_allocations id)
    call
    put_db (← lift (delete_list_row id (← get_db)))

  unfoldable pub reserve_cursor_and_record : Str → Str → Str → ℕ → (ℕ → Result ℕ) → M R ℕ
  unfolding call transaction
  reserve_cursor_and_record id issuer shard exp derive_index = transaction do
    call
    (cursor, db) ← lift (reserve_cursor id (← get_db))
    put_db db
    idx ← lift (derive_index cursor)
    call
    modify_db (bump_max_exp id exp)
    call
    put_db (← lift (insert_allocation id idx issuer exp (← get_db)))
    call
    now ← get_now
    modify_db (count_usage issuer shard now)
    pure idx

  unfoldable pub is_allocated : Str → ℕ → M R Bool
  unfolding call
  is_allocated id idx = do
    call
    db ← get_db
    pure (elim (select_one (same_slot id idx) db.allocations) [ none ↦ false | some _ ↦ true ])

  -- The owner that the query found, held against the caller.
  abbrev owner_check : Str → Option Allocation → Result (Unit {0})
  owner_check issuer none = err not_owner
  owner_check issuer (some a) = if str_eq a.issuer_id issuer then ok tt else err not_owner

  unfoldable pub check_ownership : Str → ℕ → Str → M R (Unit {0})
  unfolding call
  check_ownership id idx issuer = do
    call
    db ← get_db
    lift (owner_check issuer (select_one (same_slot id idx) db.allocations))

  -- `GetUsage`, given the tables' collation.
  unfoldable pub get_usage : (Str → Str → Bool) → Str → M R (List Usage)
  unfolding call
  get_usage precedes issuer = do
    call
    db ← get_db
    pure (order_by_shard precedes (select (λ u. str_eq u.issuer_id issuer) db.usage))
