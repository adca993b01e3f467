-- ===== src/Pool.antt =====
-- internal/pool/pool.go: the pool of ACTIVE lists of one shard.
pub mod Choice
pub mod Allocations
pub mod Healthy
use siros_status_service.Prelude.{
  ℕ, zero, suc, ◌+◌, ◌-◌, Bool, true, false, ◌&&◌, List, [], ◌∷◌, Option, none, some, ltb, leb,
  if◌then◌else◌, length, get_elem?,
}
use siros_status_service.Prelude.Str.{Str}
use siros_status_service.Redis.{Redis}
use siros_status_service.Rows.{ListMeta, remaining}
use siros_status_service.World.{M, ◌>>=◌, ◌>>◌, pure, lift, call, get_now, int_n, random_bytes}
use siros_status_service.Bitmap.{byte_len}
use siros_status_service.Allocator.{key_size}
use siros_status_service.ListId.{check_shard, new_list_id}
use siros_status_service.Store.{create_list, active_lists, freeze}
use siros_status_service.BitmapStore.{init}

-- The list with more slots left; the first if they have the same.
abbrev pub roomier : Option ListMeta → Option ListMeta → Option ListMeta
roomier none b = none
roomier (some a) none = none
roomier (some a) (some b) = if ltb (remaining a) (remaining b) then some b else some a

-- `ChooseByPowerOfTwo`, with the numbers `i` and `j` that the random source drew.
unfoldable pub choose_by_power_of_two : List ListMeta → ℕ → ℕ → Option ListMeta
unfolding remaining
choose_by_power_of_two [] i j = none
choose_by_power_of_two (x ∷ []) i j = some x
choose_by_power_of_two (x ∷ y ∷ rest) i j =
    let candidates = x ∷ y ∷ rest in
    let other = if leb i j then j + 1 else j in
    roomier (get_elem? candidates i) (get_elem? candidates other)

-- `Manager`; `bitmaps` is the Redis of `shard_id`.
pub record Manager : Type 0 where
  pub shard_id : Str
  pub width : ℕ
  pub capacity : ℕ
  pub bits : ℕ
  pub max_age : ℕ

module _ (R : Redis) (m : Manager) where
  unfoldable pub new_list : M R ListMeta
  unfolding call random_bytes create_list init
  new_list = do
    lift (check_shard m.shard_id)
    call
    suffix ← random_bytes 16
    id ← lift (new_list_id m.shard_id suffix)
    call
    key ← random_bytes key_size
    lm ← create_list R id m.bits m.capacity key m.shard_id
    init R m.shard_id lm.id (byte_len lm.size lm.bits)
    pure lm

  abbrev pub too_old : ℕ → ListMeta → Bool
  too_old now lm = ltb 0 m.max_age && leb m.max_age (now - lm.created_at)

  -- The first loop of `EnsureHealthy`: it freezes the lists that are too old and returns the rest.
  unfoldable pub freeze_old : ℕ → List ListMeta → M R (List ListMeta)
  unfolding freeze
  freeze_old now [] = pure []
  freeze_old now (lm ∷ lms) = elim (too_old now lm) [
    | true ↦ do freeze R lm.id; freeze_old now lms
    | false ↦ do rest ← freeze_old now lms; pure (lm ∷ rest)
  ]

  -- The second loop: one list for each that is missing.
  unfoldable pub top_up : ℕ → M R (Unit {0})
  unfolding new_list
  top_up zero = pure tt
  top_up (suc missing) = do new_list; top_up missing

  unfoldable pub ensure_healthy : M R (Unit {0})
  unfolding active_lists freeze_old top_up
  ensure_healthy = do
    active ← active_lists R m.shard_id
    now ← get_now
    kept ← freeze_old now active
    top_up (m.width - length kept)

  abbrev pub choose : List ListMeta → M R (Option ListMeta)
  choose active = do
    i ← int_n (length active)
    j ← int_n (length active - 1)
    pure (choose_by_power_of_two active i j)

  unfoldable pub pick_for_allocation : M R (Option ListMeta)
  unfolding active_lists ensure_healthy choose_by_power_of_two
  pick_for_allocation = do
    active ← active_lists R m.shard_id
    elim active [
      | [] ↦ do ensure_healthy; again ← active_lists R m.shard_id; choose again
      | lm ∷ lms ↦ choose (lm ∷ lms)
    ]
