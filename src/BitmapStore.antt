-- ===== src/BitmapStore.antt =====
-- internal/store/redis.go: the operations of `BitmapStore`. A store is named by the shard whose Redis
-- it holds.
pub mod Effects
use siros_status_service.Prelude.{
  ℕ, List, ◌++◌, Option, none, some, leb, ◌==◌, if◌then◌else◌, replicate, length, take,
}
use siros_status_service.Prelude.Str.{Str}
use siros_status_service.Result.{Result, ok, err, script_failed}
use siros_status_service.Redis.{Redis, bitmap_key, version_key, int_or_zero}
use siros_status_service.World.{M, ◌>>=◌, ◌>>◌, pure, lift, call, get_redis, put_redis}
use siros_status_service.Script.{new_byte}

-- `string.byte(cur, 1)`, or 0 where there is no byte.
abbrev pub byte_or_zero : Option ℕ → ℕ
byte_or_zero none = 0
byte_or_zero (some b) = b

module _ (R : Redis) where
  -- The script: `string.char` raises an error past 255, and then nothing is written.
  unfoldable pub run_script : R.State → Str → ℕ → ℕ → ℕ → ℕ → Result R.State
  run_script s id at off bits value =
      let b = byte_or_zero (R.getrange s (bitmap_key id) at) in
      let x = new_byte b off bits value in
      if leb x 255 then ok (R.setrange s (bitmap_key id) at x) else err script_failed

  unfoldable pub init : Str → Str → ℕ → M R (Unit {0})
  unfolding call
  init shard id byte_len = do
    call
    s ← get_redis shard
    put_redis shard (R.setnx s (bitmap_key id) (replicate byte_len 0))

  unfoldable pub set_status : Str → Str → ℕ → ℕ → ℕ → ℕ → M R ℕ
  unfolding call run_script
  set_status shard id at off bits value = do
    call
    s ← get_redis shard
    s' ← lift (run_script s id at off bits value)
    put_redis shard s'
    call
    let s'' = R.incr s' (version_key id)
    put_redis shard s''
    pure (int_or_zero (R.get_int s'' (version_key id)))

  -- A slice of exactly `n` bytes: cut, or padded with zeros.
  abbrev pub padded : List ℕ → ℕ → List ℕ
  padded raw n = take n (raw ++ replicate n 0)

  unfoldable pub snapshot : Str → Str → ℕ → M R (List ℕ)
  unfolding call
  snapshot shard id byte_len = do
    call
    s ← get_redis shard
    pure (elim (R.get s (bitmap_key id)) [
      | none ↦ replicate byte_len 0
      | some raw ↦ if length raw == byte_len then raw else padded raw byte_len
    ])

  unfoldable pub version : Str → Str → M R ℕ
  unfolding call
  version shard id = do call; s ← get_redis shard; pure (int_or_zero (R.get_int s (version_key id)))

  unfoldable pub purge : Str → Str → M R (Unit {0})
  unfolding call
  purge shard id = do
    call
    s ← get_redis shard
    put_redis shard (R.del (R.del s (bitmap_key id)) (version_key id))
