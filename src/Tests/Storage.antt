-- ===== src/Tests/Storage.antt =====
-- Bitmaps, Redis and the sweeper on concrete data.
use siros_status_service.Prelude.{◌≡◌, refl, true, [], ◌∷◌, arith, if◌then◌else◌, ◌==◌}
use siros_status_service.Prelude.Str.{bytes_of}
use siros_status_service.Result.{ok, ◌>>=◌}
use siros_status_service.Bitmap.{valid_bit_width, byte_offset, set_status, get_status}
use siros_status_service.Bitmap.Laws.{SetOutcome, set_status-SetOutcome, get_status-set_status}
use siros_status_service.BitmapStore
use siros_status_service.BitmapStore.{run_script}
use siros_status_service.BitmapStore.Effects.{
  Refines, run_script-Refines, WriteOutcome, set_status-WriteOutcome,
}
use siros_status_service.Gc.{purge_each}
use siros_status_service.Gc.Expired.{Expired, frozen_lists_past_grace-Expired}
use siros_status_service.Gc.Shards.{Purged, purge_each-Purged}
use siros_status_service.Store.{frozen_lists_past_grace}
use siros_status_service.Tests.Data.{
  memory, memory-Laws, sum_hash, list_a, row_a, new_db, new_db-IsValid, world_of, bitmap_a,
  bitmap_a-IsValid,
}

set_status-SetOutcome_example : SetOutcome bitmap_a 3 2 (set_status bitmap_a 3 2)
set_status-SetOutcome_example = set_status-SetOutcome bitmap_a 3 2 bitmap_a-IsValid

get_status-set_status_example :
    (set_status bitmap_a 3 2 >>= λ b'. get_status b' 3)
    ≡ (if 3 == 3 then ok 2 else get_status bitmap_a 3)
get_status-set_status_example =
    get_status-set_status bitmap_a 3 2 3 bitmap_a-IsValid (omega arith) (omega arith)

width_two : valid_bit_width 2 ≡ true
unfolding valid_bit_width
width_two = refl

run_script-Refines_example :
    Refines memory memory-Laws
      ((world_of new_db).redis (bytes_of "a"))
      list_a
      (set_status bitmap_a 3 2)
      (run_script memory
        ((world_of new_db).redis (bytes_of "a"))
        list_a
        (byte_offset 3 2).0
        (byte_offset 3 2).1
        2
        2)
run_script-Refines_example =
    run_script-Refines memory memory-Laws ((world_of new_db).redis (bytes_of "a")) list_a bitmap_a 3
      2 bitmap_a-IsValid refl (omega arith) (omega arith)

set_status-WriteOutcome_example :
    WriteOutcome memory memory-Laws
      (bytes_of "a")
      list_a
      0
      6
      2
      2
      (world_of new_db)
      (BitmapStore.set_status memory (bytes_of "a") list_a 0 6 2 2 (world_of new_db))
set_status-WriteOutcome_example =
    set_status-WriteOutcome memory memory-Laws (bytes_of "a") list_a 0 6 2 2 (world_of new_db)

frozen_lists_past_grace-Expired_example :
    Expired 60 (world_of new_db) (frozen_lists_past_grace memory 60 (world_of new_db))
frozen_lists_past_grace-Expired_example =
    frozen_lists_past_grace-Expired memory sum_hash 60 (world_of new_db) new_db-IsValid

purge_each-Purged_example :
    Purged
      (bytes_of "b")
      (row_a ∷ [])
      (world_of new_db)
      (purge_each memory (bytes_of "b") (row_a ∷ []) (world_of new_db))
purge_each-Purged_example =
    purge_each-Purged memory memory-Laws (bytes_of "b") (row_a ∷ []) (world_of new_db)
