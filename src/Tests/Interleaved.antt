-- ===== src/Tests/Interleaved.antt =====
-- A list that one process makes, a second reads, and a third's reservation finds.
use siros_status_service.Prelude.{
  ℕ, ◌≡◌, refl, List, [], ◌++◌, some, none, false, replicate, get_elem?, arith,
}
use siros_status_service.Prelude.Str.{Str, bytes_of}
use siros_status_service.Result.{ok}
use siros_status_service.Rows.{Db, ListMeta, ListState, insert_list, select_one}
use siros_status_service.World.{call}
use siros_status_service.Allocator.{new_allocator, half_width, half_of, bit_length, index}
use siros_status_service.Store.{create_list, reserve_cursor_and_record}
use siros_status_service.Interleaving.{Run, no_rows}
use siros_status_service.Interleaving.Safe.{SlotOutcome, Run-SlotOutcome}
use siros_status_service.Tests.Data.{memory, sum_hash, list_a, issuer, small, world_of}

abbrev shard : Str
shard = bytes_of "a"

abbrev key : List ℕ
key = replicate 32 1

-- The tables after the list is made.
abbrev made : Db
made = (create_list memory list_a 2 4 key shard (world_of no_rows)).1.db

abbrev seen : ListMeta
seen = record {
  id = list_a;
  bits = 2;
  size = 4;
  cursor = 0;
  fpe_key = key;
  max_exp = none;
  state = ListState.active;
  created_at = 100;
  archived_at = none;
  shard_id = shard;
  purged = false;
  purged_at = none;
}

is_seen : get_elem? (made.lists ++ []) 0 ≡ some seen
unfolding create_list insert_list call select_one
is_seen = refl

opens : new_allocator key 4 ≡ ok small
unfolding new_allocator half_width half_of bit_length
opens = refl

Run-SlotOutcome_example :
    SlotOutcome memory sum_hash seen issuer 50 (world_of made) (
      reserve_cursor_and_record memory list_a issuer shard 50
        (index sum_hash small)
        (world_of made))
Run-SlotOutcome_example =
    Run-SlotOutcome memory sum_hash (world_of made) (made.lists ++ []) 0 seen small issuer shard 50
      (Run.reads (
        Run.creates (world_of no_rows) list_a 2 4 key shard tt refl (omega arith) (omega arith)
          Run.starts))
      is_seen opens
