-- ===== src/Store/Delete.antt =====
-- `DeleteList` as one atomic step on the tables.
use siros_status_service.Prelude.{not, arith}
use siros_status_service.Prelude.Str.{Str, str_eq}
use siros_status_service.Result.{ok}
use siros_status_service.Redis.{Redis}
use siros_status_service.Rows.{Db, Allocation, select, delete_allocations, delete_list_row}
use siros_status_service.Rows.Tables.{select_one_complement}
use siros_status_service.World.{World}
use siros_status_service.Store.{delete_list}
use siros_status_service.Store.Reserve.{IsAtomic}

-- The tables without a list and without its allocations.
abbrev pub without_list : Str → Db → Db
without_list id db = record db {
  lists = select (λ r. not (str_eq r.id id)) db.lists;
  allocations = select (λ a. not (str_eq a.list_id id)) db.allocations;
}

-- Whichever of its calls fails, the deletion of a list removes its row and all its allocations or
-- nothing, and the foreign key never refuses it.
pub delete_list-IsAtomic :
    (R : Redis) (id : Str) (w : World R)
    → IsAtomic (ok (tt, without_list id w.db)) w (delete_list R id w)
unfolding delete_list delete_allocations delete_list_row
delete_list-IsAtomic R id w =
    let free = select_one_complement (λ (a : Allocation). str_eq a.list_id id) w.db.allocations in
    ground (arith, free)
