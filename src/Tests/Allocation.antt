-- ===== src/Tests/Allocation.antt =====
-- Allocation on concrete lists.
use siros_status_service.Prelude.{ℕ, ◌+◌, ◌&&◌, ◌≡◌, refl, some, arith}
use siros_status_service.Prelude.Str.{bytes_of, str_eq}
use siros_status_service.Result.{Result, ok, err}
use siros_status_service.Rows.{
  Db, reservable, select_one, update, reserve_cursor, bump_max_exp, insert_allocation, count_usage,
}
use siros_status_service.Allocator.{index, walk}
use siros_status_service.Allocator.Walk.{new_allocator-NewOutcome, NewOutcome}
use siros_status_service.Allocator.Walk
use siros_status_service.Allocator.Index.{IndexOutcome, index_injective, index-IndexOutcome}
use siros_status_service.Store.Invariant.{index_of}
use siros_status_service.Store.Reserve.{record_allocation}
use siros_status_service.Store.Accounts.{count_in, one_if, record_allocation-count_in}
use siros_status_service.Store.Allocate.{RecordOutcome, record_allocation-RecordOutcome}
use siros_status_service.Tests.Data.{sum_hash, list_a, issuer, row_a, new_db, new_db-IsValid, small}

small-IsValid : Walk.IsValid small
small-IsValid = record { some_capacity = omega arith; narrow = omega arith; room = omega arith }

index_runs : index sum_hash small 1 ≡ ok 0
unfolding index walk
index_runs = refl

found : select_one (reservable list_a) new_db.lists ≡ some row_a
unfolding select_one str_eq
found = refl

record_allocation-RecordOutcome_example :
    RecordOutcome sum_hash list_a issuer 50 row_a new_db
      (record_allocation list_a issuer (bytes_of "a") 50 100 (index_of sum_hash row_a) new_db)
record_allocation-RecordOutcome_example =
    record_allocation-RecordOutcome sum_hash list_a issuer (bytes_of "a") 50 100 new_db row_a
      new_db-IsValid found

index_injective_example : ◌≡◌ {A = ℕ} 1 1
index_injective_example = index_injective sum_hash small small-IsValid 1 1 0 index_runs index_runs

index-IndexOutcome_example : IndexOutcome sum_hash small small-IsValid 2 (index sum_hash small 2)
index-IndexOutcome_example = index-IndexOutcome sum_hash small small-IsValid 2

-- The tables after a reservation.
abbrev tables_of : Result (ℕ × Db) → Db
tables_of (ok (idx, db)) = db
tables_of (err e) = new_db

abbrev reserved : Result (ℕ × Db)
reserved = record_allocation list_a issuer (bytes_of "a") 50 100 (λ c. ok 0) new_db

reserved_is_ok : reserved ≡ ok (0, tables_of reserved)
unfolding reserve_cursor bump_max_exp insert_allocation count_usage select_one update str_eq
reserved_is_ok = refl

record_allocation-count_in_example :
    count_in issuer (bytes_of "a") (tables_of reserved).usage
    ≡ count_in issuer (bytes_of "a") new_db.usage
      + one_if (str_eq issuer issuer && str_eq (bytes_of "a") (bytes_of "a"))
record_allocation-count_in_example =
    record_allocation-count_in list_a issuer (bytes_of "a") 50 100 (λ c. ok 0) new_db 0
      (tables_of reserved) issuer (bytes_of "a") reserved_is_ok
