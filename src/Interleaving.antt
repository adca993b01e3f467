-- ===== src/Interleaving.antt =====
-- internal/store/postgres.go as all services use it at once: any number of processes run statements and
-- transactions of it in any order, each with its own faults, clock and Redis, and act on rows that
-- they read at any earlier time.
pub mod Listed
pub mod Kept
pub mod Statements
pub mod Reserved
pub mod Safe
use siros_status_service.Prelude.{
  ℕ, ◌≡◌, ◌<◌, ◌^◌, Bool, true, false, ◌||◌, List, [], ◌∷◌, ◌++◌, All, length, get_elem?, some,
}
use siros_status_service.Prelude.Str.{Str, str_eq}
use siros_status_service.Result.{ok}
use siros_status_service.Redis.{Redis}
use siros_status_service.Rows.{ListMeta, Db}
use siros_status_service.World.{World}
use siros_status_service.Allocator.{Allocator, key_size, new_allocator, index}
use siros_status_service.Store.{
  create_list, freeze, archive, mark_purged, delete_list, reserve_cursor_and_record,
}
use siros_status_service.Store.Invariant.{IsValid}

abbrev pub no_rows : Db
no_rows = record { lists = []; allocations = []; usage = [] }

-- The tables that the services reach from empty ones, with the rows that were ever read. A new
-- list's ID is of no row that was read, as 16 random bytes are; a reservation opens the allocator of
-- a row that was read.
pub data Run (R : Redis) (hmac : List ℕ → List ℕ → List ℕ) : Db → List ListMeta → Type 0 where
  starts : Run R hmac no_rows []
  reads :
      {db : Db} {known : List ListMeta} → Run R hmac db known → Run R hmac db (db.lists ++ known)
  creates :
      (w : World R) {known : List ListMeta} (id : Str) (bits size : ℕ) (key : List ℕ) (shard : Str)
      → All (λ k. str_eq id k.id ≡ false) known
      → length key ≡ key_size
      → 0 < size
      → size < 2 ^ 64
      → Run R hmac w.db known
      → Run R hmac (create_list R id bits size key shard w).1.db known
  freezes :
      (w : World R) {known : List ListMeta} (id : Str)
      → Run R hmac w.db known
      → Run R hmac (freeze R id w).1.db known
  archives :
      (w : World R) {known : List ListMeta} (id : Str)
      → Run R hmac w.db known
      → Run R hmac (archive R id w).1.db known
  marks :
      (w : World R) {known : List ListMeta} (id : Str)
      → Run R hmac w.db known
      → Run R hmac (mark_purged R id w).1.db known
  deletes :
      (w : World R) {known : List ListMeta} (id : Str)
      → Run R hmac w.db known
      → Run R hmac (delete_list R id w).1.db known
  reserves :
      (w : World R) {known : List ListMeta} (lm : ListMeta) (alloc : Allocator) (issuer shard : Str)
      (exp i : ℕ)
      → get_elem? known i ≡ some lm
      → new_allocator lm.fpe_key lm.size ≡ ok alloc
      → Run R hmac w.db known
      → Run R hmac
          (reserve_cursor_and_record R lm.id issuer shard exp (index hmac alloc) w).1.db
          known

-- A row with this ID is there.
unfoldable pub listed : Str → List ListMeta → Bool
listed id [] = false
listed id (r ∷ rs) = str_eq r.id id || listed id rs

-- A row of the same ID has the same key and the same size.
abbrev pub IsSame : ListMeta → ListMeta → Type 0
IsSame k r = str_eq r.id k.id ≡ true → (r.fpe_key ≡ k.fpe_key) × (r.size ≡ k.size)

-- The tables are valid, every allocation is of a list that is there, and what was read of a list's
-- key and size holds while the list is there.
pub record IsConsistent (hmac : List ℕ → List ℕ → List ℕ) (db : Db) (known : List ListMeta)
    : Type 0 where
  pub valid : IsValid hmac db
  pub referenced : All (λ a. listed a.list_id db.lists ≡ true) db.allocations
  pub agreed : All (λ k. All (IsSame k) db.lists) known
