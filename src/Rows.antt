-- ===== src/Rows.antt =====
-- internal/store/postgres.go: the three tables, their rows, and the statements over them. A time is
-- a number; a NULL column is `none`.
pub mod Tables
use mathlib.Core.List.{filter}
use siros_status_service.Prelude.{
  ℕ, ◌+◌, ◌-◌, Bool, true, false, not, ◌&&◌, ◌||◌, List, [], ◌∷◌, ◌++◌, map, Option, none, some,
  leb, ltb, ◌==◌, if◌then◌else◌,
}
use siros_status_service.Prelude.Str.{Str, str_eq}
use siros_status_service.Result.{Result, ok, err, constraint, list_full, fail_if, ◌>>=◌, ◌>>◌}

-- The `state` column.
pub data ListState : Type 0 where
  active frozen archived : ListState

pub record ListMeta : Type 0 where
  pub id : Str
  pub bits : ℕ
  pub size : ℕ
  pub cursor : ℕ
  pub fpe_key : List ℕ
  pub max_exp : Option ℕ
  pub state : ListState
  pub created_at : ℕ
  pub archived_at : Option ℕ
  pub shard_id : Str
  pub purged : Bool
  pub purged_at : Option ℕ

pub record Allocation : Type 0 where
  pub list_id : Str
  pub idx : ℕ
  pub issuer_id : Str
  pub exp : ℕ

pub record Usage : Type 0 where
  pub issuer_id : Str
  pub shard_id : Str
  pub index_count : ℕ
  pub updated_at : ℕ

pub record Db : Type 0 where
  pub lists : List ListMeta
  pub allocations : List Allocation
  pub usage : List Usage

-- `Remaining`
unfoldable pub remaining : ListMeta → ℕ
remaining lm = if leb lm.size lm.cursor then 0 else lm.size - lm.cursor

abbrev pub is_active : ListState → Bool
is_active ListState.active = true
is_active ListState.frozen = false
is_active ListState.archived = false

abbrev pub is_frozen : ListState → Bool
is_frozen ListState.active = false
is_frozen ListState.frozen = true
is_frozen ListState.archived = false

abbrev pub is_archived : ListState → Bool
is_archived ListState.active = false
is_archived ListState.frozen = false
is_archived ListState.archived = true

-- `SELECT … WHERE p`, in the table's order.
unfoldable pub select {ℓ} : {A : Type ℓ} → (A → Bool) → List A → List A
select p [] = []
select p (x ∷ xs) = if p x then x ∷ select p xs else select p xs

-- The first row of a selection.
unfoldable pub select_one {ℓ} : {A : Type ℓ} → (A → Bool) → List A → Option A
select_one p [] = none
select_one p (x ∷ xs) = if p x then some x else select_one p xs

-- `UPDATE … SET f WHERE p`
unfoldable pub update {ℓ} : {A : Type ℓ} → (A → Bool) → (A → A) → List A → List A
update p f [] = []
update p f (x ∷ xs) = (if p x then f x else x) ∷ update p f xs

-- `ORDER BY created_at ASC`
unfoldable pub insert_by_age : ListMeta → List ListMeta → List ListMeta
insert_by_age x [] = x ∷ []
insert_by_age x (y ∷ ys) =
    if leb x.created_at y.created_at then x ∷ y ∷ ys else y ∷ insert_by_age x ys

unfoldable pub order_by_age : List ListMeta → List ListMeta
unfolding insert_by_age
order_by_age [] = []
order_by_age (x ∷ xs) = insert_by_age x (order_by_age xs)

-- `GREATEST(max_exp, exp)`, which ignores a NULL.
abbrev pub greatest : Option ℕ → ℕ → Option ℕ
greatest none e = some e
greatest (some m) e = some (if ltb m e then e else m)

-- A comparison with NULL selects nothing.
abbrev pub at_most : Option ℕ → ℕ → Bool
at_most none t = false
at_most (some x) t = leb x t

abbrev pub is_null : Option ℕ → Bool
is_null none = true
is_null (some x) = false

-- `INSERT INTO lists`, whose primary key is `id`; the other columns have their defaults. A size of
-- 2^63 or more, which the code's `int64` would make negative, is kept as it is.
unfoldable pub insert_list : Str → ℕ → ℕ → List ℕ → Str → ℕ → Db → Result Db
unfolding select_one
insert_list id bits size key shard now db = elim (select_one (λ r. str_eq r.id id) db.lists) [
  | some _ ↦ err constraint
  | none ↦ ok (record db {
    lists =
        record {
          id = id;
          bits = bits;
          size = size;
          cursor = 0;
          fpe_key = key;
          max_exp = none;
          state = ListState.active;
          created_at = now;
          archived_at = none;
          shard_id = shard;
          purged = false;
          purged_at = none;
        }
        ∷ db.lists;
  })
]

-- `UPDATE lists SET state = 'FROZEN' WHERE id = $1 AND state = 'ACTIVE'`
unfoldable pub freeze_list : Str → Db → Db
unfolding update
freeze_list id db = record db {
  lists =
      update (λ r. str_eq r.id id && is_active r.state) (λ r. record r { state = ListState.frozen })
        db.lists;
}

-- `UPDATE lists SET state = 'ARCHIVED', archived_at = now() WHERE id = $1 AND state = 'FROZEN'`
unfoldable pub archive_list : Str → ℕ → Db → Db
unfolding update
archive_list id now db = record db {
  lists =
      update (λ r. str_eq r.id id && is_frozen r.state)
        (λ r. record r { state = ListState.archived; archived_at = some now }) db.lists;
}

-- `UPDATE lists SET purged = true, purged_at = now() WHERE id = $1`
unfoldable pub mark_list_purged : Str → ℕ → Db → Db
unfolding update
mark_list_purged id now db = record db {
  lists =
      update (λ r. str_eq r.id id) (λ r. record r { purged = true; purged_at = some now }) db.lists;
}

-- `DELETE FROM allocations WHERE list_id = $1`
unfoldable pub delete_allocations : Str → Db → Db
unfolding select
delete_allocations id db = record db {
  allocations = select (λ a. not (str_eq a.list_id id)) db.allocations;
}

-- `DELETE FROM lists WHERE id = $1`: refused while a row of `allocations` refers to the list.
unfoldable pub delete_list_row : Str → Db → Result Db
unfolding select select_one
delete_list_row id db = elim (select_one (λ (a : Allocation). str_eq a.list_id id) db.allocations) [
  | some _ ↦ err constraint
  | none ↦ ok (record db { lists = select (λ r. not (str_eq r.id id)) db.lists })
]

-- The row that the reserving `UPDATE` picks.
abbrev pub reservable : Str → ListMeta → Bool
reservable id r = str_eq r.id id && ltb r.cursor r.size && is_active r.state

-- What the reserving `UPDATE` does to a row.
abbrev pub advance : ListMeta → ListMeta
advance r = record r {
  cursor = r.cursor + 1;
  state = if leb r.size (r.cursor + 1) then ListState.frozen else r.state;
}

-- The reserving `UPDATE … RETURNING cursor - 1`.
unfoldable pub reserve_cursor : Str → Db → Result (ℕ × Db)
unfolding select_one update
reserve_cursor id db = elim (select_one (reservable id) db.lists) [
  | none ↦ err list_full
  | some r ↦ ok (r.cursor, record db { lists = update (reservable id) advance db.lists })
]

-- `UPDATE lists SET max_exp = GREATEST(max_exp, $2) WHERE id = $1`
unfoldable pub bump_max_exp : Str → ℕ → Db → Db
unfolding update
bump_max_exp id exp db = record db {
  lists =
      update (λ r. str_eq r.id id) (λ r. record r { max_exp = greatest r.max_exp exp }) db.lists;
}

abbrev pub same_slot : Str → ℕ → Allocation → Bool
same_slot id idx a = str_eq a.list_id id && a.idx == idx

-- `INSERT INTO allocations`, whose primary key is `(list_id, idx)` and which refers to `lists`.
unfoldable pub insert_allocation : Str → ℕ → Str → ℕ → Db → Result Db
unfolding select_one
insert_allocation id idx issuer exp db = elim (select_one (same_slot id idx) db.allocations) [
  | some _ ↦ err constraint
  | none ↦ elim (select_one (λ (r : ListMeta). str_eq r.id id) db.lists) [
    | none ↦ err constraint
    | some _ ↦ ok (record db {
      allocations =
          record { list_id = id; idx = idx; issuer_id = issuer; exp = exp } ∷ db.allocations;
    })
  ]
]

abbrev pub same_account : Str → Str → Usage → Bool
same_account issuer shard u = str_eq u.issuer_id issuer && str_eq u.shard_id shard

-- `ORDER BY shard_id`, in the order of the tables' collation.
unfoldable pub insert_by_shard : (Str → Str → Bool) → Usage → List Usage → List Usage
insert_by_shard precedes u [] = u ∷ []
insert_by_shard precedes u (x ∷ xs) =
    if precedes u.shard_id x.shard_id then u ∷ x ∷ xs else x ∷ insert_by_shard precedes u xs

unfoldable pub order_by_shard : (Str → Str → Bool) → List Usage → List Usage
unfolding insert_by_shard
order_by_shard precedes [] = []
order_by_shard precedes (u ∷ us) = insert_by_shard precedes u (order_by_shard precedes us)

-- `INSERT INTO issuer_usage … ON CONFLICT DO UPDATE SET index_count = index_count + 1`
unfoldable pub count_usage : Str → Str → ℕ → Db → Db
unfolding select_one update
count_usage issuer shard now db = elim (select_one (same_account issuer shard) db.usage) [
  | some _ ↦ record db {
    usage =
        update (same_account issuer shard)
          (λ u. record u { index_count = u.index_count + 1; updated_at = now }) db.usage;
  }
  | none ↦ record db {
    usage =
        record { issuer_id = issuer; shard_id = shard; index_count = 1; updated_at = now }
        ∷ db.usage;
  }
]
