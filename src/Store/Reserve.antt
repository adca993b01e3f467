-- ===== src/Store/Reserve.antt =====
-- `ReserveCursorAndRecord` as one atomic step on the tables.
use siros_status_service.Prelude.{ℕ, ◌≡◌, ◌⊎◌, arith}
use siros_status_service.Prelude.Str.{Str}
use siros_status_service.Result.{Result, ok, err, unavailable}
use siros_status_service.Redis.{Redis}
use siros_status_service.Rows.{Db, reserve_cursor, bump_max_exp, insert_allocation, count_usage}
use siros_status_service.World.{World}
use siros_status_service.Store.{reserve_cursor_and_record}

-- The four writes on the tables alone, with no call that fails: each write goes by what the ones
-- before it left.
abbrev pub bind_result : {A B : Type 0} → Result A → (A → Result B) → Result B
bind_result (ok a) f = f a
bind_result (err e) f = err e

abbrev pub record_allocation : Str → Str → Str → ℕ → ℕ → (ℕ → Result ℕ) → Db → Result (ℕ × Db)
record_allocation id issuer shard exp now derive_index db = bind_result (reserve_cursor id db) λ c.
    bind_result (derive_index c.0) λ idx.
      bind_result (insert_allocation id idx issuer exp (bump_max_exp id exp c.1))
        λ db'. ok (idx, count_usage issuer shard now db')

-- A call on the tables that is atomic: it returns what `step` returns and leaves the tables that
-- `step` gives, or it fails and leaves them as they were. It touches nothing else.
abbrev pub IsAtomic :
    {R : Redis} {A : Type 0} → Result (A × Db) → World R → Result A × World R → Type 0
IsAtomic step w (ok a, w') =
    (step ≡ ok (a, w'.db)) × (w'.redis ≡ w.redis) × (w'.debouncer ≡ w.debouncer)
IsAtomic step w (err e, w') =
    (w'.db ≡ w.db)
    × ((e ≡ unavailable) ⊎ (step ≡ err e))
    × (w'.redis ≡ w.redis)
    × (w'.debouncer ≡ w.debouncer)

-- Whichever of its calls fails, a reservation makes all four writes or none.
pub reserve_cursor_and_record-IsAtomic :
    (R : Redis) (id issuer shard : Str) (exp : ℕ) (derive_index : ℕ → Result ℕ) (w : World R)
    → IsAtomic
        (record_allocation id issuer shard exp w.now derive_index w.db)
        w
        (reserve_cursor_and_record R id issuer shard exp derive_index w)
unfolding reserve_cursor_and_record
reserve_cursor_and_record-IsAtomic R id issuer shard exp derive_index w = ground arith
