-- ===== src/Store/Recorded.antt =====
-- internal/store/postgres.go: the row that a reservation adds to `allocations`.
use siros_status_service.Prelude.{
  ℕ, ◌≡◌, refl, sym, ap, subst, ◌∙◌, inl, inr, ◌∷◌, Option-cases, none, arith,
}
use siros_status_service.Prelude.Str.{Str, str_eq}
use siros_status_service.Result.{Result, Result-cases, ok}
use siros_status_service.Rows.{
  Db, ListMeta, Allocation, select_one, update, same_slot, reservable, advance, reserve_cursor,
  bump_max_exp, insert_allocation, count_usage,
}
use siros_status_service.Store.Reserve.{record_allocation}

abbrev pub row_for : Str → ℕ → Str → ℕ → Allocation
row_for id idx issuer exp = record { list_id = id; idx = idx; issuer_id = issuer; exp = exp }

reserve_cursor-allocations :
    (id : Str) (db : Db) (c : ℕ) (db' : Db)
    → reserve_cursor id db ≡ ok (c, db')
    → db'.allocations ≡ db.allocations
unfolding reserve_cursor
reserve_cursor-allocations id db c db' e =
    elim (Option-cases (select_one (reservable id) db.lists)) [
      | inl full ↦ absurd (ground (arith, e, full))
      | inr (r, found) ↦
          let eq : record db { lists = update (reservable id) advance db.lists } ≡ db' =
            ground (arith, e, found) in
          sym (ap (λ (x : Db). x.allocations) eq)
    ]

bump_max_exp-allocations :
    (id : Str) (exp : ℕ) (db : Db) → (bump_max_exp id exp db).allocations ≡ db.allocations
unfolding bump_max_exp
bump_max_exp-allocations id exp db = refl

insert_allocation-row :
    (id : Str) (idx : ℕ) (issuer : Str) (exp : ℕ) (db db' : Db)
    → insert_allocation id idx issuer exp db ≡ ok db'
    → (select_one (same_slot id idx) db.allocations ≡ none)
      × (db'.allocations ≡ row_for id idx issuer exp ∷ db.allocations)
unfolding insert_allocation
insert_allocation-row id idx issuer exp db db' e =
    elim (Option-cases (select_one (same_slot id idx) db.allocations)) [
      | inr (a, taken) ↦ absurd (ground (arith, e, taken))
      | inl free ↦ elim (Option-cases (select_one (λ (r : ListMeta). str_eq r.id id) db.lists)) [
        | inl missing ↦ absurd (ground (arith, e, free, missing))
        | inr (lm, there) ↦ (free, ground (arith, e, free, there))
      ]
    ]

count_usage-allocations :
    (issuer shard : Str) (now : ℕ) (db : Db)
    → (count_usage issuer shard now db).allocations ≡ db.allocations
unfolding count_usage
count_usage-allocations issuer shard now db = ground arith

pub record_allocation-row :
    (id issuer shard : Str) (exp now : ℕ) (derive_index : ℕ → Result ℕ) (db : Db) (idx : ℕ)
    (db' : Db)
    → record_allocation id issuer shard exp now derive_index db ≡ ok (idx, db')
    → (select_one (same_slot id idx) db.allocations ≡ none)
      × (db'.allocations ≡ row_for id idx issuer exp ∷ db.allocations)
record_allocation-row id issuer shard exp now derive_index db idx db' e =
    elim (Result-cases (reserve_cursor id db)) [
      | inl (x, bad) ↦ absurd (ground (arith, e, bad))
      | inr (c, taken) ↦ elim (Result-cases (derive_index c.0)) [
        | inl (x, bad) ↦ absurd (ground (arith, e, taken, bad))
        | inr (i, derived) ↦
            let before = bump_max_exp id exp c.1 in
            elim (Result-cases (insert_allocation id i issuer exp before)) [
              | inl (x, bad) ↦ absurd (ground (arith, e, taken, derived, bad))
              | inr (after, inserted) ↦
                  let (free, added) = insert_allocation-row id i issuer exp before after inserted in
                  let same : before.allocations ≡ db.allocations =
                    bump_max_exp-allocations id exp c.1
                    ∙ reserve_cursor-allocations id db c.0 c.1 taken in
                  let idx_eq : i ≡ idx = ground (arith, e, taken, derived, inserted) in
                  let db_eq : count_usage issuer shard now after ≡ db' =
                    ground (arith, e, taken, derived, inserted) in
                  let all : db'.allocations ≡ row_for id i issuer exp ∷ before.allocations =
                    sym (ap (λ (x : Db). x.allocations) db_eq)
                    ∙ (count_usage-allocations issuer shard now after ∙ added) in
                  (
                    subst (λ l. select_one (same_slot id idx) l ≡ none) same
                        (subst (λ k. select_one (same_slot id k) before.allocations ≡ none) idx_eq
                          free),
                    all
                        ∙ (ap (λ k. row_for id k issuer exp ∷ before.allocations) idx_eq
                            ∙ ap (λ l. row_for id idx issuer exp ∷ l) same),
                  )
            ]
      ]
    ]
