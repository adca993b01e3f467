-- ===== src/Store/Accounts.antt =====
-- internal/store/postgres.go: what a reservation does to the accounts.
use siros_status_service.Prelude.{
  ℕ, ◌+◌, ◌≡◌, refl, sym, ap, ap₂, subst, ◌∙◌, inl, inr, Bool, Bool-cases, true, false, ◌&&◌, List,
  [], ◌∷◌, Option-cases, none, some, arith, if◌then◌else◌,
}
use siros_status_service.Prelude.Str.{Str, str_eq, str_eq_iff, str_eq_refl}
use siros_status_service.Result.{Result, Result-cases, ok}
use siros_status_service.Rows.{
  Db, ListMeta, Usage, select_one, update, reservable, advance, same_slot, same_account,
  reserve_cursor, bump_max_exp, insert_allocation, count_usage,
}
use siros_status_service.Store.Reserve.{record_allocation}

-- The count of an account, 0 where it has no row.
abbrev pub count_in : Str → Str → List Usage → ℕ
count_in issuer shard us = elim (select_one (same_account issuer shard) us) [
  | none ↦ 0
  | some u ↦ u.index_count
]

abbrev counted_up : Str → Str → ℕ → List Usage → List Usage
counted_up issuer shard now =
    update (same_account issuer shard)
      (λ u. record u { index_count = u.index_count + 1; updated_at = now })

-- A row of one account against the test for another.
row-same_account :
    (issuer shard i s : Str) (u : Usage)
    → same_account issuer shard u ≡ true
    → same_account i s u ≡ (str_eq issuer i && str_eq shard s)
row-same_account issuer shard i s u hit =
    let by_issuer : str_eq u.issuer_id issuer ≡ true = ground (arith, hit) in
    let by_shard : str_eq u.shard_id shard ≡ true = ground (arith, hit) in
    ap₂ (λ a b. str_eq a i && str_eq b s) ((str_eq_iff u.issuer_id issuer).0 by_issuer)
      ((str_eq_iff u.shard_id shard).0 by_shard)

count_in_self :
    (issuer shard : Str) (now : ℕ) (us : List Usage) (u : Usage)
    → select_one (same_account issuer shard) us ≡ some u
    → count_in issuer shard (counted_up issuer shard now us) ≡ count_in issuer shard us + 1
unfolding select_one update
count_in_self issuer shard now [] u e = cc
count_in_self issuer shard now (x ∷ us) u e = elim (Bool-cases (same_account issuer shard x)) [
  | inl hit ↦ ground (arith, hit)
  | inr miss ↦ ground (arith, miss, count_in_self issuer shard now us u (ground (arith, e, miss)))
]

count_in_other :
    (issuer shard i s : Str) (now : ℕ) (us : List Usage)
    → (str_eq issuer i && str_eq shard s) ≡ false
    → count_in i s (counted_up issuer shard now us) ≡ count_in i s us
unfolding select_one update
count_in_other issuer shard i s now [] other = refl
count_in_other issuer shard i s now (x ∷ us) other =
    elim (Bool-cases (same_account issuer shard x)) [
      | inl hit ↦
          let not_it = row-same_account issuer shard i s x hit ∙ other in
          ground (arith, hit, not_it, count_in_other issuer shard i s now us other)
      | inr miss ↦ ground (arith, miss, count_in_other issuer shard i s now us other)
    ]

abbrev pub one_if : Bool → ℕ
one_if b = if b then 1 else 0

count_usage_self :
    (issuer shard : Str) (now : ℕ) (db : Db)
    → count_in issuer shard (count_usage issuer shard now db).usage
      ≡ count_in issuer shard db.usage + 1
unfolding count_usage select_one
count_usage_self issuer shard now db =
    elim (Option-cases (select_one (same_account issuer shard) db.usage)) [
      | inl new ↦ ground (arith, new, str_eq_refl issuer, str_eq_refl shard)
      | inr (u, old) ↦ ground (arith, old, count_in_self issuer shard now db.usage u old)
    ]

count_usage_other :
    (issuer shard i s : Str) (now : ℕ) (db : Db)
    → (str_eq issuer i && str_eq shard s) ≡ false
    → count_in i s (count_usage issuer shard now db).usage ≡ count_in i s db.usage
unfolding count_usage select_one
count_usage_other issuer shard i s now db other =
    elim (Option-cases (select_one (same_account issuer shard) db.usage)) [
      | inl new ↦ ground (arith, new, other)
      | inr (u, old) ↦ ground (arith, old, count_in_other issuer shard i s now db.usage other)
    ]

count_usage-count_in :
    (issuer shard i s : Str) (now : ℕ) (db : Db)
    → count_in i s (count_usage issuer shard now db).usage
      ≡ count_in i s db.usage + one_if (str_eq issuer i && str_eq shard s)
count_usage-count_in issuer shard i s now db =
    elim (Bool-cases (str_eq issuer i && str_eq shard s)) [
      | inr other ↦ omega (arith, count_usage_other issuer shard i s now db other, ap one_if other)
      | inl same ↦
          let to_i : issuer ≡ i = (str_eq_iff issuer i).0 (ground (arith, same)) in
          let to_s : shard ≡ s = (str_eq_iff shard s).0 (ground (arith, same)) in
          let one : count_in i s (count_usage issuer shard now db).usage
              ≡ count_in i s db.usage + 1 =
            subst
              (λ j.
                count_in j s (count_usage issuer shard now db).usage ≡ count_in j s db.usage + 1)
              to_i
              (subst
                (λ t.
                  count_in issuer t (count_usage issuer shard now db).usage
                  ≡ count_in issuer t db.usage + 1)
                to_s (count_usage_self issuer shard now db)) in
          omega (arith, one, ap one_if same)
    ]

reserve_cursor-usage :
    (id : Str) (db : Db) (c : ℕ) (db' : Db)
    → reserve_cursor id db ≡ ok (c, db')
    → db'.usage ≡ db.usage
unfolding reserve_cursor
reserve_cursor-usage id db c db' e = elim (Option-cases (select_one (reservable id) db.lists)) [
  | inl full ↦ absurd (ground (arith, e, full))
  | inr (r, found) ↦
      let eq : record db { lists = update (reservable id) advance db.lists } ≡ db' =
        ground (arith, e, found) in
      sym (ap (λ (x : Db). x.usage) eq)
]

insert_allocation-usage :
    (id : Str) (idx : ℕ) (issuer : Str) (exp : ℕ) (db db' : Db)
    → insert_allocation id idx issuer exp db ≡ ok db'
    → db'.usage ≡ db.usage
unfolding insert_allocation
insert_allocation-usage id idx issuer exp db db' e =
    elim (Option-cases (select_one (same_slot id idx) db.allocations)) [
      | inr (a, taken) ↦ absurd (ground (arith, e, taken))
      | inl free ↦ elim (Option-cases (select_one (λ (r : ListMeta). str_eq r.id id) db.lists)) [
        | inl missing ↦ absurd (ground (arith, e, free, missing))
        | inr (lm, there) ↦ ground (arith, e, free, there)
      ]
    ]

bump_max_exp-usage : (id : Str) (exp : ℕ) (db : Db) → (bump_max_exp id exp db).usage ≡ db.usage
unfolding bump_max_exp
bump_max_exp-usage id exp db = refl

-- A reservation that succeeds adds one to the count of its issuer in its shard, and nothing to any
-- other account.
pub record_allocation-count_in :
    (id issuer shard : Str) (exp now : ℕ) (derive_index : ℕ → Result ℕ) (db : Db) (idx : ℕ)
    (db' : Db) (i s : Str)
    → record_allocation id issuer shard exp now derive_index db ≡ ok (idx, db')
    → count_in i s db'.usage ≡ count_in i s db.usage + one_if (str_eq issuer i && str_eq shard s)
record_allocation-count_in id issuer shard exp now derive_index db idx db' i s e =
    elim (Result-cases (reserve_cursor id db)) [
      | inl (x, bad) ↦ absurd (ground (arith, e, bad))
      | inr (c, taken) ↦ elim (Result-cases (derive_index c.0)) [
        | inl (x, bad) ↦ absurd (ground (arith, e, taken, bad))
        | inr (j, derived) ↦
            let before = bump_max_exp id exp c.1 in
            elim (Result-cases (insert_allocation id j issuer exp before)) [
              | inl (x, bad) ↦ absurd (ground (arith, e, taken, derived, bad))
              | inr (after, inserted) ↦
                  let db_eq : count_usage issuer shard now after ≡ db' =
                    ground (arith, e, taken, derived, inserted) in
                  let same : after.usage ≡ db.usage =
                    insert_allocation-usage id j issuer exp before after inserted
                    ∙ (bump_max_exp-usage id exp c.1 ∙ reserve_cursor-usage id db c.0 c.1 taken) in
                  sym (ap (λ (x : Db). count_in i s x.usage) db_eq)
                  ∙ (count_usage-count_in issuer shard i s now after
                      ∙ ap (λ us. count_in i s us + one_if (str_eq issuer i && str_eq shard s))
                          same)
            ]
      ]
    ]
