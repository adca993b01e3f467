-- ===== src/Interleaving/Reserved.antt =====
-- A reservation for a row that was read at any earlier time, on consistent tables.
use siros_status_service.Prelude.{
  ℕ, ◌≡◌, ◌<◌, refl, sym, ap, subst, ◌∙◌, ◌⊎◌, true, inl, inr, List, ◌∷◌, All, Option-cases, some,
  none, arith,
}
use siros_status_service.Prelude.Str.{Str, str_eq}
use siros_status_service.Result.{Result, Result-cases, ok, err, list_full, no_convergence}
use siros_status_service.Rows.{
  ListMeta, Db, select_one, update, reservable, advance, greatest, same_slot, reserve_cursor,
  bump_max_exp, insert_allocation, count_usage,
}
use siros_status_service.Rows.Tables.{select_one-All, update-All, All-map}
use siros_status_service.Allocator.{Allocator, new_allocator, index}
use siros_status_service.Store.Reserve.{record_allocation}
use siros_status_service.Store.Recorded.{row_for}
use siros_status_service.Store.Invariant.{IsValid, index_of, reservable_parts}
use siros_status_service.Store.Allocate.{
  RecordOutcome, record_allocation-RecordOutcome, count_usage_lists,
}
use siros_status_service.Interleaving.{listed, IsSame, IsConsistent}
use siros_status_service.Interleaving.Listed.{listed-update, listed-select_one}

-- Two derivations that agree on every cursor make the same reservation.
record_allocation_same :
    (id issuer shard : Str) (exp now : ℕ) (d d' : ℕ → Result ℕ) (db : Db)
    → ((c : ℕ) → d c ≡ d' c)
    → record_allocation id issuer shard exp now d db
      ≡ record_allocation id issuer shard exp now d' db
record_allocation_same id issuer shard exp now d d' db same =
    elim (Result-cases (reserve_cursor id db)) [
      | inl (e, bad) ↦ rw bad refl
      | inr (c, good) ↦ rw (good, same c.0) refl
    ]

insert_allocation-lists :
    (id : Str) (idx : ℕ) (issuer : Str) (exp : ℕ) (db db' : Db)
    → insert_allocation id idx issuer exp db ≡ ok db'
    → db'.lists ≡ db.lists
unfolding insert_allocation
insert_allocation-lists id idx issuer exp db db' e =
    elim (Option-cases (select_one (same_slot id idx) db.allocations)) [
      | inr (a, taken) ↦ absurd (ground (arith, e, taken))
      | inl free ↦ elim (Option-cases (select_one (λ (r : ListMeta). str_eq r.id id) db.lists)) [
        | inl missing ↦ absurd (ground (arith, e, free, missing))
        | inr (lm, there) ↦ ground (arith, e, free, there)
      ]
    ]

-- The rows of the lists after a reservation.
abbrev rows_after : Str → ℕ → List ListMeta → List ListMeta
rows_after id exp rs =
    update (λ r. str_eq r.id id) (λ r. record r { max_exp = greatest r.max_exp exp })
      (update (reservable id) advance rs)

record_allocation-lists :
    (id issuer shard : Str) (exp now : ℕ) (d : ℕ → Result ℕ) (db : Db) (idx : ℕ) (db' : Db)
    → record_allocation id issuer shard exp now d db ≡ ok (idx, db')
    → db'.lists ≡ rows_after id exp db.lists
unfolding reserve_cursor bump_max_exp
record_allocation-lists id issuer shard exp now d db idx db' e =
    elim (Option-cases (select_one (reservable id) db.lists)) [
      | inl full ↦ absurd (ground (arith, e, full))
      | inr (r, found) ↦
          let reserved = record db { lists = update (reservable id) advance db.lists } in
          elim (Result-cases (d r.cursor)) [
            | inl (x, bad) ↦ absurd (ground (arith, e, found, bad))
            | inr (i, derived) ↦
                let before = bump_max_exp id exp reserved in
                elim (Result-cases (insert_allocation id i issuer exp before)) [
                  | inl (x, bad) ↦ absurd (ground (arith, e, found, derived, bad))
                  | inr (after, inserted) ↦
                      let eq : count_usage issuer shard now after ≡ db' =
                        ground (arith, e, found, derived, inserted) in
                      sym (ap (λ (x : Db). x.lists) eq)
                      ∙ ((count_usage_lists issuer shard now after).0
                          ∙ insert_allocation-lists id i issuer exp before after inserted)
                ]
          ]
    ]

module _ (hmac : List ℕ → List ℕ → List ℕ) (known : List ListMeta) (lm : ListMeta)
    (alloc : Allocator) (issuer shard : Str) (exp now : ℕ) (db : Db)
    (c : IsConsistent hmac db known) (agrees : All (IsSame lm) db.lists)
    (opens : new_allocator lm.fpe_key lm.size ≡ ok alloc) where
  abbrev pub ReservedOutcome : Result (ℕ × Db) → Type 0
  ReservedOutcome (ok (idx, db')) =
      IsConsistent hmac db' known
      × (idx < lm.size)
      × (select_one (same_slot lm.id idx) db.allocations ≡ none)
      × (db'.allocations ≡ row_for lm.id idx issuer exp ∷ db.allocations)
  ReservedOutcome (err e) = (e ≡ list_full) ⊎ (e ≡ no_convergence)

  rows_after-listed : (id : Str) → listed id (rows_after lm.id exp db.lists) ≡ listed id db.lists
  rows_after-listed id =
      listed-update id _ _ _ (λ x. refl) ∙ listed-update id _ _ db.lists (λ x. refl)

  reserved-IsConsistent :
      (idx : ℕ) (db' : Db)
      → IsValid hmac db'
      → db'.allocations ≡ row_for lm.id idx issuer exp ∷ db.allocations
      → db'.lists ≡ rows_after lm.id exp db.lists
      → listed lm.id db.lists ≡ true
      → IsConsistent hmac db' known
  reserved-IsConsistent idx db' v added rows there = record {
    valid = v;
    referenced =
        subst (All (λ a. listed a.list_id db'.lists ≡ true)) (sym added)
          (kept lm.id there, All-map _ _ db.allocations (λ a h. kept a.list_id h) c.referenced);
    agreed =
        All-map _ _ known
          (λ k all. subst (All (IsSame k)) (sym rows) (
            update-All (IsSame k) _ _ _ (λ x _ s. s)
              (update-All (IsSame k) (reservable lm.id) advance db.lists (λ x _ s. s) all)))
          c.agreed;
  }
    where
      kept : (id : Str) → listed id db.lists ≡ true → listed id db'.lists ≡ true
      kept id h = ap (listed id) rows ∙ (rows_after-listed id ∙ h)

  -- With room in the list, the row's own derivation is the one that the allocator was opened for.
  derivation_same :
      (r : ListMeta) (at : ℕ)
      → select_one (reservable lm.id) db.lists ≡ some r
      → index hmac alloc at ≡ index_of hmac r at
  unfolding index_of
  derivation_same r at found =
      let (passes, same) = select_one-All (IsSame lm) (reservable lm.id) db.lists r agrees found in
      let (key, size) = same (reservable_parts lm.id r passes).0 in sym (rw (key, size, opens) refl)

  RecordOutcome-ReservedOutcome :
      (r : ListMeta) (res : Result (ℕ × Db))
      → select_one (reservable lm.id) db.lists ≡ some r
      → record_allocation lm.id issuer shard exp now (index hmac alloc) db ≡ res
      → RecordOutcome hmac lm.id issuer exp r db res
      → ReservedOutcome res
  RecordOutcome-ReservedOutcome r (err e) found made o = inr o
  RecordOutcome-ReservedOutcome r (ok (idx, db')) found made (below, free, valid, added) =
      let (passes, same) = select_one-All (IsSame lm) (reservable lm.id) db.lists r agrees found in
      let of_id = (reservable_parts lm.id r passes).0 in
      (
        reserved-IsConsistent idx db' valid added
            (record_allocation-lists lm.id issuer shard exp now (index hmac alloc) db idx db' made)
            (listed-select_one (reservable lm.id) lm.id db.lists r found of_id),
        subst (λ n. idx < n) (same of_id).1 below,
        free,
        added,
      )

  pub record_allocation-ReservedOutcome :
      ReservedOutcome (record_allocation lm.id issuer shard exp now (index hmac alloc) db)
  unfolding reserve_cursor
  record_allocation-ReservedOutcome = elim (Option-cases (select_one (reservable lm.id) db.lists)) [
    | inl full ↦
        let step : record_allocation lm.id issuer shard exp now (index hmac alloc) db
            ≡ err list_full =
          ground (arith, full) in
        subst ReservedOutcome (sym step) (inl refl)
    | inr (r, found) ↦
        let step =
          record_allocation_same lm.id issuer shard exp now (index hmac alloc) (index_of hmac r) db
            (λ at. derivation_same r at found) in
        RecordOutcome-ReservedOutcome r _ found refl (
          subst (RecordOutcome hmac lm.id issuer exp r db) (sym step)
            (record_allocation-RecordOutcome hmac lm.id issuer shard exp now db r c.valid found))
  ]
