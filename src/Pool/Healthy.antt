-- ===== src/Pool/Healthy.antt =====
-- internal/pool/pool.go: the lists that the first loop of `EnsureHealthy` keeps and freezes.
pub mod Added
pub mod Width
use siros_status_service.Prelude.{
  ℕ, zero, suc, ◌+◌, ◌%◌, ◌-◌, ◌≤◌, ◌≡◌, refl, sym, ap, subst, ◌∙◌, inl, inr, Bool, Bool-cases,
  true, false, not, ◌&&◌, List, [], ◌∷◌, All, Option, Option-cases, none, some, length, arith, ltb,
  leb, if◌then◌else◌,
}
use siros_status_service.Prelude.Str.{Str, str_eq, str_eq_refl, str_eq_comm}
use siros_status_service.Result.{Result, Result-cases, ok, err, unavailable}
use siros_status_service.Redis.{Redis}
use siros_status_service.Rows.{
  Db, ListMeta, ListState, is_active, select, select_one, update, insert_by_age, order_by_age,
  insert_list, freeze_list,
}
use siros_status_service.Rows.Tables.{count, All-map, select-All, order_by_age-All}
use siros_status_service.World.{M, World, ◌>>=◌, call, random_bytes, draw, pure, lift, get_now}
use siros_status_service.Store.{create_list, active_lists, query_lists, freeze}
use siros_status_service.Store.Invariant.{IsUnique, true-false}
use siros_status_service.BitmapStore.{init}
use siros_status_service.Bitmap.{byte_len}
use siros_status_service.Allocator.{key_size}
use siros_status_service.ListId.{new_list_id}
use siros_status_service.Pool.{Manager, new_list, too_old, freeze_old, top_up, ensure_healthy}
use siros_status_service.Pool.Allocations.{started, keyed, named, drawn, filled, frozen_at}

module _ {ℓ} {A : Type ℓ} where
  pub count_selected :
      (p q : A → Bool) (xs : List A) → count q (select p xs) ≡ count (λ x. p x && q x) xs
  unfolding count select
  count_selected p q [] = refl
  count_selected p q (x ∷ xs) = ground (arith, count_selected p q xs)

  none-All : (p : A → Bool) (xs : List A) → select_one p xs ≡ none → All (λ x. p x ≡ false) xs
  unfolding select_one
  none-All p [] e = tt
  none-All p (x ∷ xs) e = elim (Bool-cases (p x)) [
    | inl hit ↦ absurd (ground (arith, e, hit))
    | inr miss ↦ (miss, none-All p xs (ground (arith, e, miss)))
  ]

-- From two facts of every element, a third.
All-with {ℓ κ ι ο} :
    {A : Type ℓ} (P : A → Type κ) (Q : A → Type ι) (S : A → Type ο) (xs : List A)
    → ((x : A) → P x → Q x → S x)
    → All P xs
    → All Q xs
    → All S xs
All-with P Q S [] h p q = tt
All-with P Q S (x ∷ xs) h p q = (h x p.0 q.0, All-with P Q S xs h p.1 q.1)

count_inserted :
    (q : ListMeta → Bool) (x : ListMeta) (xs : List ListMeta)
    → count q (insert_by_age x xs) ≡ count q (x ∷ xs)
unfolding count insert_by_age
count_inserted q x [] = refl
count_inserted q x (y ∷ ys) = ground (arith, count_inserted q x ys)

pub count_ordered :
    (q : ListMeta → Bool) (xs : List ListMeta) → count q (order_by_age xs) ≡ count q xs
unfolding count order_by_age
count_ordered q [] = refl
count_ordered q (x ∷ xs) = ground (arith, count_inserted q x (order_by_age xs), count_ordered q xs)

-- A row with the ID of another is that row.
abbrev pub IsOnly : List ListMeta → ListMeta → Type 0
IsOnly rows x = All (λ r. str_eq r.id x.id ≡ true → r ≡ x) rows

pub unique-IsOnly : (rows : List ListMeta) → IsUnique rows → All (IsOnly rows) rows
unique-IsOnly [] unique = tt
unique-IsOnly (x ∷ rs) unique =
    let apart = none-All (λ (y : ListMeta). str_eq y.id x.id) rs unique.0 in
    (
      (
        λ _. refl,
        All-map (λ y. str_eq y.id x.id ≡ false) (λ y. str_eq y.id x.id ≡ true → y ≡ x) rs
            (λ y no hit. absurd (true-false (sym hit ∙ no))) apart,
      ),
      All-with (λ y. str_eq y.id x.id ≡ false) (IsOnly rs) (IsOnly (x ∷ rs)) rs
          (λ y no only. (λ hit. absurd (true-false (sym hit ∙ (str_eq_comm x.id y.id ∙ no))), only))
          apart (unique-IsOnly rs unique.1),
    )

module _ (R : Redis) (m : Manager) (now : ℕ) where
  -- An ACTIVE list of the pool's shard of an allowed age.
  abbrev pub is_healthy : ListMeta → Bool
  is_healthy r = (str_eq r.shard_id m.shard_id && is_active r.state) && not (too_old R m now r)

  abbrev pub healthy : World R → ℕ
  healthy w = count is_healthy w.db.lists

  -- No healthy list has the ID.
  abbrev pub IsStale : Str → List ListMeta → Type 0
  IsStale id = All (λ r. str_eq r.id id ≡ true → is_healthy r ≡ false)

  pub only-IsStale :
      (x : ListMeta) (rows : List ListMeta)
      → too_old R m now x ≡ true
      → IsOnly rows x
      → IsStale x.id rows
  only-IsStale x rows old =
      All-map (λ r. str_eq r.id x.id ≡ true → r ≡ x)
        (λ r. str_eq r.id x.id ≡ true → is_healthy r ≡ false) rows
        (λ r only hit. ap is_healthy (only hit) ∙ ground (arith, old))

  abbrev frozen_rows : Str → List ListMeta → List ListMeta
  frozen_rows id =
      update (λ r. str_eq r.id id && is_active r.state) (λ r. record r { state = ListState.frozen })

  freeze-healthy :
      (id : Str) (rows : List ListMeta)
      → IsStale id rows
      → count is_healthy (frozen_rows id rows) ≡ count is_healthy rows
  unfolding count update
  freeze-healthy id [] stale = refl
  freeze-healthy id (r ∷ rs) stale = elim (Bool-cases (str_eq r.id id)) [
    | inr other ↦ ground (arith, other, freeze-healthy id rs stale.1)
    | inl hit ↦ elim (Bool-cases (is_active r.state)) [
      | inr inactive ↦ ground (arith, hit, inactive, freeze-healthy id rs stale.1)
      | inl active ↦ ground (arith, hit, active, stale.0 hit, freeze-healthy id rs stale.1)
    ]
  ]

  freeze-IsStale :
      (id j : Str) (rows : List ListMeta) → IsStale j rows → IsStale j (frozen_rows id rows)
  unfolding update
  freeze-IsStale id j [] stale = tt
  freeze-IsStale id j (r ∷ rs) stale = elim (Bool-cases (str_eq r.id id && is_active r.state)) [
    | inr other ↦ rw other (stale.0, freeze-IsStale id j rs stale.1)
    | inl hit ↦ rw hit ((λ same. ground arith), freeze-IsStale id j rs stale.1)
  ]

  abbrev pub is_fresh : ListMeta → Bool
  is_fresh r = not (too_old R m now r)

  -- The first loop keeps the lists of an allowed age and freezes no healthy one.
  abbrev pub FreezeOutcome : List ListMeta → World R → Result (List ListMeta) × World R → Type 0
  FreezeOutcome lms w (ok kept, w') =
      (length kept ≡ count is_fresh lms) × (healthy w' ≡ healthy w) × (w'.now ≡ w.now)
  FreezeOutcome lms w (err e, w') = Unit

  FreezeOutcome-old :
      (lm : ListMeta) (lms : List ListMeta) (w w₁ : World R) (o : Result (List ListMeta) × World R)
      → too_old R m now lm ≡ true
      → healthy w₁ ≡ healthy w
      → w₁.now ≡ w.now
      → FreezeOutcome lms w₁ o
      → FreezeOutcome (lm ∷ lms) w o
  unfolding count
  FreezeOutcome-old lm lms w w₁ (ok kept, w') old same clock done =
      (ground (arith, old, done.0), done.1 ∙ same, done.2 ∙ clock)
  FreezeOutcome-old lm lms w w₁ (err e, w') old same clock done = tt

  -- An old list among those that the loop looks at has no healthy row.
  abbrev pub AreStale : List ListMeta → World R → Type 0
  AreStale lms w = All (λ lm. too_old R m now lm ≡ true → IsStale lm.id w.db.lists) lms

  freeze_list-healthy :
      (id : Str) (db : Db)
      → IsStale id db.lists
      → count is_healthy (freeze_list id db).lists ≡ count is_healthy db.lists
  unfolding freeze_list
  freeze_list-healthy id db = freeze-healthy id db.lists

  freeze_list-IsStale :
      (id j : Str) (db : Db) → IsStale j db.lists → IsStale j (freeze_list id db).lists
  unfolding freeze_list
  freeze_list-IsStale id j db = freeze-IsStale id j db.lists

  freeze_down :
      (lm : ListMeta) (lms : List ListMeta) (w : World R)
      → too_old R m now lm ≡ true
      → w.faults w.calls ≡ true
      → freeze_old R m now (lm ∷ lms) w ≡ (err unavailable, record w { calls = w.calls + 1 })
  unfolding freeze_old freeze call
  freeze_down lm lms w old down = ground (arith, old, down)

  freeze_up :
      (lm : ListMeta) (lms : List ListMeta) (w : World R)
      → too_old R m now lm ≡ true
      → w.faults w.calls ≡ false
      → freeze_old R m now (lm ∷ lms) w
        ≡ freeze_old R m now lms (record w { calls = w.calls + 1; db = freeze_list lm.id w.db })
  unfolding freeze_old freeze call
  freeze_up lm lms w old up = ground (arith, old, up)

  pub freeze_old-FreezeOutcome :
      (lms : List ListMeta) (w : World R)
      → AreStale lms w
      → FreezeOutcome lms w (freeze_old R m now lms w)
  unfolding freeze_old count
  freeze_old-FreezeOutcome [] w stale = (refl, refl, refl)
  freeze_old-FreezeOutcome (lm ∷ lms) w stale = elim (Bool-cases (too_old R m now lm)) [
    | inl old ↦ elim (Bool-cases (w.faults w.calls)) [
      | inl down ↦
          let w₁ = record w { calls = w.calls + 1 } in
          let stop : freeze_old R m now (lm ∷ lms) w ≡ (err unavailable, w₁) =
            freeze_down lm lms w old down in
          subst (λ o. FreezeOutcome (lm ∷ lms) w o) (sym stop) tt
      | inr up ↦
          let w₁ = record w { calls = w.calls + 1; db = freeze_list lm.id w.db } in
          let go : freeze_old R m now (lm ∷ lms) w ≡ freeze_old R m now lms w₁ =
            freeze_up lm lms w old up in
          let stale₁ : AreStale lms w₁ =
            All-map (λ x. too_old R m now x ≡ true → IsStale x.id w.db.lists)
              (λ x. too_old R m now x ≡ true → IsStale x.id w₁.db.lists) lms
              (λ x s aged. freeze_list-IsStale lm.id x.id w.db (s aged)) stale.1 in
          subst (λ o. FreezeOutcome (lm ∷ lms) w o) (sym go)
            (FreezeOutcome-old lm lms w w₁ (freeze_old R m now lms w₁) old
              (freeze_list-healthy lm.id w.db (stale.0 old)) refl
              (freeze_old-FreezeOutcome lms w₁ stale₁))
    ]
    | inr young ↦
        let w₁ = (freeze_old R m now lms w).1 in
        let rest = freeze_old-FreezeOutcome lms w stale.1 in
        elim (Result-cases (freeze_old R m now lms w).0) [
          | inl (e, bad) ↦ ground (arith, young, bad)
          | inr (kept, good) ↦
              let done = subst (λ r. FreezeOutcome lms w (r, w₁)) good rest in
              let go : freeze_old R m now (lm ∷ lms) w ≡ (ok (lm ∷ kept), w₁) =
                ground (arith, young, good) in
              subst (λ o. FreezeOutcome (lm ∷ lms) w o) (sym go)
                (ground (arith, young, done.0), done.1, done.2)
        ]
  ]
