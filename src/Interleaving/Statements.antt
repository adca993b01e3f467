-- ===== src/Interleaving/Statements.antt =====
-- The statements of `MetaStore` but for the reservation: what each leaves of the tables.
use siros_status_service.Prelude.{
  ℕ, ◌≡◌, ◌<◌, ◌^◌, refl, sym, ap, subst, ◌⊎◌, false, Bool-cases, inl, inr, List, ◌∷◌, All,
  Option-cases, none, arith, length,
}
use siros_status_service.Prelude.Str.{Str, str_eq}
use siros_status_service.Result.{Result, ok, err, ok_injective}
use siros_status_service.Redis.{Redis}
use siros_status_service.Rows.{
  ListMeta, ListState, Db, select_one, insert_list, freeze_list, archive_list, mark_list_purged,
}
use siros_status_service.Allocator.{key_size}
use siros_status_service.World.{World, call}
use siros_status_service.Store.{create_list, freeze, archive, mark_purged}
use siros_status_service.Store.Reserve.{IsAtomic}
use siros_status_service.Interleaving.{IsConsistent}
use siros_status_service.Interleaving.Listed.{listed_missing}
use siros_status_service.Interleaving.Kept.{cons-IsConsistent}

module _ (R : Redis) (hmac : List ℕ → List ℕ → List ℕ) where
  -- A call that leaves the tables as they were or as they are after an atomic change of them.
  pub after_call :
      {known : List ListMeta} (db db₁ db₂ : Db)
      → ((db₂ ≡ db) ⊎ (db₂ ≡ db₁))
      → IsConsistent hmac db known
      → IsConsistent hmac db₁ known
      → IsConsistent hmac db₂ known
  after_call {known = known} db db₁ db₂ (inl e) c c₁ =
      subst (λ d. IsConsistent hmac d known) (sym e) c
  after_call {known = known} db db₁ db₂ (inr e) c c₁ =
      subst (λ d. IsConsistent hmac d known) (sym e) c₁

  pub freeze_changes :
      (w : World R) (id : Str)
      → ((freeze R id w).1.db ≡ w.db) ⊎ ((freeze R id w).1.db ≡ freeze_list id w.db)
  unfolding freeze call
  freeze_changes w id = ground arith

  pub archive_changes :
      (w : World R) (id : Str)
      → ((archive R id w).1.db ≡ w.db) ⊎ ((archive R id w).1.db ≡ archive_list id w.now w.db)
  unfolding archive call
  archive_changes w id = ground arith

  pub mark_changes :
      (w : World R) (id : Str)
      → ((mark_purged R id w).1.db ≡ w.db)
        ⊎ ((mark_purged R id w).1.db ≡ mark_list_purged id w.now w.db)
  unfolding mark_purged call
  mark_changes w id = ground arith

  pub atomic_changes :
      {A : Type 0} (a : A) (db₁ : Db) (w : World R) (o : Result A × World R)
      → IsAtomic (ok (a, db₁)) w o
      → (o.1.db ≡ w.db) ⊎ (o.1.db ≡ db₁)
  atomic_changes a db₁ w (ok b, w') h = inr (sym (ap (λ q. q.1) (ok_injective h.0)))
  atomic_changes a db₁ w (err e, w') h = inl h.0

  abbrev row : Str → ℕ → ℕ → List ℕ → Str → ℕ → ListMeta
  row id bits size key shard now = record {
    id = id;
    bits = bits;
    size = size;
    cursor = 0;
    fpe_key = key;
    max_exp = none;
    state = ListState.active;
    created_at = now;
    archived_at = none;
    shard_id = shard;
    purged = false;
    purged_at = none;
  }

  pub create_list-IsConsistent :
      (w : World R) (known : List ListMeta) (id : Str) (bits size : ℕ) (key : List ℕ) (shard : Str)
      → All (λ k. str_eq id k.id ≡ false) known
      → length key ≡ key_size
      → 0 < size
      → size < 2 ^ 64
      → IsConsistent hmac w.db known
      → IsConsistent hmac (create_list R id bits size key shard w).1.db known
  unfolding create_list insert_list call
  create_list-IsConsistent w known id bits size key shard fresh keyed room small c =
      let P : Db → Type 0 = λ d. IsConsistent hmac d known in
      let db' = (create_list R id bits size key shard w).1.db in
      elim (Bool-cases (w.faults w.calls)) [
        | inl down ↦ let step : db' ≡ w.db = ground (arith, down) in subst P (sym step) c
        | inr up ↦ elim (Option-cases (select_one (λ r. str_eq r.id id) w.db.lists)) [
          | inr (r, taken) ↦
              let step : db' ≡ w.db = ground (arith, up, taken) in subst P (sym step) c
          | inl missing ↦
              let new = row id bits size key shard w.now in
              let step : db' ≡ record w.db { lists = new ∷ w.db.lists } =
                ground (arith, up, missing) in
              subst P (sym step) (
                cons-IsConsistent hmac known new w.db (listed_missing id w.db.lists missing) missing
                  fresh keyed room small refl refl c)
        ]
      ]
