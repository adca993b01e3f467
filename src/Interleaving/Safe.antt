-- ===== src/Interleaving/Safe.antt =====
-- What holds however the services interleave.
use siros_status_service.Prelude.{
  ℕ, ◌≡◌, ◌<◌, sym, subst, ◌⊎◌, inl, inr, List, [], ◌∷◌, ◌++◌, All, some, none, arith, get_elem?,
  zero, suc,
}
use siros_status_service.Prelude.Str.{Str}
use siros_status_service.Result.{Result, ok, err, unavailable, list_full, no_convergence}
use siros_status_service.Redis.{Redis}
use siros_status_service.Rows.{ListMeta, Db, select_one, same_slot}
use siros_status_service.Allocator.{Allocator, new_allocator, index}
use siros_status_service.World.{World}
use siros_status_service.Store.{delete_list, reserve_cursor_and_record}
use siros_status_service.Store.Reserve.{
  record_allocation, IsAtomic, reserve_cursor_and_record-IsAtomic,
}
use siros_status_service.Store.Delete.{without_list, delete_list-IsAtomic}
use siros_status_service.Store.Recorded.{row_for}
use siros_status_service.Interleaving.{Run, IsSame, IsConsistent}
use siros_status_service.Interleaving.Listed.{unique-IsSame}
use siros_status_service.Interleaving.Kept.{lifecycle-IsConsistent, without_list-IsConsistent}
use siros_status_service.Interleaving.Statements.{
  after_call, freeze_changes, archive_changes, mark_changes, atomic_changes,
  create_list-IsConsistent,
}
use siros_status_service.Interleaving.Reserved.{ReservedOutcome, record_allocation-ReservedOutcome}

element-All :
    {A : Type 0} (P : A → Type 0) (xs : List A) (i : ℕ) (x : A)
    → get_elem? xs i ≡ some x
    → All P xs
    → P x
element-All P [] i x e all = cc
element-All P (y ∷ ys) zero x e all = let same : y ≡ x = ground (arith, e) in subst P same all.0
element-All P (y ∷ ys) (suc i) x e all = element-All P ys i x e all.1

append-All : {A : Type 0} (P : A → Type 0) (xs ys : List A) → All P xs → All P ys → All P (xs ++ ys)
append-All P [] ys a b = b
append-All P (x ∷ xs) ys a b = (a.0, append-All P xs ys a.1 b)

module _ (R : Redis) (hmac : List ℕ → List ℕ → List ℕ) where
  -- What a reservation comes to.
  abbrev pub SlotOutcome : ListMeta → Str → ℕ → World R → Result ℕ × World R → Type 0
  SlotOutcome lm issuer exp w (ok idx, w') =
      (idx < lm.size)
      × (select_one (same_slot lm.id idx) w.db.allocations ≡ none)
      × (w'.db.allocations ≡ row_for lm.id idx issuer exp ∷ w.db.allocations)
  SlotOutcome lm issuer exp w (err e, w') =
      (w'.db ≡ w.db) × ((e ≡ unavailable) ⊎ (e ≡ list_full) ⊎ (e ≡ no_convergence))

  module _ (known : List ListMeta) (lm : ListMeta) (alloc : Allocator) (issuer shard : Str)
      (exp : ℕ) (w : World R) (c : IsConsistent hmac w.db known)
      (agrees : All (IsSame lm) w.db.lists)
      (opens : new_allocator lm.fpe_key lm.size ≡ ok alloc) where
    abbrev step_of : Result (ℕ × Db)
    step_of = record_allocation lm.id issuer shard exp w.now (index hmac alloc) w.db

    abbrev Reserved : Result (ℕ × Db) → Type 0
    Reserved = ReservedOutcome hmac known lm alloc issuer shard exp w.now w.db c agrees opens

    IsAtomic-SlotOutcome :
        (o : Result ℕ × World R)
        → IsAtomic step_of w o
        → Reserved step_of
        → IsConsistent hmac o.1.db known × SlotOutcome lm issuer exp w o
    IsAtomic-SlotOutcome (ok idx, w') (step, _, _) r =
        let (c', below, free, added) = subst Reserved step r in (c', (below, free, added))
    IsAtomic-SlotOutcome (err e, w') (same, inl down, _, _) r =
        (subst (λ d. IsConsistent hmac d known) (sym same) c, (same, inl down))
    IsAtomic-SlotOutcome (err e, w') (same, inr step, _, _) r =
        (subst (λ d. IsConsistent hmac d known) (sym same) c, (same, inr (subst Reserved step r)))

    reserves-IsConsistent :
        IsConsistent hmac
          (reserve_cursor_and_record R lm.id issuer shard exp (index hmac alloc) w).1.db
          known
        × SlotOutcome lm issuer exp w
            (reserve_cursor_and_record R lm.id issuer shard exp (index hmac alloc) w)
    reserves-IsConsistent =
        IsAtomic-SlotOutcome _
          (reserve_cursor_and_record-IsAtomic R lm.id issuer shard exp (index hmac alloc) w)
          (record_allocation-ReservedOutcome hmac known lm alloc issuer shard exp w.now w.db c
            agrees opens)

  agrees_at :
      (db : Db) (known : List ListMeta) (i : ℕ) (lm : ListMeta)
      → IsConsistent hmac db known
      → get_elem? known i ≡ some lm
      → All (IsSame lm) db.lists
  agrees_at db known i lm c at = element-All (λ k. All (IsSame k) db.lists) known i lm at c.agreed

  reads-IsConsistent :
      (db : Db) (known : List ListMeta)
      → IsConsistent hmac db known
      → IsConsistent hmac db (db.lists ++ known)
  reads-IsConsistent db known c = record {
    valid = c.valid;
    referenced = c.referenced;
    agreed = append-All _ db.lists known (unique-IsSame db.lists c.valid.unique) c.agreed;
  }

  Run-IsConsistent :
      (db : Db) (known : List ListMeta) → Run R hmac db known → IsConsistent hmac db known
  Run-IsConsistent _ _ Run.starts = record {
    valid = record { unique = tt; sound = tt };
    referenced = tt;
    agreed = tt;
  }
  Run-IsConsistent _ _ (Run.reads {db} {known} run) =
      reads-IsConsistent db known (Run-IsConsistent db known run)
  Run-IsConsistent _ _ (Run.creates w {known} id bits size key shard fresh keyed room small run) =
      create_list-IsConsistent R hmac w known id bits size key shard fresh keyed room small
        (Run-IsConsistent w.db known run)
  Run-IsConsistent _ _ (Run.freezes w {known} id run) =
      let c = Run-IsConsistent w.db known run in
      after_call R hmac w.db _ _ (freeze_changes R hmac w id) c
        (lifecycle-IsConsistent hmac known id w.now w.db c).0
  Run-IsConsistent _ _ (Run.archives w {known} id run) =
      let c = Run-IsConsistent w.db known run in
      after_call R hmac w.db _ _ (archive_changes R hmac w id) c
        (lifecycle-IsConsistent hmac known id w.now w.db c).1
  Run-IsConsistent _ _ (Run.marks w {known} id run) =
      let c = Run-IsConsistent w.db known run in
      after_call R hmac w.db _ _ (mark_changes R hmac w id) c
        (lifecycle-IsConsistent hmac known id w.now w.db c).2
  Run-IsConsistent _ _ (Run.deletes w {known} id run) =
      let c = Run-IsConsistent w.db known run in
      after_call R hmac w.db _ _
        (atomic_changes R hmac tt (without_list id w.db) w (delete_list R id w)
          (delete_list-IsAtomic R id w))
        c (without_list-IsConsistent hmac known id w.db c)
  Run-IsConsistent _ _ (Run.reserves w {known} lm alloc issuer shard exp i at opens run) =
      let c = Run-IsConsistent w.db known run in
      (reserves-IsConsistent known lm alloc issuer shard exp w c (agrees_at w.db known i lm c at)
        opens).0

  -- However the statements and transactions of the services interleave, from empty tables, and
  -- whichever of their calls fail, with a new ID for each list and an allocator that was opened for a
  -- row read at any earlier time: a reservation gives an index below the list's size that the list
  -- has given to no one, and records it for the issuer; or it changes nothing, because a call
  -- failed, the list has no room or is no more ACTIVE, or the walk does not converge. It never meets
  -- a constraint of the tables.
  pub Run-SlotOutcome :
      (w : World R) (known : List ListMeta) (i : ℕ) (lm : ListMeta) (alloc : Allocator)
      (issuer shard : Str) (exp : ℕ)
      → Run R hmac w.db known
      → get_elem? known i ≡ some lm
      → new_allocator lm.fpe_key lm.size ≡ ok alloc
      → SlotOutcome lm issuer exp w
          (reserve_cursor_and_record R lm.id issuer shard exp (index hmac alloc) w)
  Run-SlotOutcome w known i lm alloc issuer shard exp run at opens =
      let c = Run-IsConsistent w.db known run in
      (reserves-IsConsistent known lm alloc issuer shard exp w c (agrees_at w.db known i lm c at)
        opens).1
