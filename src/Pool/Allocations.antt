-- ===== src/Pool/Allocations.antt =====
-- internal/pool/pool.go: the pool makes and freezes lists, and never touches an allocation.
use siros_status_service.Prelude.{
  ℕ, zero, suc, ◌+◌, ◌%◌, ◌&&◌, Option, ◌-◌, ◌≡◌, refl, inl, inr, Bool, Bool-cases, List, [], ◌∷◌,
  length, arith,
}
use siros_status_service.Prelude.Str.{Str, str_eq}
use siros_status_service.Result.{Result-cases}
use siros_status_service.Redis.{Redis}
use siros_status_service.Rows.{ListMeta, insert_list, freeze_list, is_active}
use siros_status_service.World.{M, World, ◌>>=◌, call, random_bytes, pure, lift, get_now}
use siros_status_service.Store.{create_list, active_lists, query_lists, freeze}
use siros_status_service.BitmapStore.{init}
use siros_status_service.Bitmap.{byte_len}
use siros_status_service.Allocator.{key_size}
use siros_status_service.ListId.{check_shard, new_list_id}
use siros_status_service.Pool.{
  Manager, new_list, too_old, freeze_old, top_up, ensure_healthy, choose, pick_for_allocation,
}

-- A computation that leaves the allocations as they are.
abbrev pub Keeps : {R : Redis} {A : Type 0} → M R A → Type 0
Keeps m = (w : World _) → (m w).1.db.allocations ≡ w.db.allocations

module _ {R : Redis} where
  bind-Keeps :
      {A B : Type 0} (m : M R A) (f : A → M R B)
      → Keeps m
      → ((a : A) → Keeps (f a))
      → Keeps (m >>= f)
  bind-Keeps m f k kf w = elim (Result-cases (m w).0) [
    | inl (e, bad) ↦ ground (arith, bad, k w)
    | inr (a, good) ↦ ground (arith, good, k w, kf a (m w).1)
  ]

  call-Keeps : Keeps (call {R = R})
  unfolding call
  call-Keeps w = refl

  random_bytes-Keeps : (n : ℕ) → Keeps (random_bytes {R = R} n)
  unfolding random_bytes
  random_bytes-Keeps zero w = refl
  random_bytes-Keeps (suc n) w =
      bind-Keeps (random_bytes n) (λ xs. pure (w.random w.drawn % 256 ∷ xs)) (random_bytes-Keeps n)
        (λ xs w'. refl) (record w { drawn = w.drawn + 1 })

  query_lists-Keeps : (p : ListMeta → Bool) → Keeps (query_lists R p)
  unfolding query_lists call
  query_lists-Keeps p w = ground arith

  freeze-Keeps : (id : Str) → Keeps (freeze R id)
  unfolding freeze call freeze_list
  freeze-Keeps id w = ground arith

  init-Keeps : (shard id : Str) (n : ℕ) → Keeps (init R shard id n)
  unfolding init call
  init-Keeps shard id n w = ground arith

  create_list-Keeps :
      (id : Str) (bits size : ℕ) (key : List ℕ) (shard : Str)
      → Keeps (create_list R id bits size key shard)
  unfolding create_list call insert_list
  create_list-Keeps id bits size key shard w = ground arith

module _ (R : Redis) (m : Manager) where
  -- The parts of `createList`, from the last.
  unfoldable pub started : ListMeta → M R ListMeta
  started lm = init R m.shard_id lm.id (byte_len lm.size lm.bits) >>= λ _. pure lm

  unfoldable pub keyed : Str → List ℕ → M R ListMeta
  keyed id key = create_list R id m.bits m.capacity key m.shard_id >>= started

  unfoldable pub named : Str → M R ListMeta
  named id = call >>= λ _. random_bytes key_size >>= keyed id

  unfoldable pub drawn : List ℕ → M R ListMeta
  drawn suffix = lift (new_list_id m.shard_id suffix) >>= named

  new_list-Keeps : Keeps (new_list R m)
  unfolding new_list started keyed named drawn
  new_list-Keeps =
      bind-Keeps (lift (check_shard m.shard_id)) (λ _. call >>= λ _. random_bytes 16 >>= drawn)
        (λ w. refl)
        λ _.
          bind-Keeps call (λ _. random_bytes 16 >>= drawn) call-Keeps
            λ _. bind-Keeps (random_bytes 16) drawn (random_bytes-Keeps 16) λ suffix.
              bind-Keeps (lift (new_list_id m.shard_id suffix)) named (λ w. refl)
                λ id.
                  bind-Keeps call (λ _. random_bytes key_size >>= keyed id) call-Keeps
                    λ _.
                      bind-Keeps (random_bytes key_size) (keyed id) (random_bytes-Keeps key_size)
                        λ key.
                          bind-Keeps (create_list R id m.bits m.capacity key m.shard_id) started
                            (create_list-Keeps id m.bits m.capacity key m.shard_id)
                            λ lm.
                              bind-Keeps (init R m.shard_id lm.id (byte_len lm.size lm.bits))
                                (λ _. pure lm)
                                (init-Keeps m.shard_id lm.id (byte_len lm.size lm.bits)) λ _ w. refl

  freeze_old-Keeps : (now : ℕ) (lms : List ListMeta) → Keeps (freeze_old R m now lms)
  unfolding freeze_old
  freeze_old-Keeps now [] w = refl
  freeze_old-Keeps now (lm ∷ lms) w = elim (Bool-cases (too_old R m now lm)) [
    | inl old ↦ ground (
      arith,
      old,
      bind-Keeps (freeze R lm.id) (λ _. freeze_old R m now lms) (freeze-Keeps lm.id)
          (λ _. freeze_old-Keeps now lms) w,
    )
    | inr young ↦ ground (
      arith,
      young,
      bind-Keeps (freeze_old R m now lms) (λ rest. pure (lm ∷ rest)) (freeze_old-Keeps now lms)
          (λ rest w'. refl) w,
    )
  ]

  top_up-Keeps : (missing : ℕ) → Keeps (top_up R m missing)
  unfolding top_up
  top_up-Keeps zero w = refl
  top_up-Keeps (suc missing) w =
      bind-Keeps (new_list R m) (λ _. top_up R m missing) new_list-Keeps (λ _. top_up-Keeps missing)
        w

  active_lists-Keeps : Keeps (active_lists R m.shard_id)
  unfolding active_lists
  active_lists-Keeps = query_lists-Keeps (λ r. str_eq r.shard_id m.shard_id && is_active r.state)

  -- The parts of `EnsureHealthy`, from the last.
  unfoldable pub filled : List ListMeta → M R (Unit {0})
  filled kept = top_up R m (m.width - length kept)

  unfoldable pub frozen_at : List ListMeta → ℕ → M R (Unit {0})
  frozen_at active now = freeze_old R m now active >>= filled

  ensure_healthy-Keeps : Keeps (ensure_healthy R m)
  unfolding ensure_healthy filled frozen_at
  ensure_healthy-Keeps =
      bind-Keeps (active_lists R m.shard_id) (λ active. get_now >>= frozen_at active)
        active_lists-Keeps
        λ active.
          bind-Keeps get_now (frozen_at active) (λ w. refl)
            λ now.
              bind-Keeps (freeze_old R m now active) filled (freeze_old-Keeps now active)
                λ kept. top_up-Keeps (m.width - length kept)

  choose-Keeps : (active : List ListMeta) → Keeps (choose R m active)
  choose-Keeps active w = refl

  picked : List ListMeta → M R (Option ListMeta)
  picked [] = ensure_healthy R m >>= λ _. active_lists R m.shard_id >>= choose R m
  picked (lm ∷ lms) = choose R m (lm ∷ lms)

  picked-Keeps : (active : List ListMeta) → Keeps (picked active)
  unfolding picked
  picked-Keeps [] =
      bind-Keeps (ensure_healthy R m) (λ _. active_lists R m.shard_id >>= choose R m)
        ensure_healthy-Keeps
        λ _. bind-Keeps (active_lists R m.shard_id) (choose R m) active_lists-Keeps choose-Keeps
  picked-Keeps (lm ∷ lms) = choose-Keeps (lm ∷ lms)

  pub pick_for_allocation-Keeps : Keeps (pick_for_allocation R m)
  unfolding pick_for_allocation picked
  pick_for_allocation-Keeps w = elim (Result-cases (active_lists R m.shard_id w).0) [
    | inl (e, bad) ↦ ground (arith, bad, active_lists-Keeps w)
    | inr ([], good) ↦
        ground (arith, good, active_lists-Keeps w, picked-Keeps [] (active_lists R m.shard_id w).1)
    | inr (lm ∷ lms, good) ↦
        ground (
          arith,
          good,
          active_lists-Keeps w,
          picked-Keeps (lm ∷ lms) (active_lists R m.shard_id w).1,
        )
  ]
