-- ===== src/Pool/Healthy/Added.antt =====
-- internal/pool/pool.go: how many healthy lists `createList` and its loop add.
use siros_status_service.Prelude.{
  ℕ, zero, suc, ◌+◌, ◌%◌, ◌≡◌, refl, sym, ap, subst, ◌∙◌, inl, inr, Bool-cases, true, false, List,
  ◌∷◌, Option-cases, none, arith,
}
use siros_status_service.Prelude.Str.{Str, str_eq, str_eq_refl}
use siros_status_service.Result.{Result, Result-cases, ok, err}
use siros_status_service.Redis.{Redis}
use siros_status_service.Rows.{Db, ListMeta, ListState, select_one, insert_list}
use siros_status_service.Rows.Tables.{count}
use siros_status_service.World.{M, World, ◌>>=◌, call, random_bytes, draw, pure, lift}
use siros_status_service.Store.{create_list}
use siros_status_service.BitmapStore.{init}
use siros_status_service.Bitmap.{byte_len}
use siros_status_service.Allocator.{key_size}
use siros_status_service.ListId.{check_shard, new_list_id}
use siros_status_service.Pool.{Manager, new_list, top_up}
use siros_status_service.Pool.Allocations.{started, keyed, named, drawn}
use siros_status_service.Pool.Healthy.{is_healthy, healthy}

module _ (R : Redis) (m : Manager) (now : ℕ) where
  -- A computation that makes so many healthy lists, if it succeeds at the time `now`.
  abbrev pub AddsOutcome : {A : Type 0} → ℕ → World R → Result A × World R → Type 0
  AddsOutcome k w (ok a, w') = (healthy R m now w' ≡ healthy R m now w + k) × (w'.now ≡ w.now)
  AddsOutcome k w (err e, w') = Unit

  abbrev pub Adds : {A : Type 0} → ℕ → M R A → Type 0
  Adds k f = (w : World R) → w.now ≡ now → AddsOutcome k w (f w)

  AddsOutcome-then :
      {A : Type 0} (j k n : ℕ) (w w₁ : World R) (o : Result A × World R)
      → n ≡ j + k
      → healthy R m now w₁ ≡ healthy R m now w + j
      → w₁.now ≡ w.now
      → AddsOutcome k w₁ o
      → AddsOutcome n w o
  AddsOutcome-then j k n w w₁ (ok a, w') sum first clock rest =
      (omega (arith, sum, first, rest.0), rest.1 ∙ clock)
  AddsOutcome-then j k n w w₁ (err e, w') sum first clock rest = tt

  bind-Adds :
      {A B : Type 0} (j k n : ℕ) (f : M R A) (g : A → M R B)
      → n ≡ j + k
      → Adds j f
      → ((a : A) → Adds k (g a))
      → Adds n (f >>= g)
  bind-Adds j k n f g sum first rest w clock =
      let w₁ = (f w).1 in
      elim (Result-cases (f w).0) [
        | inl (e, bad) ↦ ground (arith, bad)
        | inr (a, good) ↦
            let done = subst (λ r. AddsOutcome j w (r, w₁)) good (first w clock) in
            let go : (f >>= g) w ≡ g a w₁ = ground (arith, good) in
            subst (λ o. AddsOutcome n w o) (sym go)
              (AddsOutcome-then j k n w w₁ (g a w₁) sum done.0 done.1 (rest a w₁ (done.1 ∙ clock)))
      ]

  lift-Adds : {A : Type 0} (r : Result A) → Adds 0 (lift {R = R} r)
  lift-Adds (ok a) w clock = (omega arith, refl)
  lift-Adds (err e) w clock = tt

  call-Adds : Adds 0 (call {R = R})
  unfolding call
  call-Adds w clock = ground arith

  random_bytes-Adds : (n : ℕ) → Adds 0 (random_bytes {R = R} n)
  unfolding random_bytes
  random_bytes-Adds zero = λ w clock. (omega arith, refl)
  random_bytes-Adds (suc n) =
      bind-Adds 0 0 0 draw (λ x. random_bytes n >>= λ xs. pure (x % 256 ∷ xs)) (omega arith)
        (λ w clock. (omega arith, refl))
        λ x.
          bind-Adds 0 0 0 (random_bytes n) (λ xs. pure (x % 256 ∷ xs)) (omega arith)
            (random_bytes-Adds n) λ xs w clock. (omega arith, refl)

  init-Adds : (shard id : Str) (n : ℕ) → Adds 0 (init R shard id n)
  unfolding init call
  init-Adds shard id n w clock = ground arith

  abbrev new_row : Str → List ℕ → ListMeta
  new_row id key = record {
    id = id;
    bits = m.bits;
    size = m.capacity;
    cursor = 0;
    fpe_key = key;
    max_exp = none;
    state = ListState.active;
    created_at = now;
    archived_at = none;
    shard_id = m.shard_id;
    purged = false;
    purged_at = none;
  }

  new_row-is_healthy : (id : Str) (key : List ℕ) → is_healthy R m now (new_row id key) ≡ true
  new_row-is_healthy id key = ground (arith, str_eq_refl m.shard_id)

  insert_list-healthy :
      (id : Str) (key : List ℕ) (db db' : Db)
      → insert_list id m.bits m.capacity key m.shard_id now db ≡ ok db'
      → count (is_healthy R m now) db'.lists ≡ count (is_healthy R m now) db.lists + 1
  unfolding insert_list count
  insert_list-healthy id key db db' e =
      elim (Option-cases (select_one (λ (r : ListMeta). str_eq r.id id) db.lists)) [
        | inr (r, taken) ↦ absurd (ground (arith, e, taken))
        | inl free ↦
            let row : ListMeta = new_row id key in
            let eq : record db { lists = row ∷ db.lists } ≡ db' = ground (arith, e, free) in
            sym (ap (λ (x : Db). count (is_healthy R m now) x.lists) eq)
            ∙ ground (arith, new_row-is_healthy id key)
      ]

  create_list-Adds :
      (id : Str) (key : List ℕ) → Adds 1 (create_list R id m.bits m.capacity key m.shard_id)
  unfolding create_list call
  create_list-Adds id key w clock = elim (Bool-cases (w.faults w.calls)) [
    | inl down ↦ ground (arith, down)
    | inr up ↦ elim (Result-cases (insert_list id m.bits m.capacity key m.shard_id w.now w.db)) [
      | inl (e, bad) ↦ ground (arith, up, bad)
      | inr (db', good) ↦
          let more = insert_list-healthy id key w.db db' (
            subst (λ t. insert_list id m.bits m.capacity key m.shard_id t w.db ≡ ok db') clock
              good) in
          ground (arith, up, good, more)
    ]
  ]

  new_list-Adds : Adds 1 (new_list R m)
  unfolding new_list started keyed named drawn
  new_list-Adds =
      bind-Adds 0 1 1 (lift (check_shard m.shard_id))
        (λ _. call >>= λ _. random_bytes 16 >>= drawn R m) (omega arith)
        (lift-Adds (check_shard m.shard_id))
        λ _.
          bind-Adds 0 1 1 call (λ _. random_bytes 16 >>= drawn R m) (omega arith) call-Adds
            λ _.
              bind-Adds 0 1 1 (random_bytes 16) (drawn R m) (omega arith) (random_bytes-Adds 16)
                λ suffix.
                  bind-Adds 0 1 1 (lift (new_list_id m.shard_id suffix)) (named R m) (omega arith)
                    (lift-Adds (new_list_id m.shard_id suffix))
                    λ id.
                      bind-Adds 0 1 1 call (λ _. random_bytes key_size >>= keyed R m id)
                        (omega arith) call-Adds
                        λ _.
                          bind-Adds 0 1 1 (random_bytes key_size) (keyed R m id) (omega arith)
                            (random_bytes-Adds key_size)
                            λ key.
                              bind-Adds 1 0 1 (create_list R id m.bits m.capacity key m.shard_id)
                                (started R m) (omega arith) (create_list-Adds id key)
                                λ lm.
                                  bind-Adds 0 0 0
                                    (init R m.shard_id lm.id (byte_len lm.size lm.bits))
                                    (λ _. pure lm) (omega arith)
                                    (init-Adds m.shard_id lm.id (byte_len lm.size lm.bits))
                                    λ _ w clock. (omega arith, refl)

  pub top_up-Adds : (missing : ℕ) → Adds missing (top_up R m missing)
  unfolding top_up
  top_up-Adds zero = λ w clock. (omega arith, refl)
  top_up-Adds (suc missing) =
      bind-Adds 1 missing (suc missing) (new_list R m) (λ _. top_up R m missing) (omega arith)
        new_list-Adds (λ _. top_up-Adds missing)
