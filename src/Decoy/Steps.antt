-- ===== src/Decoy/Steps.antt =====
-- What one position of a noise pass may write.
use siros_status_service.Prelude.{
  ℕ, ◌+◌, ◌-◌, ◌%◌, ◌≡◌, refl, ap, ◌∙◌, ◌⊎◌, inl, inr, true, Bool-cases, List, none, Option-cases,
  arith,
}
use siros_status_service.Prelude.Str.{Str}
use siros_status_service.Result.{Result-cases, ok}
use siros_status_service.Redis.{Redis}
use siros_status_service.Rows.{ListMeta, select_one, same_slot}
use siros_status_service.Bitmap.{
  Bitmap, get_status, byte_offset, status_valid, status_invalid, status_suspended,
}
use siros_status_service.Allocator.{Allocator, index}
use siros_status_service.World.{World}
use siros_status_service.BitmapStore.{set_status}
use siros_status_service.Decoy.{Noiser, next_decoy_status, noise_amid}

-- One step of the noise: from VALID to one of the two others, or from SUSPENDED back to VALID.
abbrev pub IsDecoyStep : ℕ → ℕ → Type 0
IsDecoyStep cur next =
    ((cur ≡ status_valid) × ((next ≡ status_invalid) ⊎ (next ≡ status_suspended)))
    ⊎ ((cur ≡ status_suspended) × (next ≡ status_valid))

next_decoy_status-IsDecoyStep :
    (cur coin : ℕ)
    → (next_decoy_status cur coin).1 ≡ true
    → IsDecoyStep cur (next_decoy_status cur coin).0
unfolding next_decoy_status
next_decoy_status-IsDecoyStep cur coin h = ground arith

set_status-db :
    (R : Redis) (shard id : Str) (at off bits status : ℕ) (w : World R)
    → (set_status R shard id at off bits status w).1.db ≡ w.db
unfolding set_status
set_status-db R shard id at off bits status w = ground arith

module _ (R : Redis) (hmac : List ℕ → List ℕ → List ℕ) (n : Noiser) where
  -- The write at `idx` of a step away from the snapshot's status, in a world `v`.
  abbrev pub WritesAt : ListMeta → Bitmap → World R → World R → ℕ → Type 0
  WritesAt lm bm v w' idx =
      (cur next : ℕ) × (get_status bm idx ≡ ok cur)
      × IsDecoyStep cur next
      × (w'.redis
          ≡ (set_status R n.shard_id lm.id (byte_offset idx lm.bits).0 (byte_offset idx lm.bits).1
              lm.bits next v).1.redis)

  -- The effect of one position: none, or the one write after others have acted.
  abbrev pub Spares : (World R → World R) → ListMeta → Bitmap → World R → World R → Type 0
  Spares others lm bm w w' =
      ((w'.db ≡ w.db) × (w'.redis ≡ w.redis))
      ⊎ ((idx : ℕ) × (u : World R) × (u.db ≡ w.db)
          × (u.redis ≡ w.redis)
          × (select_one (same_slot lm.id idx) u.db.allocations ≡ none)
          × (w'.db ≡ (others u).db)
          × WritesAt lm bm (others u) w' idx)

  -- Whatever others do between the check of the tables and the write: a position of a noise pass never
  -- writes to the tables itself, and writes to Redis at most one status, in a step away from the
  -- status that the snapshot has there, at an index that is allocated to no one when the tables
  -- are checked, which is before the others act. What they allocate after the check is not
  -- spared.
  pub noise_amid-Spares :
      (others : World R → World R) (lm : ListMeta) (alloc : Allocator) (bm : Bitmap) (w : World R)
      → Spares others lm bm w (noise_amid R hmac n others lm alloc bm w).1
  unfolding noise_amid
  noise_amid-Spares others lm alloc bm w =
      let x = lm.cursor + w.random w.drawn % (lm.size - lm.cursor) in
      elim (Result-cases (index hmac alloc x)) [
        | inl (e, f) ↦ ground (arith, f)
        | inr (idx, f) ↦ elim (Result-cases (get_status bm idx)) [
          | inl (e, g) ↦ ground (arith, f, g)
          | inr (cur, g) ↦
              let coin = w.random (w.drawn + 1) % 2 in
              elim (Bool-cases (next_decoy_status cur coin).1) [
                | inr still ↦ ground (arith, f, g, still)
                | inl moves ↦ elim (Bool-cases (w.faults w.calls)) [
                  | inl down ↦ ground (arith, f, g, moves, down)
                  | inr up ↦
                      elim (Option-cases (select_one (same_slot lm.id idx) w.db.allocations)) [
                        | inr (a, taken) ↦ ground (arith, f, g, moves, up, taken)
                        | inl free ↦
                            let u = record w { drawn = w.drawn + 1 + 1; calls = w.calls + 1 } in
                            let at = byte_offset idx lm.bits in
                            let next = (next_decoy_status cur coin).0 in
                            let wrote =
                              set_status R n.shard_id lm.id at.0 at.1 lm.bits next (others u) in
                            let same : (noise_amid R hmac n others lm alloc bm w).1 ≡ wrote.1 =
                              ground (arith, f, g, moves, up, free) in
                            inr (
                              idx,
                              u,
                              refl,
                              refl,
                              free,
                              ap (λ (z : World R). z.db) same
                                  ∙ set_status-db R n.shard_id lm.id at.0 at.1 lm.bits next
                                      (others u),
                              (
                                cur,
                                next,
                                g,
                                next_decoy_status-IsDecoyStep cur coin moves,
                                ap (λ (z : World R). z.redis) same,
                              ),
                            )
                      ]
                ]
              ]
        ]
      ]
