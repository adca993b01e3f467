-- ===== src/Decoy.antt =====
-- internal/decoy/decoy.go: noise in the unallocated part of a list. How many positions a pass tries
-- is computed in floating point and is a parameter, as a function of the unallocated number.
pub mod Steps
use siros_status_service.Prelude.{
  ℕ, zero, suc, ◌+◌, ◌-◌, Bool, true, false, List, [], ◌∷◌, ◌||◌, ◌==◌, if◌then◌else◌,
}
use siros_status_service.Prelude.Str.{Str}
use siros_status_service.Redis.{Redis}
use siros_status_service.Rows.{ListMeta}
use siros_status_service.Result.{ok}
use siros_status_service.World.{World, M, ◌>>=◌, ◌>>◌, pure, lift, try, int_n}
use siros_status_service.Bitmap.{
  Bitmap, byte_len, byte_offset, get_status, wrap_bitmap, status_valid, status_invalid,
  status_suspended,
}
use siros_status_service.Allocator.{Allocator, new_allocator, index}
use siros_status_service.Store.{is_allocated, noise_lists}
use siros_status_service.BitmapStore.{set_status, snapshot}
use siros_status_service.Ingestion.{mark_dirty}

pub record Noiser : Type 0 where
  -- The shard whose lists it noises and whose Redis `bitmaps` is.
  pub shard_id : Str
  -- `Rate > 0`
  pub enabled : Bool
  pub default_ttl_seconds : ℕ
  -- The number of positions to try, from the number of unallocated ones.
  pub targets : ℕ → ℕ

-- `nextDecoyStatus`, with the drawn bit: the next status and whether it changed.
unfoldable pub next_decoy_status : ℕ → ℕ → ℕ × Bool
next_decoy_status cur coin =
    if cur == status_valid
    then (if coin == 0 then (status_invalid, true) else (status_suspended, true))
    else if cur == status_suspended
    then (if coin == 0 then (status_valid, true) else (cur, false))
    else (cur, false)

abbrev act : {R : Redis} → (World R → World R) → M R (Unit {0})
act others w = (ok tt, others w)

module _ (R : Redis) (hmac : List ℕ → List ℕ → List ℕ) (n : Noiser) where
  -- One position of a pass over `lm`, where others act between the check of the tables and the write;
  -- true if it wrote.
  unfoldable pub noise_amid : (World R → World R) → ListMeta → Allocator → Bitmap → M R Bool
  unfolding next_decoy_status byte_offset is_allocated set_status
  noise_amid others lm alloc bm = do
    step ← int_n (lm.size - lm.cursor)
    idx ← lift (index hmac alloc (lm.cursor + step))
    cur ← lift (get_status bm idx)
    coin ← int_n 2
    let (next, changed) = next_decoy_status cur coin
    elim changed [
      | false ↦ pure false
      | true ↦ do
        taken ← is_allocated R lm.id idx
        elim taken [
          | true ↦ pure false
          | false ↦ do
            act others
            let (at, off) = byte_offset idx lm.bits
            set_status R n.shard_id lm.id at off lm.bits next
            pure true
        ]
    ]

  -- One position of a pass that runs alone.
  unfoldable pub noise_one : ListMeta → Allocator → Bitmap → M R Bool
  unfolding noise_amid
  noise_one = noise_amid (λ w. w)

  unfoldable pub noise_many : ℕ → ListMeta → Allocator → Bitmap → Bool → M R Bool
  unfolding noise_one
  noise_many zero lm alloc bm dirty = pure dirty
  noise_many (suc left) lm alloc bm dirty = do
    wrote ← noise_one lm alloc bm
    noise_many left lm alloc bm (dirty || wrote)

  unfoldable pub sweep_list : ListMeta → M R (Unit {0})
  unfolding noise_many snapshot mark_dirty
  sweep_list lm =
      let count = n.targets (lm.size - lm.cursor) in
      if lm.size - lm.cursor == 0 || count == 0 then pure tt else do
        alloc ← lift (new_allocator lm.fpe_key lm.size)
        raw ← snapshot R n.shard_id lm.id (byte_len lm.size lm.bits)
        bm ← lift (wrap_bitmap raw lm.size lm.bits)
        dirty ← noise_many count lm alloc bm false
        if dirty then mark_dirty lm.id n.default_ttl_seconds else pure tt

  -- The loop of `Sweep`, which logs an error of one list and goes on.
  unfoldable pub sweep_lists : List ListMeta → M R (Unit {0})
  unfolding sweep_list
  sweep_lists [] = pure tt
  sweep_lists (lm ∷ lms) = do _ ← try (sweep_list lm); sweep_lists lms

  unfoldable pub sweep : M R (Unit {0})
  unfolding sweep_lists noise_lists
  sweep = elim n.enabled [
    | false ↦ pure tt
    | true ↦ do lists ← noise_lists R n.shard_id; sweep_lists lists
  ]
