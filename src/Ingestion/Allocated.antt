-- ===== src/Ingestion/Allocated.antt =====
-- internal/ingestion/handlers.go: what an answer to `POST /allocate` means for the tables and Redis.
use siros_status_service.Prelude.{ℕ, ◌+◌, ◌≤◌, ◌≡◌, ◌⊎◌, List, ◌∷◌, Option, none, some}
use siros_status_service.Prelude.Str.{Str}
use siros_status_service.Result.{Result, ok, err}
use siros_status_service.Redis.{Redis, Laws, bitmap_key}
use siros_status_service.Rows.{ListMeta, Allocation, select_one, same_slot}
use siros_status_service.World.{World}
use siros_status_service.Bitmap.{byte_offset, status_valid}
use siros_status_service.BitmapStore.{run_script}
use siros_status_service.Ingestion.{Server, Response, list_url}
use siros_status_service.Store.Recorded.{row_for}

module _ (R : Redis) (laws : Laws R) (hmac : List ℕ → List ℕ → List ℕ) (s : Server) where
  -- The script ran on the entry with the status VALID, and what it left is in the shard's Redis.
  abbrev pub IsReset : ListMeta → ℕ → World R → Type 0
  IsReset lm idx w' =
      (s₀ s₁ : R.State) × (run_script R s₀ lm.id (byte_offset idx lm.bits).0
          (byte_offset idx lm.bits).1 lm.bits status_valid
        ≡ ok s₁)
      × (R.get (w'.redis s.shard_id) (bitmap_key lm.id) ≡ R.get s₁ (bitmap_key lm.id))

  -- An answer to an issuer, against the allocations before the request.
  abbrev pub Allocated : Str → ℕ → List Allocation → Result Response × World R → Type 0
  Allocated issuer exp before (ok (Response.allocated url idx e), w') =
      (lm : ListMeta) × (e ≡ exp)
      × (url ≡ list_url s lm.id)
      × (select_one (same_slot lm.id idx) before ≡ none)
      × (w'.db.allocations ≡ row_for lm.id idx issuer exp ∷ before)
      × IsReset lm idx w'
  Allocated issuer exp before (ok (Response.failed status), w') =
      (status ≡ 500) ⊎ (w'.db.allocations ≡ before)
  Allocated issuer exp before (ok Response.no_content, w') = ⊥
  Allocated issuer exp before (err e, w') = ⊥

  -- The expiration is the one asked for, which is not past the longest allowed; or the longest.
  abbrev pub ExpFor : Option ℕ → ℕ → ℕ → Type 0
  ExpFor none longest exp = exp ≡ longest
  ExpFor (some asked) longest exp = (exp ≡ asked) × (asked ≤ longest)

  abbrev pub AllocateOutcome : Str → Option ℕ → World R → Result Response × World R → Type 0
  AllocateOutcome issuer asked w (ok (Response.allocated url idx exp), w') =
      ExpFor asked (w.now + s.max_expiry) exp
      × Allocated issuer exp w.db.allocations (ok (Response.allocated url idx exp), w')
  AllocateOutcome issuer asked w (r, w') = Allocated issuer 0 w.db.allocations (r, w')
