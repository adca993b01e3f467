-- ===== src/BitmapStore/Effects.antt =====
-- A bitmap in Redis against a bitmap in memory.
use siros_status_service.Prelude.{
  ℕ, ◌+◌, ◌*◌, ◌/◌, ◌%◌, ◌^◌, ◌<◌, ◌≡◌, refl, sym, subst, ◌∙◌, ◌⊎◌, inl, inr, true, false,
  Bool-cases, some, arith, leb, lt→ltb,
}
use siros_status_service.Prelude.Str.{Str, put_key, str_eq, str_eq_refl}
use siros_status_service.Result.{Result, Result-cases, ok, err, unavailable}
use siros_status_service.Redis.{Redis, Laws, bitmap_key, version_key, int_or_zero}
use siros_status_service.Bitmap.{Bitmap, byte_offset, field_mask, write_field, byte_len}
use siros_status_service.Bitmap
use siros_status_service.Bitmap.Fields.{valid-IsWidth, write_field_lem}
use siros_status_service.Bitmap.Entries.{IsValid, place, entry_byte, set_status-at, written}
use siros_status_service.Script.{new_byte, new_byte-write_field}
use siros_status_service.World.{World, call}
use siros_status_service.BitmapStore.{set_status, run_script, byte_or_zero}

module _ (R : Redis) (laws : Laws R) where
  -- Redis holds the bytes of a bitmap at a list's key.
  abbrev pub Holds : R.State → Str → Bitmap → Type 0
  Holds s id b = R.get s (bitmap_key id) ≡ some b.bytes

  -- The script's outcome against that of `Bitmap.Set`.
  abbrev pub Refines : R.State → Str → Result Bitmap → Result R.State → Type 0
  Refines s id (ok b) (ok s') =
      Holds s' id b
      × ((other : Str)
          → str_eq id other ≡ false
          → R.get s' (bitmap_key other) ≡ R.get s (bitmap_key other))
      × ((other : Str) → R.get_int s' (version_key other) ≡ R.get_int s (version_key other))
  Refines s id (ok b) (err e) = ⊥
  Refines s id (err e) res = Unit

  -- Where Redis holds the bytes of a valid bitmap, the script does what `Bitmap.Set` does to them for
  -- every index in range and every status that fits, and touches no other bitmap and no version.
  pub run_script-Refines :
      (s : R.State) (id : Str) (b : Bitmap) (idx status : ℕ)
      → IsValid b
      → Holds s id b
      → idx < b.size
      → status < 2 ^ b.bits
      → Refines s id
          (Bitmap.set_status b idx status)
          (run_script R s id (byte_offset idx b.bits).0 (byte_offset idx b.bits).1 b.bits status)
  unfolding run_script written
  run_script-Refines s id b idx status v holds hi hs =
      let (n, w) = valid-IsWidth b.bits v.width in
      let p = place b n idx v w hi in
      let (d, e, hd) = entry_byte b n idx v w hi in
      let k = idx % n in
      let x = write_field d (field_mask b.bits) (k * b.bits) status in
      let got : R.getrange s (bitmap_key id) (idx / n) ≡ some d =
        laws.getrange_lem s (bitmap_key id) (idx / n) ∙ rw (holds, e) refl in
      let same : new_byte d (k * b.bits) b.bits status ≡ x =
        new_byte-write_field b.bits k d status v.width (rw w.per_byte p.slot) hd hs in
      let small : leb x 255 ≡ true =
        ground (arith, (write_field_lem b.bits n d status k k w hd hs p.slot p.slot).0) in
      rw (set_status-at b n idx v w hi status d hs e, p.at, p.off, got, same, small)
        (
          laws.get-setrange s (bitmap_key id) (bitmap_key id) (idx / n) x
              ∙ rw (str_eq_refl id, holds, lt→ltb _ _ p.inside) refl,
          λ other ne.
              laws.get-setrange s (bitmap_key id) (bitmap_key other) (idx / n) x ∙ rw ne refl,
          λ other. laws.get_int-setrange s id other (idx / n) x,
        )

  -- What a status write may come to.
  abbrev pub WriteOutcome : Str → Str → ℕ → ℕ → ℕ → ℕ → World R → Result ℕ × World R → Type 0
  WriteOutcome shard id at off bits status w (ok v, w') =
      (s' : R.State) × (run_script R (w.redis shard) id at off bits status ≡ ok s')
      × (R.get (w'.redis shard) (bitmap_key id) ≡ R.get s' (bitmap_key id))
      × (v ≡ int_or_zero (R.get_int (w.redis shard) (version_key id)) + 1)
      × (R.get_int (w'.redis shard) (version_key id) ≡ some v)
  WriteOutcome shard id at off bits status w (err e, w') =
      (w'.redis ≡ w.redis)
      ⊎ ((s' : R.State) × (run_script R (w.redis shard) id at off bits status ≡ ok s')
          × (w'.redis shard ≡ s'))

  run_script-version :
      (s s' : R.State) (id : Str) (at off bits status : ℕ)
      → run_script R s id at off bits status ≡ ok s'
      → R.get_int s' (version_key id) ≡ R.get_int s (version_key id)
  unfolding run_script
  run_script-version s s' id at off bits status e =
      let x = new_byte (byte_or_zero (R.getrange s (bitmap_key id) at)) off bits status in
      elim (Bool-cases (leb x 255)) [
        | inl fits ↦
            let same : ok (R.setrange s (bitmap_key id) at x) ≡ ok s' = rw fits at e in
            let kept = laws.get_int-setrange s id id at x in cc
        | inr wide ↦ absurd (ground arith)
      ]

  -- After a status write that succeeds the version is one more than it was; after one that fails
  -- either nothing was written, or the byte was and the version was not.
  pub set_status-WriteOutcome :
      (shard id : Str) (at off bits status : ℕ) (w : World R)
      → WriteOutcome shard id at off bits status w (set_status R shard id at off bits status w)
  unfolding set_status call
  set_status-WriteOutcome shard id at off bits status w =
      let s = w.redis shard in
      let by : (t : Result ℕ × World R)
          → set_status R shard id at off bits status w ≡ t
          → WriteOutcome shard id at off bits status w t
          → WriteOutcome shard id at off bits status w
              (set_status R shard id at off bits status w) =
        λ t e. subst (λ u. WriteOutcome shard id at off bits status w u) (sym e) in
      let called = record w { calls = w.calls + 1 } in
      elim (Bool-cases (w.faults w.calls)) [
        | inl down ↦ by (err unavailable, called) (ground (arith, down)) (inl refl)
        | inr up ↦ elim (Result-cases (run_script R s id at off bits status)) [
          | inl (e, failed) ↦ by (err e, called) (ground (arith, up, failed)) (inl refl)
          | inr (s', done) ↦
              let wrote = record w { calls = w.calls + 1 + 1; redis = put_key w.redis shard s' } in
              elim (Bool-cases (w.faults (w.calls + 1))) [
                | inl down ↦
                    by (err unavailable, wrote) (ground (arith, up, done, down))
                      (inr (s', done, rw (str_eq_refl shard) refl))
                | inr up' ↦
                    let s'' = R.incr s' (version_key id) in
                    let kept = run_script-version s s' id at off bits status done in
                    let counted : R.get_int s'' (version_key id)
                        ≡ some (int_or_zero (R.get_int s (version_key id)) + 1) =
                      laws.get_int-incr s' id id ∙ rw (str_eq_refl id, kept) refl in
                    let both = record wrote {
                      redis = put_key (put_key w.redis shard s') shard s'';
                    } in
                    by (ok (int_or_zero (R.get_int s'' (version_key id))), both)
                      (ground (arith, up, done, up'))
                      (
                        s',
                        done,
                        rw (str_eq_refl shard) (laws.get-incr s' id id),
                        rw counted refl,
                        rw (str_eq_refl shard, counted) refl,
                      )
              ]
        ]
      ]
