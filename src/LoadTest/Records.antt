-- ===== src/LoadTest/Records.antt =====
-- tools/loadtest/verify.go: one record, with its list in the caches or not.
use siros_status_service.Prelude.{
  ℕ, ◌≡◌, sym, ap, subst, ◌∙◌, inl, inr, Bool, false, Bool-cases, List, Option, none, some,
  Option-cases, arith,
}
use siros_status_service.Prelude.Str.{Str}
use siros_status_service.Result.{Result-cases, Error, ok, err, no_rows, no_shard, ok_injective}
use siros_status_service.Redis.{Redis}
use siros_status_service.Rows.{ListMeta}
use siros_status_service.World.{World, bind_cases, ◌>>=◌}
use siros_status_service.Bitmap.{byte_len}
use siros_status_service.Store.{get_list}
use siros_status_service.BitmapStore.{snapshot}
use siros_status_service.LoadTest.{AllocRecord}
use siros_status_service.LoadTest.Verify.{Caches, loaded, compare_with, check_list, check_record}
use siros_status_service.LoadTest.Reads.{get_list_lem, snapshot_lem, get_list_lives, snapshot_lives}
use siros_status_service.LoadTest.Shown.{
  err-ok, IsRow, IsBytes, IsShown, IsCalm, IsEntry, AreCached, IsLike, RecordOutcome,
  IsShown-IsShownIn, compare_with-RecordOutcome,
}

module _ (R : Redis) (covered : Str → Bool) (w : World R) where
  uncovered :
      (rec : AllocRecord) (lm : ListMeta)
      → IsRow R covered w rec.list_id lm
      → covered lm.shard_id ≡ false
      → ¬ (IsShown R covered w rec)
  uncovered rec lm row off shown =
      let (raw, bm, actual, on, bytes, wrapped, got, name) =
        IsShown-IsShownIn R covered w rec lm row shown in
      cc

  -- In the bytes of a list that cannot be read, no record is shown, unless a call failed.
  unread :
      (rec : AllocRecord) (lm : ListMeta) (x : Error) (w₁ w₂ : World R)
      → IsLike R covered w w₁
      → IsRow R covered w rec.list_id lm
      → snapshot R lm.shard_id rec.list_id (byte_len lm.size lm.bits) w₁ ≡ (err x, w₂)
      → IsCalm R covered w
      → ¬ (IsShown R covered w rec)
  unread rec lm x w₁ w₂ like row bad still shown =
      let (raw, bm, actual, on, bytes, wrapped, got, name) =
        IsShown-IsShownIn R covered w rec lm row shown in
      err-ok (
        sym (ap (λ q. q.0) bad) ∙ snapshot_lives R covered w rec.list_id lm w₁ raw like still bytes)

  -- Nor is a record of a list whose row cannot be read.
  unlisted :
      (rec : AllocRecord) (x : Error) (w₁ w₂ : World R)
      → IsLike R covered w w₁
      → (get_list R rec.list_id >>= loaded R covered) w₁ ≡ (err x, w₂)
      → IsCalm R covered w
      → ¬ (IsShown R covered w rec)
  unlisted rec x w₁ w₂ like bad still (lm, raw, bm, actual, row, on, bytes, wrapped, got, name) =
      let found : (get_list R rec.list_id w₁).0 ≡ ok (some lm) =
        get_list_lives R covered w rec.list_id w₁ like still ∙ ap ok row in
      let gives : ((get_list R rec.list_id >>= loaded R covered) w₁).0 ≡ ok lm =
        ground (arith, found) in
      err-ok (sym (ap (λ q. q.0) bad) ∙ gives)

  -- A record of a list that is in the caches, and of one that is not.
  cached-RecordOutcome :
      (c : Caches) (rec : AllocRecord) (lm : ListMeta) (raw : List ℕ) (w₁ : World R)
      → AreCached R covered w c
      → IsLike R covered w w₁
      → IsRow R covered w rec.list_id lm
      → IsBytes R covered w rec.list_id lm raw
      → c.snapshots rec.list_id ≡ some raw
      → RecordOutcome R covered w rec (check_list R covered c rec lm w₁)
  cached-RecordOutcome c rec lm raw w₁ all like row bytes hit =
      elim (Bool-cases (covered lm.shard_id)) [
        | inr off ↦
            let step : check_list R covered c rec lm w₁ ≡ (err no_shard, w₁) =
              ground (arith, off) in
            subst (RecordOutcome R covered w rec) (sym step) (λ _. uncovered rec lm row off)
        | inl on ↦
            let step : check_list R covered c rec lm w₁ ≡ compare_with R covered c rec lm raw w₁ =
              ground (arith, on, hit) in
            subst (RecordOutcome R covered w rec) (sym step)
              (compare_with-RecordOutcome R covered w c rec lm raw w₁ all like row on bytes)
      ]

  fresh-RecordOutcome :
      (c : Caches) (rec : AllocRecord) (lm : ListMeta) (w₁ : World R)
      → AreCached R covered w c
      → IsLike R covered w w₁
      → IsRow R covered w rec.list_id lm
      → c.snapshots rec.list_id ≡ none
      → RecordOutcome R covered w rec (check_list R covered c rec lm w₁)
  fresh-RecordOutcome c rec lm w₁ all like row miss = elim (Bool-cases (covered lm.shard_id)) [
    | inr off ↦
        let step : check_list R covered c rec lm w₁ ≡ (err no_shard, w₁) = ground (arith, off) in
        subst (RecordOutcome R covered w rec) (sym step) (λ _. uncovered rec lm row off)
    | inl on ↦
        let taken = snapshot R lm.shard_id rec.list_id (byte_len lm.size lm.bits) in
        let step : check_list R covered c rec lm w₁
            ≡ (taken >>= compare_with R covered c rec lm) w₁ =
          ground (arith, on, miss) in
        subst (RecordOutcome R covered w rec) (sym step) (
          bind_cases (RecordOutcome R covered w rec) taken (compare_with R covered c rec lm) w₁
            (λ x w₂ bad. unread rec lm x w₁ w₂ like row bad)
            λ raw w₂ read.
              let (like', bytes) = snapshot_lem R covered w rec.list_id lm w₁ w₂ raw read like in
              compare_with-RecordOutcome R covered w c rec lm raw w₂ all like' row on bytes)
  ]

  loaded_lem :
      (id : Str) (w₁ w₂ : World R) (lm : ListMeta)
      → (get_list R id >>= loaded R covered) w₁ ≡ (ok lm, w₂)
      → IsLike R covered w w₁
      → IsLike R covered w w₂ × IsRow R covered w id lm
  loaded_lem id w₁ w₂ lm read like = elim (Result-cases (get_list R id w₁).0) [
    | inl (x, bad) ↦
        let fails : ((get_list R id >>= loaded R covered) w₁).0 ≡ err x = ground (arith, bad) in
        absurd (err-ok (sym fails ∙ ap (λ q. q.0) read))
    | inr (none, found) ↦
        let fails : ((get_list R id >>= loaded R covered) w₁).0 ≡ err no_rows =
          ground (arith, found) in
        absurd (err-ok (sym fails ∙ ap (λ q. q.0) read))
    | inr (some a, found) ↦
        let (like', row) =
          get_list_lem R covered w id w₁ (get_list R id w₁).1 (some a)
            (ap (λ r. (r, (get_list R id w₁).1)) found) like in
        let step : (get_list R id >>= loaded R covered) w₁ ≡ (ok a, (get_list R id w₁).1) =
          ground (arith, found) in
        let both = sym step ∙ read in
        (
          subst (IsLike R covered w) (ap (λ q. q.1) both) like',
          subst (IsRow R covered w id) (ok_injective (ap (λ q. q.0) both)) row,
        )
  ]

  IsEntry-at :
      (c : Caches) (id : Str) (l : Option ListMeta) (b : Option (List ℕ))
      → c.lists id ≡ l
      → c.snapshots id ≡ b
      → AreCached R covered w c
      → IsEntry R covered w id l b
  IsEntry-at c id l b e f all =
      subst (λ x. IsEntry R covered w id x b) e
        (subst (λ x. IsEntry R covered w id (c.lists id) x) f (all id))

  pub check_record-RecordOutcome :
      (c : Caches) (rec : AllocRecord) (w₁ : World R)
      → AreCached R covered w c
      → IsLike R covered w w₁
      → RecordOutcome R covered w rec (check_record R covered c rec w₁)
  unfolding check_record
  check_record-RecordOutcome c rec w₁ all like =
      let id = rec.list_id in
      elim (Option-cases (c.lists id)) [
        | inr (lm, known) ↦ elim (Option-cases (c.snapshots id)) [
          | inl miss ↦ absurd (IsEntry-at c id (some lm) none known miss all)
          | inr (raw, hit) ↦
              let (row, bytes) = IsEntry-at c id (some lm) (some raw) known hit all in
              let step : check_record R covered c rec w₁ ≡ check_list R covered c rec lm w₁ =
                ground (arith, known) in
              subst (RecordOutcome R covered w rec) (sym step)
                (cached-RecordOutcome c rec lm raw w₁ all like row bytes hit)
        ]
        | inl unknown ↦ elim (Option-cases (c.snapshots id)) [
          | inr (raw, hit) ↦ absurd (IsEntry-at c id none (some raw) unknown hit all)
          | inl miss ↦
              let found = get_list R id >>= loaded R covered in
              let step : check_record R covered c rec w₁
                  ≡ (found >>= check_list R covered c rec) w₁ =
                ground (arith, unknown) in
              subst (RecordOutcome R covered w rec) (sym step) (
                bind_cases (RecordOutcome R covered w rec) found (check_list R covered c rec) w₁
                  (λ x w₂ bad. unlisted rec x w₁ w₂ like bad)
                  λ lm w₂ read.
                    let (like', row) = loaded_lem id w₁ w₂ lm read like in
                    fresh-RecordOutcome c rec lm w₂ all like' row miss)
        ]
      ]
