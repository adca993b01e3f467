-- ===== src/LoadTest/Reads.antt =====
-- tools/loadtest/verify.go: what its reads of the tables and of a shard's Redis give.
use siros_status_service.Prelude.{
  ℕ, ◌+◌, ◌≡◌, sym, ap, subst, ◌∙◌, inl, inr, Bool, false, Bool-cases, List, Option, arith,
}
use siros_status_service.Prelude.Str.{Str, str_eq}
use siros_status_service.Result.{Result, ok, err, unavailable, ok_injective}
use siros_status_service.Redis.{Redis}
use siros_status_service.Rows.{ListMeta, select_one}
use siros_status_service.World.{World, call}
use siros_status_service.Bitmap.{byte_len}
use siros_status_service.Store.{get_list}
use siros_status_service.BitmapStore.{snapshot}
use siros_status_service.LoadTest.Shown.{err-ok, calm, IsBytes, IsLike, IsCalm}

module _ (R : Redis) (covered : Str → Bool) (w : World R) where
  pub get_list_lem :
      (id : Str) (w₁ w₂ : World R) (o : Option ListMeta)
      → get_list R id w₁ ≡ (ok o, w₂)
      → IsLike R covered w w₁
      → IsLike R covered w w₂ × (select_one (λ r. str_eq r.id id) w.db.lists ≡ o)
  unfolding get_list call
  get_list_lem id w₁ w₂ o read like =
      let found = select_one (λ r. str_eq r.id id) w₁.db.lists in
      elim (Bool-cases (w₁.faults w₁.calls)) [
        | inl down ↦
            let step : (get_list R id w₁).0 ≡ err unavailable = ground (arith, down) in
            absurd (err-ok (sym step ∙ ap (λ q. q.0) read))
        | inr up ↦
            let step : (get_list R id w₁).0 ≡ ok found = ground (arith, up) in
            let next : (get_list R id w₁).1 ≡ record w₁ { calls = w₁.calls + 1 } =
              ground (arith, up) in
            (
              subst (IsLike R covered w) (sym next ∙ ap (λ q. q.1) read) like,
              ap (λ d. select_one (λ r. str_eq r.id id) d.lists) (sym like.0)
                  ∙ ok_injective (sym step ∙ ap (λ q. q.0) read),
            )
      ]

  pub snapshot_lem :
      (id : Str) (lm : ListMeta) (w₁ w₂ : World R) (raw : List ℕ)
      → snapshot R lm.shard_id id (byte_len lm.size lm.bits) w₁ ≡ (ok raw, w₂)
      → IsLike R covered w w₁
      → IsLike R covered w w₂ × IsBytes R covered w id lm raw
  unfolding snapshot call
  snapshot_lem id lm w₁ w₂ raw read like =
      let taken : World R → Result (List ℕ) =
        λ u. (snapshot R lm.shard_id id (byte_len lm.size lm.bits) u).0 in
      let there : taken (record (calm R covered w) { redis = w₁.redis })
          ≡ taken (calm R covered w) =
        ap (λ m. taken (record (calm R covered w) { redis = m })) like.1 in
      elim (Bool-cases (w₁.faults w₁.calls)) [
        | inl down ↦
            let step : taken w₁ ≡ err unavailable = ground (arith, down) in
            absurd (err-ok (sym step ∙ ap (λ q. q.0) read))
        | inr up ↦
            let step : taken w₁ ≡ taken (record (calm R covered w) { redis = w₁.redis }) =
              ground (arith, up) in
            let next : (snapshot R lm.shard_id id (byte_len lm.size lm.bits) w₁).1
                ≡ record w₁ { calls = w₁.calls + 1 } =
              ground (arith, up) in
            (
              subst (IsLike R covered w) (sym next ∙ ap (λ q. q.1) read) like,
              sym there ∙ (sym step ∙ ap (λ q. q.0) read),
            )
      ]

  pub get_list_lives :
      (id : Str) (w₁ : World R)
      → IsLike R covered w w₁
      → IsCalm R covered w
      → (get_list R id w₁).0 ≡ ok (select_one (λ r. str_eq r.id id) w.db.lists)
  unfolding get_list call
  get_list_lives id w₁ like still =
      let up : w₁.faults w₁.calls ≡ false = ap (λ f. f w₁.calls) like.2 ∙ still w₁.calls in
      let step : (get_list R id w₁).0 ≡ ok (select_one (λ r. str_eq r.id id) w₁.db.lists) =
        ground (arith, up) in
      step ∙ ap (λ d. ok (select_one (λ r. str_eq r.id id) d.lists)) like.0

  pub snapshot_lives :
      (id : Str) (lm : ListMeta) (w₁ : World R) (raw : List ℕ)
      → IsLike R covered w w₁
      → IsCalm R covered w
      → IsBytes R covered w id lm raw
      → (snapshot R lm.shard_id id (byte_len lm.size lm.bits) w₁).0 ≡ ok raw
  unfolding snapshot call
  snapshot_lives id lm w₁ raw like still bytes =
      let taken : World R → Result (List ℕ) =
        λ u. (snapshot R lm.shard_id id (byte_len lm.size lm.bits) u).0 in
      let up : w₁.faults w₁.calls ≡ false = ap (λ f. f w₁.calls) like.2 ∙ still w₁.calls in
      let step : taken w₁ ≡ taken (record (calm R covered w) { redis = w₁.redis }) =
        ground (arith, up) in
      step ∙ (ap (λ m. taken (record (calm R covered w) { redis = m })) like.1 ∙ bytes)
