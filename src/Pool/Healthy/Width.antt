-- ===== src/Pool/Healthy/Width.antt =====
-- internal/pool/pool.go: how many lists the pool has after `EnsureHealthy`.
use siros_status_service.Prelude.{
  ◌+◌, ◌-◌, ◌≤◌, ◌≡◌, sym, subst, ◌∙◌, inl, inr, Bool, Bool-cases, true, ◌&&◌, List, length, arith,
}
use siros_status_service.Prelude.Str.{str_eq}
use siros_status_service.Result.{Result, Result-cases, ok, err}
use siros_status_service.Redis.{Redis}
use siros_status_service.Rows.{ListMeta, is_active, select, order_by_age}
use siros_status_service.Rows.Tables.{count, All-map, select-All, order_by_age-All}
use siros_status_service.World.{World, call}
use siros_status_service.Store.{active_lists, query_lists}
use siros_status_service.Store.Invariant.{IsUnique}
use siros_status_service.Pool.{Manager, too_old, freeze_old, top_up, ensure_healthy}
use siros_status_service.Pool.Allocations.{filled, frozen_at}
use siros_status_service.Pool.Healthy.{
  count_selected, count_ordered, IsOnly, unique-IsOnly, only-IsStale, healthy, IsStale, is_fresh,
  FreezeOutcome, AreStale, freeze_old-FreezeOutcome,
}
use siros_status_service.Pool.Healthy.Added.{AddsOutcome, top_up-Adds}

module _ (R : Redis) (m : Manager) where
  -- The healthy lists after a success against the width.
  abbrev pub HasWidth : World R → Result (Unit {0}) × World R → Type 0
  HasWidth w (ok _, w') = m.width ≤ healthy R m w.now w'
  HasWidth w (err e, w') = Unit

  filled-HasWidth :
      (active kept : List ListMeta) (w w₂ : World R) (o : Result (Unit {0}) × World R)
      → FreezeOutcome R m w.now active w (ok kept, w₂)
      → count (is_fresh R m w.now) active ≡ healthy R m w.now w
      → AddsOutcome R m w.now (m.width - length kept) w₂ o
      → HasWidth w o
  filled-HasWidth active kept w w₂ (ok _, w') frozen all added =
      omega (arith, frozen.0, frozen.1, all, added.0)
  filled-HasWidth active kept w w₂ (err e, w') frozen all added = tt

  active-AreStale :
      (w : World R) (p : ListMeta → Bool)
      → IsUnique w.db.lists
      → AreStale R m w.now (order_by_age (select p w.db.lists)) w
  active-AreStale w p unique =
      let P : ListMeta → Type 0 =
        λ lm. too_old R m w.now lm ≡ true → IsStale R m w.now lm.id w.db.lists in
      order_by_age-All P (select p w.db.lists) (
        select-All P p w.db.lists (
          All-map (IsOnly w.db.lists) P w.db.lists
            (λ x only old. only-IsStale R m w.now x w.db.lists old only)
            (unique-IsOnly w.db.lists unique)))

  -- Where the lists' IDs are unique, a topping-up that succeeds, whichever calls and random
  -- numbers it meets, leaves at least as many ACTIVE lists of the shard and of an allowed age as
  -- the width asks for.
  pub ensure_healthy-HasWidth :
      (w : World R) → IsUnique w.db.lists → HasWidth w (ensure_healthy R m w)
  unfolding ensure_healthy filled frozen_at active_lists query_lists call
  ensure_healthy-HasWidth w unique = elim (Bool-cases (w.faults w.calls)) [
    | inl down ↦ ground (arith, down)
    | inr up ↦
        let p : ListMeta → Bool = λ r. str_eq r.shard_id m.shard_id && is_active r.state in
        let active = order_by_age (select p w.db.lists) in
        let w₁ = record w { calls = w.calls + 1 } in
        let first : ensure_healthy R m w ≡ frozen_at R m active w.now w₁ = ground (arith, up) in
        let counted : count (is_fresh R m w.now) active ≡ healthy R m w.now w₁ =
          count_ordered (is_fresh R m w.now) (select p w.db.lists)
          ∙ count_selected p (is_fresh R m w.now) w.db.lists in
        let frozen = freeze_old-FreezeOutcome R m w.now active w₁ (active-AreStale w₁ p unique) in
        let w₂ = (freeze_old R m w.now active w₁).1 in
        elim (Result-cases (freeze_old R m w.now active w₁).0) [
          | inl (e, bad) ↦
              let stop : ensure_healthy R m w ≡ (err e, w₂) = first ∙ ground (arith, bad) in
              subst (λ o. HasWidth w o) (sym stop) tt
          | inr (kept, good) ↦
              let kept_outcome =
                subst (λ r. FreezeOutcome R m w.now active w₁ (r, w₂)) good frozen in
              let go : ensure_healthy R m w ≡ top_up R m (m.width - length kept) w₂ =
                first ∙ ground (arith, good) in
              subst (λ o. HasWidth w o) (sym go)
                (filled-HasWidth active kept w₁ w₂ (top_up R m (m.width - length kept) w₂)
                  kept_outcome counted
                  (top_up-Adds R m w.now (m.width - length kept) w₂ kept_outcome.2))
        ]
  ]
