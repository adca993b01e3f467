-- ===== src/Gc/Expired.antt =====
-- What the sweeper archives: `FrozenListsPastGrace` on valid tables.
use siros_status_service.Prelude.{
  ℕ, ◌≤◌, ◌≡◌, Bool, true, ◌&&◌, ◌||◌, Bool-cases, List, All, inl, inr, Option, none, some, arith,
  and-eq-true, leb→le,
}
use siros_status_service.Result.{Result, ok, err}
use siros_status_service.Redis.{Redis}
use siros_status_service.Rows.{ListMeta, Allocation, is_frozen, is_null, at_most, select}
use siros_status_service.Rows.Tables.{
  select-All, select_passes, order_by_age-All, All-map, both-All,
}
use siros_status_service.World.{World, call}
use siros_status_service.Store.{frozen_lists_past_grace, query_lists}
use siros_status_service.Store.Invariant.{IsValid, IsSound, Backs, Covered, of_list}

-- Every allocation of the list has expired by `cutoff`.
abbrev pub HasExpired : ℕ → List Allocation → ListMeta → Type 0
HasExpired cutoff given r = All (λ a. of_list r.id a ≡ true → a.exp ≤ cutoff) given

Covered-at_most :
    (m : Option ℕ) (e cutoff : ℕ)
    → (is_null m || at_most m cutoff) ≡ true
    → Covered m e
    → e ≤ cutoff
Covered-at_most none e cutoff h c = absurd c
Covered-at_most (some m) e cutoff h c = omega (arith, leb→le m cutoff h, c)

selected-HasExpired :
    (hmac : List ℕ → List ℕ → List ℕ) (given : List Allocation) (cutoff : ℕ) (r : ListMeta)
    → IsSound hmac given r
    → (is_frozen r.state && (is_null r.max_exp || at_most r.max_exp cutoff)) ≡ true
    → HasExpired cutoff given r
selected-HasExpired hmac given cutoff r s h =
    All-map (Backs hmac r) _ given
      (λ a b t. Covered-at_most r.max_exp a.exp cutoff (and-eq-true _ _ h).1 (b t).0) s.backed

abbrev pub Expired : {R : Redis} → ℕ → World R → Result (List ListMeta) × World R → Type 0
Expired cutoff w (ok lists, w') = All (HasExpired cutoff w.db.allocations) lists
Expired cutoff w (err e, w') = Unit

-- On valid tables every list that is picked for archiving has only allocations that had expired by
-- the cutoff.
pub frozen_lists_past_grace-Expired :
    (R : Redis) (hmac : List ℕ → List ℕ → List ℕ) (cutoff : ℕ) (w : World R)
    → IsValid hmac w.db
    → Expired cutoff w (frozen_lists_past_grace R cutoff w)
unfolding frozen_lists_past_grace query_lists call
frozen_lists_past_grace-Expired R hmac cutoff w v = elim (Bool-cases (w.faults w.calls)) [
  | inl down ↦ rw (down, Expired) tt
  | inr up ↦
      let p : ListMeta → Bool =
        λ r. is_frozen r.state && (is_null r.max_exp || at_most r.max_exp cutoff) in
      rw (up, Expired)
        (order_by_age-All (HasExpired cutoff w.db.allocations) (select p w.db.lists) (
          both-All (IsSound hmac w.db.allocations) (λ r. p r ≡ true) _ (select p w.db.lists)
            (λ r s h. selected-HasExpired hmac w.db.allocations cutoff r s h)
            (select-All (IsSound hmac w.db.allocations) p w.db.lists v.sound)
            (select_passes p w.db.lists)))
]
