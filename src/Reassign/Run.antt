-- ===== src/Reassign/Run.antt =====
-- tools/reassign-shard/main.go: where a run leaves the issuers.
use siros_status_service.Prelude.{
  ℕ, ◌≡◌, refl, sym, subst, ◌⊎◌, inl, inr, Bool, Bool-cases, true, false, List, [], ◌∷◌, arith,
  length,
}
use siros_status_service.Prelude.Str.{Str}
use siros_status_service.Result.{Result, Result-cases, Error, ok, err, unavailable}
use siros_status_service.Assertion.{is_empty}
use siros_status_service.Shards.{Database, run_all, issuers_on, list_issuers_on_shard}
use siros_status_service.Shards.Moves.{IsKeyed, IsUnique, run_all-IsKeyed, issuers_on-IsUnique}
use siros_status_service.Reassign.{Config, new_config, move_all, chosen, reassign_all}
use siros_status_service.Reassign.Steps.{
  Placed, Moved, new_config-targets, move_all-Moved, move_all_dry,
}

module _ (precedes : Str → Str → Bool) (cfg : Config) where
  chosen-IsUnique :
      (d : Database) (ids : List Str)
      → IsKeyed d.rows
      → (chosen precedes cfg d).0 ≡ ok ids
      → IsUnique ids
  unfolding chosen list_issuers_on_shard
  chosen-IsUnique d ids keyed e = elim (Bool-cases (is_empty cfg.issuer)) [
    | inr one ↦
        let eq : cfg.issuer ∷ [] ≡ ids = ground (arith, e, one) in
        subst (λ l. IsUnique l) eq (tt, tt)
    | inl all ↦ elim (Bool-cases (d.faults d.calls)) [
      | inl down ↦ absurd (ground (arith, e, all, down))
      | inr up ↦
          let rows = run_all (d.others d.calls) d.rows in
          let eq : issuers_on precedes cfg.from rows ≡ ids = ground (arith, e, all, up) in
          subst (λ l. IsUnique l) eq
            (issuers_on-IsUnique precedes cfg.from rows
              (run_all-IsKeyed (d.others d.calls) d.rows keyed))
    ]
  ]

  chosen-unavailable :
      (d : Database) (x : Error) → (chosen precedes cfg d).0 ≡ err x → x ≡ unavailable
  unfolding chosen list_issuers_on_shard
  chosen-unavailable d x e = elim (Bool-cases (is_empty cfg.issuer)) [
    | inr one ↦ absurd (ground (arith, e, one))
    | inl all ↦ elim (Bool-cases (d.faults d.calls)) [
      | inl down ↦ ground (arith, e, all, down)
      | inr up ↦ absurd (ground (arith, e, all, up))
    ]
  ]

  -- A run that ends without an error: a dry one has written nothing, and another has placed all the
  -- issuers it chose. Or a call failed.
  abbrev pub RunOutcome : Database → (ℕ × Result (Unit {0})) × Database → Type 0
  RunOutcome d ((m, ok _), d') =
      (ids : List Str) × ((chosen precedes cfg d).0 ≡ ok ids)
      × (((cfg.dry_run ≡ true) × (m ≡ 0) × (d' ≡ (chosen precedes cfg d).1))
          ⊎ ((cfg.dry_run ≡ false) × (m ≡ length ids) × Placed cfg.targets 0 ids d'.rows))
  RunOutcome d ((m, err e), d') = e ≡ unavailable

  Moved-RunOutcome :
      (d : Database) (ids : List Str) (o : (ℕ × Result (Unit {0})) × Database)
      → (chosen precedes cfg d).0 ≡ ok ids
      → cfg.dry_run ≡ false
      → Moved precedes cfg 0 ids 0 o
      → RunOutcome d o
  Moved-RunOutcome d ids ((m, ok _), d') has wet moved =
      (ids, has, inr (wet, omega (arith, moved.0), moved.1))
  Moved-RunOutcome d ids ((m, err e), d') has wet moved = moved

  -- With the arguments accepted and the issuers a key of the table, a run either fails because a
  -- call does, or moves nothing if it is dry, or else moves the issuers that it chose, each
  -- exactly once, to the targets in turn: the one at index i to the target at i modulo their
  -- number.
  pub reassign_all-RunOutcome :
      (issuer from to : Str) (dry_run : Bool) (d : Database)
      → new_config issuer from to dry_run ≡ ok cfg
      → IsKeyed d.rows
      → RunOutcome d (reassign_all precedes cfg d)
  unfolding reassign_all
  reassign_all-RunOutcome issuer from to dry_run d parsed keyed =
      let some_target = new_config-targets issuer from to dry_run cfg parsed in
      let d' = (chosen precedes cfg d).1 in
      elim (Result-cases (chosen precedes cfg d).0) [
        | inl (x, failed) ↦ ground (arith, failed, chosen-unavailable d x failed)
        | inr (ids, has) ↦
            let step : reassign_all precedes cfg d ≡ move_all precedes cfg 0 ids 0 d' =
              ground (arith, has) in
            subst (λ o. RunOutcome d o) (sym step)
              (elim (Bool-cases cfg.dry_run) [
                | inl dry ↦
                    subst (λ o. RunOutcome d o)
                      (sym (move_all_dry precedes cfg 0 ids 0 d' some_target dry))
                      (ids, has, inl (dry, refl, refl))
                | inr wet ↦ Moved-RunOutcome d ids (move_all precedes cfg 0 ids 0 d') has wet (
                    move_all-Moved precedes cfg 0 ids 0 d' some_target wet
                      (chosen-IsUnique d ids keyed has))
              ])
      ]
