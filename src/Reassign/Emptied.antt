-- ===== src/Reassign/Emptied.antt =====
-- tools/reassign-shard/main.go: a shard that is emptied.
use siros_status_service.Prelude.{
  get_elem?, length, ◌%◌, ℕ, ◌+◌, ◌≡◌, refl, sym, ap, subst, ◌∙◌, ◌⊎◌, inl, inr, Bool, Bool-cases,
  true, false, List, [], ◌∷◌, some, arith,
}
use siros_status_service.Prelude.Str.{Str, str_eq, str_eq_iff, str_eq_refl}
use siros_status_service.Result.{Result, ok, err, unavailable}
use siros_status_service.Rows.{select_one}
use siros_status_service.Assertion.{is_empty}
use siros_status_service.Shards.{
  Row, Database, lookup, run_all, insert_issuer, issuers_on, list_issuers_on_shard,
}
use siros_status_service.Shards.Assignment.{lookup-∷}
use siros_status_service.Shards.Moves.{IsKeyed}
use siros_status_service.Reassign.{Config, new_config, chosen, reassign_all}
use siros_status_service.Reassign.Steps.{Placed}
use siros_status_service.Reassign.Run.{RunOutcome, reassign_all-RunOutcome}

abbrev In : Str → List Str → Type 0
In j [] = ⊥
In j (id ∷ ids) = (id ≡ j) ⊎ In j ids

-- The issuer is on one of the targets.
abbrev pub IsOnTarget : List Str → Str → List Row → Type 0
IsOnTarget targets j rows =
    (k : ℕ) × (t : Str) × (get_elem? targets (k % length targets) ≡ some t)
    × (lookup j rows ≡ some t)

Placed-IsOnTarget :
    (targets : List Str) (i : ℕ) (ids : List Str) (rows : List Row) (j : Str)
    → Placed targets i ids rows
    → In j ids
    → IsOnTarget targets j rows
Placed-IsOnTarget targets i [] rows j placed has = elim has [ ]
Placed-IsOnTarget targets i (id ∷ ids) rows j placed (inl here) =
    (i, placed.0.0, placed.0.1, ap (λ l. lookup l rows) (sym here) ∙ placed.0.2)
Placed-IsOnTarget targets i (id ∷ ids) rows j placed (inr later) =
    Placed-IsOnTarget targets (i + 1) ids rows j placed.1 later

module _ (precedes : Str → Str → Bool) where
  insert_issuer-In_self : (j : Str) (ids : List Str) → In j (insert_issuer precedes j ids)
  unfolding insert_issuer
  insert_issuer-In_self j [] = inl refl
  insert_issuer-In_self j (x ∷ xs) = elim (Bool-cases (precedes j x)) [
    | inl first ↦ rw first (inl refl)
    | inr later ↦ rw later (inr (insert_issuer-In_self j xs))
  ]

  insert_issuer-In : (j id : Str) (ids : List Str) → In j ids → In j (insert_issuer precedes id ids)
  unfolding insert_issuer
  insert_issuer-In j id [] has = elim has [ ]
  insert_issuer-In j id (x ∷ xs) has = elim (Bool-cases (precedes id x)) [
    | inl first ↦ rw first (inr has)
    | inr later ↦
        rw later (elim has [ inl here ↦ inl here | inr rest ↦ inr (insert_issuer-In j id xs rest) ])
  ]

  no_row : (j shard : Str) → lookup j [] ≡ some shard → ⊥
  unfolding lookup select_one
  no_row j shard h = cc

  issuers_on-In :
      (shard j : Str) (rows : List Row)
      → lookup j rows ≡ some shard
      → In j (issuers_on precedes shard rows)
  unfolding issuers_on
  issuers_on-In shard j [] e = absurd (no_row j shard e)
  issuers_on-In shard j (r ∷ rs) e = elim (Bool-cases (str_eq r.issuer_id j)) [
    | inl here ↦
        let on : r.shard_id ≡ shard =
          ground (arith, e, here, lookup-∷ j r.issuer_id r.shard_id rs) in
        rw (ap (λ s. str_eq s shard) on ∙ str_eq_refl shard) (
          subst (λ i. In j (insert_issuer precedes i (issuers_on precedes shard rs)))
            (sym ((str_eq_iff r.issuer_id j).0 here))
            (insert_issuer-In_self j (issuers_on precedes shard rs)))
    | inr other ↦
        let rest =
          issuers_on-In shard j rs
            (ground (arith, e, other, lookup-∷ j r.issuer_id r.shard_id rs)) in
        elim (Bool-cases (str_eq r.shard_id shard)) [
          | inl on ↦ rw on (insert_issuer-In j r.issuer_id (issuers_on precedes shard rs) rest)
          | inr off ↦ rw off rest
        ]
  ]

  chosen-all :
      (cfg : Config) (d : Database) (ids : List Str)
      → is_empty cfg.issuer ≡ true
      → (chosen precedes cfg d).0 ≡ ok ids
      → ids ≡ issuers_on precedes cfg.from (run_all (d.others d.calls) d.rows)
  unfolding chosen list_issuers_on_shard
  chosen-all cfg d ids whole e = elim (Bool-cases (d.faults d.calls)) [
    | inl down ↦ absurd (ground (arith, e, whole, down))
    | inr up ↦ ground (arith, e, whole, up)
  ]

  abbrev pub Emptied : Config → Str → (ℕ × Result (Unit {0})) × Database → Type 0
  Emptied cfg j ((m, ok _), d') = IsOnTarget cfg.targets j d'.rows
  Emptied cfg j ((m, err e), d') = e ≡ unavailable

  RunOutcome-Emptied :
      (cfg : Config) (d : Database) (j : Str) (o : (ℕ × Result (Unit {0})) × Database)
      → is_empty cfg.issuer ≡ true
      → cfg.dry_run ≡ false
      → lookup j (run_all (d.others d.calls) d.rows) ≡ some cfg.from
      → RunOutcome precedes cfg d o
      → Emptied cfg j o
  RunOutcome-Emptied cfg d j ((m, err e), d') whole wet on run = run
  RunOutcome-Emptied cfg d j ((m, ok _), d') whole wet on (ids, has, inl (dry, _, _)) =
      absurd (ground (arith, wet, dry))
  RunOutcome-Emptied cfg d j ((m, ok _), d') whole wet on (ids, has, inr (_, _, placed)) =
      Placed-IsOnTarget cfg.targets 0 ids d'.rows j placed (
        subst (λ l. In j l) (sym (chosen-all cfg d ids whole has))
          (issuers_on-In cfg.from j (run_all (d.others d.calls) d.rows) on))

  -- Emptying a shard, with `-from` and not dry, leaves every issuer that was on the shard when the
  -- tool listed it on one of the targets, unless a call fails.
  pub reassign_all-Emptied :
      (cfg : Config) (issuer from to : Str) (dry_run : Bool) (d : Database) (j : Str)
      → new_config issuer from to dry_run ≡ ok cfg
      → is_empty cfg.issuer ≡ true
      → cfg.dry_run ≡ false
      → IsKeyed d.rows
      → lookup j (run_all (d.others d.calls) d.rows) ≡ some cfg.from
      → Emptied cfg j (reassign_all precedes cfg d)
  reassign_all-Emptied cfg issuer from to dry_run d j parsed whole wet keyed on =
      RunOutcome-Emptied cfg d j (reassign_all precedes cfg d) whole wet on
        (reassign_all-RunOutcome precedes cfg issuer from to dry_run d parsed keyed)
