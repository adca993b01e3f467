-- ===== src/Shards/Moves.antt =====
-- internal/as/shard.go: `Reassign` and `ListIssuersOnShard` on a table whose issuers are its key.
use siros_status_service.Prelude.{
  ◌+◌, ◌≡◌, refl, sym, ap, subst, ◌∙◌, inl, inr, Bool, Bool-cases, true, false, List, [], ◌∷◌,
  Option, none, some, Option-cases, arith, All,
}
use siros_status_service.Prelude.Str.{Str, str_eq, str_eq_iff, str_eq_refl, str_eq_comm}
use siros_status_service.Result.{ok}
use siros_status_service.Rows.{select_one, update}
use siros_status_service.Shards.{
  Row, Database, lookup, insert_if_absent, upsert, run_all, insert_issuer, issuers_on, reassign,
}
use siros_status_service.Shards.Assignment.{
  lookup-∷, run_all_keeps, insert_if_absent_new, insert_if_absent_old,
}

-- `issuer_id` is the primary key.
abbrev pub IsKeyed : List Row → Type 0
IsKeyed [] = Unit
IsKeyed (r ∷ rs) = (lookup r.issuer_id rs ≡ none) × IsKeyed rs

abbrev pub Fresh : Str → List Str → Type 0
Fresh j = All (λ id. str_eq id j ≡ false)

abbrev pub IsUnique : List Str → Type 0
IsUnique [] = Unit
IsUnique (id ∷ ids) = Fresh id ids × IsUnique ids

-- `str_eq` of equal texts in the first place.
str_eq-subst : (i j k : Str) → str_eq i j ≡ true → str_eq i k ≡ str_eq j k
str_eq-subst i j k e = ap (λ s. str_eq s k) ((str_eq_iff i j).0 e)

move : Str → Str → List Row → List Row
move i s = update (λ r. str_eq r.issuer_id i) (λ r. record r { shard_id = s })

move_self :
    (i s t : Str) (rows : List Row) → lookup i rows ≡ some t → lookup i (move i s rows) ≡ some s
unfolding move update lookup select_one
move_self i s t [] e = absurd (ground arith)
move_self i s t (r ∷ rs) e = elim (Bool-cases (str_eq r.issuer_id i)) [
  | inl here ↦ ground (arith, here)
  | inr later ↦ ground (arith, later, move_self i s t rs (ground (arith, e, later)))
]

move_other :
    (i j s : Str) (rows : List Row) → str_eq i j ≡ false → lookup j (move i s rows) ≡ lookup j rows
unfolding move update lookup select_one
move_other i j s [] other = refl
move_other i j s (r ∷ rs) other = elim (Bool-cases (str_eq r.issuer_id i)) [
  | inl here ↦
      ground (arith, here, other, str_eq-subst r.issuer_id i j here, move_other i j s rs other)
  | inr later ↦ ground (arith, later, move_other i j s rs other)
]

upsert_self : (i s : Str) (rows : List Row) → lookup i (upsert i s rows) ≡ some s
unfolding upsert move
upsert_self i s rows = elim (Option-cases (lookup i rows)) [
  | inl new ↦ ground (arith, new, lookup-∷ i i s rows, str_eq_refl i)
  | inr (t, old) ↦ ground (arith, old, move_self i s t rows old)
]

upsert_other :
    (i j s : Str) (rows : List Row)
    → str_eq i j ≡ false
    → lookup j (upsert i s rows) ≡ lookup j rows
unfolding upsert move
upsert_other i j s rows other = elim (Option-cases (lookup i rows)) [
  | inl new ↦ ground (arith, new, lookup-∷ j i s rows, other)
  | inr (t, old) ↦ ground (arith, old, move_other i j s rows other)
]

-- A move that returns, among the assignments of others.
pub reassign_self :
    (id target : Str) (d : Database) (old : Option Str)
    → (reassign id target d).0 ≡ ok old
    → lookup id (reassign id target d).1.rows ≡ some target
unfolding reassign
reassign_self id target d old e = elim (Bool-cases (d.faults d.calls)) [
  | inl down ↦ absurd (ground (arith, e, down))
  | inr up ↦ elim (Bool-cases (d.faults (d.calls + 1))) [
    | inl down ↦ absurd (ground (arith, e, up, down))
    | inr too ↦
        let rows = run_all (d.others (d.calls + 1)) (run_all (d.others d.calls) d.rows) in
        ground (arith, up, too, upsert_self id target rows)
  ]
]

-- Whatever comes of a move, another issuer's shard stays.
pub reassign_other :
    (id target j s : Str) (d : Database)
    → str_eq id j ≡ false
    → lookup j d.rows ≡ some s
    → lookup j (reassign id target d).1.rows ≡ some s
unfolding reassign
reassign_other id target j s d other e =
    let once = run_all_keeps j s (d.others d.calls) d.rows e in
    let rows = run_all (d.others (d.calls + 1)) (run_all (d.others d.calls) d.rows) in
    let twice =
      run_all_keeps j s (d.others (d.calls + 1)) (run_all (d.others d.calls) d.rows) once in
    elim (Bool-cases (d.faults d.calls)) [
      | inl down ↦ ground (arith, down, once)
      | inr up ↦ elim (Bool-cases (d.faults (d.calls + 1))) [
        | inl down ↦ ground (arith, up, down, twice)
        | inr too ↦ ground (arith, up, too, upsert_other id j target rows other, twice)
      ]
    ]

insert_if_absent-IsKeyed :
    (i s : Str) (rows : List Row) → IsKeyed rows → IsKeyed (insert_if_absent i s rows)
insert_if_absent-IsKeyed i s rows keyed = elim (Option-cases (lookup i rows)) [
  | inl new ↦ subst (λ l. IsKeyed l) (sym (insert_if_absent_new i s rows new)) (new, keyed)
  | inr (t, old) ↦ subst (λ l. IsKeyed l) (sym (insert_if_absent_old i s t rows old)) keyed
]

pub run_all-IsKeyed :
    (others : List (Str × Str)) (rows : List Row) → IsKeyed rows → IsKeyed (run_all others rows)
unfolding run_all
run_all-IsKeyed [] rows keyed = keyed
run_all-IsKeyed ((i, s) ∷ rest) rows keyed =
    run_all-IsKeyed rest (insert_if_absent i s rows) (insert_if_absent-IsKeyed i s rows keyed)

module _ (precedes : Str → Str → Bool) where
  insert_issuer-All :
      (P : Str → Type 0) (id : Str) (ids : List Str)
      → P id
      → All P ids
      → All P (insert_issuer precedes id ids)
  unfolding insert_issuer
  insert_issuer-All P id [] h all = (h, tt)
  insert_issuer-All P id (x ∷ xs) h all = elim (Bool-cases (precedes id x)) [
    | inl first ↦ rw first (h, all)
    | inr later ↦ rw later (all.0, insert_issuer-All P id xs h all.1)
  ]

  Fresh-comm : (id : Str) (ids : List Str) → Fresh id ids → All (λ x. str_eq id x ≡ false) ids
  Fresh-comm id [] fresh = tt
  Fresh-comm id (x ∷ xs) fresh = (str_eq_comm id x ∙ fresh.0, Fresh-comm id xs fresh.1)

  insert_issuer-IsUnique :
      (id : Str) (ids : List Str)
      → Fresh id ids
      → IsUnique ids
      → IsUnique (insert_issuer precedes id ids)
  unfolding insert_issuer
  insert_issuer-IsUnique id [] fresh unique = (tt, tt)
  insert_issuer-IsUnique id (x ∷ xs) fresh unique = elim (Bool-cases (precedes id x)) [
    | inl first ↦ rw first (fresh, unique)
    | inr later ↦ rw later (
      insert_issuer-All (λ y. str_eq y x ≡ false) id xs (str_eq_comm id x ∙ fresh.0) unique.0,
      insert_issuer-IsUnique id xs fresh.1 unique.1,
    )
  ]

  issuers_on-Fresh :
      (shard j : Str) (rows : List Row)
      → lookup j rows ≡ none
      → Fresh j (issuers_on precedes shard rows)
  unfolding issuers_on
  issuers_on-Fresh shard j [] e = tt
  issuers_on-Fresh shard j (r ∷ rs) e = elim (Bool-cases (str_eq r.issuer_id j)) [
    | inl here ↦ absurd (ground (arith, e, here, lookup-∷ j r.issuer_id r.shard_id rs))
    | inr other ↦
        let rest : lookup j rs ≡ none =
          ground (arith, e, other, lookup-∷ j r.issuer_id r.shard_id rs) in
        elim (Bool-cases (str_eq r.shard_id shard)) [
          | inl on ↦ rw on (
              insert_issuer-All (λ y. str_eq y j ≡ false) r.issuer_id (issuers_on precedes shard rs)
                other (issuers_on-Fresh shard j rs rest))
          | inr off ↦ rw off (issuers_on-Fresh shard j rs rest)
        ]
  ]

  pub issuers_on-IsUnique :
      (shard : Str) (rows : List Row) → IsKeyed rows → IsUnique (issuers_on precedes shard rows)
  unfolding issuers_on
  issuers_on-IsUnique shard [] keyed = tt
  issuers_on-IsUnique shard (r ∷ rs) keyed = elim (Bool-cases (str_eq r.shard_id shard)) [
    | inl on ↦ rw on (
        insert_issuer-IsUnique r.issuer_id (issuers_on precedes shard rs)
          (issuers_on-Fresh shard r.issuer_id rs keyed.0) (issuers_on-IsUnique shard rs keyed.1))
    | inr off ↦ rw off (issuers_on-IsUnique shard rs keyed.1)
  ]
