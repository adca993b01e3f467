-- ===== src/Shards/Assignment.antt =====
-- `AssignOrLookup` among the assignments of others.
use native.Mathlib.Nat.{mod-lt}
use siros_status_service.Prelude.{
  ℕ, ◌+◌, ◌<◌, ◌≡◌, refl, sym, ap, subst, ◌∙◌, ◌⊎◌, inl, inr, Bool-cases, List, [], ◌∷◌, none, some,
  Option-cases, arith, length, get_elem?-some, if◌then◌else◌,
}
use siros_status_service.Prelude.Str.{Str, str_eq, str_eq_iff, str_eq_refl}
use siros_status_service.Result.{Result, ok, err, unavailable}
use siros_status_service.Rows.{select_one}
use siros_status_service.Shards.{
  Row, Database, lookup, insert_if_absent, run_all, hash_index, candidate, read_back, assign_new,
  assign_or_lookup,
}

pub lookup-∷ :
    (i j s : Str) (rows : List Row)
    → lookup i (record { issuer_id = j; shard_id = s } ∷ rows)
      ≡ (if str_eq j i then some s else lookup i rows)
unfolding lookup select_one
lookup-∷ i j s rows = ground arith

pub insert_if_absent_new :
    (j s : Str) (rows : List Row)
    → lookup j rows ≡ none
    → insert_if_absent j s rows ≡ record { issuer_id = j; shard_id = s } ∷ rows
unfolding insert_if_absent
insert_if_absent_new j s rows e = ground (arith, e)

pub insert_if_absent_old :
    (j s t : Str) (rows : List Row) → lookup j rows ≡ some t → insert_if_absent j s rows ≡ rows
unfolding insert_if_absent
insert_if_absent_old j s t rows e = ground (arith, e)

-- An assignment gives the issuer a shard.
insert_if_absent_self :
    (i s : Str) (rows : List Row) → (t : Str) × (lookup i (insert_if_absent i s rows) ≡ some t)
insert_if_absent_self i s rows = elim (Option-cases (lookup i rows)) [
  | inl e ↦ (s, rw (insert_if_absent_new i s rows e, lookup-∷ i i s rows, str_eq_refl i) refl)
  | inr (t, e) ↦ (t, rw (insert_if_absent_old i s t rows e) e)
]

insert_if_absent_keeps :
    (i j s t : Str) (rows : List Row)
    → lookup i rows ≡ some t
    → lookup i (insert_if_absent j s rows) ≡ some t
insert_if_absent_keeps i j s t rows e = elim (Option-cases (lookup j rows)) [
  | inr (u, f) ↦ rw (insert_if_absent_old j s u rows f) e
  | inl f ↦ elim (Bool-cases (str_eq j i)) [
    | inl same ↦
        let found : lookup j rows ≡ some t =
          ap (λ k. lookup k rows) ((str_eq_iff j i).0 same) ∙ e in
        absurd (ground arith)
    | inr other ↦ rw (insert_if_absent_new j s rows f, lookup-∷ i j s rows, other) e
  ]
]

pub run_all_keeps :
    (i t : Str) (others : List (Str × Str)) (rows : List Row)
    → lookup i rows ≡ some t
    → lookup i (run_all others rows) ≡ some t
unfolding run_all
run_all_keeps i t [] rows e = e
run_all_keeps i t ((j, s) ∷ rest) rows e =
    run_all_keeps i t rest (insert_if_absent j s rows) (insert_if_absent_keeps i j s t rows e)

-- What a request comes to when others only assign.
abbrev pub Assigned : Str → Result Str × Database → Type 0
Assigned issuer (ok s, d) = lookup issuer d.rows ≡ some s
Assigned issuer (err e, d) = e ≡ unavailable

read_back-Assigned :
    (sha256 : Str → List ℕ) (issuer t : Str) (d : Database)
    → lookup issuer d.rows ≡ some t
    → Assigned issuer (read_back sha256 issuer d)
unfolding read_back
read_back-Assigned sha256 issuer t d e =
    let kept = run_all_keeps issuer t (d.others d.calls) d.rows e in
    elim (Bool-cases (d.faults d.calls)) [
      | inl down ↦ ground (arith, down)
      | inr up ↦ ground (arith, up, kept)
    ]

candidate-ok :
    (sha256 : Str → List ℕ) (shards : List Str) (issuer : Str)
    → 0 < length shards
    → (s : Str) × (candidate sha256 shards issuer ≡ ok s)
unfolding candidate hash_index
candidate-ok sha256 shards issuer h =
    let (s, e) = get_elem?-some shards (hash_index sha256 issuer (length shards)) (mod-lt _ h) in
    (s, ground (arith, e))

assign_new-Assigned :
    (sha256 : Str → List ℕ) (shards : List Str) (issuer : Str) (d : Database)
    → 0 < length shards
    → Assigned issuer (assign_new sha256 shards issuer d)
unfolding assign_new
assign_new-Assigned sha256 shards issuer d h =
    let (c, e) = candidate-ok sha256 shards issuer h in
    elim (Bool-cases (d.faults d.calls)) [
      | inl down ↦ ground (arith, e, down)
      | inr up ↦
          let before = run_all (d.others d.calls) d.rows in
          let (t, found) = insert_if_absent_self issuer c before in
          let d' = record d { rows = insert_if_absent issuer c before; calls = d.calls + 1 } in
          let step : assign_new sha256 shards issuer d ≡ read_back sha256 issuer d' =
            ground (arith, e, up) in
          subst (λ r. Assigned issuer r) (sym step) (read_back-Assigned sha256 issuer t d' found)
    ]

-- With at least one shard, whatever others assign between its calls, a request returns a shard that
-- is the issuer's when it returns, unless a call failed.
pub assign_or_lookup-Assigned :
    (sha256 : Str → List ℕ) (shards : List Str) (issuer : Str) (d : Database)
    → 0 < length shards
    → Assigned issuer (assign_or_lookup sha256 shards issuer d)
unfolding assign_or_lookup
assign_or_lookup-Assigned sha256 shards issuer d h = elim (Bool-cases (d.faults d.calls)) [
  | inl down ↦ ground (arith, down)
  | inr up ↦
      let rows = run_all (d.others d.calls) d.rows in
      let d' = record d { rows = rows; calls = d.calls + 1 } in
      elim (Option-cases (lookup issuer rows)) [
        | inr (s, e) ↦ ground (arith, up, e)
        | inl e ↦
            let step : assign_or_lookup sha256 shards issuer d
                ≡ assign_new sha256 shards issuer d' =
              ground (arith, up, e) in
            subst (λ r. Assigned issuer r) (sym step)
              (assign_new-Assigned sha256 shards issuer d' h)
      ]
]

-- An issuer that has a shard gets that shard from every later request that returns one, however
-- the configured shards have changed since and whatever others assign in between.
pub assign_or_lookup_sticks :
    (sha256 : Str → List ℕ) (shards : List Str) (issuer s : Str) (d : Database)
    → lookup issuer d.rows ≡ some s
    → ((assign_or_lookup sha256 shards issuer d).0 ≡ ok s)
      ⊎ ((assign_or_lookup sha256 shards issuer d).0 ≡ err unavailable)
unfolding assign_or_lookup
assign_or_lookup_sticks sha256 shards issuer s d e =
    let kept = run_all_keeps issuer s (d.others d.calls) d.rows e in
    elim (Bool-cases (d.faults d.calls)) [
      | inl down ↦ inr (ground (arith, down))
      | inr up ↦ inl (ground (arith, up, kept))
    ]
