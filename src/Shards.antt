-- ===== src/Shards.antt =====
-- internal/as/shard.go: the shard of each issuer. Requests of one process or several interleave at
-- their statements: before each call of this request, others may have run statements of theirs.
pub mod Assignment
pub mod Moves
use siros_status_service.Prelude.{
  ℕ, zero, ◌+◌, ◌%◌, ◌==◌, Bool, true, false, List, [], ◌∷◌, Option, none, some, if◌then◌else◌,
  length, get_elem?, take,
}
use siros_status_service.Prelude.Str.{Str, str_eq}
use siros_status_service.Result.{Result, ok, err, unavailable, no_rows, panic}
use siros_status_service.Rows.{select, select_one, update}
use siros_status_service.Allocator.{big_endian}

-- A row of `issuer_shard`, whose primary key is `issuer_id`.
pub record Row : Type 0 where
  pub issuer_id : Str
  pub shard_id : Str

-- `SELECT shard_id … WHERE issuer_id = $1`
unfoldable pub lookup : Str → List Row → Option Str
unfolding select_one
lookup issuer rows = elim (select_one (λ r. str_eq r.issuer_id issuer) rows) [
  | none ↦ none
  | some r ↦ some r.shard_id
]

-- `INSERT … ON CONFLICT DO NOTHING`
unfoldable pub insert_if_absent : Str → Str → List Row → List Row
unfolding lookup
insert_if_absent issuer shard rows = elim (lookup issuer rows) [
  | none ↦ record { issuer_id = issuer; shard_id = shard } ∷ rows
  | some _ ↦ rows
]

-- `INSERT … ON CONFLICT DO UPDATE SET shard_id = EXCLUDED.shard_id`
unfoldable pub upsert : Str → Str → List Row → List Row
unfolding lookup update
upsert issuer shard rows = elim (lookup issuer rows) [
  | none ↦ record { issuer_id = issuer; shard_id = shard } ∷ rows
  | some _ ↦ update (λ r. str_eq r.issuer_id issuer) (λ r. record r { shard_id = shard }) rows
]

-- An assignment by another request: its issuer and its candidate.
unfoldable pub run_all : List (Str × Str) → List Row → List Row
run_all [] rows = rows
run_all ((issuer, shard) ∷ rest) rows = run_all rest (insert_if_absent issuer shard rows)

pub record Database : Type 0 where
  pub rows : List Row
  pub faults : ℕ → Bool
  pub calls : ℕ
  -- What others assign before each call.
  pub others : ℕ → List (Str × Str)

-- One round trip: a statement that returns a value and leaves rows, or a failure.
abbrev pub statement : {A : Type 0} → (List Row → A × List Row) → Database → Result A × Database
statement f d =
    let rows = run_all (d.others d.calls) d.rows in
    let (a, rows') = f rows in
    if d.faults d.calls
    then (err unavailable, record d { rows = rows; calls = d.calls + 1 })
    else (ok a, record d { rows = rows'; calls = d.calls + 1 })

abbrev pub ask : {A : Type 0} → (List Row → A) → Database → Result A × Database
ask f = statement (λ rows. (f rows, rows))

abbrev pub execute : (List Row → List Row) → Database → Result (Unit {0}) × Database
execute f = statement (λ rows. (tt, f rows))

module _ (sha256 : Str → List ℕ) where
  -- `hashIndex`
  unfoldable pub hash_index : Str → ℕ → ℕ
  hash_index s n = big_endian (take 8 (sha256 s)) % n

  -- `a.shards[hashIndex(issuerID, len(a.shards))]`; a division by zero panics.
  unfoldable pub candidate : List Str → Str → Result Str
  unfolding hash_index
  candidate shards issuer =
      if length shards == 0
      then err panic
      else elim (get_elem? shards (hash_index issuer (length shards))) [
        | none ↦ err panic
        | some s ↦ ok s
      ]

  -- The part of `AssignOrLookup` after the insertion.
  unfoldable pub read_back : Str → Database → Result Str × Database
  unfolding lookup
  read_back issuer d =
      let (r, d') = ask (lookup issuer) d in
      elim r [ err e ↦ (err e, d') | ok none ↦ (err no_rows, d') | ok (some s) ↦ (ok s, d') ]

  unfoldable pub assign_new : List Str → Str → Database → Result Str × Database
  unfolding candidate insert_if_absent read_back
  assign_new shards issuer d = elim (candidate shards issuer) [
    | err e ↦ (err e, d)
    | ok c ↦
        let (r, d') = execute (insert_if_absent issuer c) d in
        elim r [ err e ↦ (err e, d') | ok _ ↦ read_back issuer d' ]
  ]

  unfoldable pub assign_or_lookup : List Str → Str → Database → Result Str × Database
  unfolding lookup assign_new
  assign_or_lookup shards issuer d =
      let (r, d') = ask (lookup issuer) d in
      elim r [
        | err e ↦ (err e, d')
        | ok (some s) ↦ (ok s, d')
        | ok none ↦ assign_new shards issuer d'
      ]

module _ (precedes : Str → Str → Bool) where
  -- `ORDER BY issuer_id`, in the order of the tables' collation.
  unfoldable pub insert_issuer : Str → List Str → List Str
  insert_issuer id [] = id ∷ []
  insert_issuer id (x ∷ xs) = if precedes id x then id ∷ x ∷ xs else x ∷ insert_issuer id xs

  -- `SELECT issuer_id … WHERE shard_id = $1 ORDER BY issuer_id`
  unfoldable pub issuers_on : Str → List Row → List Str
  unfolding insert_issuer
  issuers_on shard [] = []
  issuers_on shard (r ∷ rs) =
      if str_eq r.shard_id shard
      then insert_issuer r.issuer_id (issuers_on shard rs)
      else issuers_on shard rs

  -- `ListIssuersOnShard`
  unfoldable pub list_issuers_on_shard : Str → Database → Result (List Str) × Database
  unfolding issuers_on
  list_issuers_on_shard shard = ask (issuers_on shard)

-- `Reassign`: the shard that the issuer had, if any.
unfoldable pub reassign : Str → Str → Database → Result (Option Str) × Database
unfolding lookup upsert
reassign issuer shard d =
    let (r, d') = ask (lookup issuer) d in
    elim r [
      | err e ↦ (err e, d')
      | ok old ↦
          let (u, d'') = execute (upsert issuer shard) d' in
          elim u [ err e ↦ (err e, d'') | ok _ ↦ (ok old, d'') ]
    ]
