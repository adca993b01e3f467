-- ===== src/Reassign.antt =====
-- tools/reassign-shard/main.go: the tool that moves one issuer, or all of a shard, to other shards.
-- What it prints is left out.
pub mod Steps
pub mod Run
pub mod Emptied
use siros_status_service.Prelude.{
  ℕ, ◌+◌, ◌%◌, Bool, true, false, List, [], ◌∷◌, none, some, ◌==◌, if◌then◌else◌, length, get_elem?,
}
use siros_status_service.Prelude.Str.{Str}
use siros_status_service.Result.{Result, ok, err, bad_flags, panic, fail_if, ◌>>=◌, ◌>>◌}
use siros_status_service.Strings.{comma, split, trim_space}
use siros_status_service.Assertion.{is_empty}
use siros_status_service.Shards.{Database, list_issuers_on_shard, reassign}

pub record Config : Type 0 where
  pub issuer : Str
  pub from : Str
  pub targets : List Str
  pub dry_run : Bool

-- The loop of `newConfig` over the fields.
unfoldable pub trim_all : List Str → Result (List Str)
unfolding trim_space
trim_all [] = ok []
trim_all (t ∷ ts) = do
  fail_if (is_empty (trim_space t)) bad_flags
  rest ← trim_all ts
  ok (trim_space t ∷ rest)

abbrev pub same : Bool → Bool → Bool
same true b = b
same false true = false
same false false = true

abbrev pub first_empty : List Str → Bool
first_empty [] = true
first_empty (t ∷ ts) = is_empty t

-- `newConfig`
unfoldable pub new_config : Str → Str → Str → Bool → Result Config
unfolding trim_all split
new_config issuer from to dry_run = do
  fail_if (same (is_empty issuer) (is_empty from)) bad_flags
  targets ← trim_all (split comma to)
  fail_if (first_empty targets) bad_flags
  ok (record { issuer = issuer; from = from; targets = targets; dry_run = dry_run })

-- `cfg.targets[i%len(cfg.targets)]`; a remainder by zero panics.
unfoldable pub target_at : List Str → ℕ → Result Str
target_at targets i =
    if length targets == 0
    then err panic
    else elim (get_elem? targets (i % length targets)) [ none ↦ err panic | some t ↦ ok t ]

module _ (precedes : Str → Str → Bool) where
  -- The loop of `reassign` from an index, with the issuers moved so far: their number when the loop
  -- ends, and the error that ended it, if one did.
  unfoldable pub move_all :
      Config → ℕ → List Str → ℕ → Database → (ℕ × Result (Unit {0})) × Database
  unfolding target_at
  move_all cfg i [] moved d = ((moved, ok tt), d)
  move_all cfg i (id ∷ ids) moved d = elim (target_at cfg.targets i) [
    | err e ↦ ((moved, err e), d)
    | ok target ↦ elim cfg.dry_run [
      | true ↦ move_all cfg (i + 1) ids moved d
      | false ↦
          let (r, d') = reassign id target d in
          elim r [ err e ↦ ((moved, err e), d') | ok old ↦ move_all cfg (i + 1) ids (moved + 1) d' ]
    ]
  ]

  -- The issuers to move.
  unfoldable pub chosen : Config → Database → Result (List Str) × Database
  chosen cfg d =
      if is_empty cfg.issuer
      then list_issuers_on_shard precedes cfg.from d
      else (ok (cfg.issuer ∷ []), d)

  -- `reassign`
  unfoldable pub reassign_all : Config → Database → (ℕ × Result (Unit {0})) × Database
  unfolding move_all chosen
  reassign_all cfg d =
      let (r, d') = chosen cfg d in
      elim r [ err e ↦ ((0, err e), d') | ok ids ↦ move_all cfg 0 ids 0 d' ]
