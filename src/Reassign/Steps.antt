-- ===== src/Reassign/Steps.antt =====
-- tools/reassign-shard/main.go: the loop over the issuers.
use native.Mathlib.Nat.{mod-lt}
use siros_status_service.Prelude.{
  ℕ, ◌+◌, ◌%◌, ◌<◌, ◌≡◌, refl, sym, subst, inl, inr, Bool, Bool-cases, true, false, List, [], ◌∷◌,
  Option, some, arith, length, get_elem?, get_elem?-some,
}
use siros_status_service.Prelude.Str.{Str}
use siros_status_service.Result.{
  Result, Result-cases, Error, ok, err, bind_ok, unavailable, fail_if, fail_if-ok, bad_flags,
}
use siros_status_service.Assertion.{is_empty}
use siros_status_service.Strings.{split, comma}
use siros_status_service.Shards.{Row, Database, lookup, reassign}
use siros_status_service.Shards.Moves.{Fresh, IsUnique, reassign_self, reassign_other}
use siros_status_service.Reassign.{
  Config, trim_all, first_empty, same, new_config, target_at, move_all,
}

-- The issuers of a list, from an index, are each on the target at their index modulo the number of
-- targets.
abbrev pub Placed : List Str → ℕ → List Str → List Row → Type 0
Placed targets i [] rows = Unit
Placed targets i (id ∷ ids) rows =
    ((t : Str) × (get_elem? targets (i % length targets) ≡ some t) × (lookup id rows ≡ some t))
    × Placed targets (i + 1) ids rows

target_at-ok :
    (targets : List Str) (i : ℕ)
    → 0 < length targets
    → (t : Str) × (get_elem? targets (i % length targets) ≡ some t) × (target_at targets i ≡ ok t)
unfolding target_at
target_at-ok targets i h =
    let (t, e) = get_elem?-some targets (i % length targets) (mod-lt i h) in
    (t, e, ground (arith, e))

reassign-unavailable :
    (id target : Str) (d : Database) (x : Error)
    → (reassign id target d).0 ≡ err x
    → x ≡ unavailable
unfolding reassign
reassign-unavailable id target d x e = elim (Bool-cases (d.faults d.calls)) [
  | inl down ↦ ground (arith, e, down)
  | inr up ↦ elim (Bool-cases (d.faults (d.calls + 1))) [
    | inl down ↦ ground (arith, e, up, down)
    | inr too ↦ absurd (ground (arith, e, up, too))
  ]
]

first_empty-length : (ts : List Str) → first_empty ts ≡ false → 0 < length ts
first_empty-length [] e = cc
first_empty-length (t ∷ ts) e = omega arith

-- The arguments that are accepted name a target.
pub new_config-targets :
    (issuer from to : Str) (dry_run : Bool) (cfg : Config)
    → new_config issuer from to dry_run ≡ ok cfg
    → 0 < length cfg.targets
unfolding new_config
new_config-targets issuer from to dry_run cfg e =
    let (_, _, e₁) = bind_ok (fail_if (same (is_empty issuer) (is_empty from)) bad_flags) e in
    let (targets, _, e₂) = bind_ok (trim_all (split comma to)) e₁ in
    let (_, test, e₃) = bind_ok (fail_if (first_empty targets) bad_flags) e₂ in
    let eq : targets ≡ cfg.targets = ground (arith, e₃) in
    subst (λ l. 0 < length l) eq
      (first_empty-length targets (fail_if-ok (first_empty targets) bad_flags test))

module _ (precedes : Str → Str → Bool) (cfg : Config) where
  move_all_step :
      (i : ℕ) (id target : Str) (ids : List Str) (moved : ℕ) (d : Database) (old : Option Str)
      → cfg.dry_run ≡ false
      → target_at cfg.targets i ≡ ok target
      → (reassign id target d).0 ≡ ok old
      → move_all precedes cfg i (id ∷ ids) moved d
        ≡ move_all precedes cfg (i + 1) ids (moved + 1) (reassign id target d).1
  unfolding move_all
  move_all_step i id target ids moved d old wet at done = ground (arith, wet, at, done)

  move_all_stop :
      (i : ℕ) (id target : Str) (ids : List Str) (moved : ℕ) (d : Database) (e : Error)
      → cfg.dry_run ≡ false
      → target_at cfg.targets i ≡ ok target
      → (reassign id target d).0 ≡ err e
      → move_all precedes cfg i (id ∷ ids) moved d ≡ ((moved, err e), (reassign id target d).1)
  unfolding move_all
  move_all_stop i id target ids moved d e wet at failed = ground (arith, wet, at, failed)

  move_all_panic :
      (i : ℕ) (id : Str) (ids : List Str) (moved : ℕ) (d : Database) (e : Error)
      → target_at cfg.targets i ≡ err e
      → move_all precedes cfg i (id ∷ ids) moved d ≡ ((moved, err e), d)
  unfolding move_all
  move_all_panic i id ids moved d e at = ground (arith, at)

  -- The moves of other issuers leave one where it is.
  move_all_keeps :
      (i : ℕ) (ids : List Str) (moved : ℕ) (d : Database) (j s : Str)
      → cfg.dry_run ≡ false
      → Fresh j ids
      → lookup j d.rows ≡ some s
      → lookup j (move_all precedes cfg i ids moved d).1.rows ≡ some s
  unfolding move_all
  move_all_keeps i [] moved d j s wet fresh e = e
  move_all_keeps i (id ∷ ids) moved d j s wet fresh e =
      elim (Result-cases (target_at cfg.targets i)) [
        | inl (x, bad) ↦
            subst (λ o. lookup j o.1.rows ≡ some s) (sym (move_all_panic i id ids moved d x bad)) e
        | inr (target, at) ↦
            let still = reassign_other id target j s d fresh.0 e in
            elim (Result-cases (reassign id target d).0) [
              | inl (x, failed) ↦
                  subst (λ o. lookup j o.1.rows ≡ some s)
                    (sym (move_all_stop i id target ids moved d x wet at failed)) still
              | inr (old, done) ↦
                  subst (λ o. lookup j o.1.rows ≡ some s)
                    (sym (move_all_step i id target ids moved d old wet at done))
                    (move_all_keeps (i + 1) ids (moved + 1) (reassign id target d).1 j s wet fresh.1
                      still)
            ]
      ]

  abbrev pub Moved : ℕ → List Str → ℕ → (ℕ × Result (Unit {0})) × Database → Type 0
  Moved i ids moved ((m, ok _), d') = (m ≡ moved + length ids) × Placed cfg.targets i ids d'.rows
  Moved i ids moved ((m, err e), d') = e ≡ unavailable

  Moved-cons :
      (i : ℕ) (id target : Str) (ids : List Str) (moved : ℕ)
      (o : (ℕ × Result (Unit {0})) × Database)
      → get_elem? cfg.targets (i % length cfg.targets) ≡ some target
      → lookup id o.1.rows ≡ some target
      → Moved (i + 1) ids (moved + 1) o
      → Moved i (id ∷ ids) moved o
  Moved-cons i id target ids moved ((m, ok _), d') at there rest =
      (omega (arith, rest.0), ((target, at, there), rest.1))
  Moved-cons i id target ids moved ((m, err e), d') at there rest = rest

  pub move_all-Moved :
      (i : ℕ) (ids : List Str) (moved : ℕ) (d : Database)
      → 0 < length cfg.targets
      → cfg.dry_run ≡ false
      → IsUnique ids
      → Moved i ids moved (move_all precedes cfg i ids moved d)
  unfolding move_all
  move_all-Moved i [] moved d some_target wet unique = (omega arith, tt)
  move_all-Moved i (id ∷ ids) moved d some_target wet unique =
      let (target, there, at) = target_at-ok cfg.targets i some_target in
      let d' = (reassign id target d).1 in
      elim (Result-cases (reassign id target d).0) [
        | inl (x, failed) ↦
            subst (λ o. Moved i (id ∷ ids) moved o)
              (sym (move_all_stop i id target ids moved d x wet at failed))
              (reassign-unavailable id target d x failed)
        | inr (old, done) ↦
            subst (λ o. Moved i (id ∷ ids) moved o)
              (sym (move_all_step i id target ids moved d old wet at done))
              (Moved-cons i id target ids moved (move_all precedes cfg (i + 1) ids (moved + 1) d')
                there
                (move_all_keeps (i + 1) ids (moved + 1) d' id target wet unique.0
                  (reassign_self id target d old done))
                (move_all-Moved (i + 1) ids (moved + 1) d' some_target wet unique.1))
      ]

  pub move_all_dry :
      (i : ℕ) (ids : List Str) (moved : ℕ) (d : Database)
      → 0 < length cfg.targets
      → cfg.dry_run ≡ true
      → move_all precedes cfg i ids moved d ≡ ((moved, ok tt), d)
  unfolding move_all
  move_all_dry i [] moved d some_target dry = refl
  move_all_dry i (id ∷ ids) moved d some_target dry =
      let (target, there, at) = target_at-ok cfg.targets i some_target in
      ground (arith, at, dry, move_all_dry (i + 1) ids moved d some_target dry)
