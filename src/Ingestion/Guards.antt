-- ===== src/Ingestion/Guards.antt =====
-- Who may change a status.
use siros_status_service.Prelude.{
  ℕ, ◌+◌, ◌≡◌, refl, ◌⊎◌, inl, inr, false, Bool-cases, List, Option, none, some, Option-cases,
  arith,
}
use siros_status_service.Prelude.Str.{Str, str_eq, str_eq_iff}
use siros_status_service.Result.{Result}
use siros_status_service.Redis.{Redis}
use siros_status_service.Rows.{ListMeta, Allocation, select_one, same_slot, is_archived}
use siros_status_service.World.{World}
use siros_status_service.Ingestion.{Server, Response, handle_set_status, status_named, write_status}

-- The index was given to the issuer, and its list is there and not archived.
abbrev pub MayWrite : {R : Redis} → Str → Str → ℕ → World R → Type 0
MayWrite issuer id idx w =
    (a : Allocation) × (lm : ListMeta) × (select_one (same_slot id idx) w.db.allocations ≡ some a)
    × (a.issuer_id ≡ issuer)
    × (select_one (λ r. str_eq r.id id) w.db.lists ≡ some lm)
    × (is_archived lm.state ≡ false)

-- The effect of a request against the right to it.
abbrev pub OnlyByRight :
    {R : Redis} → Str → Str → Option ℕ → World R → Result Response × World R → Type 0
OnlyByRight issuer id asked w (res, w') =
    (w'.db ≡ w.db)
    × (((w'.redis ≡ w.redis) × (w'.debouncer ≡ w.debouncer))
        ⊎ ((idx : ℕ) × (asked ≡ some idx) × MayWrite issuer id idx w))

write_status-db :
    (R : Redis) (hmac : List ℕ → List ℕ → List ℕ) (s : Server) (lm : ListMeta) (id : Str)
    (idx status : ℕ) (w : World R)
    → (write_status R hmac s lm id idx status w).1.db ≡ w.db
unfolding write_status
write_status-db R hmac s lm id idx status w = ground arith

-- A status request writes to Redis and to the debouncer only if its index was given to the issuer
-- and its list exists and is not archived, and it never writes to the tables.
pub handle_set_status-OnlyByRight :
    (R : Redis) (hmac : List ℕ → List ℕ → List ℕ) (s : Server) (issuer id : Str) (asked : Option ℕ)
    (name : Option Str) (w : World R)
    → OnlyByRight issuer id asked w (handle_set_status R hmac s issuer id asked name w)
unfolding handle_set_status
handle_set_status-OnlyByRight R hmac s issuer id none name w = (refl, inl (refl, refl))
handle_set_status-OnlyByRight R hmac s issuer id (some idx) none w = (refl, inl (refl, refl))
handle_set_status-OnlyByRight R hmac s issuer id (some idx) (some name) w =
    elim (Option-cases (status_named R hmac s name)) [
      | inl unknown ↦ rw (unknown, handle_set_status, OnlyByRight) (refl, inl (refl, refl))
      | inr (status, known) ↦ elim (Option-cases (select_one (same_slot id idx) w.db.allocations)) [
        | inl missing ↦ rw (known, handle_set_status) (ground (arith, missing))
        | inr (a, given) ↦
            elim (Option-cases (select_one (λ (r : ListMeta). str_eq r.id id) w.db.lists)) [
              | inl missing ↦ rw (known, handle_set_status) (ground (arith, given, missing))
              | inr (lm, there) ↦ elim (Bool-cases (str_eq a.issuer_id issuer)) [
                | inr stranger ↦
                    rw (known, handle_set_status) (ground (arith, given, there, stranger))
                | inl owner ↦ elim (Bool-cases (is_archived lm.state)) [
                  | inl archived ↦
                      rw (known, handle_set_status) (ground (arith, given, there, archived))
                  | inr open_list ↦ (
                    rw (known, handle_set_status)
                        (ground (
                          arith,
                          given,
                          there,
                          open_list,
                          write_status-db R hmac s lm id idx status
                              (record w { calls = w.calls + 1 + 1 }),
                        )),
                    inr (idx, refl, (a, lm, given, (str_eq_iff _ _).0 owner, there, open_list)),
                  )
                ]
              ]
            ]
      ]
    ]
