-- ===== src/Result.antt =====
-- The error returns of the Go code. One enumeration serves all packages; the formatted message of
-- an error is not kept, only which `fmt.Errorf` or sentinel it is.
use siros_status_service.Prelude.{Bool, true, false, ◌≡◌, refl, ◌⊎◌, inl, inr}

pub data Error : Type 0 where
  -- internal/statuslist
  bad_width bad_size bad_length out_of_range bad_status : Error
  -- internal/allocator
  bad_key bad_capacity bad_cursor no_convergence : Error
  -- internal/store: the sentinels, and a row that is refused by a constraint
  list_full not_owner constraint : Error
  -- internal/publisher, internal/listid
  no_shard bad_shard : Error
  -- a call of Postgres, Redis or the random source that failed, and a script that raised an error
  unavailable script_failed : Error
  -- a run-time panic, such as a slice index out of range
  panic : Error
  -- internal/as: a row that the code relies on is not there
  no_rows : Error
  -- internal/statuslist: tokens and their keys
  not_ecdsa wrong_curve bad_encoding bad_tag bad_parts bad_signature_length bad_signature
        bad_method :
      Error
  -- internal/clientassertion
  both_proofs no_proof not_object not_array not_string unsupported_key bad_claims too_long : Error
  -- internal/trust: a credential without its proof or of another type, an answer other than 200
  no_credential bad_type not_200 : Error
  -- tools/reassign-shard
  bad_flags : Error
  -- internal/config
  two_sources missing_variable no_block no_certificate : Error
  -- tools/loadtest: a list URL without an ID, a worker without an index, a status that is not published
  bad_url nothing_allocated status_mismatch : Error

pub data Result {ℓ} (A : Type ℓ) : Type ℓ where
  ok : A → Result A
  err : Error → Result A

pub Result-cases {ℓ} :
    {A : Type ℓ} (r : Result A) → ((e : Error) × (r ≡ err e)) ⊎ ((a : A) × (r ≡ ok a))
Result-cases (ok a) = inr (a, refl)
Result-cases (err e) = inl (e, refl)

infixl 5 ◌>>=◌ ◌>>◌
abbrev pub ◌>>=◌ {ℓ κ} : {A : Type ℓ} {B : Type κ} → Result A → (A → Result B) → Result B
err e >>= next = err e
ok a >>= next = next a

abbrev pub ◌>>◌ {ℓ} : {B : Type ℓ} → Result (Unit {0}) → Result B → Result B
first >> next = first >>= λ _. next

-- An early return with `e` where the test holds.
abbrev pub fail_if : Bool → Error → Result (Unit {0})
fail_if true e = err e
fail_if false e = ok tt

pub ok_injective {ℓ} : {A : Type ℓ} {a b : A} → ok a ≡ ok b → a ≡ b
ok_injective e = cc

-- A computation that succeeds: so did its first step, and then the rest of it.
pub bind_ok {ℓ κ} :
    {A : Type ℓ} {B : Type κ} (first : Result A) {next : A → Result B} {b : B}
    → (first >>= next) ≡ ok b
    → (a : A) × (first ≡ ok a) × (next a ≡ ok b)
bind_ok (ok a) e = (a, refl, e)
bind_ok (err x) e = cc

-- A test that does not return early is false.
pub fail_if-ok : (t : Bool) (e : Error) {u : Unit {0}} → fail_if t e ≡ ok u → t ≡ false
fail_if-ok true e h = cc
fail_if-ok false e h = refl

-- The same, for what follows from any value of the first step.
pub bind_ok_then {ℓ κ ι} :
    {A : Type ℓ} {B : Type κ} {C : Type ι} (first : Result A) {next : A → Result B} {b : B}
    → (first >>= next) ≡ ok b
    → ((a : A) → first ≡ ok a → next a ≡ ok b → C)
    → C
bind_ok_then (ok a) e f = f a refl e
bind_ok_then (err x) e f = cc
