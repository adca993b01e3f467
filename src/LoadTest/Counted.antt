-- ===== src/LoadTest/Counted.antt =====
-- tools/loadtest/worker.go: a worker's counts add up.
use siros_status_service.Prelude.{
  ℕ, ◌+◌, ◌≤◌, ◌≡◌, refl, sym, subst, ◌∙◌, inl, inr, Bool-cases, [], ◌∷◌, length, length-append,
  ◌==◌, arith,
}
use siros_status_service.Prelude.Str.{Str, bytes_of}
use siros_status_service.Result.{Result, Result-cases, Error, ok, err}
use siros_status_service.Bitmap.{status_valid, status_invalid}
use siros_status_service.LoadTest.{
  Services, WorkerResult, compared, mismatch, list_id_from_url, allocate, patch_status,
  fetch_status,
}
use siros_status_service.LoadTest.Worker.{
  check_status, revoke, live_through, do_lifecycle, do_allocate, update_status, do_status,
  record_alloc,
}

module _ (v : Services) (ingress token : Str) where
  -- An operation leaves the counts as they are, and adds a mismatch only where it fails.
  abbrev pub IsQuiet : WorkerResult → Result (Unit {0}) × WorkerResult × v.State → Type 0
  IsQuiet r (ok _, r', s') =
      (r'.latency ≡ r.latency)
      × (r'.errors ≡ r.errors)
      × (r'.skipped ≡ r.skipped)
      × (r'.mismatches ≡ r.mismatches)
  IsQuiet r (err e, r', s') =
      (r'.latency ≡ r.latency)
      × (r'.errors ≡ r.errors)
      × (r'.skipped ≡ r.skipped)
      × (length r'.mismatches ≤ length r.mismatches + 1)

  compared-IsQuiet :
      (list_id : Str) (index want : ℕ) (r : WorkerResult) (s : v.State) (o : Result ℕ)
      → IsQuiet r ((compared v r list_id index want o).0, (compared v r list_id index want o).1, s)
  compared-IsQuiet list_id index want r s (err e) = (refl, refl, refl, omega arith)
  compared-IsQuiet list_id index want r s (ok actual) = elim (Bool-cases (actual == want)) [
    | inl same ↦ rw same (refl, refl, refl, refl)
    | inr differ ↦ rw differ (
      refl,
      refl,
      refl,
      omega (
        arith,
        length-append r.mismatches (mismatch v r.issuer_id list_id index want actual ∷ []),
      ),
    )
  ]

  check_status-IsQuiet :
      (list_id url : Str) (index want : ℕ) (r : WorkerResult) (s : v.State)
      → IsQuiet r (check_status v ingress token list_id url index want r s)
  unfolding check_status
  check_status-IsQuiet list_id url index want r s =
      compared-IsQuiet list_id index want r (fetch_status v url index s).1
        (fetch_status v url index s).0

  -- An operation after one that changed nothing that counts.
  IsQuiet-then :
      (r r₁ : WorkerResult) (o : Result (Unit {0}) × WorkerResult × v.State)
      → r₁.latency ≡ r.latency
      → r₁.errors ≡ r.errors
      → r₁.skipped ≡ r.skipped
      → r₁.mismatches ≡ r.mismatches
      → IsQuiet r₁ o
      → IsQuiet r o
  IsQuiet-then r r₁ (ok _, r', s') l e k m (l', e', k', m') = (l' ∙ l, e' ∙ e, k' ∙ k, m' ∙ m)
  IsQuiet-then r r₁ (err _, r', s') l e k m (l', e', k', m') =
      (l' ∙ l, e' ∙ e, k' ∙ k, subst (λ x. length r'.mismatches ≤ length x + 1) m m')

  IsQuiet-error : (r : WorkerResult) (e : Error) (s : v.State) → IsQuiet r (err e, r, s)
  IsQuiet-error r e s = (refl, refl, refl, omega arith)

  revoke-IsQuiet :
      (list_id url : Str) (index : ℕ) (r : WorkerResult) (s : v.State)
      → IsQuiet r (revoke v ingress token list_id url index r s)
  unfolding revoke
  revoke-IsQuiet list_id url index r s =
      let patched = patch_status v ingress token list_id index (bytes_of "INVALID") s in
      let r₁ = record_alloc r list_id index (bytes_of "INVALID") in
      elim (Result-cases patched.0) [
        | inl (e, bad) ↦
            let step : revoke v ingress token list_id url index r s ≡ (err e, r, patched.1) =
              ground (arith, bad) in
            subst (IsQuiet r) (sym step) (IsQuiet-error r e patched.1)
        | inr (_, good) ↦
            let step : revoke v ingress token list_id url index r s
                ≡ check_status v ingress token list_id url index status_invalid r₁ patched.1 =
              ground (arith, good) in
            subst (IsQuiet r) (sym step) (
              IsQuiet-then r r₁ _ refl refl refl refl
                (check_status-IsQuiet list_id url index status_invalid r₁ patched.1))
      ]

  live_through-IsQuiet :
      (list_id url : Str) (index : ℕ) (r : WorkerResult) (s : v.State)
      → IsQuiet r (live_through v ingress token list_id url index r s)
  unfolding live_through
  live_through-IsQuiet list_id url index r s =
      let checked = check_status v ingress token list_id url index status_valid r s in
      let quiet = check_status-IsQuiet list_id url index status_valid r s in
      elim (Result-cases checked.0) [
        | inl (e, bad) ↦
            let step : live_through v ingress token list_id url index r s
                ≡ (err e, checked.1, checked.2) =
              ground (arith, bad) in
            subst (IsQuiet r) (sym step)
              (subst (λ o. IsQuiet r (o, checked.1, checked.2)) bad quiet)
        | inr (u, good) ↦
            let (l, x, k, m) = subst (λ o. IsQuiet r (o, checked.1, checked.2)) good quiet in
            let step : live_through v ingress token list_id url index r s
                ≡ revoke v ingress token list_id url index checked.1 checked.2 =
              ground (arith, good) in
            subst (IsQuiet r) (sym step) (
              IsQuiet-then r checked.1 _ l x k m
                (revoke-IsQuiet list_id url index checked.1 checked.2))
      ]

  pub do_lifecycle-IsQuiet :
      (r : WorkerResult) (s : v.State) → IsQuiet r (do_lifecycle v ingress token r s)
  unfolding do_lifecycle
  do_lifecycle-IsQuiet r s =
      let given = allocate v ingress token s in
      elim (Result-cases given.0) [
        | inl (e, bad) ↦
            let step : do_lifecycle v ingress token r s ≡ (err e, r, given.1) =
              ground (arith, bad) in
            subst (IsQuiet r) (sym step) (IsQuiet-error r e given.1)
        | inr (a, good) ↦ elim (Result-cases (list_id_from_url a.list_url)) [
          | inl (e, bad) ↦
              let step : do_lifecycle v ingress token r s ≡ (err e, r, given.1) =
                ground (arith, good, bad) in
              subst (IsQuiet r) (sym step) (IsQuiet-error r e given.1)
          | inr (list_id, named) ↦
              let step : do_lifecycle v ingress token r s
                  ≡ live_through v ingress token list_id a.list_url a.index r given.1 =
                ground (arith, good, named) in
              subst (IsQuiet r) (sym step)
                (live_through-IsQuiet list_id a.list_url a.index r given.1)
        ]
      ]

  -- The other operations add no mismatch at all.
  abbrev pub IsSilent : WorkerResult → Result (Unit {0}) × WorkerResult × v.State → Type 0
  IsSilent r (o, r', s') =
      (r'.latency ≡ r.latency)
      × (r'.errors ≡ r.errors)
      × (r'.skipped ≡ r.skipped)
      × (r'.mismatches ≡ r.mismatches)

  pub do_allocate-IsSilent :
      (r : WorkerResult) (s : v.State) → IsSilent r (do_allocate v ingress token r s)
  unfolding do_allocate
  do_allocate-IsSilent r s = ground arith

  pub do_status-IsSilent :
      (first second : ℕ) (r : WorkerResult) (s : v.State)
      → IsSilent r (do_status v ingress token first second r s)
  unfolding do_status update_status
  do_status-IsSilent first second r s = ground arith
