-- ===== src/LoadTest/Totals.antt =====
-- tools/loadtest/worker.go: every operation is counted once, under its own name.
use siros_status_service.Prelude.{
  ℕ, ◌+◌, ◌≤◌, ◌≡◌, refl, sym, ap, ◌∙◌, ◌⊎◌, inl, inr, Bool, true, false, ◌&&◌, Bool-cases,
  and-eq-true, List, [], ◌∷◌, ◌++◌, if◌then◌else◌, length, length-append, arith,
}
use siros_status_service.Prelude.Str.{Str, bytes_of, str_eq, str_eq_iff, str_eq_comm, put_key}
use siros_status_service.Result.{Result, Error, ok, err}
use siros_status_service.LoadTest.{Services, WorkerResult, new_worker_result}
use siros_status_service.LoadTest.Worker.{Turn, do_op, noted, run_worker, is_nothing_allocated}
use siros_status_service.LoadTest.Counted.{
  IsQuiet, IsSilent, do_lifecycle-IsQuiet, do_allocate-IsSilent, do_status-IsSilent,
}

abbrev one_if : Bool → ℕ
one_if true = 1
one_if false = 0

-- What a worker has counted under a name: successes, failures and, for `status`, skipped attempts.
abbrev pub total : Str → WorkerResult → ℕ
total name r =
    length (r.latency name)
    + r.errors name
    + (if str_eq name (bytes_of "status") then r.skipped else 0)

abbrev pub is_op : Str → Turn → Bool
is_op name t = str_eq t.op name

-- How many operations of a name there were.
abbrev pub turns_of : Str → List Turn → ℕ
turns_of name [] = 0
turns_of name (t ∷ ts) = one_if (is_op name t) + turns_of name ts

total_new : (name issuer : Str) → total name (new_worker_result issuer) ≡ 0
total_new name issuer = elim (Bool-cases (str_eq name (bytes_of "status"))) [
  | inl here ↦ rw here refl
  | inr other ↦ rw other refl
]

not_same : str_eq (bytes_of "lifecycle") (bytes_of "status") ≡ false
unfolding str_eq
not_same = refl

noted-errors :
    (name op : Str) (errors : Str → ℕ)
    → put_key errors op (errors op + 1) name ≡ errors name + one_if (str_eq op name)
noted-errors name op errors = elim (Bool-cases (str_eq op name)) [
  | inr other ↦ rw other (omega arith)
  | inl same ↦ rw (same, (str_eq_iff op name).0 same) refl
]

noted-latency :
    (name op : Str) (elapsed : ℕ) (latency : Str → List ℕ)
    → length (put_key latency op (latency op ++ (elapsed ∷ [])) name)
      ≡ length (latency name) + one_if (str_eq op name)
noted-latency name op elapsed latency = elim (Bool-cases (str_eq op name)) [
  | inr other ↦ rw other (omega arith)
  | inl same ↦ rw (same, (str_eq_iff op name).0 same) (length-append (latency name) (elapsed ∷ []))
]

noted-total :
    (name : Str) (t : Turn) (o : Result (Unit {0})) (r : WorkerResult)
    → total name (noted t o r) ≡ total name r + one_if (is_op name t)
unfolding noted
noted-total name t (ok _) r = omega (arith, noted-latency name t.op t.elapsed r.latency)
noted-total name t (err e) r =
    elim (Bool-cases (str_eq t.op (bytes_of "status") && is_nothing_allocated e)) [
      | inr failed ↦ rw failed (omega (arith, noted-errors name t.op r.errors))
      | inl skips ↦
          let (status, _) = and-eq-true _ _ skips in
          let same : str_eq name (bytes_of "status") ≡ is_op name t =
            ap (str_eq name) (sym ((str_eq_iff t.op (bytes_of "status")).0 status))
            ∙ str_eq_comm name t.op in
          rw skips (elim (Bool-cases (is_op name t)) [
            | inl mine ↦ rw (mine, same ∙ mine) (omega arith)
            | inr other ↦ rw (other, same ∙ other) (omega arith)
          ])
    ]

module _ (v : Services) (ingress token : Str) where
  -- What an operation is, for the counts: one that leaves them and the mismatches alone, or the
  -- lifecycle.
  abbrev IsDone : Turn → WorkerResult → Result (Unit {0}) × WorkerResult × v.State → Type 0
  IsDone t r o =
      IsSilent v ingress token r o ⊎ ((t.op ≡ bytes_of "lifecycle") × IsQuiet v ingress token r o)

  do_op-IsDone :
      (t : Turn) (r : WorkerResult) (s : v.State) → IsDone t r (do_op v ingress token t r s)
  unfolding do_op
  do_op-IsDone t r s = elim (Bool-cases (str_eq t.op (bytes_of "allocate"))) [
    | inl here ↦ rw here (inl (do_allocate-IsSilent v ingress token r s))
    | inr no₁ ↦ elim (Bool-cases (str_eq t.op (bytes_of "status"))) [
      | inl here ↦ rw (no₁, here) (inl (do_status-IsSilent v ingress token t.first t.second r s))
      | inr no₂ ↦ elim (Bool-cases (str_eq t.op (bytes_of "lifecycle"))) [
        | inl here ↦
            rw (no₁, no₂, here)
              (inr (
                (str_eq_iff t.op (bytes_of "lifecycle")).0 here,
                do_lifecycle-IsQuiet v ingress token r s,
              ))
        | inr no₃ ↦ rw (no₁, no₂, no₃) (inl (refl, refl, refl, refl))
      ]
    ]
  ]

  -- Every mismatch is counted as a failed lifecycle too.
  abbrev pub IsBlamed : WorkerResult → Type 0
  IsBlamed r = length r.mismatches ≤ r.errors (bytes_of "lifecycle")

  IsDone-total :
      (name : Str) (t : Turn) (r r' : WorkerResult) (o : Result (Unit {0})) (s' : v.State)
      → IsDone t r (o, r', s')
      → total name r' ≡ total name r
  IsDone-total name t r r' o s' (inl (l, e, k, m)) = rw (l, e, k) refl
  IsDone-total name t r r' (ok _) s' (inr (_, (l, e, k, m))) = rw (l, e, k) refl
  IsDone-total name t r r' (err _) s' (inr (_, (l, e, k, m))) = rw (l, e, k) refl

  noted-IsBlamed :
      (t : Turn) (o : Result (Unit {0})) (r : WorkerResult) → IsBlamed r → IsBlamed (noted t o r)
  unfolding noted
  noted-IsBlamed t (ok _) r b = b
  noted-IsBlamed t (err e) r b =
      elim (Bool-cases (str_eq t.op (bytes_of "status") && is_nothing_allocated e)) [
        | inl skips ↦ rw skips b
        | inr failed ↦
            rw failed (omega (arith, b, noted-errors (bytes_of "lifecycle") t.op r.errors))
      ]

  -- A failed lifecycle may add one mismatch, and is an error more.
  failed-IsBlamed :
      (t : Turn) (e : Error) (r : WorkerResult)
      → t.op ≡ bytes_of "lifecycle"
      → length r.mismatches ≤ r.errors (bytes_of "lifecycle") + 1
      → IsBlamed (noted t (err e) r)
  unfolding noted
  failed-IsBlamed t e r op b =
      let is_lifecycle : str_eq t.op (bytes_of "lifecycle") ≡ true =
        (str_eq_iff t.op (bytes_of "lifecycle")).1 op in
      let not_status : str_eq t.op (bytes_of "status") ≡ false = rw op not_same in
      let counted : put_key r.errors t.op (r.errors t.op + 1) (bytes_of "lifecycle")
          ≡ r.errors (bytes_of "lifecycle") + 1 =
        noted-errors (bytes_of "lifecycle") t.op r.errors ∙ rw is_lifecycle refl in
      rw not_status (omega (arith, b, counted))

  IsDone-IsBlamed :
      (t : Turn) (r r' : WorkerResult) (o : Result (Unit {0})) (s' : v.State)
      → IsDone t r (o, r', s')
      → IsBlamed r
      → IsBlamed (noted t o r')
  IsDone-IsBlamed t r r' o s' (inl (l, e, k, m)) b = noted-IsBlamed t o r' (rw (m, e) b)
  IsDone-IsBlamed t r r' (ok u) s' (inr (_, (l, e, k, m))) b =
      noted-IsBlamed t (ok u) r' (rw (m, e) b)
  IsDone-IsBlamed t r r' (err x) s' (inr (op, (l, e, k, m))) b =
      failed-IsBlamed t x r' op (rw e (omega (arith, m, b)))

  counted_from :
      (ts : List Turn) (r : WorkerResult) (s : v.State) (name : Str)
      → IsBlamed r
      → (total name (run_worker v ingress token ts r s).0 ≡ total name r + turns_of name ts)
        × IsBlamed (run_worker v ingress token ts r s).0
  unfolding run_worker
  counted_from [] r s name b = (omega arith, b)
  counted_from (t ∷ ts) r s name b =
      let done = do_op v ingress token t r s in
      let kind = do_op-IsDone t r s in
      let (rest, blamed) =
        counted_from ts (noted t done.0 done.1) done.2 name
          (IsDone-IsBlamed t r done.1 done.0 done.2 kind b) in
      let this = noted-total name t done.0 done.1 in
      let same = IsDone-total name t r done.1 done.0 done.2 kind in
      (omega (arith, rest, this, same), blamed)

  -- A worker counts each operation that it picks once, under the operation's own name, as a success,
  -- as a failure or, for `status` alone, as skipped; and it never notes more mismatches than failed
  -- lifecycles.
  pub run_worker-total :
      (ts : List Turn) (issuer name : Str) (s : v.State)
      → (total name (run_worker v ingress token ts (new_worker_result issuer) s).0
          ≡ turns_of name ts)
        × IsBlamed (run_worker v ingress token ts (new_worker_result issuer) s).0
  run_worker-total ts issuer name s =
      let (counted, blamed) = counted_from ts (new_worker_result issuer) s name (omega arith) in
      (omega (arith, counted, total_new name issuer), blamed)
