-- ===== src/LoadTest/Worker.antt =====
-- tools/loadtest/worker.go and lifecycle.go: one worker's operations and how it counts them.
use siros_status_service.Prelude.{
  ℕ, ◌+◌, ◌%◌, Bool, true, false, ◌&&◌, List, [], ◌∷◌, ◌++◌, none, some, if◌then◌else◌, length,
  get_elem?, set,
}
use siros_status_service.Prelude.Str.{Str, bytes_of, str_eq, put_key}
use siros_status_service.Result.{Result, Error, ok, err, nothing_allocated}
use siros_status_service.Bitmap.{status_valid, status_invalid}
use siros_status_service.LoadTest.{
  AllocRecord, Services, WorkerResult, compared, list_id_from_url, allocate, patch_status,
  do_accounting, fetch_status,
}

-- `statusChoices`
abbrev pub status_choices : List Str
status_choices = bytes_of "VALID" ∷ bytes_of "INVALID" ∷ bytes_of "SUSPENDED" ∷ []

-- An operation that was picked, with the numbers that it draws and the time that it takes.
pub record Turn : Type 0 where
  pub op : Str
  pub first : ℕ
  pub second : ℕ
  pub elapsed : ℕ

-- `errors.Is(err, errNothingAllocatedYet)`
abbrev pub is_nothing_allocated : Error → Bool
is_nothing_allocated nothing_allocated = true
is_nothing_allocated _ = false

abbrev pub record_alloc : WorkerResult → Str → ℕ → Str → WorkerResult
record_alloc r list_id index expected = record r {
  allocs = r.allocs ++ (record { list_id = list_id; index = index; expected = expected } ∷ []);
}

-- What the loop of `runWorker` notes of an operation's outcome.
unfoldable pub noted : Turn → Result (Unit {0}) → WorkerResult → WorkerResult
noted t (err e) r =
    if str_eq t.op (bytes_of "status") && is_nothing_allocated e
    then record r { skipped = r.skipped + 1 }
    else record r { errors = put_key r.errors t.op (r.errors t.op + 1) }
noted t (ok _) r = record r {
  latency = put_key r.latency t.op (r.latency t.op ++ (t.elapsed ∷ []));
}

module _ (v : Services) (ingress token : Str) where
  abbrev pub Work : Type 0
  Work = WorkerResult → v.State → Result (Unit {0}) × WorkerResult × v.State

  -- `checkStatus`
  unfoldable pub check_status : Str → Str → ℕ → ℕ → Work
  check_status list_id list_url index want r s =
      let (o, s') = fetch_status v list_url index s in
      let (c, r') = compared v r list_id index want o in (c, r', s')

  -- The part of `doLifecycle` from the revocation on.
  unfoldable pub revoke : Str → Str → ℕ → Work
  unfolding check_status
  revoke list_id list_url index r s =
      let (o, s') = patch_status v ingress token list_id index (bytes_of "INVALID") s in
      elim o [
        | err e ↦ (err e, r, s')
        | ok _ ↦
            check_status list_id list_url index status_invalid
              (record_alloc r list_id index (bytes_of "INVALID")) s'
      ]

  unfoldable pub live_through : Str → Str → ℕ → Work
  unfolding check_status revoke
  live_through list_id list_url index r s =
      let (o, r', s') = check_status list_id list_url index status_valid r s in
      elim o [ err e ↦ (err e, r', s') | ok _ ↦ revoke list_id list_url index r' s' ]

  -- `doLifecycle`
  unfoldable pub do_lifecycle : Work
  unfolding live_through
  do_lifecycle r s =
      let (o, s') = allocate v ingress token s in
      elim o [
        | err e ↦ (err e, r, s')
        | ok a ↦ elim (list_id_from_url a.list_url) [
          | err e ↦ (err e, r, s')
          | ok list_id ↦ live_through list_id a.list_url a.index r s'
        ]
      ]

  -- `doAllocate`
  unfoldable pub do_allocate : Work
  do_allocate r s =
      let (o, s') = allocate v ingress token s in
      elim o [
        | err e ↦ (err e, r, s')
        | ok a ↦ elim (list_id_from_url a.list_url) [
          | err e ↦ (err e, r, s')
          | ok list_id ↦ (ok tt, record_alloc r list_id a.index (bytes_of "VALID"), s')
        ]
      ]

  -- The part of `doStatus` for an index that the worker has.
  unfoldable pub update_status : ℕ → AllocRecord → Str → Work
  update_status i rec status r s =
      let (o, s') = patch_status v ingress token rec.list_id rec.index status s in
      elim o [
        | err e ↦ (err e, r, s')
        | ok _ ↦
            (ok tt, record r { allocs = set r.allocs i (record rec { expected = status }) }, s')
      ]

  -- `doStatus`
  unfoldable pub do_status : ℕ → ℕ → Work
  unfolding update_status
  do_status first second r s =
      let i = first % length r.allocs in
      elim (get_elem? r.allocs i) [
        | none ↦ (err nothing_allocated, r, s)
        | some rec ↦ elim (get_elem? status_choices (second % 3)) [
          | none ↦ (err nothing_allocated, r, s)
          | some status ↦ update_status i rec status r s
        ]
      ]

  -- `doOp`
  unfoldable pub do_op : Turn → Work
  unfolding do_lifecycle do_allocate do_status
  do_op t r s =
      if str_eq t.op (bytes_of "allocate")
      then do_allocate r s
      else if str_eq t.op (bytes_of "status")
      then do_status t.first t.second r s
      else if str_eq t.op (bytes_of "lifecycle")
      then do_lifecycle r s
      else let (o, s') = do_accounting v ingress token s in (o, r, s')

  -- `runWorker`, with the operations that it picks before the deadline.
  unfoldable pub run_worker : List Turn → WorkerResult → v.State → WorkerResult × v.State
  unfolding noted do_op
  run_worker [] r s = (r, s)
  run_worker (t ∷ ts) r s = let (o, r', s') = do_op t r s in run_worker ts (noted t o r') s'
