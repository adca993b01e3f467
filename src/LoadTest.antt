-- ===== src/LoadTest.antt =====
-- tools/loadtest: the load test drives synthetic issuers through the public endpoints and compares what
-- is published with what it wrote. HTTP and JSON are parameters, as are the random choices; a
-- duration is a number.
pub mod Worker
pub mod Counted
pub mod Totals
pub mod Published
pub mod Verify
pub mod Shown
pub mod Reads
pub mod Records
pub mod Passed
use siros_status_service.Prelude.{
  ℕ, zero, suc, ◌+◌, ◌*◌, ◌/◌, ◌%◌, Bool, true, false, not, ◌&&◌, List, [], ◌∷◌, ◌++◌, Option, none,
  some, ◌==◌, ltb, if◌then◌else◌, length, get_elem?, set,
}
use siros_status_service.Prelude.Word.{u64}
use siros_status_service.Prelude.Str.{Str, bytes_of, str_eq, put_key}
use siros_status_service.Result.{
  Result, ok, err, not_200, bad_url, nothing_allocated, status_mismatch, panic, fail_if, ◌>>=◌,
  ◌>>◌,
}
use siros_status_service.Bitmap.{
  Bitmap, wrap_bitmap, get_status, status_valid, status_invalid, status_suspended,
}
use siros_status_service.ListId.{hex_digit}
use siros_status_service.Signer.{Primitives}
use siros_status_service.Token.{Claims, Codec, decode_lst}

-- A request with its bearer token, if it has one.
pub record Request : Type 0 where
  pub method : Str
  pub url : Str
  pub bearer : Option Str
  pub body : Str

-- `allocateResponseBody`, whose expiration is never read.
pub record AllocateResponse : Type 0 where
  pub list_url : Str
  pub index : ℕ

-- The other side: `send` is `client.Do`, which gives a status code and the body, whose reading may
-- fail, or fails itself, and changes the services' state. `parse_unverified` is the JWT package's, and
-- `decimal` the format of a number.
pub record Services : Type 1 where
  pub State : Type 0
  pub send : Request → State → Result (ℕ × Result Str) × State
  pub decode_allocate : Str → Result AllocateResponse
  pub marshal_status : Str → Result Str
  pub decimal : ℕ → Str
  pub parse_unverified : Str → Result Claims
  pub codec : Codec
  pub primitives : Primitives

-- `allocRecord`
pub record AllocRecord : Type 0 where
  pub list_id : Str
  pub index : ℕ
  pub expected : Str

-- `workerResult`, whose maps have an entry for each operation from the start.
pub record WorkerResult : Type 0 where
  pub issuer_id : Str
  pub latency : Str → List ℕ
  pub errors : Str → ℕ
  pub skipped : ℕ
  pub allocs : List AllocRecord
  pub mismatches : List Str

-- `newWorkerResult`
abbrev pub new_worker_result : Str → WorkerResult
new_worker_result id = record {
  issuer_id = id;
  latency = λ _. [];
  errors = λ _. 0;
  skipped = 0;
  allocs = [];
  mismatches = [];
}

-- The text after the last slash, if there is one.
unfoldable pub after_slash : Str → Option Str
after_slash [] = none
after_slash (c ∷ s) = elim (after_slash s) [
  | some rest ↦ some rest
  | none ↦ if c == b'/' then some s else none
]

abbrev non_empty_id : Str → Result Str
non_empty_id [] = err bad_url
non_empty_id (c ∷ s) = ok (c ∷ s)

-- `listIDFromURL`
unfoldable pub list_id_from_url : Str → Result Str
unfolding after_slash
list_id_from_url url = elim (after_slash url) [ none ↦ err bad_url | some id ↦ non_empty_id id ]

-- `%#x` of a byte.
abbrev hex_byte : ℕ → Str
hex_byte s =
    bytes_of "0x"
    ++ (if ltb s 16 then hex_digit s ∷ [] else hex_digit (s / 16) ∷ hex_digit (s % 16) ∷ [])

-- `statusName`
unfoldable pub status_name : ℕ → Str
status_name s =
    if s == status_valid
    then bytes_of "VALID"
    else if s == status_invalid
    then bytes_of "INVALID"
    else if s == status_suspended
    then bytes_of "SUSPENDED"
    else bytes_of "UNKNOWN(" ++ (hex_byte s ++ bytes_of ")")

module _ (v : Services) where
  -- A computation of the tool: the services' state passes through it.
  abbrev pub Call : Type 0 → Type 0
  Call A = v.State → Result A × v.State

  abbrev pub answered :
      {A : Type 0} → ℕ → (Result Str → Result A) → Result (ℕ × Result Str) → Result A
  answered expected decode (err e) = err e
  answered expected decode (ok (status, body)) =
      if status == expected then decode body else err not_200

  -- A request, and what is made of an answer with the expected status code.
  abbrev pub request : {A : Type 0} → Request → ℕ → (Result Str → Result A) → Call A
  request r expected decode s = let (o, s') = v.send r s in (answered expected decode o, s')

  -- `allocate`
  unfoldable pub allocate : Str → Str → Call AllocateResponse
  allocate ingress token =
      request
        (record {
          method = bytes_of "POST";
          url = ingress ++ bytes_of "/allocate";
          bearer = some token;
          body = [];
        })
        201 (λ body. body >>= v.decode_allocate)

  -- `patchStatus`
  unfoldable pub patch_status : Str → Str → Str → ℕ → Str → Call (Unit {0})
  patch_status ingress token list_id index status s = elim (v.marshal_status status) [
    | err e ↦ (err e, s)
    | ok body ↦
        request
          (record {
            method = bytes_of "PATCH";
            url =
                ingress ++ (bytes_of "/status/" ++ (list_id ++ (bytes_of "/" ++ v.decimal index)));
            bearer = some token;
            body = body;
          })
          204 (λ _. ok tt) s
  ]

  -- `doAccounting`
  unfoldable pub do_accounting : Str → Str → Call (Unit {0})
  do_accounting ingress token =
      request
        (record {
          method = bytes_of "GET";
          url = ingress ++ bytes_of "/accounting/me";
          bearer = some token;
          body = [];
        })
        200 (λ _. ok tt)

  -- The part of `fetchStatus` for a body: the status at an index of the published list. A width of 0
  -- in the token's claims is a division by zero.
  unfoldable pub published_status : ℕ → Str → Result ℕ
  published_status index body = do
    claims ← v.parse_unverified body
    raw ← decode_lst v.codec v.primitives claims.lst
    fail_if (claims.bits == 0) panic
    bm ← wrap_bitmap raw (u64 (length raw * 8) / claims.bits) claims.bits
    get_status bm index

  -- `fetchStatus`
  unfoldable pub fetch_status : Str → ℕ → Call ℕ
  unfolding published_status
  fetch_status list_url index =
      request (record { method = bytes_of "GET"; url = list_url; bearer = none; body = [] }) 200
        (λ body. body >>= published_status index)

  abbrev pub mismatch : Str → Str → ℕ → ℕ → ℕ → Str
  mismatch issuer list_id index want actual =
      bytes_of "issuer="
      ++ (issuer
          ++ (bytes_of " list="
              ++ (list_id
                  ++ (bytes_of " index="
                      ++ (v.decimal index
                          ++ (bytes_of " expected="
                              ++ (status_name want
                                  ++ (bytes_of " actual="
                                      ++ (status_name actual
                                          ++ bytes_of
                                              " (via published list, not backend store)")))))))))

  -- What `checkStatus` makes of the status that it fetched, with the worker's result.
  abbrev pub compared : WorkerResult → Str → ℕ → ℕ → Result ℕ → Result (Unit {0}) × WorkerResult
  compared r list_id index want (err e) = (err e, r)
  compared r list_id index want (ok actual) = if actual == want then (ok tt, r) else (
    err status_mismatch,
    record r { mismatches = r.mismatches ++ (mismatch r.issuer_id list_id index want actual ∷ []) },
  )
