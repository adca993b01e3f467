-- ===== src/Tests/Load.antt =====
-- The load test against a token of the toy packages, and its check of a new list.
use siros_status_service.Prelude.{ℕ, ◌≡◌, ap, refl, true, Bool, [], ◌∷◌, arith}
use siros_status_service.Prelude.Str.{Str, bytes_of, str_eq}
use siros_status_service.Result.{Result, ok, err, panic, ◌>>=◌}
use siros_status_service.Bitmap.{get_status, wrap_bitmap}
use siros_status_service.Token.{Claims}
use siros_status_service.Signer.{Bytes}
use siros_status_service.LoadTest.{
  Services, WorkerResult, new_worker_result, published_status, status_name,
}
use siros_status_service.LoadTest.Published.{ReadsClaims, published_status-build_token}
use siros_status_service.LoadTest.Verify.{verify_decoy_safety, check_record}
use siros_status_service.Store.{get_list}
use siros_status_service.Rows.{select_one}
use siros_status_service.BitmapStore.{snapshot}
use siros_status_service.LoadTest.Passed.{PassedOutcome, verify_decoy_safety-PassedOutcome}
use siros_status_service.Tests.Tokens.{
  primitives, key, jwt, jwt-Laws, params_a, token_a, token_a_built,
}
use siros_status_service.Tests.Data.{
  memory, list_a, issuer, new_db, world_of, bitmap_a, bitmap_a-IsValid,
}

abbrev claims_only : Bool × Str × Bytes × Claims → Result Claims
claims_only q = ok q.3

abbrev services : Services
services = record {
  State = ℕ;
  send = λ r s. (err panic, s);
  decode_allocate = λ b. err panic;
  marshal_status = ok;
  decimal = λ n. n ∷ [];
  parse_unverified = λ token. jwt.parse token >>= claims_only;
  codec = jwt;
  primitives = primitives;
}

services-ReadsClaims : ReadsClaims services
services-ReadsClaims = record {
  parse_unverified-serialize = λ h x signed sig made.
      ap (λ r. r >>= claims_only) (jwt-Laws.parse-serialize h x signed sig made);
}

published_status-build_token_example : published_status services 3 token_a ≡ get_status bitmap_a 3
published_status-build_token_example =
    published_status-build_token services key jwt-Laws services-ReadsClaims params_a token_a 3
      bitmap_a-IsValid token_a_built (omega arith)

abbrev worker : WorkerResult
worker = record (new_worker_result issuer) {
  allocs = record { list_id = list_a; index = 1; expected = bytes_of "VALID" } ∷ [];
}

verify_decoy_safety-PassedOutcome_example :
    PassedOutcome memory
      (λ _. true)
      (world_of new_db)
      (worker ∷ [])
      (verify_decoy_safety memory (λ _. true) (worker ∷ []) (world_of new_db))
verify_decoy_safety-PassedOutcome_example =
    verify_decoy_safety-PassedOutcome memory (λ _. true) (world_of new_db) (worker ∷ [])

-- The check passes on the new list, whose entries are all VALID.
passes : (verify_decoy_safety memory (λ _. true) (worker ∷ []) (world_of new_db)).0 ≡ ok tt
unfolding verify_decoy_safety check_record get_list select_one str_eq snapshot wrap_bitmap
    get_status status_name
passes = refl
