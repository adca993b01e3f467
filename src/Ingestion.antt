-- ===== src/Ingestion.antt =====
-- internal/ingestion/handlers.go and auth.go: allocation, status updates and the shard check. The
-- HTTP framework, the JSON decoder and the token validator are outside: a request is what they hand
-- over, and a response is its status code with the fields that the handler fills in.
pub mod Guards
pub mod Allocated
use siros_status_service.Prelude.{
  ℕ, zero, suc, ◌+◌, ◌*◌, ◌^◌, Bool, true, false, List, [], ◌∷◌, ◌++◌, Option, none, some, ltb,
  if◌then◌else◌,
}
use siros_status_service.Prelude.Str.{Str, bytes_of, str_eq}
use siros_status_service.Prelude.Word.{u64, second}
use siros_status_service.Result.{ok, err, Error}
use siros_status_service.Redis.{Redis}
use siros_status_service.Rows.{ListMeta, Usage, is_archived}
use siros_status_service.World.{M, ◌>>=◌, ◌>>◌, pure, try, get_now, modify_debouncer}
use siros_status_service.Debounce.{trigger}
use siros_status_service.Bitmap.{byte_offset, status_valid, status_invalid, status_suspended}
use siros_status_service.Allocator.{new_allocator, index}
use siros_status_service.Store.{reserve_cursor_and_record, check_ownership, get_list, get_usage}
use siros_status_service.BitmapStore.{set_status}
use siros_status_service.Pool.{Manager, pick_for_allocation}

-- The server's configuration and its pool. The server's `bitmaps` is the Redis of `shard_id`.
pub record Server : Type 0 where
  pub shard_id : Str
  pub base_url : Str
  pub max_expiry : ℕ
  pub default_ttl_seconds : ℕ
  pub pool : Manager

-- The body of `POST /allocate`: not JSON, or with an `exp` that may be left out.
pub data AllocateBody : Type 0 where
  malformed : AllocateBody
  expiring : Option ℕ → AllocateBody

-- A response: 201 with its fields, 204, or an error's status code.
pub data Response : Type 0 where
  allocated : Str → ℕ → ℕ → Response
  no_content : Response
  failed : ℕ → Response

abbrev pub is_list_full : Error → Bool
is_list_full Error.list_full = true
is_list_full _ = false

abbrev pub is_not_owner : Error → Bool
is_not_owner Error.not_owner = true
is_not_owner _ = false

-- `time.Duration(ttl) * time.Second` of 64 bits; any time that passed is past a negative duration, as
-- it is past 0.
abbrev pub floor_of : ℕ → ℕ
floor_of ttl = let d = u64 (ttl * second) in if ltb d (2 ^ 63) then d else 0

-- `MarkDirty` of internal/publisher: a trigger whose floor is the lifetime.
unfoldable pub mark_dirty : {R : Redis} → Str → ℕ → M R (Unit {0})
unfolding trigger
mark_dirty id ttl = do now ← get_now; modify_debouncer (trigger id (floor_of ttl) now)

abbrev pub max_allocate_attempts : ℕ
max_allocate_attempts = 5

abbrev pub list_url : Server → Str → Str
list_url s id = s.base_url ++ (bytes_of "/lists/" ++ id)

module _ (R : Redis) (hmac : List ℕ → List ℕ → List ℕ) (s : Server) where
  -- After a reservation: the index is reset to VALID and the list is published.
  unfoldable pub reset_and_answer : ListMeta → ℕ → ℕ → M R Response
  unfolding set_status mark_dirty byte_offset
  reset_and_answer lm idx exp = do
    let (at, off) = byte_offset idx lm.bits
    done ← try (set_status R s.shard_id lm.id at off lm.bits status_valid)
    elim done [
      | err e ↦ pure (failed 500)
      | ok _ ↦ do
        mark_dirty lm.id s.default_ttl_seconds
        pure (allocated (list_url s lm.id) idx exp)
    ]

  -- The retry loop, with the number of attempts left.
  unfoldable pub attempt : ℕ → Str → ℕ → M R Response
  unfolding reset_and_answer
  attempt zero issuer exp = pure (failed 503)
  attempt (suc left) issuer exp = do
    picked ← try (pick_for_allocation R s.pool)
    elim picked [
      | err e ↦ pure (failed 500)
      | ok none ↦ pure (failed 503)
      | ok (some lm) ↦ elim (new_allocator lm.fpe_key lm.size) [
        | err e ↦ pure (failed 500)
        | ok alloc ↦ do
          reserved ←
              try (reserve_cursor_and_record R lm.id issuer s.shard_id exp (index hmac alloc))
          elim reserved [
            | err e ↦ elim (is_list_full e) [
              | true ↦ attempt left issuer exp
              | false ↦ pure (failed 500)
            ]
            | ok idx ↦ reset_and_answer lm idx exp
          ]
      ]
    ]

  -- The expiration to record: the longest allowed where none is asked for, and none where one
  -- further out is asked for.
  abbrev pub expiration : Option ℕ → ℕ → Option ℕ
  expiration none max_exp = some max_exp
  expiration (some exp) max_exp = if ltb max_exp exp then none else some exp

  unfoldable pub handle_allocate : Str → AllocateBody → M R Response
  unfolding attempt
  handle_allocate issuer malformed = pure (failed 400)
  handle_allocate issuer (expiring asked) = do
    now ← get_now
    elim (expiration asked (now + s.max_expiry)) [
      | none ↦ pure (failed 400)
      | some exp ↦ attempt max_allocate_attempts issuer exp
    ]

  -- `statusNames`
  unfoldable pub status_named : Str → Option ℕ
  unfolding str_eq
  status_named name =
      if str_eq name (bytes_of "VALID")
      then some status_valid
      else if str_eq name (bytes_of "INVALID")
      then some status_invalid
      else if str_eq name (bytes_of "SUSPENDED")
      then some status_suspended
      else none

  -- The last part of `handleSetStatus`, for a list that was found.
  unfoldable pub write_status : ListMeta → Str → ℕ → ℕ → M R Response
  unfolding set_status mark_dirty byte_offset
  write_status lm id idx status = do
    let (at, off) = byte_offset idx lm.bits
    done ← try (set_status R s.shard_id id at off lm.bits status)
    elim done [
      | err e ↦ pure (failed 500)
      | ok _ ↦ do mark_dirty id s.default_ttl_seconds; pure no_content
    ]

  -- `idx` is the parsed path parameter and `name` the decoded body, where they are well formed.
  unfoldable pub handle_set_status : Str → Str → Option ℕ → Option Str → M R Response
  unfolding check_ownership get_list write_status
  handle_set_status issuer id none name = pure (failed 400)
  handle_set_status issuer id (some idx) none = pure (failed 400)
  handle_set_status issuer id (some idx) (some name) = elim (status_named name) [
    | none ↦ pure (failed 400)
    | some status ↦ do
      owned ← try (check_ownership R id idx issuer)
      elim owned [
        | err e ↦ pure (failed (if is_not_owner e then 403 else 500))
        | ok _ ↦ do
          found ← try (get_list R id)
          elim found [
            | err e ↦ pure (failed 404)
            | ok none ↦ pure (failed 404)
            | ok (some lm) ↦ elim (is_archived lm.state) [
              | true ↦ pure (failed 410)
              | false ↦ write_status lm id idx status
            ]
          ]
      ]
  ]

-- `usageResponse`
pub record UsageResponse : Type 0 where
  pub shard_id : Str
  pub index_count : ℕ

pub data AccountingResponse : Type 0 where
  accounts : Str → List UsageResponse → AccountingResponse
  refused : ℕ → AccountingResponse

abbrev pub usage_responses : List Usage → List UsageResponse
usage_responses [] = []
usage_responses (u ∷ us) =
    record { shard_id = u.shard_id; index_count = u.index_count } ∷ usage_responses us

-- `handleAccountingMe`, given the tables' collation.
unfoldable pub handle_accounting_me :
    (R : Redis) → (Str → Str → Bool) → Str → M R AccountingResponse
unfolding get_usage
handle_accounting_me R precedes issuer = do
  found ← try (get_usage R precedes issuer)
  elim found [ err e ↦ pure (refused 500) | ok us ↦ pure (accounts issuer (usage_responses us)) ]

-- `requireShard`: the code that it aborts with, if it does. A token carries its `tenant_id`.
unfoldable pub require_shard : Str → Option Str → Option ℕ
require_shard shard none = some 401
require_shard shard (some tenant) = if str_eq tenant shard then none else some 403
