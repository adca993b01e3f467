-- ===== src/Tests/Requests.antt =====
-- Requests, routing, debouncing and noise on concrete inputs.
use siros_status_service.Prelude.{◌≡◌, ◌⊎◌, refl, true, false, [], ◌∷◌, ◌++◌, none, some, arith}
use siros_status_service.Prelude.Str.{bytes_of, str_eq}
use siros_status_service.Result.{ok, err, unavailable}
use siros_status_service.Debounce.{Debouncer, new_debouncer, trigger}
use siros_status_service.Debounce.Timing.{IsTimed, Run-IsTimed, starts, triggers}
use siros_status_service.World.{World}
use siros_status_service.Decoy.{Noiser, noise_amid}
use siros_status_service.Decoy.Steps.{Spares, noise_amid-Spares}
use siros_status_service.ListId.{index_byte, new_list_id, parse_shard}
use siros_status_service.ListId.RoundTrip.{NewListIdOutcome, parse_shard-new_list_id}
use siros_status_service.Store.Invariant.{IsUnique}
use siros_status_service.Pool.Healthy.Width.{HasWidth, ensure_healthy-HasWidth}
use siros_status_service.Pool.{Manager, ensure_healthy, choose_by_power_of_two}
use siros_status_service.Pool.Choice.{IsRoomier, choose_by_power_of_two-IsRoomier}
use siros_status_service.Ingestion.{Server, handle_set_status}
use siros_status_service.Ingestion.Guards.{OnlyByRight, handle_set_status-OnlyByRight}
use siros_status_service.Shards.{Database, lookup, assign_or_lookup}
use siros_status_service.Shards.Assignment.{
  Assigned, assign_or_lookup-Assigned, assign_or_lookup_sticks,
}
use siros_status_service.Router.{target_shard, configured, slash, serve_http, valid}
use siros_status_service.Router.Routes.{IsRouted, target_shard-named, serve_http-IsRouted}
use siros_status_service.Rows.{select_one}
use siros_status_service.Publisher.{Publisher, Cache, Format, publish_if_stale, serve_list}
use siros_status_service.Publisher.Served.{
  IsFresh, publish_if_stale-IsFresh, Rests, serve_list-Rests,
}
use siros_status_service.Tests.Data.{
  memory, sum_hash, list_a, issuer, row_a, new_db, world_of, bitmap_a, small,
}

abbrev pool_a : Manager
pool_a = record { shard_id = bytes_of "a"; width = 1; capacity = 4; bits = 2; max_age = 0 }

abbrev server_a : Server
server_a = record {
  shard_id = bytes_of "a";
  base_url = bytes_of "https://s";
  max_expiry = 1000;
  default_ttl_seconds = 60;
  pool = pool_a;
}

handle_set_status-OnlyByRight_example : OnlyByRight issuer list_a (some 1) (world_of new_db) (
    handle_set_status memory sum_hash server_a issuer list_a
      (some 1)
      (some (bytes_of "INVALID"))
      (world_of new_db))
handle_set_status-OnlyByRight_example =
    handle_set_status-OnlyByRight memory sum_hash server_a issuer list_a (some 1)
      (some (bytes_of "INVALID")) (world_of new_db)

abbrev database : Database
database = record {
  rows = record { issuer_id = issuer; shard_id = bytes_of "a" } ∷ [];
  faults = λ _. false;
  calls = 0;
  others = λ _. (bytes_of "other", bytes_of "b") ∷ [];
}

looked_up : lookup issuer database.rows ≡ some (bytes_of "a")
unfolding lookup select_one str_eq
looked_up = refl

assign_or_lookup-Assigned_example :
    Assigned
      (bytes_of "new")
      (assign_or_lookup (λ s. s) (bytes_of "a" ∷ []) (bytes_of "new") database)
assign_or_lookup-Assigned_example =
    assign_or_lookup-Assigned (λ s. s) (bytes_of "a" ∷ []) (bytes_of "new") database (omega arith)

assign_or_lookup_sticks_example :
    ((assign_or_lookup (λ s. s) (bytes_of "b" ∷ []) issuer database).0 ≡ ok (bytes_of "a"))
    ⊎ ((assign_or_lookup (λ s. s) (bytes_of "b" ∷ []) issuer database).0 ≡ err unavailable)
assign_or_lookup_sticks_example =
    assign_or_lookup_sticks (λ s. s) (bytes_of "b" ∷ []) issuer (bytes_of "a") database looked_up

shard_of_a : parse_shard list_a ≡ some (bytes_of "a")
unfolding parse_shard index_byte
shard_of_a = refl

a_configured : configured (bytes_of "a") (bytes_of "a" ∷ []) ≡ true
unfolding configured str_eq
a_configured = refl

target_shard-named_example :
    target_shard
      (bytes_of "a" ∷ [])
      (bytes_of "b")
      (bytes_of "/status/" ++ (list_a ++ (slash ∷ bytes_of "7")))
    ≡ bytes_of "a"
target_shard-named_example =
    target_shard-named (bytes_of "a" ∷ []) (bytes_of "b") list_a (bytes_of "7") (bytes_of "a")
      (refl, (refl, (refl, (refl, tt)))) (refl, tt) shard_of_a a_configured

serve_http-IsRouted_example :
    IsRouted
      (λ _. valid (bytes_of "a"))
      (bytes_of "a" ∷ [])
      (bytes_of "Bearer t")
      (bytes_of "/allocate")
      (serve_http
        (λ _. valid (bytes_of "a"))
        (bytes_of "a" ∷ [])
        (bytes_of "Bearer t")
        (bytes_of "/allocate"))
serve_http-IsRouted_example =
    serve_http-IsRouted (λ _. valid (bytes_of "a")) (bytes_of "a" ∷ []) (bytes_of "Bearer t")
      (bytes_of "/allocate")

abbrev twice : Debouncer
twice = trigger list_a 10 3 (trigger list_a 10 3 new_debouncer)

Run-IsTimed_example : IsTimed 10 3 twice
Run-IsTimed_example =
    Run-IsTimed 10 3 twice (omega arith) (triggers list_a (triggers list_a (starts 3)))

abbrev noiser_a : Noiser
noiser_a = record {
  shard_id = bytes_of "a";
  enabled = true;
  default_ttl_seconds = 60;
  targets = λ n. n;
}

-- Others that empty the list's rest: its cursor moves to its end.
abbrev allocate_all : World memory → World memory
allocate_all w = record w { db = record w.db { lists = record row_a { cursor = 4 } ∷ [] } }

noise_amid-Spares_example :
    Spares memory sum_hash noiser_a allocate_all row_a bitmap_a
      (world_of new_db)
      (noise_amid memory sum_hash noiser_a allocate_all row_a small bitmap_a (world_of new_db)).1
noise_amid-Spares_example =
    noise_amid-Spares memory sum_hash noiser_a allocate_all row_a small bitmap_a (world_of new_db)

parse_shard-new_list_id_example :
    NewListIdOutcome (bytes_of "a") (new_list_id (bytes_of "a") (255 ∷ []))
parse_shard-new_list_id_example =
    parse_shard-new_list_id (bytes_of "a") (255 ∷ []) (omega arith) (omega arith)

choose_by_power_of_two-IsRoomier_example :
    IsRoomier (row_a ∷ row_a ∷ []) 1 (choose_by_power_of_two (row_a ∷ row_a ∷ []) 1 0)
choose_by_power_of_two-IsRoomier_example =
    choose_by_power_of_two-IsRoomier (row_a ∷ row_a ∷ []) 1 0 (omega arith) (omega arith)

abbrev publisher_a : Publisher
publisher_a = record {
  has_store = λ _. true;
  base_url = bytes_of "https://s";
  key_id = bytes_of "k";
  jwk = none;
  cert_chain = [];
  build_token = λ t. ok t.bitmap.bytes;
  build_cwt_token = λ t. ok t.bitmap.bytes;
}

abbrev empty_cache : Cache
empty_cache = λ _. none

publish_if_stale-IsFresh_example :
    IsFresh memory publisher_a empty_cache row_a 60
      (world_of new_db)
      (publish_if_stale memory publisher_a empty_cache row_a 60 (world_of new_db))
publish_if_stale-IsFresh_example =
    publish_if_stale-IsFresh memory publisher_a empty_cache row_a 60 (world_of new_db)

serve_list-Rests_example :
    Rests memory publisher_a row_a 1000 60 none
      (world_of new_db)
      (serve_list memory publisher_a empty_cache row_a 1000 60
        (some Format.jwt_format)
        none
        (world_of new_db)).0
serve_list-Rests_example =
    serve_list-Rests memory publisher_a empty_cache row_a 1000 60 (some Format.jwt_format) none
      (world_of new_db)

new_db-IsUnique : IsUnique new_db.lists
unfolding select_one
new_db-IsUnique = (refl, tt)

ensure_healthy-HasWidth_example :
    HasWidth memory pool_a (world_of new_db) (ensure_healthy memory pool_a (world_of new_db))
ensure_healthy-HasWidth_example =
    ensure_healthy-HasWidth memory pool_a (world_of new_db) new_db-IsUnique
