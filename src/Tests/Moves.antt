-- ===== src/Tests/Moves.antt =====
-- A shard with two issuers split over two others, and `Accept` headers.
use siros_status_service.Prelude.{◌⊎◌, ◌≡◌, refl, Bool, true, false, [], ◌∷◌, none, some, ltb}
use siros_status_service.Prelude.Str.{Str, bytes_of, str_eq}
use siros_status_service.Result.{ok}
use siros_status_service.Rows.{select_one}
use siros_status_service.Strings.{
  comma, split, before, strip_prefix, strip_any, trim_left, trim_space,
}
use siros_status_service.Negotiation.First.{IsFirst, negotiate_list_format-IsFirst}
use siros_status_service.Publisher.{Format}
use siros_status_service.Negotiation.{any_type, negotiate_list_format, media_type_of, first_match}
use siros_status_service.Shards.{Database, lookup, run_all}
use siros_status_service.Shards.Moves.{IsKeyed}
use siros_status_service.Reassign.{Config, trim_all, new_config, reassign_all}
use siros_status_service.Reassign.Run.{RunOutcome, reassign_all-RunOutcome}
use siros_status_service.Reassign.Emptied.{Emptied, reassign_all-Emptied}

abbrev before_first : Str → Str → Bool
before_first [] t = true
before_first (x ∷ s) [] = false
before_first (x ∷ s) (y ∷ t) = ltb x y

abbrev moves : Config
moves = record {
  issuer = [];
  from = bytes_of "iad";
  targets = bytes_of "fra" ∷ bytes_of "syd" ∷ [];
  dry_run = false;
}

accepted : new_config [] (bytes_of "iad") (bytes_of "fra, syd") false ≡ ok moves
unfolding new_config trim_all trim_space split trim_left strip_any strip_prefix
accepted = refl

abbrev two_issuers : Database
two_issuers = record {
  rows =
      record { issuer_id = bytes_of "y"; shard_id = bytes_of "iad" }
      ∷ record { issuer_id = bytes_of "x"; shard_id = bytes_of "iad" }
      ∷ [];
  faults = λ _. false;
  calls = 0;
  others = λ _. [];
}

two_issuers-IsKeyed : IsKeyed two_issuers.rows
unfolding lookup select_one str_eq
two_issuers-IsKeyed = (refl, (refl, tt))

reassign_all-RunOutcome_example :
    RunOutcome before_first moves two_issuers (reassign_all before_first moves two_issuers)
reassign_all-RunOutcome_example =
    reassign_all-RunOutcome before_first moves [] (bytes_of "iad") (bytes_of "fra, syd") false
      two_issuers accepted two_issuers-IsKeyed

x_listed : lookup (bytes_of "x") (run_all [] two_issuers.rows) ≡ some (bytes_of "iad")
unfolding lookup select_one str_eq run_all
x_listed = refl

reassign_all-Emptied_example :
    Emptied before_first moves (bytes_of "x") (reassign_all before_first moves two_issuers)
reassign_all-Emptied_example =
    reassign_all-Emptied before_first moves [] (bytes_of "iad") (bytes_of "fra, syd") false
      two_issuers (bytes_of "x") accepted refl refl two_issuers-IsKeyed x_listed

asks_cwt :
    negotiate_list_format (bytes_of "text/html, application/statuslist+cwt;q=0.9")
    ≡ some Format.cwt_format
unfolding negotiate_list_format first_match media_type_of trim_space trim_left strip_any
    strip_prefix split before str_eq
asks_cwt = refl

asks_html : negotiate_list_format (bytes_of "text/html") ≡ none
unfolding negotiate_list_format first_match media_type_of trim_space trim_left strip_any
    strip_prefix split before str_eq
asks_html = refl

abbrev two_types : Str
two_types = bytes_of "text/html, application/statuslist+cwt;q=0.9"

negotiate_list_format-IsFirst_example :
    (((trim_space two_types ≡ []) ⊎ (trim_space two_types ≡ any_type))
      × (negotiate_list_format two_types ≡ some Format.jwt_format))
    ⊎ (¬ (trim_space two_types ≡ [])
        × ¬ (trim_space two_types ≡ any_type)
        × IsFirst (split comma (trim_space two_types)) (negotiate_list_format two_types))
negotiate_list_format-IsFirst_example = negotiate_list_format-IsFirst two_types
