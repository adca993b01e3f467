-- ===== src/Negotiation.antt =====
-- internal/verifier/handlers.go: the format of a list that an `Accept` header asks for.
pub mod First
use siros_status_service.Prelude.{◌||◌, List, [], ◌∷◌, Option, none, some, if◌then◌else◌}
use siros_status_service.Prelude.Str.{Str, bytes_of, str_eq}
use siros_status_service.Strings.{comma, semicolon, split, before, trim_space}
use siros_status_service.Assertion.{is_empty}
use siros_status_service.Publisher.{Format}

abbrev pub jwt_media_type : Str
jwt_media_type = bytes_of "application/statuslist+jwt"

abbrev pub cwt_media_type : Str
cwt_media_type = bytes_of "application/statuslist+cwt"

abbrev pub any_type : Str
any_type = bytes_of "*/*"

-- The media type of one part of the header, without its parameters.
unfoldable pub media_type_of : Str → Str
unfolding before trim_space
media_type_of part = trim_space (before semicolon part)

-- The loop over the parts.
unfoldable pub first_match : List Str → Option Format
unfolding media_type_of
first_match [] = none
first_match (part ∷ parts) =
    let rest = first_match parts in
    if str_eq (media_type_of part) cwt_media_type
    then some Format.cwt_format
    else if str_eq (media_type_of part) jwt_media_type || str_eq (media_type_of part) any_type
    then some Format.jwt_format
    else rest

-- `negotiateListFormat`; no format is `""`.
unfoldable pub negotiate_list_format : Str → Option Format
unfolding trim_space split first_match
negotiate_list_format header =
    let accept = trim_space header in
    if is_empty accept || str_eq accept any_type
    then some Format.jwt_format
    else first_match (split comma accept)
