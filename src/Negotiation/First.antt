-- ===== src/Negotiation/First.antt =====
-- internal/verifier/handlers.go: which part of an `Accept` header decides.
use siros_status_service.Prelude.{
  ◌≡◌, refl, ap, ◌⊎◌, inl, inr, Bool-cases, true, false, List, [], ◌∷◌, ◌++◌, Option, none, some,
  arith, All,
}
use siros_status_service.Prelude.Str.{Str, str_eq, str_eq_iff}
use siros_status_service.Strings.{comma, split, trim_space}
use siros_status_service.Assertion.{is_empty}
use siros_status_service.Publisher.{Format}
use siros_status_service.Negotiation.{
  jwt_media_type, cwt_media_type, any_type, media_type_of, first_match, negotiate_list_format,
}

-- A part that names a format.
abbrev pub Names : Format → Str → Type 0
Names Format.jwt_format part =
    (media_type_of part ≡ jwt_media_type) ⊎ (media_type_of part ≡ any_type)
Names Format.cwt_format part = media_type_of part ≡ cwt_media_type

-- A part that names neither.
abbrev pub NamesNone : Str → Type 0
NamesNone part =
    (str_eq (media_type_of part) jwt_media_type ≡ false)
    × (str_eq (media_type_of part) cwt_media_type ≡ false)
    × (str_eq (media_type_of part) any_type ≡ false)

-- The first part that names a format, or none of them.
abbrev pub IsFirst : List Str → Option Format → Type 0
IsFirst parts none = All NamesNone parts
IsFirst parts (some format) =
    (skipped : List Str) × (part : Str) × (rest : List Str) × (parts ≡ skipped ++ (part ∷ rest))
    × All NamesNone skipped
    × Names format part

skip-IsFirst :
    (part : Str) (parts : List Str) (o : Option Format)
    → NamesNone part
    → IsFirst parts o
    → IsFirst (part ∷ parts) o
skip-IsFirst part parts none neither first = (neither, first)
skip-IsFirst part parts (some format) neither (skipped, found, rest, eq, all, names) =
    (part ∷ skipped, found, rest, ap (λ l. part ∷ l) eq, (neither, all), names)

first_match-IsFirst : (parts : List Str) → IsFirst parts (first_match parts)
unfolding first_match
first_match-IsFirst [] = tt
first_match-IsFirst (part ∷ parts) =
    let m = media_type_of part in
    elim (Bool-cases (str_eq m cwt_media_type)) [
      | inl cwt ↦ rw cwt ([], part, parts, refl, tt, (str_eq_iff m cwt_media_type).0 cwt)
      | inr not_cwt ↦ elim (Bool-cases (str_eq m jwt_media_type)) [
        | inl jwt ↦
            rw (not_cwt, jwt) ([], part, parts, refl, tt, inl ((str_eq_iff m jwt_media_type).0 jwt))
        | inr not_jwt ↦ elim (Bool-cases (str_eq m any_type)) [
          | inl any ↦
              rw (not_cwt, not_jwt, any)
                ([], part, parts, refl, tt, inr ((str_eq_iff m any_type).0 any))
          | inr not_any ↦
              rw (not_cwt, not_jwt, not_any)
                (skip-IsFirst part parts (first_match parts) (not_jwt, not_cwt, not_any)
                  (first_match-IsFirst parts))
        ]
      ]
    ]

is_empty-[] : (s : Str) → is_empty s ≡ true → s ≡ []
is_empty-[] [] e = refl
is_empty-[] (c ∷ s) e = cc

-- An `Accept` header that is blank or `*/*` asks for a JWT; of any other, the first part, between
-- commas, whose media type without parameters is one of the two, or `*/*` for a JWT, decides; and
-- where no part does, the list is not served.
pub negotiate_list_format-IsFirst :
    (header : Str)
    → (((trim_space header ≡ []) ⊎ (trim_space header ≡ any_type))
        × (negotiate_list_format header ≡ some Format.jwt_format))
      ⊎ (¬ (trim_space header ≡ [])
          × ¬ (trim_space header ≡ any_type)
          × IsFirst (split comma (trim_space header)) (negotiate_list_format header))
unfolding negotiate_list_format
negotiate_list_format-IsFirst header = elim (Bool-cases (is_empty (trim_space header))) [
  | inl blank ↦ inl (inl (is_empty-[] (trim_space header) blank), ground (arith, blank))
  | inr full ↦ elim (Bool-cases (str_eq (trim_space header) any_type)) [
    | inl any ↦
        inl (inr ((str_eq_iff (trim_space header) any_type).0 any), ground (arith, full, any))
    | inr other ↦ inr (
      λ blank. ground (arith, full, ap is_empty blank),
      λ any. ground (arith, other, (str_eq_iff (trim_space header) any_type).1 any),
      rw (full, other) (first_match-IsFirst (split comma (trim_space header))),
    )
  ]
]
