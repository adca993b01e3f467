-- ===== src/Strings.antt =====
-- What the code uses of Go's package `strings`.
use siros_status_service.Prelude.{
  ℕ, zero, suc, ◌<◌, List, [], ◌∷◌, ◌++◌, Option, none, some, ◌==◌, if◌then◌else◌, length, inl, inr,
  Bool-cases, arith,
}
use siros_status_service.Prelude.Str.{Str}

abbrev pub comma : ℕ
comma = b','

abbrev pub semicolon : ℕ
semicolon = b';'

-- A character at the front of a list of fields.
abbrev cons_first : ℕ → List Str → List Str
cons_first c [] = (c ∷ []) ∷ []
cons_first c (field ∷ fields) = (c ∷ field) ∷ fields

-- `strings.Split` at a separator of one byte.
unfoldable pub split : ℕ → Str → List Str
split sep [] = [] ∷ []
split sep (c ∷ s) = if c == sep then [] ∷ split sep s else cons_first c (split sep s)

length-cons_first : (c : ℕ) (fields : List Str) → 0 < length (cons_first c fields)
length-cons_first c [] = omega arith
length-cons_first c (field ∷ fields) = omega arith

-- A text always splits into one field at least.
pub length-split : (sep : ℕ) (s : Str) → 0 < length (split sep s)
unfolding split
length-split sep [] = omega arith
length-split sep (c ∷ s) = elim (Bool-cases (c == sep)) [
  | inl here ↦ rw here (omega arith)
  | inr other ↦ rw other (length-cons_first c (split sep s))
]

-- `strings.SplitN(s, sep, 2)[0]`
unfoldable pub before : ℕ → Str → Str
before sep [] = []
before sep (c ∷ s) = if c == sep then [] else c ∷ before sep s

-- The text after a prefix, if it has it.
unfoldable pub strip_prefix : Str → Str → Option Str
strip_prefix [] s = some s
strip_prefix (x ∷ xs) [] = none
strip_prefix (x ∷ xs) (c ∷ s) = if x == c then strip_prefix xs s else none

unfoldable pub strip_any : List Str → Str → Option Str
unfolding strip_prefix
strip_any [] s = none
strip_any (p ∷ ps) s = elim (strip_prefix p s) [ none ↦ strip_any ps s | some rest ↦ some rest ]

-- The space characters of `unicode.IsSpace`, in UTF-8: six of ASCII, U+0085, U+00A0, U+1680,
-- U+2000 to U+200A, U+2028, U+2029, U+202F, U+205F and U+3000.
abbrev pub spaces : List Str
spaces =
    (9 ∷ [])
    ∷ (10 ∷ [])
    ∷ (11 ∷ [])
    ∷ (12 ∷ [])
    ∷ (13 ∷ [])
    ∷ (32 ∷ [])
    ∷ (194 ∷ 133 ∷ [])
    ∷ (194 ∷ 160 ∷ [])
    ∷ (225 ∷ 154 ∷ 128 ∷ [])
    ∷ (226 ∷ 128 ∷ 128 ∷ [])
    ∷ (226 ∷ 128 ∷ 129 ∷ [])
    ∷ (226 ∷ 128 ∷ 130 ∷ [])
    ∷ (226 ∷ 128 ∷ 131 ∷ [])
    ∷ (226 ∷ 128 ∷ 132 ∷ [])
    ∷ (226 ∷ 128 ∷ 133 ∷ [])
    ∷ (226 ∷ 128 ∷ 134 ∷ [])
    ∷ (226 ∷ 128 ∷ 135 ∷ [])
    ∷ (226 ∷ 128 ∷ 136 ∷ [])
    ∷ (226 ∷ 128 ∷ 137 ∷ [])
    ∷ (226 ∷ 128 ∷ 138 ∷ [])
    ∷ (226 ∷ 128 ∷ 168 ∷ [])
    ∷ (226 ∷ 128 ∷ 169 ∷ [])
    ∷ (226 ∷ 128 ∷ 175 ∷ [])
    ∷ (226 ∷ 129 ∷ 159 ∷ [])
    ∷ (227 ∷ 128 ∷ 128 ∷ [])
    ∷ []

abbrev pub reverse : Str → Str
reverse [] = []
reverse (c ∷ s) = reverse s ++ (c ∷ [])

abbrev reversed : List Str → List Str
reversed [] = []
reversed (s ∷ ss) = reverse s ∷ reversed ss

-- The texts of a list stripped from the front; a step removes a byte at least.
unfoldable pub trim_left : List Str → ℕ → Str → Str
unfolding strip_any
trim_left ps zero s = s
trim_left ps (suc fuel) s = elim (strip_any ps s) [ none ↦ s | some rest ↦ trim_left ps fuel rest ]

-- `strings.TrimSpace`
unfoldable pub trim_space : Str → Str
unfolding trim_left
trim_space s =
    let left = trim_left spaces (length s) s in
    reverse (trim_left (reversed spaces) (length left) (reverse left))
