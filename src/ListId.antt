-- ===== src/ListId.antt =====
-- internal/listid/listid.go: list IDs that begin with the shard that made them.
pub mod RoundTrip
use siros_status_service.Prelude.{
  ℕ, zero, suc, ◌+◌, ◌-◌, ◌/◌, ◌%◌, Bool, ◌||◌, List, [], ◌∷◌, ◌++◌, Option, none, some, ltb, ◌==◌,
  if◌then◌else◌, length, take,
}
use siros_status_service.Prelude.Str.{Str, bytes_of}
use siros_status_service.Result.{Result, ok, err, bad_shard}

abbrev pub separator : ℕ
separator = b'.'

-- `strings.Index` for a text of one byte.
unfoldable pub index_byte : ℕ → Str → Option ℕ
index_byte c [] = none
index_byte c (x ∷ xs) =
    if x == c then some 0 else elim (index_byte c xs) [ none ↦ none | some i ↦ some (i + 1) ]

abbrev pub hex_digit : ℕ → ℕ
hex_digit d = if ltb d 10 then b'0' + d else b'a' + (d - 10)

-- `hex.EncodeToString`
unfoldable pub hex_encode : List ℕ → Str
hex_encode [] = []
hex_encode (b ∷ bs) = hex_digit (b / 16) ∷ hex_digit (b % 16) ∷ hex_encode bs

-- The check of `New`, which comes before it draws.
abbrev pub check_shard : Str → Result (Unit {0})
check_shard shard = elim (index_byte separator shard) [ some _ ↦ err bad_shard | none ↦ ok tt ]

-- `New`, with the bytes that the random source gave.
unfoldable pub new_list_id : Str → List ℕ → Result Str
unfolding index_byte hex_encode
new_list_id shard random = elim (index_byte separator shard) [
  | some _ ↦ err bad_shard
  | none ↦ ok (shard ++ (separator ∷ hex_encode random))
]

-- `ParseShard`
unfoldable pub parse_shard : Str → Option Str
unfolding index_byte
parse_shard id = elim (index_byte separator id) [
  | none ↦ none
  | some i ↦ if i == 0 || i == length id - 1 then none else some (take i id)
]
