-- ===== src/ListId/RoundTrip.antt =====
-- `New` and `ParseShard` against each other.
use siros_status_service.Prelude.{
  ℕ, suc, ◌+◌, ◌-◌, ◌*◌, ◌<◌, ◌≡◌, ◌≢◌, refl, ap, ◌∙◌, ◌⊎◌, inl, inr, ◌||◌, Bool-cases, List, [],
  ◌∷◌, ◌++◌, Option, none, some, Option-cases, arith, length, length-append, take, take-append,
  ◌==◌, ==_iff,
}
use siros_status_service.Prelude.Str.{Str}
use siros_status_service.Result.{Result, ok, err, bad_shard}
use siros_status_service.ListId.{separator, index_byte, hex_encode, new_list_id, parse_shard}

-- The first place of a byte is past a text that lacks it.
index_byte-append :
    (c : ℕ) (s t : Str) → index_byte c s ≡ none → index_byte c (s ++ (c ∷ t)) ≡ some (length s)
unfolding index_byte
index_byte-append c [] t h = ground arith
index_byte-append c (x ∷ s) t h = elim (Bool-cases (x == c)) [
  | inl e ↦ absurd (ground arith)
  | inr e ↦ elim (Option-cases (index_byte c s)) [
    | inl none_there ↦ rw (e, index_byte-append c s t none_there) (ap some (omega arith))
    | inr (k, found) ↦ absurd (ground arith)
  ]
]

-- What comes before the first place, and after it.
abbrev Splits : ℕ → Str → ℕ → Type 0
Splits c s i =
    (rest : Str) × (s ≡ take i s ++ (c ∷ rest))
    × (index_byte c (take i s) ≡ none)
    × (length s ≡ i + 1 + length rest)
    × (length (take i s) ≡ i)

index_byte-Splits : (c : ℕ) (s : Str) (i : ℕ) → index_byte c s ≡ some i → Splits c s i
unfolding index_byte
index_byte-Splits c [] i h = cc
index_byte-Splits c (x ∷ s) i h = elim (Bool-cases (x == c)) [
  | inl e ↦
      let at : i ≡ 0 = ground arith in
      let same : x ≡ c = (==_iff x c).0 e in rw (at, same) (s, refl, refl, omega arith, refl)
  | inr e ↦ elim (Option-cases (index_byte c s)) [
    | inl none_there ↦ absurd (ground arith)
    | inr (k, found) ↦
        let at : i ≡ suc k = ground arith in
        let (rest, parts, first, len, cut) = index_byte-Splits c s k found in
        rw at (rest, ap (λ r. x ∷ r) parts, rw (e, first) refl, omega arith, ap suc cut)
  ]
]

length-hex_encode : (bs : List ℕ) → length (hex_encode bs) ≡ 2 * length bs
unfolding hex_encode
length-hex_encode [] = refl
length-hex_encode (b ∷ bs) = omega (arith, length-hex_encode bs)

-- What `New` may come to.
abbrev pub NewListIdOutcome : Str → Result Str → Type 0
NewListIdOutcome shard (ok id) = parse_shard id ≡ some shard
NewListIdOutcome shard (err e) = (e ≡ bad_shard) × (index_byte separator shard ≢ none)

-- `ParseShard` of an ID that `New` made gives the shard back, for every shard and every random suffix
-- that are not empty; `New` refuses the shards that contain a dot, and no others.
pub parse_shard-new_list_id :
    (shard random : List ℕ)
    → 0 < length shard
    → 0 < length random
    → NewListIdOutcome shard (new_list_id shard random)
unfolding new_list_id parse_shard
parse_shard-new_list_id shard random hs hr = elim (Option-cases (index_byte separator shard)) [
  | inr (i, found) ↦ rw (found, NewListIdOutcome, found) (refl, λ e. cc)
  | inl free ↦
      let suffix = hex_encode random in
      let len : length (shard ++ (separator ∷ suffix)) ≡ length shard + suc (2 * length random) =
        length-append shard (separator ∷ suffix)
        ∙ ap (λ n. length shard + suc n) (length-hex_encode random) in
      rw (free, NewListIdOutcome, index_byte-append separator shard suffix free, parse_shard)
        (ground (arith, len, take-append shard (separator ∷ suffix)))
]

-- What `ParseShard` may return.
abbrev pub ParseOutcome : Str → Option Str → Type 0
ParseOutcome id (some shard) =
    (rest : Str) × (id ≡ shard ++ (separator ∷ rest))
    × (index_byte separator shard ≡ none)
    × (0 < length shard)
    × (0 < length rest)
ParseOutcome id none =
    (index_byte separator id ≡ none)
    ⊎ (index_byte separator id ≡ some 0)
    ⊎ (index_byte separator id ≡ some (length id - 1))

-- The shard parsed out of an ID is all that comes before its first dot, and neither it nor what
-- follows the dot is empty; an ID without such a shard has no dot, or its first dot is its first or
-- last byte.
pub parse_shard-ParseOutcome : (id : Str) → ParseOutcome id (parse_shard id)
unfolding parse_shard
parse_shard-ParseOutcome id = elim (Option-cases (index_byte separator id)) [
  | inl none_there ↦ rw (none_there, ParseOutcome) (inl none_there)
  | inr (i, found) ↦
      let (rest, parts, first, len, cut) = index_byte-Splits separator id i found in
      elim (Bool-cases (i == 0 || i == length id - 1)) [
        | inl ends ↦ rw (found, ends, ParseOutcome, found) (ground arith)
        | inr inside ↦
            rw (found, inside, ParseOutcome) (rest, parts, first, ground arith, ground arith)
      ]
]
