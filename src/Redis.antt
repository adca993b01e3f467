-- ===== src/Redis.antt =====
-- The Redis commands that internal/store/redis.go uses. Redis itself is not part of the repository:
-- its key space and its commands are parameters, and `Laws` is what its documentation says of them.
use siros_status_service.Prelude.{
  ℕ, ◌+◌, ◌-◌, ◌≡◌, Bool, false, List, [], ◌∷◌, ◌++◌, Option, none, some, ltb, if◌then◌else◌,
  length, get_elem?, set, replicate,
}
use siros_status_service.Prelude.Str.{Str, str_eq}

-- `bitmapKey` and `versionKey`: two prefixes, so no key of one kind is a key of the other.
pub data Key : Type 0 where
  bitmap_key version_key : Str → Key

abbrev pub key_eq : Key → Key → Bool
key_eq (bitmap_key a) (bitmap_key b) = str_eq a b
key_eq (bitmap_key a) (version_key b) = false
key_eq (version_key a) (bitmap_key b) = false
key_eq (version_key a) (version_key b) = str_eq a b

pub record Redis : Type 1 where
  pub State : Type 0
  -- `GET`, at a key that holds bytes.
  pub get : State → Key → Option (List ℕ)
  -- `GET`, at a key that holds an integer.
  pub get_int : State → Key → Option ℕ
  -- `GETRANGE key i i`: the byte, or nothing past the end.
  pub getrange : State → Key → ℕ → Option ℕ
  -- `SETRANGE key i byte`
  pub setrange : State → Key → ℕ → ℕ → State
  pub incr : State → Key → State
  pub setnx : State → Key → List ℕ → State
  pub del : State → Key → State

-- The bytes of a value; a missing key is an empty string.
abbrev pub bytes_or_empty : Option (List ℕ) → List ℕ
bytes_or_empty none = []
bytes_or_empty (some v) = v

-- The value after `SETRANGE`: it is first padded with zeros up to the offset.
abbrev pub overlay : List ℕ → ℕ → ℕ → List ℕ
overlay v i x =
    if ltb i (length v) then set v i x else v ++ (replicate (i - length v) 0 ++ (x ∷ []))

-- The integer at a key, 0 where there is none.
abbrev pub int_or_zero : Option ℕ → ℕ
int_or_zero none = 0
int_or_zero (some n) = n

-- What the documentation of the commands says.
pub record Laws (R : Redis) : Type 1 where
  pub getrange_lem :
      (s : R.State) (k : Key) (i : ℕ) → R.getrange s k i ≡ get_elem? (bytes_or_empty (R.get s k)) i
  pub get-setrange :
      (s : R.State) (k j : Key) (i x : ℕ)
      → R.get (R.setrange s k i x) j
        ≡ (if key_eq k j then some (overlay (bytes_or_empty (R.get s k)) i x) else R.get s j)
  pub get_int-setrange :
      (s : R.State) (a b : Str) (i x : ℕ)
      → R.get_int (R.setrange s (bitmap_key a) i x) (version_key b) ≡ R.get_int s (version_key b)
  pub get-incr :
      (s : R.State) (a b : Str)
      → R.get (R.incr s (version_key a)) (bitmap_key b) ≡ R.get s (bitmap_key b)
  pub get_int-incr :
      (s : R.State) (a b : Str)
      → R.get_int (R.incr s (version_key a)) (version_key b) ≡ (
          if str_eq a b
          then some (int_or_zero (R.get_int s (version_key a)) + 1)
          else R.get_int s (version_key b))
  pub get-setnx :
      (s : R.State) (k j : Key) (v : List ℕ)
      → R.get (R.setnx s k v) j
        ≡ (if key_eq k j then some (elim (R.get s k) [ none ↦ v | some old ↦ old ]) else R.get s j)
  pub get-del :
      (s : R.State) (k j : Key) → R.get (R.del s k) j ≡ (if key_eq k j then none else R.get s j)
  pub get_int-del :
      (s : R.State) (k j : Key)
      → R.get_int (R.del s k) j ≡ (if key_eq k j then none else R.get_int s j)
