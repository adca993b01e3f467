-- ===== src/Tests/Data.antt =====
-- Concrete data: a Redis kept in memory, a keyed hash, a world with one list.
use mathlib.Core.List.{foldl}
use siros_status_service.Prelude.{
  ℕ, ◌+◌, ◌%◌, refl, false, List, [], ◌∷◌, ◌++◌, Option, none, some, if◌then◌else◌, get_elem?,
  replicate, arith,
}
use siros_status_service.Prelude.Str.{Str, bytes_of}
use siros_status_service.Redis.{Redis, Laws, Key, key_eq, bytes_or_empty, overlay, int_or_zero}
use siros_status_service.Rows.{select_one, ListMeta, ListState, Db}
use siros_status_service.Rows.Tables.{count}
use siros_status_service.Allocator.{Allocator}
use siros_status_service.Store.Invariant.{IsValid}
use siros_status_service.Debounce.{new_debouncer}
use siros_status_service.World.{World}
use siros_status_service.Bitmap.{Bitmap, valid_bit_width}
use siros_status_service.Bitmap.Entries.{IsValid as IsValidBitmap}

pub record Memory : Type 0 where
  pub bytes : Key → Option (List ℕ)
  pub ints : Key → Option ℕ

abbrev put : {A : Type 0} → (Key → Option A) → Key → A → Key → Option A
put m k v j = if key_eq k j then some v else m j

abbrev pub memory : Redis
memory = record {
  State = Memory;
  get = λ s k. s.bytes k;
  get_int = λ s k. s.ints k;
  getrange = λ s k i. get_elem? (bytes_or_empty (s.bytes k)) i;
  setrange =
      λ s k i x. record s { bytes = put s.bytes k (overlay (bytes_or_empty (s.bytes k)) i x) };
  incr = λ s k. record s { ints = put s.ints k (int_or_zero (s.ints k) + 1) };
  setnx =
      λ s k v. record s { bytes = put s.bytes k (elim (s.bytes k) [ none ↦ v | some old ↦ old ]) };
  del = λ s k. record {
    bytes = λ j. if key_eq k j then none else s.bytes j;
    ints = λ j. if key_eq k j then none else s.ints j;
  };
}

pub memory-Laws : Laws memory
memory-Laws = record {
  getrange_lem = λ s k i. refl;
  get-setrange = λ s k j i x. refl;
  get_int-setrange = λ s a b i x. refl;
  get-incr = λ s a b. refl;
  get_int-incr = λ s a b. refl;
  get-setnx = λ s k j v. refl;
  get-del = λ s k j. refl;
  get_int-del = λ s k j. refl;
}

-- In place of HMAC-SHA256: the sum of the message's bytes and the key's.
abbrev pub sum_hash : List ℕ → List ℕ → List ℕ
sum_hash key message = replicate 7 0 ++ (foldl (λ a b. a + b) 0 (key ++ message) % 256 ∷ [])

abbrev pub list_a : Str
list_a = bytes_of "a.0f"

abbrev pub issuer : Str
issuer = bytes_of "issuer"

abbrev pub row_a : ListMeta
row_a = record {
  id = list_a;
  bits = 2;
  size = 4;
  cursor = 0;
  fpe_key = replicate 32 1;
  max_exp = none;
  state = ListState.active;
  created_at = 5;
  archived_at = none;
  shard_id = bytes_of "a";
  purged = false;
  purged_at = none;
}

abbrev pub new_db : Db
new_db = record { lists = row_a ∷ []; allocations = []; usage = [] }

abbrev pub world_of : Db → World memory
world_of db = record {
  db = db;
  redis = λ _. record { bytes = λ _. some (0 ∷ []); ints = λ _. none };
  debouncer = new_debouncer;
  faults = λ _. false;
  calls = 0;
  now = 100;
  random = λ i. i;
  drawn = 0;
}

abbrev pub bitmap_a : Bitmap
bitmap_a = record { bits = 2; size = 4; bytes = 0 ∷ [] }

pub bitmap_a-IsValid : IsValidBitmap bitmap_a
unfolding valid_bit_width
bitmap_a-IsValid = record {
  width = refl;
  fits = omega arith;
  exact = refl;
  all_bytes = (omega arith, tt);
}

abbrev pub small : Allocator
small = record { key = replicate 32 1; n = 4; half = 1 }

pub new_db-IsValid : IsValid sum_hash new_db
unfolding select_one count
new_db-IsValid = record {
  unique = (refl, tt);
  sound = (
    record {
      keyed = refl;
      small = omega arith;
      bounded = omega arith;
      roomy = λ _. omega arith;
      counted = refl;
      backed = tt;
      dated = λ e. cc;
    },
    tt,
  );
}
