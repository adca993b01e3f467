-- ===== src/Bitmap.antt =====
-- internal/statuslist/bitmap.go: the packed byte array of one status list. `uint64` products wrap,
-- and an index out of the slice panics.
pub mod Fields
pub mod Entries
pub mod Laws
use Prim.Native.Nat.{bit_and, bit_or}
use siros_status_service.Prelude.{
  ℕ, ◌+◌, ◌-◌, ◌*◌, ◌/◌, ◌%◌, ◌^◌, Bool, not, ◌||◌, List, Option, none, some, ltb, leb, ◌==◌,
  if◌then◌else◌, length, get_elem?, set, replicate,
}
use siros_status_service.Prelude.Word.{u8, u64, and_not8}
use siros_status_service.Result.{
  Result, ok, err, bad_width, bad_size, bad_length, out_of_range, bad_status, panic, fail_if, ◌>>=◌,
  ◌>>◌,
}

-- The status values of the specification.
abbrev pub status_valid : ℕ
status_valid = 0

abbrev pub status_invalid : ℕ
status_invalid = 1

abbrev pub status_suspended : ℕ
status_suspended = 2

unfoldable pub valid_bit_width : ℕ → Bool
valid_bit_width bits = bits == 1 || bits == 2 || bits == 4 || bits == 8

pub record Bitmap : Type 0 where
  pub bits : ℕ
  pub size : ℕ
  pub bytes : List ℕ

-- `(size*uint64(bits) + 7) / 8`
abbrev pub byte_len : ℕ → ℕ → ℕ
byte_len size bits = u64 (size * bits + 7) / 8

unfoldable pub new_bitmap : ℕ → ℕ → Result Bitmap
unfolding valid_bit_width
new_bitmap size bits = do
  fail_if (not (valid_bit_width bits)) bad_width
  fail_if (size == 0) bad_size
  ok (record { bits = bits; size = size; bytes = replicate (byte_len size bits) 0 })

unfoldable pub wrap_bitmap : List ℕ → ℕ → ℕ → Result Bitmap
unfolding valid_bit_width
wrap_bitmap bytes size bits = do
  fail_if (not (valid_bit_width bits)) bad_width
  fail_if (not (length bytes == byte_len size bits)) bad_length
  ok (record { bits = bits; size = size; bytes = bytes })

-- The byte that holds an entry, and the entry's offset from that byte's lowest bit.
unfoldable pub byte_offset : ℕ → ℕ → ℕ × ℕ
byte_offset idx bits = (u64 (idx * bits) / 8, u64 (idx * bits) % 8)

-- `byte(1<<uint(bits) - 1)`: the shift is done in a byte, where 1<<8 is 0.
unfoldable pub field_mask : ℕ → ℕ
field_mask bits = u8 (u8 (2 ^ bits) + 255)

-- The byte after the assignment in `Set`.
unfoldable pub write_field : ℕ → ℕ → ℕ → ℕ → ℕ
write_field byte mask off status =
    bit_or (and_not8 byte (u8 (mask * 2 ^ off))) (u8 (status * 2 ^ off))

-- What `Get` takes out of a byte.
unfoldable pub read_field : ℕ → ℕ → ℕ → ℕ
read_field byte mask off = bit_and (byte / 2 ^ off) mask

-- A slice element, or the panic of an index out of range.
abbrev pub byte_at : List ℕ → ℕ → Result ℕ
byte_at bytes i = elim (get_elem? bytes i) [ none ↦ err panic | some d ↦ ok d ]

unfoldable pub set_status : Bitmap → ℕ → ℕ → Result Bitmap
unfolding byte_offset field_mask write_field
set_status b idx status = do
  fail_if (leb b.size idx) out_of_range
  let mask = field_mask b.bits
  fail_if (ltb mask status) bad_status
  let (at, off) = byte_offset idx b.bits
  d ← byte_at b.bytes at
  ok (record b { bytes = set b.bytes at (write_field d mask off status) })

unfoldable pub get_status : Bitmap → ℕ → Result ℕ
unfolding byte_offset field_mask read_field
get_status b idx = do
  fail_if (leb b.size idx) out_of_range
  let mask = field_mask b.bits
  let (at, off) = byte_offset idx b.bits
  d ← byte_at b.bytes at
  ok (read_field d mask off)
