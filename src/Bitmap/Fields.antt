-- ===== src/Bitmap/Fields.antt =====
-- internal/statuslist/bitmap.go: the fields of one byte. The facts over all bytes, statuses and
-- slots are checked by evaluation.
use Prim.Native.Nat.{bit_and, bit_and-bitwise}
use native.Mathlib.Nat.{zero-div}
use siros_status_service.Prelude.{
  ap, ◌∙◌, ℕ, ◌+◌, ◌*◌, ◌/◌, ◌%◌, ◌^◌, ◌<◌, ◌≡◌, refl, ◌⊎◌, inl, inr, Bool, true, ◌&&◌, arith, ltb,
  ltb→lt, ◌==◌, ==_iff, if◌then◌else◌,
}
use siros_status_service.Prelude.Table.{all_below, all_below_sound}
use siros_status_service.Bitmap.{field_mask, write_field, read_field, valid_bit_width}

-- The fields of byte `d` after status `s` is written to slot `k`, and slot `j` among them.
cell : ℕ → ℕ → ℕ → ℕ → ℕ → Bool
cell bits d s k j =
    read_field (write_field d (field_mask bits) (k * bits) s) (field_mask bits) (j * bits)
    == (if k == j then s else read_field d (field_mask bits) (j * bits))

cells : ℕ → ℕ → ℕ → ℕ → ℕ → Bool
unfolding all_below cell
cells bits n d s k =
    ltb (write_field d (field_mask bits) (k * bits) s) 256
    && ltb (read_field d (field_mask bits) (k * bits)) (2 ^ bits)
    && all_below n (cell bits d s k)

-- At width `bits`, with `n` slots of a byte: every byte, status and pair of slots.
pub table : ℕ → ℕ → Bool
unfolding all_below cells
table bits n = all_below 256 λ d. all_below (2 ^ bits) λ s. all_below n (cells bits n d s)

table_one : table 1 8 ≡ true
unfolding table all_below write_field read_field field_mask
table_one = refl

table_two : table 2 4 ≡ true
unfolding table all_below write_field read_field field_mask
table_two = refl

table_four : table 4 2 ≡ true
unfolding table all_below write_field read_field field_mask
table_four = refl

table_eight : table 8 1 ≡ true
unfolding table all_below write_field read_field field_mask
table_eight = refl

pub field_mask-lt : (bits : ℕ) → field_mask bits < 256
unfolding field_mask
field_mask-lt bits = omega arith

-- A width with its number of slots in a byte.
pub record IsWidth (bits n : ℕ) : Type 0 where
  pub wide : 0 < bits
  pub slots : 0 < n
  pub per_byte : 8 / bits ≡ n
  pub checked : table bits n ≡ true
  pub mask : 2 ^ bits ≡ field_mask bits + 1
  pub at : (idx : ℕ) → idx * bits / 8 ≡ idx / n
  pub off : (idx : ℕ) → idx * bits % 8 ≡ idx % n * bits

one-IsWidth : IsWidth 1 8
unfolding field_mask
one-IsWidth = record {
  wide = omega arith;
  slots = omega arith;
  per_byte = refl;
  checked = table_one;
  mask = refl;
  at = λ idx. omega arith;
  off = λ idx. omega arith;
}

two-IsWidth : IsWidth 2 4
unfolding field_mask
two-IsWidth = record {
  wide = omega arith;
  slots = omega arith;
  per_byte = refl;
  checked = table_two;
  mask = refl;
  at = λ idx. omega arith;
  off = λ idx. omega arith;
}

four-IsWidth : IsWidth 4 2
unfolding field_mask
four-IsWidth = record {
  wide = omega arith;
  slots = omega arith;
  per_byte = refl;
  checked = table_four;
  mask = refl;
  at = λ idx. omega arith;
  off = λ idx. omega arith;
}

eight-IsWidth : IsWidth 8 1
unfolding field_mask
eight-IsWidth = record {
  wide = omega arith;
  slots = omega arith;
  per_byte = refl;
  checked = table_eight;
  mask = refl;
  at = λ idx. omega arith;
  off = λ idx. omega arith;
}

pub width_cases :
    (bits : ℕ) → valid_bit_width bits ≡ true → (bits ≡ 1) ⊎ (bits ≡ 2) ⊎ (bits ≡ 4) ⊎ (bits ≡ 8)
unfolding valid_bit_width
width_cases bits h = ground arith

pub valid-IsWidth : (bits : ℕ) → valid_bit_width bits ≡ true → (n : ℕ) × IsWidth bits n
valid-IsWidth bits h = elim (width_cases bits h) [
  | inl e ↦ (8, rw e one-IsWidth)
  | inr (inl e) ↦ (4, rw e two-IsWidth)
  | inr (inr (inl e)) ↦ (2, rw e four-IsWidth)
  | inr (inr (inr e)) ↦ (1, rw e eight-IsWidth)
]

and_cases : (a b c : Bool) → (a && b && c) ≡ true → (a ≡ true) × (b ≡ true) × (c ≡ true)
and_cases a b c h = ground arith

-- A write keeps the byte a byte, is read back at its slot, and changes no other slot; a read fits
-- the width.
pub write_field_lem :
    (bits n d s k j : ℕ)
    → IsWidth bits n
    → d < 256
    → s < 2 ^ bits
    → k < n
    → j < n
    → (write_field d (field_mask bits) (k * bits) s < 256)
      × (read_field d (field_mask bits) (k * bits) < 2 ^ bits)
      × (read_field (write_field d (field_mask bits) (k * bits) s) (field_mask bits) (j * bits)
          ≡ (if k == j then s else read_field d (field_mask bits) (j * bits)))
unfolding table cells cell
write_field_lem bits n d s k j w hd hs hk hj =
    let byte_rows = λ (x : ℕ). all_below (2 ^ bits) λ y. all_below n (cells bits n x y) in
    let rows = all_below_sound 256 byte_rows d w.checked hd in
    let row = all_below_sound (2 ^ bits) (λ y. all_below n (cells bits n d y)) s rows hs in
    let parts = and_cases _ _ _ (all_below_sound n (cells bits n d s) k row hk) in
    (
      ltb→lt _ _ parts.0,
      ltb→lt _ _ parts.1,
      (==_iff _ _).0 (all_below_sound n (cell bits d s k) j parts.2 hj),
    )

-- A byte of zeros holds only the status 0.
pub read_field-zero : (mask off : ℕ) → read_field 0 mask off ≡ 0
unfolding read_field
read_field-zero mask off = ap (λ t. bit_and t mask) (zero-div (2 ^ off)) ∙ bit_and-bitwise 0 mask
