-- ===== src/Script.antt =====
-- internal/store/redis.go: the byte arithmetic of the Lua script that Redis runs for one status
-- write. Lua's `bit` library works on 32-bit words; no result here passes 2 ^ 31, so its sign is never seen.
use Prim.Native.Nat.{bit_and, bit_or, bit_xor}
use siros_status_service.Prelude.{
  ℕ, ◌-◌, ◌*◌, ◌/◌, ◌%◌, ◌^◌, ◌<◌, ◌≡◌, refl, inl, inr, Bool, true, ◌==◌, ==_iff,
}
use siros_status_service.Prelude.Table.{all_below, all_below_sound}
use siros_status_service.Bitmap.{valid_bit_width, field_mask, write_field}
use siros_status_service.Bitmap.Fields.{width_cases}

-- A shift left of a 32-bit word.
abbrev lshift32 : ℕ → ℕ → ℕ
lshift32 x k = x * 2 ^ k % 2 ^ 32

abbrev bnot32 : ℕ → ℕ
bnot32 x = bit_xor x (2 ^ 32 - 1)

-- `cleared` and `newByte` of the script, for the byte that is there.
unfoldable pub new_byte : ℕ → ℕ → ℕ → ℕ → ℕ
new_byte byte off bits value =
    let mask = lshift32 1 bits - 1 in
    let cleared = bit_and byte (bnot32 (lshift32 mask off)) in
    bit_or cleared (lshift32 (bit_and value mask) off)

cell : ℕ → ℕ → ℕ → ℕ → Bool
cell bits k d s = new_byte d (k * bits) bits s == write_field d (field_mask bits) (k * bits) s

table : ℕ → ℕ → Bool
unfolding all_below cell
table bits n = all_below n λ k. all_below 256 λ d. all_below (2 ^ bits) (cell bits k d)

table_one : table 1 8 ≡ true
unfolding table new_byte write_field field_mask
table_one = refl

table_two : table 2 4 ≡ true
unfolding table new_byte write_field field_mask
table_two = refl

table_four : table 4 2 ≡ true
unfolding table new_byte write_field field_mask
table_four = refl

table_eight : table 8 1 ≡ true
unfolding table new_byte write_field field_mask
table_eight = refl

table_checked : (bits : ℕ) → valid_bit_width bits ≡ true → table bits (8 / bits) ≡ true
unfolding valid_bit_width
table_checked bits h = elim (width_cases bits h) [
  | inl e ↦ rw e table_one
  | inr (inl e) ↦ rw e table_two
  | inr (inr (inl e)) ↦ rw e table_four
  | inr (inr (inr e)) ↦ rw e table_eight
]

-- The script's arithmetic, done by Lua on 32-bit words, gives the byte that `Bitmap.Set` gives, for
-- every byte, slot and status that fits the width.
pub new_byte-write_field :
    (bits k d s : ℕ)
    → valid_bit_width bits ≡ true
    → k < 8 / bits
    → d < 256
    → s < 2 ^ bits
    → new_byte d (k * bits) bits s ≡ write_field d (field_mask bits) (k * bits) s
unfolding table cell
new_byte-write_field bits k d s v hk hd hs =
    let slots = λ (i : ℕ). all_below 256 λ x. all_below (2 ^ bits) (cell bits i x) in
    let rows = all_below_sound (8 / bits) slots k (table_checked bits v) hk in
    let row = all_below_sound 256 (λ x. all_below (2 ^ bits) (cell bits k x)) d rows hd in
    (==_iff _ _).0 (all_below_sound (2 ^ bits) (cell bits k d) s row hs)
