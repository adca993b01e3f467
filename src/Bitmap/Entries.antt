-- ===== src/Bitmap/Entries.antt =====
-- The invariant of a bitmap, where its entries lie, and a call of `Set` or `Get` at an entry in range.
use siros_status_service.Prelude.{
  ℕ, ◌+◌, ◌*◌, ◌/◌, ◌%◌, ◌^◌, ◌≤◌, ◌<◌, ◌≡◌, true, some, arith, length, get_elem?, set, All,
  length-set, get_elem?-All, set-All,
}
use siros_status_service.Result.{ok}
use siros_status_service.Bitmap.{
  Bitmap, valid_bit_width, byte_len, byte_offset, field_mask, write_field, read_field, set_status,
  get_status,
}
use siros_status_service.Bitmap.Fields.{IsWidth, write_field_lem}

abbrev pub IsByte : ℕ → Type 0
IsByte d = d < 256

-- The width is one the specification allows, the bit count fits 64 bits, and the slice has exactly
-- the bytes that the entries need.
pub record IsValid (b : Bitmap) : Type 0 where
  pub width : valid_bit_width b.bits ≡ true
  pub fits : b.size * b.bits + 7 < 2 ^ 64
  pub exact : length b.bytes ≡ byte_len b.size b.bits
  pub all_bytes : All IsByte b.bytes

-- Where entry `idx` lies at `n` slots to the byte, with no wrap-around.
pub record Place (b : Bitmap) (n idx : ℕ) : Type 0 where
  pub at : (byte_offset idx b.bits).0 ≡ idx / n
  pub off : (byte_offset idx b.bits).1 ≡ idx % n * b.bits
  pub slot : idx % n < n
  pub inside : idx / n < length b.bytes

mul_mono : (i j k : ℕ) → i < j → i * k + k ≤ j * k
mul_mono i j k h = grind arith

pub place : (b : Bitmap) (n idx : ℕ) → IsValid b → IsWidth b.bits n → idx < b.size → Place b n idx
unfolding byte_offset
place b n idx v w h =
    let m : idx * b.bits + b.bits ≤ b.size * b.bits = mul_mono idx b.size b.bits h in
    record {
      at = omega (arith, w.at idx, v.fits, m);
      off = omega (arith, w.off idx, v.fits, m);
      slot = omega (arith, w.slots);
      inside = omega (arith, w.at idx, v.fits, m, v.exact, w.wide);
    }

-- The bitmap after a write of `s` to entry `idx`, whose byte was `d`.
unfoldable pub written : Bitmap → ℕ → ℕ → ℕ → ℕ → Bitmap
written b n idx s d = record b {
  bytes = set b.bytes (idx / n) (write_field d (field_mask b.bits) (idx % n * b.bits) s);
}

module _ (b : Bitmap) (n idx : ℕ) (v : IsValid b) (w : IsWidth b.bits n) (h : idx < b.size) where
  pub entry_byte : (d : ℕ) × (get_elem? b.bytes (idx / n) ≡ some d) × (d < 256)
  entry_byte = get_elem?-All IsByte b.bytes (idx / n) v.all_bytes (place b n idx v w h).inside

  pub get_status-at :
      (d : ℕ)
      → get_elem? b.bytes (idx / n) ≡ some d
      → get_status b idx ≡ ok (read_field d (field_mask b.bits) (idx % n * b.bits))
  unfolding get_status
  get_status-at d e = let p = place b n idx v w h in ground (arith, p.at, p.off)

  pub set_status-at :
      (s d : ℕ)
      → s < 2 ^ b.bits
      → get_elem? b.bytes (idx / n) ≡ some d
      → set_status b idx s ≡ ok (written b n idx s d)
  unfolding set_status written
  set_status-at s d hs e = let p = place b n idx v w h in ground (arith, p.at, p.off, w.mask)

  pub written-IsValid : (s d : ℕ) → s < 2 ^ b.bits → d < 256 → IsValid (written b n idx s d)
  unfolding written
  written-IsValid s d hs hd =
      let p = place b n idx v w h in
      record {
        width = v.width;
        fits = v.fits;
        exact = rw length-set v.exact;
        all_bytes =
            set-All IsByte b.bytes (idx / n) _ v.all_bytes
              (write_field_lem b.bits n d s (idx % n) (idx % n) w hd hs p.slot p.slot).0;
      }
