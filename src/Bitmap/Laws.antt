-- ===== src/Bitmap/Laws.antt =====
-- What `Set`, `Get`, `NewBitmap` and `WrapBitmap` do on a valid bitmap.
use siros_status_service.Prelude.{
  ◌≢◌, ap, ==_iff, ◌∙◌, Bool-cases, ltb→lt, ℕ, ◌+◌, ◌*◌, ◌/◌, ◌%◌, ◌^◌, ◌≤◌, ◌<◌, ◌≡◌, refl, ◌⊎◌,
  inl, inr, true, false, some, arith, ltb, ◌==◌, if◌then◌else◌, List, length, get_elem?, replicate,
  All, length-replicate, get_elem?-set_self, get_elem?-set_ne, get_elem?-replicate, replicate-All,
}
use siros_status_service.Prelude.Division.{eq_of_div_mod}
use siros_status_service.Result.{
  Result, ok, err, out_of_range, bad_status, bad_width, bad_size, bad_length, ◌>>=◌,
}
use siros_status_service.Bitmap.{
  status_valid, Bitmap, valid_bit_width, new_bitmap, wrap_bitmap, byte_len, field_mask, write_field,
  set_status, get_status,
}
use siros_status_service.Bitmap.Fields.{IsWidth, valid-IsWidth, write_field_lem, read_field-zero}
use siros_status_service.Bitmap.Entries.{
  IsByte, IsValid, place, written, entry_byte, get_status-at, set_status-at, written-IsValid,
}

-- What a call of `Set` at `idx` and `status` may return.
abbrev pub SetOutcome : Bitmap → ℕ → ℕ → Result Bitmap → Type 0
SetOutcome b idx s (ok b') =
    (idx < b.size) × (s < 2 ^ b.bits) × IsValid b' × (b'.size ≡ b.size) × (b'.bits ≡ b.bits)
SetOutcome b idx s (err e) =
    ((b.size ≤ idx) × (e ≡ out_of_range)) ⊎ ((idx < b.size) × (2 ^ b.bits ≤ s) × (e ≡ bad_status))

set_status-refused :
    (b : Bitmap) (idx s : ℕ)
    → IsValid b
    → 2 ^ b.bits ≤ s
    → idx < b.size
    → set_status b idx s ≡ err bad_status
unfolding set_status
set_status-refused b idx s v hs h =
    let (n, w) = valid-IsWidth b.bits v.width in ground (arith, w.mask)

set_status-out : (b : Bitmap) (idx s : ℕ) → b.size ≤ idx → set_status b idx s ≡ err out_of_range
unfolding set_status
set_status-out b idx s h = ground arith

get_status-out : (b : Bitmap) (idx : ℕ) → b.size ≤ idx → get_status b idx ≡ err out_of_range
unfolding get_status
get_status-out b idx h = ground arith

-- On a valid bitmap `Set` never panics: it succeeds exactly on an index in range with a status that
-- fits the width, and then keeps the invariant, the size and the width; otherwise it reports the
-- index first, then the status.
pub set_status-SetOutcome :
    (b : Bitmap) (idx s : ℕ) → IsValid b → SetOutcome b idx s (set_status b idx s)
unfolding written
set_status-SetOutcome b idx s v = elim (Bool-cases (ltb idx b.size)) [
  | inr out ↦ rw (set_status-out b idx s (ground arith)) (inl (ground arith, refl))
  | inl within ↦ elim (Bool-cases (ltb s (2 ^ b.bits))) [
    | inr wide ↦
        rw (set_status-refused b idx s v (ground arith) (ground arith))
          (inr (ground arith, ground arith, refl))
    | inl fits ↦
        let h = ltb→lt idx b.size within in
        let hs = ltb→lt s (2 ^ b.bits) fits in
        let (n, w) = valid-IsWidth b.bits v.width in
        let (d, e, hd) = entry_byte b n idx v w h in
        rw (set_status-at b n idx v w h s d hs e)
          (h, hs, written-IsValid b n idx v w h s d hs hd, refl, refl)
  ]
]

get_status-written :
    (b : Bitmap) (n idx s j d : ℕ) (v : IsValid b) (w : IsWidth b.bits n)
    → get_elem? b.bytes (idx / n) ≡ some d
    → d < 256
    → s < 2 ^ b.bits
    → idx < b.size
    → j < b.size
    → get_status (written b n idx s d) j ≡ (if idx == j then ok s else get_status b j)
unfolding written
get_status-written b n idx s j d v w e hd hs h hj =
    let b' = written b n idx s d in
    let v' = written-IsValid b n idx v w h s d hs hd in
    let p = place b n idx v w h in
    let q = place b n j v w hj in
    let d' = write_field d (field_mask b.bits) (idx % n * b.bits) s in
    let (c, f, hc) = entry_byte b n j v w hj in
    elim (Bool-cases (idx / n == j / n)) [
      | inl same ↦
          let at_same : idx / n ≡ j / n = (==_iff _ _).0 same in
          ground (
            arith,
            get_status-at b' n j v' w hj d'
                (rw (← at_same) (get_elem?-set_self b.bytes (idx / n) d' p.inside)),
            get_status-at b n j v w hj d (rw (← at_same) e),
            (write_field_lem b.bits n d s (idx % n) (j % n) w hd hs p.slot q.slot).2,
            eq_of_div_mod n idx j at_same,
          )
      | inr other ↦ ground (
        arith,
        get_status-at b' n j v' w hj c
            (get_elem?-set_ne b.bytes (idx / n) (j / n) d' (ground arith) ∙ f),
        get_status-at b n j v w hj c f,
      )
    ]

get_status-written_out :
    (b : Bitmap) (n idx s j d : ℕ)
    → idx < b.size
    → b.size ≤ j
    → get_status (written b n idx s d) j ≡ (if idx == j then ok s else get_status b j)
unfolding written
get_status-written_out b n idx s j d h hj =
    ground (arith, get_status-out (written b n idx s d) j hj, get_status-out b j hj)

-- Reading after a write: the entry written has the new status, and every other index, in range or
-- not, reads as before.
pub get_status-set_status :
    (b : Bitmap) (idx s j : ℕ)
    → IsValid b
    → idx < b.size
    → s < 2 ^ b.bits
    → (set_status b idx s >>= λ b'. get_status b' j) ≡ (if idx == j then ok s else get_status b j)
get_status-set_status b idx s j v h hs =
    let (n, w) = valid-IsWidth b.bits v.width in
    let (d, e, hd) = entry_byte b n idx v w h in
    rw (set_status-at b n idx v w h s d hs e) (elim (Bool-cases (ltb j b.size)) [
      | inl within ↦ get_status-written b n idx s j d v w e hd hs h (ltb→lt _ _ within)
      | inr out ↦ get_status-written_out b n idx s j d h (ground arith)
    ])

-- What a call of `Get` at `idx` may return.
abbrev pub GetOutcome : Bitmap → ℕ → Result ℕ → Type 0
GetOutcome b idx (ok s) = (idx < b.size) × (s < 2 ^ b.bits)
GetOutcome b idx (err e) = (b.size ≤ idx) × (e ≡ out_of_range)

-- On a valid bitmap `Get` never panics: in range it returns a status that fits the width, and out
-- of range it reports so.
pub get_status-GetOutcome : (b : Bitmap) (idx : ℕ) → IsValid b → GetOutcome b idx (get_status b idx)
get_status-GetOutcome b idx v = elim (Bool-cases (ltb idx b.size)) [
  | inr out ↦ rw (get_status-out b idx (ground arith)) (ground arith, refl)
  | inl within ↦
      let h = ltb→lt idx b.size within in
      let (n, w) = valid-IsWidth b.bits v.width in
      let (d, e, hd) = entry_byte b n idx v w h in
      let slot = (place b n idx v w h).slot in
      rw (get_status-at b n idx v w h d e) (
        h,
        (write_field_lem b.bits n d 0 (idx % n) (idx % n) w hd (ground (arith, w.mask)) slot
            slot).1,
      )
]

-- What `NewBitmap` may return: on success every entry reads as VALID.
abbrev pub NewOutcome : ℕ → ℕ → Result Bitmap → Type 0
NewOutcome size bits (ok b) =
    (0 < size)
    × IsValid b
    × (b.size ≡ size)
    × (b.bits ≡ bits)
    × ((idx : ℕ) → get_status b idx ≡ (if ltb idx size then ok status_valid else err out_of_range))
NewOutcome size bits (err e) =
    ((valid_bit_width bits ≡ false) × (e ≡ bad_width))
    ⊎ ((valid_bit_width bits ≡ true) × (size ≡ 0) × (e ≡ bad_size))

fresh : ℕ → ℕ → Bitmap
fresh size bits = record { bits = bits; size = size; bytes = replicate (byte_len size bits) 0 }

fresh-IsValid :
    (size bits : ℕ)
    → valid_bit_width bits ≡ true
    → size * bits + 7 < 2 ^ 64
    → IsValid (fresh size bits)
unfolding fresh
fresh-IsValid size bits good h = record {
  width = good;
  fits = h;
  exact = length-replicate _ 0;
  all_bytes = replicate-All IsByte _ 0 (omega arith);
}

fresh_reads :
    (size bits idx : ℕ)
    → valid_bit_width bits ≡ true
    → size * bits + 7 < 2 ^ 64
    → get_status (fresh size bits) idx
      ≡ (if ltb idx size then ok status_valid else err out_of_range)
unfolding fresh
fresh_reads size bits idx good h = elim (Bool-cases (ltb idx size)) [
  | inr out ↦ rw out (get_status-out (fresh size bits) idx (ground arith))
  | inl within ↦
      let b = fresh size bits in
      let v = fresh-IsValid size bits good h in
      let (n, w) = valid-IsWidth bits good in
      let lt = ltb→lt idx size within in
      let p = place b n idx v w lt in
      let same_len : length b.bytes ≡ byte_len size bits = length-replicate _ 0 in
      let z =
        get_elem?-replicate (byte_len size bits) (idx / n) 0 (omega (arith, p.inside, same_len)) in
      rw within (
        get_status-at b n idx v w lt 0 z
        ∙ ap ok (read_field-zero (field_mask bits) (idx % n * bits)))
]

-- When the bit count fits 64 bits, `NewBitmap` returns a valid bitmap of the size and width asked
-- for, or reports first an unsupported width and then a size of zero.
pub new_bitmap-NewOutcome :
    (size bits : ℕ) → size * bits + 7 < 2 ^ 64 → NewOutcome size bits (new_bitmap size bits)
unfolding new_bitmap fresh
new_bitmap-NewOutcome size bits h = elim (Bool-cases (valid_bit_width bits)) [
  | inr bad ↦ rw bad (inl (bad, refl))
  | inl good ↦ rw good (elim (Bool-cases (size == 0)) [
    | inl zero_size ↦ rw zero_size (inr (good, (==_iff _ _).0 zero_size, refl))
    | inr some_size ↦ rw some_size (
      ground arith,
      fresh-IsValid size bits good h,
      refl,
      refl,
      λ idx. fresh_reads size bits idx good h,
    )
  ])
]

-- What `WrapBitmap` may return: on success the bitmap holds exactly the bytes given.
abbrev pub WrapOutcome : List ℕ → ℕ → ℕ → Result Bitmap → Type 0
WrapOutcome bytes size bits (ok b) =
    IsValid b × (b.bytes ≡ bytes) × (b.size ≡ size) × (b.bits ≡ bits)
WrapOutcome bytes size bits (err e) =
    ((valid_bit_width bits ≡ false) × (e ≡ bad_width))
    ⊎ ((valid_bit_width bits ≡ true) × (length bytes ≢ byte_len size bits) × (e ≡ bad_length))

-- Wrapping a byte array, when the bit count fits 64 bits, gives a valid bitmap over those bytes, or
-- reports first an unsupported width and then a wrong length.
pub wrap_bitmap-WrapOutcome :
    (bytes : List ℕ) (size bits : ℕ)
    → size * bits + 7 < 2 ^ 64
    → All IsByte bytes
    → WrapOutcome bytes size bits (wrap_bitmap bytes size bits)
unfolding wrap_bitmap
wrap_bitmap-WrapOutcome bytes size bits h all = elim (Bool-cases (valid_bit_width bits)) [
  | inr bad ↦ rw bad (inl (bad, refl))
  | inl good ↦ rw good (elim (Bool-cases (length bytes == byte_len size bits)) [
    | inr differ ↦ rw differ (inr (good, ground arith, refl))
    | inl same ↦ rw same (
      record { width = good; fits = h; exact = (==_iff _ _).0 same; all_bytes = all },
      refl,
      refl,
      refl,
    )
  ])
]

-- A valid bitmap that is stored as its bytes and wrapped again is the same bitmap.
pub wrap_bitmap-bytes : (b : Bitmap) → IsValid b → wrap_bitmap b.bytes b.size b.bits ≡ ok b
unfolding wrap_bitmap
wrap_bitmap-bytes b v = rw (v.width, (==_iff _ _).1 v.exact)
