-- ===== src/LoadTest/Published.antt =====
-- tools/loadtest/lifecycle.go over internal/statuslist: what the load test reads of a published token.
use siros_status_service.Prelude.{
  ℕ, ◌+◌, ◌*◌, ◌/◌, ◌^◌, ◌<◌, ◌≤◌, ◌≡◌, refl, sym, ap, subst, ◌∙◌, inl, inr, true, false, ◌==◌, leb,
  ==_iff, arith, length,
}
use siros_status_service.Prelude.Word.{u64}
use siros_status_service.Prelude.Str.{Str}
use siros_status_service.Prelude.Word.{second}
use siros_status_service.Result.{ok, bind_ok_then, ok_injective}
use siros_status_service.Bitmap.{Bitmap, byte_len, valid_bit_width, wrap_bitmap, get_status}
use siros_status_service.Bitmap.Entries.{IsValid}
use siros_status_service.Bitmap.Fields.{width_cases}
use siros_status_service.Signer.{Bytes, Key, es256_sign}
use siros_status_service.Token.{
  Claims, Header, TokenParams, encode_lst, decode_lst, header_of, build_token,
}
use siros_status_service.Token.RoundTrip.{Laws}
use siros_status_service.LoadTest.{Services, published_status}

-- What the documentation of `ParseUnverified` says.
pub record ReadsClaims (v : Services) : Type 0 where
  pub parse_unverified-serialize :
      (h : Header) (x : Claims) (signed : Str) (sig : Bytes)
      → v.codec.signing_string h x ≡ ok signed
      → v.parse_unverified (v.codec.serialize signed sig) ≡ ok x

-- The number of entries that fill all bytes of a bitmap.
abbrev filled : ℕ → ℕ → ℕ
filled len bits = u64 (len * 8) / bits

-- They are at least the entries of the bitmap, and need as many bytes.
abbrev Fills : ℕ → ℕ → ℕ → Type 0
Fills len size bits =
    (byte_len (filled len bits) bits ≡ len) × (size ≤ filled len bits) × ((bits == 0) ≡ false)

abbrev FillsIf : ℕ → ℕ → ℕ → Type 0
FillsIf len size bits = size * bits + 7 < 2 ^ 64 → len ≡ byte_len size bits → Fills len size bits

width_fills : (bits len size : ℕ) → valid_bit_width bits ≡ true → FillsIf len size bits
width_fills bits len size valid = elim (width_cases bits valid) [
  | inl e ↦
      subst (FillsIf len size) (sym e)
        (λ fits exact. (omega (arith, fits, exact), omega (arith, fits, exact), refl))
  | inr (inl e) ↦
      subst (FillsIf len size) (sym e)
        (λ fits exact. (omega (arith, fits, exact), omega (arith, fits, exact), refl))
  | inr (inr (inl e)) ↦
      subst (FillsIf len size) (sym e)
        (λ fits exact. (omega (arith, fits, exact), omega (arith, fits, exact), refl))
  | inr (inr (inr e)) ↦
      subst (FillsIf len size) (sym e)
        (λ fits exact. (omega (arith, fits, exact), omega (arith, fits, exact), refl))
]

-- A bitmap whose size is not known reads like the one that its bytes are of.
get_status_filled :
    (b : Bitmap) (size index : ℕ)
    → b.size ≤ size
    → index < b.size
    → get_status (record b { size = size }) index ≡ get_status b index
unfolding get_status
get_status_filled b size index more below =
    let low : leb b.size index ≡ false = ground arith in
    let low' : leb size index ≡ false = ground (arith, more, below) in rw (low, low') refl

module _ (v : Services) (key : Key) (laws : Laws v.codec v.primitives) (reads : ReadsClaims v) where
  -- With packages that give back what they encoded, the load test reads from a token that
  -- `BuildToken` built from a valid bitmap, at every index in range, exactly the status that the
  -- bitmap has there, although it does not know the size of the list.
  pub published_status-build_token :
      (t : TokenParams) (token : Str) (index : ℕ)
      → IsValid t.bitmap
      → build_token v.codec v.primitives key t ≡ ok token
      → index < t.bitmap.size
      → published_status v index token ≡ get_status t.bitmap index
  unfolding build_token encode_lst decode_lst published_status wrap_bitmap
  published_status-build_token t token index valid e below =
      let c = v.codec in
      let b = t.bitmap in
      bind_ok_then (encode_lst c v.primitives b.bytes) e λ lst encoded e.
        bind_ok_then (c.compress b.bytes) encoded λ z compressed done.
          let x : Claims = record {
            subject = t.list_url;
            issued_at = t.issued_at / second;
            ttl = t.ttl;
            bits = b.bits;
            lst = lst;
          } in
          bind_ok_then (c.signing_string (header_of t) x) e λ signed made e.
            bind_ok_then (es256_sign v.primitives key signed) e λ sig _ e.
              let (exact, more, positive) =
                width_fills b.bits (length b.bytes) b.size valid.width valid.fits valid.exact in
              let parsed : v.parse_unverified token ≡ ok x =
                ap v.parse_unverified (sym (ok_injective e))
                ∙ reads.parse_unverified-serialize (header_of t) x signed sig made in
              let decoded : decode_lst c v.primitives lst ≡ ok b.bytes =
                ap (decode_lst c v.primitives) (sym (ok_injective done))
                ∙ rw (laws.decode-encode_base64 z, laws.decompress-compress b.bytes z compressed)
                    refl in
              let same : (length b.bytes == byte_len (filled (length b.bytes) b.bits) b.bits)
                  ≡ true =
                (==_iff _ _).1 (sym exact) in
              rw (parsed, decoded, positive, valid.width, same)
                (get_status_filled b (filled (length b.bytes) b.bits) index more below)
