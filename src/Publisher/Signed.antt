-- ===== src/Publisher/Signed.antt =====
-- internal/publisher/publisher.go: what a verifier reads from a token that the publisher gives out.
use siros_status_service.Prelude.{
  ℕ, ◌+◌, ◌*◌, ◌≡◌, refl, sym, ap, subst, ◌∙◌, ◌⊎◌, inl, inr, Bool, Bool-cases, List, ◌++◌, Option,
  none, some, Option-cases, ◌==◌, length, arith, not,
}
use siros_status_service.Prelude.Str.{Str, bytes_of, str_eq, str_eq_iff, put_key}
use siros_status_service.Prelude.Word.{second}
use siros_status_service.Result.{
  Result, Result-cases, ok, err, bad_width, bad_length, fail_if, ok_injective, bind_ok_then, ◌>>=◌,
}
use siros_status_service.Bitmap.{Bitmap, wrap_bitmap, byte_len, valid_bit_width}
use siros_status_service.Redis.{Redis, version_key, int_or_zero}
use siros_status_service.Rows.{ListMeta}
use siros_status_service.World.{World, call, bind_then, lift}
use siros_status_service.BitmapStore.{snapshot}
use siros_status_service.Signer.{Key, Signs}
use siros_status_service.Token.{Jwk, TokenParams, decode_lst, parse_token, build_token}
use siros_status_service.Cwt.{CwtClaimsResult, parse_cwt_token, build_cwt_token}
use siros_status_service.Token.RoundTrip.{build_token-parses}
use siros_status_service.Cwt.RoundTrip.{build_cwt_token-parses, claims_of}
use siros_status_service.Publisher.{
  Published, Publisher, Cache, build_both, params_for, keep, sign, wrap_and_sign, cached, rebuild,
  publish_if_stale,
}
use siros_status_service.Publisher.New.{Packages, signed_by}

wrap_bitmap_again :
    (raw : List ℕ) (size bits : ℕ) (bm : Bitmap)
    → wrap_bitmap raw size bits ≡ ok bm
    → (bm.bytes ≡ raw) × (wrap_bitmap bm.bytes bm.size bm.bits ≡ ok bm)
unfolding wrap_bitmap
wrap_bitmap_again raw size bits bm e =
    bind_ok_then (fail_if (not (valid_bit_width bits)) bad_width) e λ _ _ e₁.
      bind_ok_then (fail_if (not (length raw == byte_len size bits)) bad_length) e₁ λ _ _ e₂.
        let eq = ok_injective e₂ in
        subst (λ b. (b.bytes ≡ raw) × (wrap_bitmap b.bytes b.size b.bits ≡ ok b)) eq
          (refl, e ∙ ap ok (sym eq))

build_both-ok :
    (R : Redis) (p : Publisher) (t : TokenParams) (live bits : ℕ) (b : Published)
    → build_both R p t live bits ≡ ok b
    → (token cwt : List ℕ) × (p.build_token t ≡ ok token)
      × (p.build_cwt_token t ≡ ok cwt)
      × (record { token = token; cwt = cwt; version = live; bits = bits; ttl = t.ttl } ≡ b)
unfolding build_both
build_both-ok R p t live bits b done = elim (Result-cases (p.build_token t)) [
  | inl (e, bad) ↦ absurd (ground (arith, bad, done))
  | inr (token, made) ↦ elim (Result-cases (p.build_cwt_token t)) [
    | inl (e, bad) ↦ absurd (ground (arith, made, bad, done))
    | inr (cwt, made') ↦ (token, cwt, made, made', ground (arith, made, made', done))
  ]
]

cached-hit :
    (o : Option Published) (live ttl : ℕ) (b : Published) → cached o live ttl ≡ some b → o ≡ some b
cached-hit none live ttl b e = cc
cached-hit (some a) live ttl b e = ground (arith, e)

module _ (pk : Packages) (key : Key) where
  -- Both formats of a token are accepted with the signing key, are about `url`, were issued at one
  -- time with the lifetime that the cache has, and hold `bm`.
  abbrev pub IsSigned : Str → Bitmap → Published → Type 0
  IsSigned url bm b =
      (x : siros_status_service.Token.Claims) × (y : CwtClaimsResult) × (parse_token pk.jwt
          pk.primitives key b.token
        ≡ ok x)
      × (parse_cwt_token pk.cbor pk.primitives key b.cwt ≡ ok y)
      × (x.subject ≡ url)
      × (y.subject ≡ url)
      × (x.issued_at * second ≡ y.issued_at)
      × (x.ttl ≡ b.ttl)
      × (y.ttl ≡ b.ttl)
      × ((decode_lst pk.jwt pk.primitives x.lst >>= λ raw. wrap_bitmap raw bm.size x.bits) ≡ ok bm)
      × (wrap_bitmap y.lst bm.size y.bits ≡ ok bm)

  abbrev pub IsEntry : Str → Option Published → Type 0
  IsEntry url none = Unit
  IsEntry url (some b) = (bm : Bitmap) × IsSigned url bm b

  -- The address of a list.
  abbrev pub url_of : Str → Str → Str
  url_of base_url id = base_url ++ (bytes_of "/lists/" ++ id)

  -- Every token of the cache is a signed one for the list that it is kept for.
  abbrev pub AllSigned : Str → Cache → Type 0
  AllSigned base_url cache = (id : Str) → IsEntry (url_of base_url id) (cache id)

  -- What `PublishIfStale` gives: the token of the cache, or one of the bytes that Redis has.
  abbrev pub SignedOutcome :
      (R : Redis) → Str → Cache → ListMeta → World R → Result (Published × Cache) × World R → Type 0
  SignedOutcome R base_url cache lm w (ok (b, cache'), w') =
      ((bm : Bitmap) × IsSigned (url_of base_url lm.id) bm b
        × ((cache lm.id ≡ some b)
            ⊎ ((snapshot R lm.shard_id lm.id (byte_len lm.size lm.bits) w).0 ≡ ok bm.bytes)))
      × AllSigned base_url cache'
  SignedOutcome R base_url cache lm w (err e, w') = Unit

module _ (pk : Packages) (key : Key)
    (jwt_laws : siros_status_service.Token.RoundTrip.Laws pk.jwt pk.primitives)
    (cwt_laws : siros_status_service.Cwt.RoundTrip.Laws pk.cbor) (signs : Signs pk.primitives key)
    (R : Redis) (has_store : Str → Bool) (key_id base_url : Str) (cert_chain : List Str)
    (jwk : Jwk) where
  abbrev pub_of : Publisher
  pub_of = signed_by pk key has_store key_id base_url cert_chain jwk

  build_both-IsSigned :
      (t : TokenParams) (live bits : ℕ) (b : Published)
      → wrap_bitmap t.bitmap.bytes t.bitmap.size t.bitmap.bits ≡ ok t.bitmap
      → build_both R pub_of t live bits ≡ ok b
      → IsSigned pk key t.list_url t.bitmap b
  build_both-IsSigned t live bits b wraps done =
      let (token, cwt, made, made', same) = build_both-ok R pub_of t live bits b done in
      let (x, parsed, subject, issued, ttl, decodes) =
        build_token-parses pk.jwt pk.primitives key jwt_laws signs t token wraps made in
      let (parsed', _) =
        build_cwt_token-parses pk.cbor pk.primitives key cwt_laws signs t cwt wraps made' in
      subst (IsSigned pk key t.list_url t.bitmap) same (
        x,
        claims_of t,
        parsed,
        parsed',
        subject,
        refl,
        ap (λ n. n * second) issued,
        ttl,
        refl,
        decodes,
        wraps,
      )

  put-AllSigned :
      (cache : Cache) (id : Str) (bm : Bitmap) (b : Published)
      → AllSigned pk key base_url cache
      → IsSigned pk key (url_of pk key base_url id) bm b
      → AllSigned pk key base_url (put_key cache id (some b))
  put-AllSigned cache id bm b all one other = elim (Bool-cases (str_eq id other)) [
    | inr ne ↦ rw ne (all other)
    | inl eq ↦ rw eq (
        subst (λ i. IsEntry pk key (url_of pk key base_url i) (some b)) ((str_eq_iff id other).0 eq)
          (bm, one))
  ]

  sign-SignedOutcome :
      (cache : Cache) (lm : ListMeta) (ttl live : ℕ) (bm : Bitmap) (w w' : World R)
      → AllSigned pk key base_url cache
      → wrap_bitmap bm.bytes bm.size bm.bits ≡ ok bm
      → (snapshot R lm.shard_id lm.id (byte_len lm.size lm.bits) w).0 ≡ ok bm.bytes
      → SignedOutcome pk key R base_url cache lm w (sign R pub_of cache lm ttl live bm w')
  sign-SignedOutcome cache lm ttl live bm w w' all wraps read =
      let t = params_for R pub_of lm ttl bm w'.now in
      bind_then (SignedOutcome pk key R base_url cache lm w)
        (lift (build_both R pub_of t live lm.bits)) (keep R pub_of cache lm) w' (λ _ _. tt)
        λ b w₁ made.
          let one = build_both-IsSigned t live lm.bits b wraps (ap (λ r. r.0) made) in
          ((bm, one, inr read), put-AllSigned cache lm.id bm b all one)

  rebuild-SignedOutcome :
      (cache : Cache) (lm : ListMeta) (ttl live : ℕ) (w : World R)
      → AllSigned pk key base_url cache
      → SignedOutcome pk key R base_url cache lm w (rebuild R pub_of cache lm ttl live w)
  unfolding rebuild
  rebuild-SignedOutcome cache lm ttl live w all =
      bind_then (SignedOutcome pk key R base_url cache lm w)
        (snapshot R lm.shard_id lm.id (byte_len lm.size lm.bits))
        (wrap_and_sign R pub_of cache lm ttl live) w (λ _ _. tt)
        λ raw w₁ read.
          bind_then (SignedOutcome pk key R base_url cache lm w)
            (lift (wrap_bitmap raw lm.size lm.bits)) (sign R pub_of cache lm ttl live) w₁
            (λ _ _. tt)
            λ bm w₂ wrapped.
              let (same, wraps) =
                wrap_bitmap_again raw lm.size lm.bits bm (ap (λ r. r.0) wrapped) in
              sign-SignedOutcome cache lm ttl live bm w w₂ all wraps
                (ap (λ r. r.0) read ∙ ap ok (sym same))

  hit-SignedOutcome :
      (cache : Cache) (lm : ListMeta) (b : Published) (w w' : World R)
      → AllSigned pk key base_url cache
      → cache lm.id ≡ some b
      → SignedOutcome pk key R base_url cache lm w (ok (b, cache), w')
  hit-SignedOutcome cache lm b w w' all has =
      let (bm, one) = subst (IsEntry pk key (url_of pk key base_url lm.id)) has (all lm.id) in
      ((bm, one, inl has), all)

  -- With a key whose signatures verify and packages that give back what they encoded, and a cache of
  -- signed tokens, a token that is returned is a signed one for the list's address, in both formats
  -- and with one bitmap in both: the token that the cache had, or one with the bytes that Redis had
  -- when they were read after the version. The cache still has signed tokens only.
  pub publish_if_stale-SignedOutcome :
      (cache : Cache) (lm : ListMeta) (ttl : ℕ) (w : World R)
      → AllSigned pk key base_url cache
      → SignedOutcome pk key R base_url cache lm
          (record w { calls = w.calls + 1 })
          (publish_if_stale R pub_of cache lm ttl w)
  unfolding publish_if_stale call
  publish_if_stale-SignedOutcome cache lm ttl w all =
      let live = int_or_zero (R.get_int (w.redis lm.shard_id) (version_key lm.id)) in
      let w₁ = record w { calls = w.calls + 1 } in
      elim (Bool-cases (has_store lm.shard_id)) [
        | inr absent ↦ rw absent tt
        | inl there ↦ elim (Bool-cases (w.faults w.calls)) [
          | inl down ↦ rw (there, down) tt
          | inr up ↦ elim (Option-cases (cached (cache lm.id) live ttl)) [
            | inr (b, hit) ↦
                rw (there, up, hit)
                  (hit-SignedOutcome cache lm b w₁ w₁ all (cached-hit (cache lm.id) live ttl b hit))
            | inl miss ↦
                let step : publish_if_stale R pub_of cache lm ttl w
                    ≡ rebuild R pub_of cache lm ttl live w₁ =
                  ground (arith, there, up, miss) in
                subst (SignedOutcome pk key R base_url cache lm w₁) (sym step)
                  (rebuild-SignedOutcome cache lm ttl live w₁ all)
          ]
        ]
      ]
