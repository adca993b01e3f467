-- ===== src/Publisher/Authentic.antt =====
-- internal/verifier/handlers.go over internal/publisher/publisher.go: what a relying party can do with
-- the body of a 200.
use siros_status_service.Prelude.{
  ℕ, ◌+◌, ◌≡◌, refl, sym, subst, inl, inr, Bool-cases, List, Option, none, some, Option-cases, ◌==◌,
  Bool, arith,
}
use siros_status_service.Prelude.Str.{Str, str_eq, str_eq_iff}
use siros_status_service.Result.{Result, Result-cases, ok, err, ◌>>=◌}
use siros_status_service.Bitmap.{Bitmap, wrap_bitmap}
use siros_status_service.Redis.{Redis}
use siros_status_service.Rows.{ListMeta, select_one}
use siros_status_service.Rows.Tables.{select_one_passes}
use siros_status_service.World.{World, call}
use siros_status_service.Store.{get_list}
use siros_status_service.Signer.{Key, Signs}
use siros_status_service.Token.{Jwk, decode_lst, parse_token}
use siros_status_service.Cwt.{CwtClaimsResult, parse_cwt_token}
use siros_status_service.Publisher.{
  Published, Publisher, Cache, Format, GetResponse, body_of, respond, is_gone, publish_if_stale,
  serve_list, handle_get_list,
}
use siros_status_service.Publisher.New.{Packages, signed_by}
use siros_status_service.Publisher.Signed.{
  IsSigned, AllSigned, SignedOutcome, url_of, publish_if_stale-SignedOutcome,
}

module _ (pk : Packages) (key : Key) where
  -- A relying party with the signing key accepts the body; it is about `url`, has the lifetime of the
  -- response, and holds a bitmap.
  abbrev pub IsServed : Str → ℕ → Format → List ℕ → Type 0
  IsServed url ttl Format.jwt_format body =
      (x : siros_status_service.Token.Claims) × (bm : Bitmap) × (parse_token pk.jwt pk.primitives
          key body
        ≡ ok x)
      × (x.subject ≡ url)
      × (x.ttl ≡ ttl)
      × ((decode_lst pk.jwt pk.primitives x.lst >>= λ raw. wrap_bitmap raw bm.size x.bits) ≡ ok bm)
  IsServed url ttl Format.cwt_format body =
      (y : CwtClaimsResult) × (bm : Bitmap) × (parse_cwt_token pk.cbor pk.primitives key body
        ≡ ok y)
      × (y.subject ≡ url)
      × (y.ttl ≡ ttl)
      × (wrap_bitmap y.lst bm.size y.bits ≡ ok bm)

  abbrev pub ServedOutcome : Option Format → Str → Str → Result (GetResponse × Cache) → Type 0
  ServedOutcome negotiated base_url id (ok (GetResponse.listed v t format body, cache')) =
      (negotiated ≡ some format)
      × IsServed (url_of pk key base_url id) t format body
      × AllSigned pk key base_url cache'
  ServedOutcome negotiated base_url id (ok (GetResponse.not_modified v, cache')) =
      AllSigned pk key base_url cache'
  ServedOutcome negotiated base_url id (ok (GetResponse.failed code, cache')) =
      AllSigned pk key base_url cache'
  ServedOutcome negotiated base_url id (err e) = ⊥

  body_of-IsServed :
      (url : Str) (bm : Bitmap) (b : Published) (format : Format)
      → IsSigned pk key url bm b
      → IsServed url b.ttl format (body_of format b)
  body_of-IsServed url bm b Format.jwt_format
        (x, y, parsed, parsed', subject, subject', _, ttl, ttl', decodes, wraps) =
      (x, bm, parsed, subject, ttl, decodes)
  body_of-IsServed url bm b Format.cwt_format
        (x, y, parsed, parsed', subject, subject', _, ttl, ttl', decodes, wraps) =
      (y, bm, parsed', subject', ttl', wraps)

module _ (pk : Packages) (key : Key)
    (jwt_laws : siros_status_service.Token.RoundTrip.Laws pk.jwt pk.primitives)
    (cwt_laws : siros_status_service.Cwt.RoundTrip.Laws pk.cbor) (signs : Signs pk.primitives key)
    (R : Redis) (has_store : Str → Bool) (key_id base_url : Str) (cert_chain : List Str)
    (jwk : Jwk) where
  abbrev pub_a : Publisher
  pub_a = signed_by pk key has_store key_id base_url cert_chain jwk

  respond-ServedOutcome :
      (id : Str) (bm : Bitmap) (b : Published) (format : Format) (asked : Option ℕ) (cache : Cache)
      → IsSigned pk key (url_of pk key base_url id) bm b
      → AllSigned pk key base_url cache
      → ServedOutcome pk key (some format) base_url id (ok (respond R pub_a format asked b, cache))
  respond-ServedOutcome id bm b format none cache one all =
      (refl, body_of-IsServed pk key (url_of pk key base_url id) bm b format one, all)
  respond-ServedOutcome id bm b format (some v) cache one all = elim (Bool-cases (v == b.version)) [
    | inl same ↦ rw same all
    | inr newer ↦
        rw newer (refl, body_of-IsServed pk key (url_of pk key base_url id) bm b format one, all)
  ]

  serve_list-ServedOutcome :
      (cache : Cache) (lm : ListMeta) (retention ttl : ℕ) (negotiated : Option Format)
      (asked : Option ℕ) (w : World R)
      → AllSigned pk key base_url cache
      → ServedOutcome pk key negotiated base_url lm.id
          (serve_list R pub_a cache lm retention ttl negotiated asked w).0
  unfolding serve_list
  serve_list-ServedOutcome cache lm retention ttl negotiated asked w all =
      let published = publish_if_stale R pub_a cache lm ttl w in
      let signed =
        publish_if_stale-SignedOutcome pk key jwt_laws cwt_laws signs R has_store key_id base_url
          cert_chain jwk cache lm ttl w all in
      let by : (o : Result (GetResponse × Cache) × World R)
          → serve_list R pub_a cache lm retention ttl negotiated asked w ≡ o
          → ServedOutcome pk key negotiated base_url lm.id o.0
          → ServedOutcome pk key negotiated base_url lm.id
              (serve_list R pub_a cache lm retention ttl negotiated asked w).0 =
        λ o e. subst (λ r. ServedOutcome pk key negotiated base_url lm.id r.0) (sym e) in
      elim (Bool-cases (is_gone R pub_a lm retention w.now)) [
        | inl gone ↦ by (ok (GetResponse.failed 410, cache), w) (ground (arith, gone)) all
        | inr there ↦ elim (Option-cases negotiated) [
          | inl refused ↦
              by (ok (GetResponse.failed 406, cache), w) (ground (arith, there, refused)) all
          | inr (format, chosen) ↦ elim (Result-cases published.0) [
            | inl (e, bad) ↦
                by (ok (GetResponse.failed 500, cache), published.1)
                  (ground (arith, there, chosen, bad)) all
            | inr ((b, cache'), good) ↦
                let ((bm, one, _), all') =
                  subst
                    (λ r.
                      SignedOutcome pk key R base_url cache lm (record w { calls = w.calls + 1 })
                        (r, published.1))
                    good signed in
                by (ok (respond R pub_a format asked b, cache'), published.1)
                  (ground (arith, there, chosen, good))
                  (subst
                    (λ f.
                      ServedOutcome pk key f base_url lm.id
                        (ok (respond R pub_a format asked b, cache')))
                    (sym chosen) (respond-ServedOutcome lm.id bm b format asked cache' one all'))
          ]
        ]
      ]

  -- With a key whose signatures verify and packages that give back what they encoded, and a cache of
  -- signed tokens: the body of every 200 is a token of the negotiated format that a relying party
  -- with the key accepts; its subject is the address of the very list that the path names, its
  -- lifetime is the response's, and it holds a bitmap. The request never fails without an answer,
  -- and the cache has signed tokens only after it.
  pub handle_get_list-ServedOutcome :
      (cache : Cache) (id : Str) (retention ttl : ℕ) (negotiated : Option Format) (asked : Option ℕ)
      (w : World R)
      → AllSigned pk key base_url cache
      → ServedOutcome pk key negotiated base_url id
          (handle_get_list R pub_a cache id retention ttl negotiated asked w).0
  unfolding handle_get_list get_list call
  handle_get_list-ServedOutcome cache id retention ttl negotiated asked w all =
      let w₁ = record w { calls = w.calls + 1 } in
      let by : (o : Result (GetResponse × Cache) × World R)
          → handle_get_list R pub_a cache id retention ttl negotiated asked w ≡ o
          → ServedOutcome pk key negotiated base_url id o.0
          → ServedOutcome pk key negotiated base_url id
              (handle_get_list R pub_a cache id retention ttl negotiated asked w).0 =
        λ o e. subst (λ r. ServedOutcome pk key negotiated base_url id r.0) (sym e) in
      elim (Bool-cases (w.faults w.calls)) [
        | inl down ↦ by (ok (GetResponse.failed 500, cache), w₁) (ground (arith, down)) all
        | inr up ↦ elim (Option-cases (select_one (λ r. str_eq r.id id) w.db.lists)) [
          | inl missing ↦
              by (ok (GetResponse.failed 404, cache), w₁) (ground (arith, up, missing)) all
          | inr (lm, found) ↦
              let same : lm.id ≡ id =
                (str_eq_iff lm.id id).0
                  (select_one_passes (λ r. str_eq r.id id) w.db.lists lm found) in
              by (serve_list R pub_a cache lm retention ttl negotiated asked w₁)
                (ground (arith, up, found))
                (subst
                  (λ i.
                    ServedOutcome pk key negotiated base_url i
                      (serve_list R pub_a cache lm retention ttl negotiated asked w₁).0)
                  same (serve_list-ServedOutcome cache lm retention ttl negotiated asked w₁ all))
        ]
      ]
