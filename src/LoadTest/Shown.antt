-- ===== src/LoadTest/Shown.antt =====
-- tools/loadtest/verify.go: what a check that passes has shown, and one that fails has not.
use mathlib.Core.Option.{some-injective}
use siros_status_service.Prelude.{
  ℕ, ◌≡◌, sym, subst, ◌∙◌, inl, inr, Bool, true, false, Bool-cases, List, Option, none, some, arith,
}
use siros_status_service.Prelude.Str.{Str, str_eq, str_eq_iff, put_key}
use siros_status_service.Result.{Result, Result-cases, Error, ok, err, ok_injective}
use siros_status_service.Redis.{Redis}
use siros_status_service.Rows.{ListMeta, select_one}
use siros_status_service.World.{World}
use siros_status_service.Bitmap.{Bitmap, byte_len, wrap_bitmap, get_status}
use siros_status_service.BitmapStore.{snapshot}
use siros_status_service.LoadTest.{AllocRecord, status_name}
use siros_status_service.LoadTest.Verify.{Caches, differs, compare_with}

pub err-ok : {A : Type 0} {x : Error} {a : A} → err x ≡ ok a → ⊥
err-ok e = cc

module _ (R : Redis) (covered : Str → Bool) (w : World R) where
  -- The world in which no call fails.
  abbrev pub calm : World R
  calm = record w { faults = λ _. false }

  abbrev pub IsRow : Str → ListMeta → Type 0
  IsRow id lm = select_one (λ r. str_eq r.id id) w.db.lists ≡ some lm

  -- The bytes that `Snapshot` reads for a list, where no call fails.
  abbrev pub IsBytes : Str → ListMeta → List ℕ → Type 0
  IsBytes id lm raw = (snapshot R lm.shard_id id (byte_len lm.size lm.bits) calm).0 ≡ ok raw

  -- The list is there, its shard is covered, and its bytes hold the expected status at the index.
  abbrev pub IsShown : AllocRecord → Type 0
  IsShown rec =
      (lm : ListMeta) × (raw : List ℕ) × (bm : Bitmap) × (actual : ℕ) × IsRow rec.list_id lm
      × (covered lm.shard_id ≡ true)
      × IsBytes rec.list_id lm raw
      × (wrap_bitmap raw lm.size lm.bits ≡ ok bm)
      × (get_status bm rec.index ≡ ok actual)
      × (status_name actual ≡ rec.expected)

  abbrev pub IsEntry : Str → Option ListMeta → Option (List ℕ) → Type 0
  IsEntry id none none = Unit
  IsEntry id none (some raw) = ⊥
  IsEntry id (some lm) none = ⊥
  IsEntry id (some lm) (some raw) = IsRow id lm × IsBytes id lm raw

  abbrev pub AreCached : Caches → Type 0
  AreCached c = (id : Str) → IsEntry id (c.lists id) (c.snapshots id)

  abbrev pub IsLike : World R → Type 0
  IsLike w' = (w'.db ≡ w.db) × (w'.redis ≡ w.redis) × (w'.faults ≡ w.faults)

  -- No call will fail.
  abbrev pub IsCalm : Type 0
  IsCalm = (k : ℕ) → w.faults k ≡ false

  abbrev pub IsJudged : AllocRecord → Bool → Type 0
  IsJudged rec true = ¬ (IsShown rec)
  IsJudged rec false = IsShown rec

  abbrev pub RecordOutcome : AllocRecord → Result (Caches × Bool) × World R → Type 0
  RecordOutcome rec (ok (c, wrong), w') = AreCached c × IsLike w' × IsJudged rec wrong
  RecordOutcome rec (err e, w') = IsCalm → ¬ (IsShown rec)

  -- What a record that is shown has, in the row of its list.
  abbrev pub IsShownIn : AllocRecord → ListMeta → Type 0
  IsShownIn rec lm =
      (raw : List ℕ) × (bm : Bitmap) × (actual : ℕ) × (covered lm.shard_id ≡ true)
      × IsBytes rec.list_id lm raw
      × (wrap_bitmap raw lm.size lm.bits ≡ ok bm)
      × (get_status bm rec.index ≡ ok actual)
      × (status_name actual ≡ rec.expected)

  pub IsShown-IsShownIn :
      (rec : AllocRecord) (lm : ListMeta) → IsRow rec.list_id lm → IsShown rec → IsShownIn rec lm
  IsShown-IsShownIn rec lm row (lm', raw, bm, actual, row', on, bytes, wrapped, got, name) =
      let same : lm' ≡ lm = some-injective lm' lm (sym row' ∙ row) in
      subst (IsShownIn rec) same (raw, bm, actual, on, bytes, wrapped, got, name)

  pub IsShown-differs :
      (rec : AllocRecord) (lm : ListMeta) (raw : List ℕ)
      → IsRow rec.list_id lm
      → IsBytes rec.list_id lm raw
      → IsShown rec
      → differs R covered lm rec raw ≡ ok false
  IsShown-differs rec lm raw row bytes shown =
      let (raw', bm, actual, on, bytes', wrapped, got, name) = IsShown-IsShownIn rec lm row shown in
      let same : raw' ≡ raw = ok_injective (sym bytes' ∙ bytes) in
      let wrapped' : wrap_bitmap raw lm.size lm.bits ≡ ok bm =
        subst (λ q. wrap_bitmap q lm.size lm.bits ≡ ok bm) same wrapped in
      let named = (str_eq_iff (status_name actual) rec.expected).1 name in
      ground (arith, wrapped', got, named)

  differs-IsJudged :
      (lm : ListMeta) (rec : AllocRecord) (raw : List ℕ) (wrong : Bool)
      → IsRow rec.list_id lm
      → covered lm.shard_id ≡ true
      → IsBytes rec.list_id lm raw
      → differs R covered lm rec raw ≡ ok wrong
      → IsJudged rec wrong
  differs-IsJudged lm rec raw true row on bytes e =
      λ shown. absurd (ground (arith, e, IsShown-differs rec lm raw row bytes shown))
  differs-IsJudged lm rec raw false row on bytes e =
      elim (Result-cases (wrap_bitmap raw lm.size lm.bits)) [
        | inl (x, bad) ↦ absurd (ground (arith, e, bad))
        | inr (bm, wrapped) ↦ elim (Result-cases (get_status bm rec.index)) [
          | inl (x, bad) ↦ absurd (ground (arith, e, wrapped, bad))
          | inr (actual, got) ↦
              let same : str_eq (status_name actual) rec.expected ≡ true =
                ground (arith, e, wrapped, got) in
              (
                lm,
                raw,
                bm,
                actual,
                row,
                on,
                bytes,
                wrapped,
                got,
                (str_eq_iff (status_name actual) rec.expected).0 same,
              )
        ]
      ]

  put-AreCached :
      (c : Caches) (id : Str) (lm : ListMeta) (raw : List ℕ)
      → AreCached c
      → IsRow id lm
      → IsBytes id lm raw
      → AreCached (record {
        lists = put_key c.lists id (some lm);
        snapshots = put_key c.snapshots id (some raw);
      })
  put-AreCached c id lm raw all row bytes other = elim (Bool-cases (str_eq id other)) [
    | inr ne ↦ rw ne (all other)
    | inl eq ↦
        rw eq
          (subst (λ i. IsEntry i (some lm) (some raw)) ((str_eq_iff id other).0 eq) (row, bytes))
  ]

  pub compare_with-RecordOutcome :
      (c : Caches) (rec : AllocRecord) (lm : ListMeta) (raw : List ℕ) (w₁ : World R)
      → AreCached c
      → IsLike w₁
      → IsRow rec.list_id lm
      → covered lm.shard_id ≡ true
      → IsBytes rec.list_id lm raw
      → RecordOutcome rec (compare_with R covered c rec lm raw w₁)
  compare_with-RecordOutcome c rec lm raw w₁ all like row on bytes =
      elim (Result-cases (differs R covered lm rec raw)) [
        | inl (x, bad) ↦
            rw bad (λ _ shown. err-ok (sym bad ∙ IsShown-differs rec lm raw row bytes shown))
        | inr (wrong, done) ↦ rw done (
          put-AreCached c rec.list_id lm raw all row bytes,
          like,
          differs-IsJudged lm rec raw wrong row on bytes done,
        )
      ]
