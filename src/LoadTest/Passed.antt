-- ===== src/LoadTest/Passed.antt =====
-- tools/loadtest/verify.go: a check that passes found every status that the run wrote.
use siros_status_service.Prelude.{
  ℕ, zero, suc, ◌+◌, ◌≤◌, ◌<◌, leb, refl, subst, inl, inr, Bool, Bool-cases, true, false, List, [],
  ◌∷◌, All, if◌then◌else◌, arith,
}
use siros_status_service.Prelude.Str.{Str}
use siros_status_service.Result.{Result, ok, err}
use siros_status_service.Redis.{Redis}
use siros_status_service.World.{World, bind_cases}
use siros_status_service.LoadTest.{AllocRecord, WorkerResult}
use siros_status_service.LoadTest.Verify.{
  Caches, no_caches, check_record, check_records, check_results, verdict, verify_decoy_safety,
}
use siros_status_service.LoadTest.Shown.{
  IsShown, AreCached, IsCalm, IsLike, IsJudged, RecordOutcome,
}
use siros_status_service.LoadTest.Records.{check_record-RecordOutcome}

module _ (R : Redis) (covered : Str → Bool) (w : World R) where
  -- With no mismatch counted at the end, `P`.
  abbrev IfNone : ℕ → Type 0 → Type 0
  IfNone zero P = P
  IfNone (suc n) P = Unit

  abbrev TallyOutcome : Type 0 → ℕ → Result (Caches × ℕ) × World R → Type 0
  TallyOutcome P n (ok (c, m), w') =
      AreCached R covered w c × IsLike R covered w w' × (n ≤ m) × IfNone m P × (n < m → ¬ P)
  TallyOutcome P n (err e, w') = IsCalm R covered w → ¬ P

  IfNone-map : (P Q : Type 0) (m : ℕ) → (P → Q) → IfNone m P → IfNone m Q
  IfNone-map P Q zero f p = f p
  IfNone-map P Q (suc m) f p = tt

  IfNone-Unit : (m : ℕ) → IfNone m Unit
  IfNone-Unit zero = tt
  IfNone-Unit (suc m) = tt

  -- A count that has begun is no more zero.
  after_one : (P : Type 0) (n m : ℕ) → n + 1 ≤ m → IfNone m P
  after_one P n zero h = absurd (omega (arith, h))
  after_one P n (suc m) h = tt

  TallyOutcome-record :
      (rec : AllocRecord) (P : Type 0) (wrong : Bool) (n : ℕ) (o : Result (Caches × ℕ) × World R)
      → IsJudged R covered w rec wrong
      → TallyOutcome P (if wrong then n + 1 else n) o
      → TallyOutcome (IsShown R covered w rec × P) n o
  TallyOutcome-record rec P wrong n (err e, w') j t = λ still p. t still p.1
  TallyOutcome-record rec P true n (ok (c, m), w') j (all, like, more, rest, some_wrong) =
      (all, like, omega (arith, more), after_one _ n m more, λ _ p. j p.0)
  TallyOutcome-record rec P false n (ok (c, m), w') j (all, like, more, rest, some_wrong) = (
    all,
    like,
    more,
    IfNone-map P (IsShown R covered w rec × P) m (λ p. (j, p)) rest,
    λ grown p. some_wrong grown p.1,
  )

  check_records-TallyOutcome :
      (recs : List AllocRecord) (c : Caches) (n : ℕ) (w₁ : World R)
      → AreCached R covered w c
      → IsLike R covered w w₁
      → TallyOutcome (All (IsShown R covered w) recs) n (check_records R covered recs (c, n) w₁)
  unfolding check_records
  check_records-TallyOutcome [] c n w₁ all like =
      (all, like, omega arith, IfNone-Unit n, λ grown. absurd (omega (arith, grown)))
  check_records-TallyOutcome (rec ∷ recs) c n w₁ all like =
      let P = All (IsShown R covered w) recs in
      let go : Caches × Bool → siros_status_service.World.M R (Caches × ℕ) =
        λ q. check_records R covered recs (q.0, if q.1 then n + 1 else n) in
      bind_cases (TallyOutcome (IsShown R covered w rec × P) n) (check_record R covered c rec) go w₁
        (λ e w₂ bad still p.
          subst (RecordOutcome R covered w rec) bad
            (check_record-RecordOutcome R covered w c rec w₁ all like) still p.0)
        λ q w₂ read.
          let (all', like', judged) =
            subst (RecordOutcome R covered w rec) read
              (check_record-RecordOutcome R covered w c rec w₁ all like) in
          TallyOutcome-record rec P q.1 n _ judged
            (check_records-TallyOutcome recs q.0 (if q.1 then n + 1 else n) w₂ all' like')

  IfNone-both : (P Q : Type 0) (k m : ℕ) → k ≤ m → IfNone k P → IfNone m Q → IfNone m (P × Q)
  IfNone-both P Q zero zero h p q = (p, q)
  IfNone-both P Q (suc k) zero h p q = absurd (omega (arith, h))
  IfNone-both P Q k (suc m) h p q = tt

  TallyOutcome-both :
      (P Q : Type 0) (n k : ℕ) (o : Result (Caches × ℕ) × World R)
      → n ≤ k
      → IfNone k P
      → (n < k → ¬ P)
      → TallyOutcome Q k o
      → TallyOutcome (P × Q) n o
  TallyOutcome-both P Q n k (err e, w') h p none_of t = λ still both. t still both.1
  TallyOutcome-both P Q n k (ok (c, m), w') h p none_of (all, like, more, q, none_after) = (
    all,
    like,
    omega (arith, h, more),
    IfNone-both P Q k m more p q,
    λ grown both.
        let same : k ≤ n = not_grown both.0 in none_after (omega (arith, grown, same)) both.1,
  )
    where
      not_grown : P → k ≤ n
      not_grown p' = elim (Bool-cases (leb k n)) [
        | inl le ↦ ground (arith, le)
        | inr gt ↦ let grown : n < k = ground (arith, gt) in absurd (none_of grown p')
      ]

  check_results-TallyOutcome :
      (rs : List WorkerResult) (c : Caches) (n : ℕ) (w₁ : World R)
      → AreCached R covered w c
      → IsLike R covered w w₁
      → TallyOutcome
          (All (λ r. All (IsShown R covered w) r.allocs) rs)
          n
          (check_results R covered rs (c, n) w₁)
  unfolding check_results
  check_results-TallyOutcome [] c n w₁ all like =
      (all, like, omega arith, IfNone-Unit n, λ grown. absurd (omega (arith, grown)))
  check_results-TallyOutcome (r ∷ rs) c n w₁ all like =
      let P = All (IsShown R covered w) r.allocs in
      let Q = All (λ x. All (IsShown R covered w) x.allocs) rs in
      bind_cases (TallyOutcome (P × Q) n) (check_records R covered r.allocs (c, n))
        (check_results R covered rs) w₁
        (λ e w₂ bad still both.
          subst (TallyOutcome P n) bad (check_records-TallyOutcome r.allocs c n w₁ all like) still
            both.0)
        λ q w₂ read.
          let (all', like', more, shown, none_of) =
            subst (TallyOutcome P n) read (check_records-TallyOutcome r.allocs c n w₁ all like) in
          TallyOutcome-both P Q n q.1 _ more shown none_of
            (check_results-TallyOutcome rs q.0 q.1 w₂ all' like')

  abbrev pub PassedOutcome : List WorkerResult → Result (Unit {0}) × World R → Type 0
  PassedOutcome rs (ok _, w') = All (λ r. All (IsShown R covered w) r.allocs) rs
  PassedOutcome rs (err e, w') =
      IsCalm R covered w → ¬ (All (λ r. All (IsShown R covered w) r.allocs) rs)

  verdict-PassedOutcome :
      (rs : List WorkerResult) (c : Caches) (m : ℕ) (w₁ : World R)
      → IfNone m (All (λ r. All (IsShown R covered w) r.allocs) rs)
      → (0 < m → ¬ (All (λ r. All (IsShown R covered w) r.allocs) rs))
      → PassedOutcome rs (verdict R covered (c, m) w₁)
  verdict-PassedOutcome rs c zero w₁ shown none_of = shown
  verdict-PassedOutcome rs c (suc m) w₁ shown none_of = λ still. none_of (omega arith)

  -- A check after a run that passes has found every record of every worker as it should be: the
  -- list in the tables with its shard covered, and in the bytes that the shard's Redis has of it, at
  -- the record's index, the status that the run wrote last. If no call fails and every record is
  -- so, the check passes.
  pub verify_decoy_safety-PassedOutcome :
      (rs : List WorkerResult) → PassedOutcome rs (verify_decoy_safety R covered rs w)
  unfolding verify_decoy_safety
  verify_decoy_safety-PassedOutcome rs =
      let P = All (λ r. All (IsShown R covered w) r.allocs) rs in
      bind_cases (PassedOutcome rs) (check_results R covered rs (no_caches, 0)) (verdict R covered)
        w
        (λ e w₁ bad still.
          subst (TallyOutcome P 0) bad
            (check_results-TallyOutcome rs no_caches 0 w (λ _. tt) (refl, refl, refl)) still)
        λ q w₁ read.
          let (_, _, _, shown, none_of) =
            subst (TallyOutcome P 0) read
              (check_results-TallyOutcome rs no_caches 0 w (λ _. tt) (refl, refl, refl)) in
          verdict-PassedOutcome rs q.0 q.1 w₁ shown none_of
