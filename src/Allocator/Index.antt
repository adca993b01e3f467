-- ===== src/Allocator/Index.antt =====
-- internal/allocator/allocator.go: `Index` on distinct cursors, and where its walk ends.
use siros_status_service.Prelude.{
  ℕ, zero, suc, ◌+◌, ◌-◌, ◌*◌, ◌^◌, ◌≤◌, ◌<◌, ◌≡◌, ◌⊎◌, inl, inr, refl, ap, ◌∙◌, sym, List,
  Bool-cases, ltb, leb, ltb→lt, leb→le, leb_false→lt, arith, ◌==◌, ==_iff, ◌≢◌,
}
use siros_status_service.Prelude.Pigeon.{pigeonhole}
use siros_status_service.Result.{Result, ok, err, bad_cursor, no_convergence}
use siros_status_service.Allocator.{Allocator, permute, max_cycle_walks, walk, index}
use siros_status_service.Allocator.Feistel.{permute-lt, permute_injective}
use siros_status_service.Allocator.Walk.{IsValid}

module _ (hmac : List ℕ → List ℕ → List ℕ) (a : Allocator) where
  iter : ℕ → ℕ → ℕ
  iter zero x = x
  iter (suc k) x = iter k (permute hmac a x)

  -- A walk from `x` that ended at `i`: it took `steps` more steps than one, all but the last of
  -- them to numbers at or above the capacity.
  record Walked (x i : ℕ) : Type 0 where
    steps : ℕ
    lands : iter (suc steps) x ≡ i
    inside : i < a.n
    above : (j : ℕ) → j < steps → a.n ≤ iter (suc j) x

  walk-Walked : (left x i : ℕ) → walk hmac a left x ≡ ok i → Walked x i
  unfolding walk iter
  walk-Walked zero x i e = cc
  walk-Walked (suc left) x i e = elim (Bool-cases (ltb (permute hmac a x) a.n)) [
    | inl stop ↦ record {
      steps = 0;
      lands = ground arith;
      inside = ground arith;
      above = λ j h. absurd (omega arith);
    }
    | inr go ↦
        let rest = walk-Walked left (permute hmac a x) i (rw go at e) in
        record {
          steps = suc rest.steps;
          lands = rest.lands;
          inside = rest.inside;
          above = λ j h. above_suc x j rest.steps h (ground arith) rest.above;
        }
  ]
    where
      above_suc :
          (y j s : ℕ)
          → j < suc s
          → a.n ≤ permute hmac a y
          → ((k : ℕ) → k < s → a.n ≤ iter (suc k) (permute hmac a y))
          → a.n ≤ iter (suc j) y
      above_suc y zero s h first more = first
      above_suc y (suc j) s h first more = more j (omega arith)

  -- A walk that does not end within its steps stays at or above the capacity.
  walk_above :
      (left x : ℕ) (e : err no_convergence ≡ walk hmac a left x) (j : ℕ)
      → j < left
      → a.n ≤ iter (suc j) x
  unfolding walk iter
  walk_above zero x e j h = absurd (omega arith)
  walk_above (suc left) x e zero h = ground arith
  walk_above (suc left) x e (suc j) h =
      walk_above left (permute hmac a x) (ground arith) j (omega arith)

  walk_ends :
      (left x : ℕ)
      → ((i : ℕ) × (walk hmac a left x ≡ ok i)) ⊎ (err no_convergence ≡ walk hmac a left x)
  unfolding walk
  walk_ends zero x = inr refl
  walk_ends (suc left) x = elim (Bool-cases (ltb (permute hmac a x) a.n)) [
    | inl stop ↦ inl (permute hmac a x, rw stop)
    | inr go ↦ rw go (walk_ends left (permute hmac a x))
  ]

module _ (hmac : List ℕ → List ℕ → List ℕ) (a : Allocator) (v : IsValid a) where
  abbrev InDomain : ℕ → Type 0
  InDomain x = x < 2 ^ a.half * 2 ^ a.half

  iter-add : (j k x : ℕ) → iter hmac a (j + k) x ≡ iter hmac a k (iter hmac a j x)
  unfolding iter
  iter-add zero k x = let e : 0 + k ≡ k = omega arith in rw e refl
  iter-add (suc j) k x =
      let e : suc j + k ≡ suc (j + k) = omega arith in
      ap (λ t. iter hmac a t x) e ∙ iter-add j k (permute hmac a x)

  iter-InDomain : (k x : ℕ) → InDomain x → InDomain (iter hmac a k x)
  unfolding iter
  iter-InDomain zero x h = h
  iter-InDomain (suc k) x h = iter-InDomain k (permute hmac a x) (permute-lt hmac a v.narrow x)

  iter_injective : (k x y : ℕ) → InDomain x → InDomain y → iter hmac a k x ≡ iter hmac a k y → x ≡ y
  unfolding iter
  iter_injective zero x y hx hy e = e
  iter_injective (suc k) x y hx hy e =
      permute_injective hmac a v.narrow x y hx hy
        (iter_injective k _ _ (permute-lt hmac a v.narrow x) (permute-lt hmac a v.narrow y) e)

  -- If `x` after `j` steps is `y` after `d + 1` more, then `x` is on the walk from `y`.
  behind :
      (j d x y : ℕ)
      → InDomain x
      → InDomain y
      → iter hmac a j x ≡ iter hmac a (suc d + j) y
      → x ≡ iter hmac a (suc d) y
  behind j d x y hx hy e =
      iter_injective j x (iter hmac a (suc d) y) hx (iter-InDomain (suc d) y hy)
        (e ∙ iter-add (suc d) j y)

  -- Two walks from in-range numbers to the same number, the first no longer than the second.
  same_start :
      (x y i : ℕ) (p : Walked hmac a x i) (q : Walked hmac a y i)
      → x < a.n
      → y < a.n
      → p.steps ≤ q.steps
      → x ≡ y
  same_start x y i p q hx hy le = elim (Bool-cases (p.steps == q.steps)) [
    | inl same ↦
        let e : q.steps ≡ p.steps = ground arith in
        iter_injective (suc p.steps) x y (omega (arith, v.room)) (omega (arith, v.room))
          (p.lands ∙ (sym q.lands ∙ ap (λ t. iter hmac a (suc t) y) e))
    | inr fewer ↦
        let d = q.steps - p.steps - 1 in
        let e : suc q.steps ≡ suc d + suc p.steps = ground arith in
        let on_walk : x ≡ iter hmac a (suc d) y =
          behind (suc p.steps) d x y (omega (arith, v.room)) (omega (arith, v.room))
            (p.lands ∙ (sym q.lands ∙ ap (λ t. iter hmac a t y) e)) in
        absurd (omega (arith, q.above d (ground arith), on_walk))
  ]

  refused : (i : ℕ) → ◌≢◌ {A = Result ℕ} (err bad_cursor) (ok i)
  refused i e = cc

  index-Walked : (x i : ℕ) → index hmac a x ≡ ok i → Walked hmac a x i × (x < a.n)
  unfolding index
  index-Walked x i e = elim (Bool-cases (leb a.n x)) [
    | inl out ↦ absurd (refused i (rw out at e))
    | inr within ↦
        (walk-Walked hmac a max_cycle_walks x i (rw within at e), leb_false→lt a.n x within)
  ]

  -- Distinct cursors never get the same index, whatever the key and the keyed hash are.
  pub index_injective : (x y i : ℕ) → index hmac a x ≡ ok i → index hmac a y ≡ ok i → x ≡ y
  index_injective x y i e f =
      let (p, hx) = index-Walked x i e in
      let (q, hy) = index-Walked y i f in
      elim (Bool-cases (leb p.steps q.steps)) [
        | inl le ↦ same_start x y i p q hx hy (ground arith)
        | inr gt ↦ sym (same_start y x i q p hy hx (ground arith))
      ]

  -- The numbers that a walk visits above the capacity are distinct.
  visits_distinct :
      (x m i j : ℕ)
      → x < a.n
      → ((k : ℕ) → k < m → a.n ≤ iter hmac a (suc k) x)
      → i < j
      → j < m
      → iter hmac a (suc i) x ≢ iter hmac a (suc j) x
  visits_distinct x m i j hx above lt hj e =
      let d = j - i - 1 in
      let f : suc j ≡ suc d + suc i = omega arith in
      let on_walk : x ≡ iter hmac a (suc d) x =
        behind (suc i) d x x (omega (arith, v.room)) (omega (arith, v.room))
          (e ∙ ap (λ t. iter hmac a t x) f) in
      omega (arith, above d (omega arith), on_walk)

  walk_bounded :
      (x m : ℕ)
      → x < a.n
      → ((k : ℕ) → k < m → a.n ≤ iter hmac a (suc k) x)
      → m ≤ 2 ^ a.half * 2 ^ a.half - a.n
  walk_bounded x m hx above =
      pigeonhole (2 ^ a.half * 2 ^ a.half - a.n) m (λ k. iter hmac a (suc k) x - a.n)
        (λ k h. omega (arith, above k h, iter-InDomain (suc k) x (omega (arith, v.room))))
        (λ i j hi hj e. elim (Bool-cases (i == j)) [
          | inl same ↦ (==_iff i j).0 same
          | inr differ ↦ absurd (elim (Bool-cases (ltb i j)) [
            | inl lt ↦
                visits_distinct x m i j hx above (ltb→lt i j lt) hj
                  (omega (arith, above i hi, above j hj))
            | inr ge ↦
                visits_distinct x m j i hx above (ground arith) hi
                  (omega (arith, above i hi, above j hj))
          ])
        ])

  -- What a call of `Index` at a cursor may return.
  abbrev pub IndexOutcome : ℕ → Result ℕ → Type 0
  IndexOutcome x (ok i) = (x < a.n) × (i < a.n)
  IndexOutcome x (err e) =
      ((a.n ≤ x) × (e ≡ bad_cursor))
      ⊎ ((x < a.n) × (max_cycle_walks ≤ 2 ^ a.half * 2 ^ a.half - a.n) × (e ≡ no_convergence))

  -- `Index` gives an index below the capacity to each cursor below it and refuses any other cursor.
  -- Only where a thousand numbers or more lie between the capacity and the network's domain may it
  -- report instead that the walk did not converge.
  pub index-IndexOutcome : (x : ℕ) → IndexOutcome x (index hmac a x)
  unfolding index
  index-IndexOutcome x = elim (Bool-cases (leb a.n x)) [
    | inl out ↦ rw out (inl (leb→le a.n x out, refl))
    | inr within ↦ rw within (elim (walk_ends hmac a max_cycle_walks x) [
      | inl (i, e) ↦
          rw e (leb_false→lt a.n x within, (walk-Walked hmac a max_cycle_walks x i e).inside)
      | inr e ↦
          let above = walk_above hmac a max_cycle_walks x e in
          let lt = leb_false→lt a.n x within in
          rw (← e) (inr (lt, walk_bounded x max_cycle_walks lt above, refl))
    ])
  ]
