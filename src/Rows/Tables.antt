-- ===== src/Rows/Tables.antt =====
-- Laws of the selections and updates, for any table.
use siros_status_service.Prelude.{
  subst, ℕ, suc, ◌≡◌, refl, inl, inr, Bool, true, not, Bool-cases, List, [], ◌∷◌, All, none, some,
  arith, if◌then◌else◌, leb,
}
use siros_status_service.Rows.{ListMeta, select, select_one, update, insert_by_age, order_by_age}

module _ {ℓ} {A : Type ℓ} where
  -- The number of rows that a test selects.
  unfoldable pub count : (A → Bool) → List A → ℕ
  count p [] = 0
  count p (x ∷ xs) = if p x then suc (count p xs) else count p xs

  pub select-All {κ} :
      (P : A → Type κ) (p : A → Bool) (xs : List A) → All P xs → All P (select p xs)
  unfolding select
  select-All P p [] all = tt
  select-All P p (x ∷ xs) all = elim (Bool-cases (p x)) [
    | inl e ↦ rw e (all.0, select-All P p xs all.1)
    | inr e ↦ rw e (select-All P p xs all.1)
  ]

  -- Every selected row passes the test.
  pub select_passes : (p : A → Bool) (xs : List A) → All (λ x. p x ≡ true) (select p xs)
  unfolding select
  select_passes p [] = tt
  select_passes p (x ∷ xs) = elim (Bool-cases (p x)) [
    | inl e ↦ rw e (e, select_passes p xs)
    | inr e ↦ rw e (select_passes p xs)
  ]

  -- The row that is found passes the test, and has what all rows have.
  pub select_one-All {κ} :
      (P : A → Type κ) (p : A → Bool) (xs : List A) (a : A)
      → All P xs
      → select_one p xs ≡ some a
      → (p a ≡ true) × P a
  unfolding select_one
  select_one-All P p [] a all e = cc
  select_one-All P p (x ∷ xs) a all e = elim (Bool-cases (p x)) [
    | inl hit ↦ let same : x ≡ a = ground arith in (rw (← same) hit, subst P same all.0)
    | inr miss ↦ select_one-All P p xs a all.1 (rw miss at e)
  ]

  pub select_one_passes :
      (p : A → Bool) (xs : List A) (a : A) → select_one p xs ≡ some a → p a ≡ true
  unfolding select_one
  select_one_passes p [] a e = cc
  select_one_passes p (x ∷ xs) a e = elim (Bool-cases (p x)) [
    | inl hit ↦ let same : x ≡ a = ground arith in rw (← same) hit
    | inr miss ↦ select_one_passes p xs a (rw miss at e)
  ]

  pub select_one_complement :
      (p : A → Bool) (xs : List A) → select_one p (select (λ x. not (p x)) xs) ≡ none
  unfolding select_one select
  select_one_complement p [] = refl
  select_one_complement p (x ∷ xs) = ground (arith, select_one_complement p xs)

  pub update-All {κ} :
      (P : A → Type κ) (p : A → Bool) (f : A → A) (xs : List A)
      → ((x : A) → p x ≡ true → P x → P (f x))
      → All P xs
      → All P (update p f xs)
  unfolding update
  update-All P p f [] keep all = tt
  update-All P p f (x ∷ xs) keep all = elim (Bool-cases (p x)) [
    | inl e ↦ rw e (keep x e all.0, update-All P p f xs keep all.1)
    | inr e ↦ rw e (all.0, update-All P p f xs keep all.1)
  ]

  -- An update that keeps what `q` tests keeps which rows `q` finds.
  pub select_one_updated :
      (q p : A → Bool) (f : A → A) (xs : List A)
      → ((x : A) → q (f x) ≡ q x)
      → select_one q xs ≡ none
      → select_one q (update p f xs) ≡ none
  unfolding select_one update
  select_one_updated q p f [] same e = refl
  select_one_updated q p f (x ∷ xs) same e =
      ground (arith, same x, select_one_updated q p f xs same)

  pub All-map {κ ι} :
      (P : A → Type κ) (Q : A → Type ι) (xs : List A) → ((x : A) → P x → Q x) → All P xs → All Q xs
  All-map P Q [] h all = tt
  All-map P Q (x ∷ xs) h all = (h x all.0, All-map P Q xs h all.1)

pub both-All :
    {A : Type 0} (P Q S : A → Type 0) (xs : List A)
    → ((x : A) → P x → Q x → S x)
    → All P xs
    → All Q xs
    → All S xs
both-All P Q S [] f p q = tt
both-All P Q S (x ∷ xs) f p q = (f x p.0 q.0, both-All P Q S xs f p.1 q.1)

insert_by_age-All {κ} :
    (P : ListMeta → Type κ) (x : ListMeta) (xs : List ListMeta)
    → P x
    → All P xs
    → All P (insert_by_age x xs)
unfolding insert_by_age
insert_by_age-All P x [] h all = (h, tt)
insert_by_age-All P x (y ∷ ys) h all = elim (Bool-cases (leb x.created_at y.created_at)) [
  | inl e ↦ rw e (h, all)
  | inr e ↦ rw e (all.0, insert_by_age-All P x ys h all.1)
]

-- Sorting keeps what all rows have.
pub order_by_age-All {κ} :
    (P : ListMeta → Type κ) (xs : List ListMeta) → All P xs → All P (order_by_age xs)
unfolding order_by_age
order_by_age-All P [] all = tt
order_by_age-All P (x ∷ xs) all =
    insert_by_age-All P x (order_by_age xs) all.0 (order_by_age-All P xs all.1)
