-- ===== src/Interleaving/Listed.antt =====
-- Which lists the tables have, after each kind of statement.
use siros_status_service.Prelude.{
  ◌≡◌, refl, sym, ap, ◌∙◌, Bool, true, false, not, Bool-cases, inl, inr, List, [], ◌∷◌, All, none,
  some, arith,
}
use siros_status_service.Prelude.Str.{Str, str_eq, str_eq_iff, str_eq_comm}
use siros_status_service.Rows.{ListMeta, Allocation, select, select_one, update}
use siros_status_service.Rows.Tables.{count, All-map, both-All}
use siros_status_service.Store.Invariant.{of_list, IsUnique, none-All, true-false}
use siros_status_service.Interleaving.{listed, IsSame}

pub listed-update :
    (id : Str) (p : ListMeta → Bool) (f : ListMeta → ListMeta) (rs : List ListMeta)
    → ((x : ListMeta) → (f x).id ≡ x.id)
    → listed id (update p f rs) ≡ listed id rs
unfolding listed update
listed-update id p f [] same = refl
listed-update id p f (r ∷ rs) same = elim (Bool-cases (p r)) [
  | inl e ↦ rw (e, same r, listed-update id p f rs same) refl
  | inr e ↦ rw (e, listed-update id p f rs same) refl
]

pub listed-select_one :
    (q : ListMeta → Bool) (id : Str) (rs : List ListMeta) (r : ListMeta)
    → select_one q rs ≡ some r
    → str_eq r.id id ≡ true
    → listed id rs ≡ true
unfolding listed select_one
listed-select_one q id [] r e h = cc
listed-select_one q id (x ∷ xs) r e h = elim (Bool-cases (q x)) [
  | inl hit ↦ let same : x ≡ r = ground (arith, e, hit) in rw same (rw h refl)
  | inr miss ↦ ground (arith, listed-select_one q id xs r (rw miss at e) h)
]

pub listed_missing :
    (id : Str) (rs : List ListMeta)
    → select_one (λ x. str_eq x.id id) rs ≡ none
    → listed id rs ≡ false
unfolding listed select_one
listed_missing id [] e = refl
listed_missing id (x ∷ xs) e = ground (arith, e, listed_missing id xs)

-- The deletion of one list leaves the others.
pub listed-select :
    (id gone : Str) (rs : List ListMeta)
    → str_eq id gone ≡ false
    → listed id (select (λ r. not (str_eq r.id gone)) rs) ≡ listed id rs
unfolding listed select
listed-select id gone [] ne = refl
listed-select id gone (r ∷ rs) ne = elim (Bool-cases (str_eq r.id gone)) [
  | inr kept ↦ rw (kept, listed-select id gone rs ne) refl
  | inl hit ↦
      let other : str_eq r.id id ≡ false =
        rw ((str_eq_iff r.id gone).0 hit, str_eq_comm gone id) ne in
      rw (hit, other, listed-select id gone rs ne) refl
]

pub select_one-select :
    {A : Type 0} (q p : A → Bool) (xs : List A)
    → select_one q xs ≡ none
    → select_one q (select p xs) ≡ none
unfolding select select_one
select_one-select q p [] e = refl
select_one-select q p (x ∷ xs) e = ground (arith, e, select_one-select q p xs)

pub select-IsUnique :
    (p : ListMeta → Bool) (rs : List ListMeta) → IsUnique rs → IsUnique (select p rs)
unfolding select
select-IsUnique p [] u = tt
select-IsUnique p (r ∷ rs) u = elim (Bool-cases (p r)) [
  | inl kept ↦
      rw kept (select_one-select (λ x. str_eq x.id r.id) p rs u.0, select-IsUnique p rs u.1)
  | inr gone ↦ rw gone (select-IsUnique p rs u.1)
]

-- Allocations of other lists are not counted.
pub count-select :
    (id gone : Str) (given : List Allocation)
    → str_eq id gone ≡ false
    → count (of_list id) (select (λ a. not (str_eq a.list_id gone)) given)
      ≡ count (of_list id) given
unfolding count select
count-select id gone [] ne = refl
count-select id gone (a ∷ given) ne = elim (Bool-cases (str_eq a.list_id gone)) [
  | inr kept ↦ rw (kept, count-select id gone given ne) refl
  | inl hit ↦
      let other : str_eq a.list_id id ≡ false =
        rw ((str_eq_iff a.list_id gone).0 hit, str_eq_comm gone id) ne in
      rw (hit, other, count-select id gone given ne) refl
]

-- A list that is not there has no allocation.
pub count_missing :
    (id : Str) (rs : List ListMeta) (given : List Allocation)
    → listed id rs ≡ false
    → All (λ a. listed a.list_id rs ≡ true) given
    → (count (of_list id) given ≡ 0) × All (λ a. of_list id a ≡ false) given
unfolding count
count_missing id rs [] none_ all = (refl, tt)
count_missing id rs (a ∷ given) none_ all = elim (Bool-cases (str_eq a.list_id id)) [
  | inl hit ↦
      absurd
        (true-false (sym all.0 ∙ (ap (λ i. listed i rs) ((str_eq_iff a.list_id id).0 hit) ∙ none_)))
  | inr miss ↦
      let rest = count_missing id rs given none_ all.1 in (rw (miss, rest.0) refl, (miss, rest.1))
]

-- With unique IDs every row is the only one of its own.
pub unique-IsSame : (rs : List ListMeta) → IsUnique rs → All (λ k. All (IsSame k) rs) rs
unique-IsSame [] u = tt
unique-IsSame (r ∷ rs) u =
    let others = none-All (λ x. str_eq x.id r.id) rs u.0 in
    (
      (
        λ _. (refl, refl),
        All-map _ (IsSame r) rs (λ x no yes_. absurd (true-false (sym yes_ ∙ no))) others,
      ),
      both-All (λ x. str_eq x.id r.id ≡ false) (λ k. All (IsSame k) rs)
          (λ k. All (IsSame k) (r ∷ rs)) rs
          (λ k no all. (λ yes_. absurd (true-false (sym yes_ ∙ (str_eq_comm r.id k.id ∙ no))), all))
          others (unique-IsSame rs u.1),
    )
