-- ===== src/Store/Invariant.antt =====
-- internal/store/postgres.go: what is expected of the tables between operations.
use siros_status_service.Prelude.{
  ℕ, ◌^◌, ◌≤◌, ◌<◌, ◌≡◌, ◌≢◌, refl, sym, ap, ◌∙◌, ap₂, inl, inr, Bool, true, false, Bool-cases,
  List, [], ◌∷◌, All, Option, none, some, arith, length,
}
use siros_status_service.Prelude.Str.{Str, str_eq, str_eq_iff, str_eq_refl, str_eq_comm}
use siros_status_service.Result.{Result, ok}
use siros_status_service.Allocator.{key_size, new_allocator, index}
use siros_status_service.Rows.{
  ListMeta, Allocation, Db, is_active, is_archived, is_null, select_one, update, reservable,
  advance, greatest,
}
use siros_status_service.Rows.Tables.{count, All-map, select_one-All, select_one_updated}
use siros_status_service.Store.Reserve.{bind_result}

abbrev pub of_list : Str → Allocation → Bool
of_list id a = str_eq a.list_id id

-- The index that a list's own key gives a cursor.
unfoldable pub index_of : (List ℕ → List ℕ → List ℕ) → ListMeta → ℕ → Result ℕ
index_of hmac r c = bind_result (new_allocator r.fpe_key r.size) (λ a. index hmac a c)

-- An expiration is covered by a list's recorded maximum.
abbrev pub Covered : Option ℕ → ℕ → Type 0
Covered none e = ⊥
Covered (some m) e = e ≤ m

-- An index was derived from a cursor position that the list has passed.
abbrev pub IsDerived : (List ℕ → List ℕ → List ℕ) → ListMeta → ℕ → Type 0
IsDerived hmac r idx = (c : ℕ) × (c < r.cursor) × (index_of hmac r c ≡ ok idx)

-- An allocation is none of the list's, or is covered by its maximum and derived with its key.
abbrev pub Backs : (List ℕ → List ℕ → List ℕ) → ListMeta → Allocation → Type 0
Backs hmac r a = of_list r.id a ≡ true → Covered r.max_exp a.exp × IsDerived hmac r a.idx

pub true-false : ◌≢◌ {A = Bool} true false
true-false e = cc

-- One list, against all allocations.
pub record IsSound (hmac : List ℕ → List ℕ → List ℕ) (given : List Allocation) (r : ListMeta)
    : Type 0 where
  pub keyed : length r.fpe_key ≡ key_size
  pub small : r.size < 2 ^ 64
  pub bounded : r.cursor ≤ r.size
  pub roomy : is_active r.state ≡ true → r.cursor < r.size
  pub counted : count (of_list r.id) given ≡ r.cursor
  pub backed : All (Backs hmac r) given
  pub dated : is_archived r.state ≡ true → is_null r.archived_at ≡ false

-- No two rows of `lists` have the same ID.
abbrev pub IsUnique : List ListMeta → Type 0
IsUnique [] = Unit
IsUnique (r ∷ rs) = (select_one (λ x. str_eq x.id r.id) rs ≡ none) × IsUnique rs

pub record IsValid (hmac : List ℕ → List ℕ → List ℕ) (db : Db) : Type 0 where
  pub unique : IsUnique db.lists
  pub sound : All (IsSound hmac db.allocations) db.lists

pub update-IsUnique :
    (p : ListMeta → Bool) (f : ListMeta → ListMeta) (rs : List ListMeta)
    → ((x : ListMeta) → (f x).id ≡ x.id)
    → IsUnique rs
    → IsUnique (update p f rs)
unfolding update
update-IsUnique p f [] same u = tt
update-IsUnique p f (r ∷ rs) same u = elim (Bool-cases (p r)) [
  | inl e ↦ rw (e, same r) (rest r, update-IsUnique p f rs same u.1)
  | inr e ↦ rw e (rest r, update-IsUnique p f rs same u.1)
]
  where
    rest : (x : ListMeta) → select_one (λ y. str_eq y.id r.id) (update p f rs) ≡ none
    rest x =
        select_one_updated (λ y. str_eq y.id r.id) p f rs (λ y. ap (λ i. str_eq i r.id) (same y))
          u.0

pub none-All :
    {A : Type 0} (p : A → Bool) (xs : List A) → select_one p xs ≡ none → All (λ x. p x ≡ false) xs
unfolding select_one
none-All p [] e = tt
none-All p (x ∷ xs) e = elim (Bool-cases (p x)) [
  | inl hit ↦ absurd (ground arith)
  | inr miss ↦ (miss, none-All p xs (rw miss at e))
]

pub reservable_parts :
    (id : Str) (r : ListMeta)
    → reservable id r ≡ true
    → (str_eq r.id id ≡ true) × (r.cursor < r.size) × (is_active r.state ≡ true)
reservable_parts id r h = ground arith

-- With unique IDs the reserved row is the only one of its ID.
pub only_reserved :
    (id : Str) (rs : List ListMeta) (r : ListMeta)
    → IsUnique rs
    → select_one (reservable id) rs ≡ some r
    → All (λ x. str_eq x.id id ≡ true → x ≡ r) rs
unfolding select_one
only_reserved id [] r u e = tt
only_reserved id (x ∷ xs) r u e = elim (Bool-cases (reservable id x)) [
  | inl hit ↦
      let same : x ≡ r = ground arith in
      let of_id : x.id ≡ id = (str_eq_iff x.id id).0 (reservable_parts id x hit).0 in
      (
        λ _. same,
        All-map _ _ xs (λ y f t. absurd (true-false (sym t ∙ (ap (str_eq y.id) (sym of_id) ∙ f))))
            (none-All (λ y. str_eq y.id x.id) xs u.0),
      )
  | inr miss ↦
      let later = rw miss at e in
      let found =
        select_one-All (λ (y : ListMeta). str_eq y.id x.id ≡ false) (reservable id) xs r
          (none-All (λ y. str_eq y.id x.id) xs u.0) later in
      let of_id : r.id ≡ id = (str_eq_iff r.id id).0 (reservable_parts id r found.0).0 in
      (
        λ t.
            let x_id : x.id ≡ id = (str_eq_iff x.id id).0 t in
            absurd
              (true-false (sym (str_eq_refl id) ∙ (ap₂ str_eq (sym of_id) (sym x_id) ∙ found.1))),
        only_reserved id xs r u.1 later,
      )
]

-- The row of a list after a reservation with expiration `exp`.
abbrev pub bumped : ℕ → ListMeta → ListMeta
bumped exp r = record (advance r) { max_exp = greatest r.max_exp exp }

pub rows_after-All :
    (P Q : ListMeta → Type 0) (id : Str) (exp : ℕ) (r : ListMeta) (rs : List ListMeta)
    → reservable id r ≡ true
    → ((x : ListMeta) → str_eq x.id id ≡ false → P x → Q x)
    → (P r → Q (bumped exp r))
    → All (λ x. str_eq x.id id ≡ true → x ≡ r) rs
    → All P rs
    → All Q (
        update
          (λ x. str_eq x.id id)
          (λ x. record x { max_exp = greatest x.max_exp exp })
          (update (reservable id) advance rs))
unfolding update
rows_after-All P Q id exp r [] ok_r other self only all = tt
rows_after-All P Q id exp r (x ∷ xs) ok_r other self only all =
    let rest = rows_after-All P Q id exp r xs ok_r other self only.1 all.1 in
    elim (Bool-cases (str_eq x.id id)) [
      | inr e ↦ rw (e, e) (other x e all.0, rest)
      | inl e ↦
          let same : x ≡ r = only.0 e in
          let hit : reservable id x ≡ true = rw same ok_r in
          rw (hit, e) (rw same (self (rw same at all.0)), rest)
    ]

module _ (hmac : List ℕ → List ℕ → List ℕ) (given : List Allocation) (new : Allocation) where
  -- A reservation on another list.
  pub other-IsSound :
      (x : ListMeta)
      → str_eq x.id new.list_id ≡ false
      → IsSound hmac given x
      → IsSound hmac (new ∷ given) x
  unfolding count
  other-IsSound x e s =
      let off : str_eq new.list_id x.id ≡ false = str_eq_comm new.list_id x.id ∙ e in
      record {
        keyed = s.keyed;
        small = s.small;
        bounded = s.bounded;
        roomy = s.roomy;
        counted = rw off s.counted;
        backed = (λ t. absurd (true-false (sym t ∙ off)), s.backed);
        dated = s.dated;
      }

  greatest-Covered : (m : Option ℕ) (e exp : ℕ) → Covered m e → Covered (greatest m exp) e
  greatest-Covered none e exp h = absurd h
  greatest-Covered (some m) e exp h = ground arith

  greatest_covers : (m : Option ℕ) (exp : ℕ) → Covered (greatest m exp) exp
  greatest_covers none exp = omega arith
  greatest_covers (some m) exp = ground arith

  index_of-bumped : (r : ListMeta) (c exp : ℕ) → index_of hmac (bumped exp r) c ≡ index_of hmac r c
  unfolding index_of
  index_of-bumped r c exp = refl

  -- The list itself.
  pub self-IsSound :
      (r : ListMeta)
      → reservable new.list_id r ≡ true
      → index_of hmac r r.cursor ≡ ok new.idx
      → IsSound hmac given r
      → IsSound hmac (new ∷ given) (bumped new.exp r)
  unfolding count
  self-IsSound r hit derived s =
      let parts = reservable_parts new.list_id r hit in
      let on : str_eq new.list_id r.id ≡ true = str_eq_comm new.list_id r.id ∙ parts.0 in
      record {
        keyed = s.keyed;
        small = s.small;
        bounded = ground arith;
        roomy = ground arith;
        counted = rw on (ground (arith, s.counted));
        backed = (
          λ t. (
            greatest_covers r.max_exp new.exp,
            (r.cursor, omega arith, index_of-bumped r r.cursor new.exp ∙ derived),
          ),
          All-map (Backs hmac r) _ given
              (λ a b t.
                let (cov, (c, lt, e)) = b t in
                (
                  greatest-Covered r.max_exp a.exp new.exp cov,
                  (c, omega arith, index_of-bumped r c new.exp ∙ e),
                ))
              s.backed,
        );
        dated = ground arith;
      }
