-- ===== src/Store/Allocate.antt =====
-- internal/store/postgres.go: a reservation on valid tables.
use siros_status_service.Prelude.{
  ℕ, ◌<◌, ◌≡◌, ◌≢◌, refl, sym, ap, ◌∙◌, ◌⊎◌, Option-cases, inl, inr, Bool, true, List, [], ◌∷◌,
  Option, none, some, arith, length, and-eq-true, ==_iff,
}
use siros_status_service.Prelude.Str.{Str, str_eq, str_eq_iff}
use siros_status_service.Result.{Result, ok, err, no_convergence}
use siros_status_service.Allocator.{Allocator, key_size, new_allocator, index}
use siros_status_service.Allocator.Walk.{NewOutcome, new_allocator-NewOutcome}
use siros_status_service.Allocator.Walk
use siros_status_service.Allocator.Index.{index_injective, index-IndexOutcome, IndexOutcome}
use siros_status_service.Rows.{
  ListMeta, Allocation, Db, select_one, update, reservable, advance, greatest, reserve_cursor,
  bump_max_exp, insert_allocation, same_slot, count_usage, same_account,
}
use siros_status_service.Rows.Tables.{select_one-All}
use siros_status_service.Store.Reserve.{bind_result, record_allocation}
use siros_status_service.Store.Invariant.{
  IsValid, IsSound, Backs, of_list, index_of, update-IsUnique, only_reserved, rows_after-All,
  other-IsSound, self-IsSound, reservable_parts,
}

-- The allocator that a key and a capacity open.
opened :
    (key : List ℕ) (n : ℕ) (res : Result Allocator)
    → NewOutcome key n res
    → length key ≡ key_size
    → 0 < n
    → (a : Allocator) × (res ≡ ok a) × Walk.IsValid a × (a.n ≡ n)
opened key n (ok a) o k pos = (a, refl, o.1, o.2)
opened key n (err e) (inl bad) k pos = absurd (bad.0 k)
opened key n (err e) (inr bad) k pos = absurd (omega (arith, bad.1))

module _ (hmac : List ℕ → List ℕ → List ℕ) (given : List Allocation) (r : ListMeta)
    (s : IsSound hmac given r) (room : r.cursor < r.size) where
  allocator_of :
      (a : Allocator) × (new_allocator r.fpe_key r.size ≡ ok a) × Walk.IsValid a × (a.n ≡ r.size)
  allocator_of =
      opened r.fpe_key r.size (new_allocator r.fpe_key r.size)
        (new_allocator-NewOutcome r.fpe_key r.size s.small) s.keyed (omega arith)

  index_of-eq : (c : ℕ) → index_of hmac r c ≡ index hmac allocator_of.0 c
  unfolding index_of
  index_of-eq c = ap (λ t. bind_result t (λ a. index hmac a c)) allocator_of.1

  index_of_injective : (c d i : ℕ) → index_of hmac r c ≡ ok i → index_of hmac r d ≡ ok i → c ≡ d
  index_of_injective c d i e f =
      index_injective hmac allocator_of.0 allocator_of.2 c d i (sym (index_of-eq c) ∙ e)
        (sym (index_of-eq d) ∙ f)

  index_outcome :
      IndexOutcome hmac allocator_of.0 allocator_of.2 r.cursor (index_of hmac r r.cursor)
  index_outcome =
      rw (index_of-eq r.cursor) (index-IndexOutcome hmac allocator_of.0 allocator_of.2 r.cursor)

  -- The cursor of a list with room gives an index, or the walk does not converge.
  cursor_outcome :
      (res : Result ℕ)
      → IndexOutcome hmac allocator_of.0 allocator_of.2 r.cursor res
      → (res ≡ err no_convergence) ⊎ ((i : ℕ) × (res ≡ ok i) × (i < r.size))
  cursor_outcome (ok i) o = inr (i, refl, omega (arith, o.1, allocator_of.3))
  cursor_outcome (err e) (inl o) = absurd (omega (arith, o.0, allocator_of.3))
  cursor_outcome (err e) (inr o) = inl (ap err o.2)

  -- The index of the next cursor belongs to no allocation of the list.
  fresh_slot :
      (id : Str) (idx : ℕ)
      → str_eq r.id id ≡ true
      → index_of hmac r r.cursor ≡ ok idx
      → select_one (same_slot id idx) given ≡ none
  fresh_slot id idx same e = elim (Option-cases (select_one (same_slot id idx) given)) [
    | inl none_there ↦ none_there
    | inr (a, found) ↦
        let hit = select_one-All (Backs hmac r) (same_slot id idx) given a s.backed found in
        let parts = and-eq-true _ _ hit.0 in
        let list_id : a.list_id ≡ id = (str_eq_iff a.list_id id).0 parts.0 in
        let own_id : r.id ≡ id = (str_eq_iff r.id id).0 same in
        let owned : of_list r.id a ≡ true = (str_eq_iff a.list_id r.id).1 (list_id ∙ sym own_id) in
        let (c, lt, f) = (hit.1 owned).1 in
        let idx_eq : a.idx ≡ idx = (==_iff a.idx idx).0 parts.1 in
        let back : c ≡ r.cursor = index_of_injective c r.cursor idx (f ∙ ap ok idx_eq) e in
        absurd (omega arith)
  ]

-- An update that keeps IDs hides no list from the foreign key, and a reservable list has its ID.
has_id_update :
    (id : Str) (p : ListMeta → Bool) (f : ListMeta → ListMeta) (rs : List ListMeta)
    → ((x : ListMeta) → (f x).id ≡ x.id)
    → select_one (λ x. str_eq x.id id) (update p f rs) ≡ none
    → select_one (λ x. str_eq x.id id) rs ≡ none
unfolding select_one update
has_id_update id p f [] same e = refl
has_id_update id p f (x ∷ xs) same e =
    ground (arith, ap (λ i. str_eq i id) (same x), has_id_update id p f xs same)

not_reservable :
    (id : Str) (rs : List ListMeta)
    → select_one (λ x. str_eq x.id id) rs ≡ none
    → select_one (reservable id) rs ≡ none
unfolding select_one
not_reservable id [] e = refl
not_reservable id (x ∷ xs) e = ground (arith, not_reservable id xs)

-- The tables after the first two writes.
abbrev reserved : Str → ℕ → Db → Db
reserved id exp db = record db {
  lists =
      update (λ x. str_eq x.id id) (λ x. record x { max_exp = greatest x.max_exp exp })
        (update (reservable id) advance db.lists);
}

abbrev allocation : Str → ℕ → Str → ℕ → Allocation
allocation id idx issuer exp = record { list_id = id; idx = idx; issuer_id = issuer; exp = exp }

insert_reserved :
    (id : Str) (idx : ℕ) (issuer : Str) (exp : ℕ) (db : Db) (r : ListMeta)
    → select_one (reservable id) db.lists ≡ some r
    → select_one (same_slot id idx) db.allocations ≡ none
    → insert_allocation id idx issuer exp (reserved id exp db)
      ≡ ok (record (reserved id exp db) {
        allocations = allocation id idx issuer exp ∷ db.allocations;
      })
unfolding insert_allocation
insert_reserved id idx issuer exp db r found free =
    elim (Option-cases (select_one (λ (x : ListMeta). str_eq x.id id) (reserved id exp db).lists)) [
      | inr (x, e) ↦ rw (free, e, insert_allocation) refl
      | inl e ↦
          let first = has_id_update id _ _ _ (λ x. refl) e in
          let gone = not_reservable id db.lists (has_id_update id _ _ _ (λ x. refl) first) in
          absurd (none-some r (sym gone ∙ found))
    ]
  where
    none-some : (x : ListMeta) → ◌≢◌ {A = Option ListMeta} none (some x)
    none-some x h = cc

pub count_usage_lists :
    (issuer shard : Str) (now : ℕ) (db : Db)
    → ((count_usage issuer shard now db).lists ≡ db.lists)
      × ((count_usage issuer shard now db).allocations ≡ db.allocations)
unfolding count_usage
count_usage_lists issuer shard now db =
    elim (Option-cases (select_one (same_account issuer shard) db.usage)) [
      | inl e ↦ rw (e, count_usage) (refl, refl)
      | inr (u, e) ↦ rw (e, count_usage) (refl, refl)
    ]

valid_after :
    (hmac : List ℕ → List ℕ → List ℕ) (db : Db) (new : Allocation) (r : ListMeta)
    → IsValid hmac db
    → select_one (reservable new.list_id) db.lists ≡ some r
    → index_of hmac r r.cursor ≡ ok new.idx
    → IsValid hmac (record (reserved new.list_id new.exp db) { allocations = new ∷ db.allocations })
valid_after hmac db new r v found e =
    let hit =
      select_one-All (IsSound hmac db.allocations) (reservable new.list_id) db.lists r v.sound
        found in
    record {
      unique = update-IsUnique _ _ _ (λ x. refl) (update-IsUnique _ _ _ (λ x. refl) v.unique);
      sound =
          rows_after-All (IsSound hmac db.allocations) (IsSound hmac (new ∷ db.allocations))
            new.list_id new.exp r db.lists hit.0 (other-IsSound hmac db.allocations new)
            (self-IsSound hmac db.allocations new r hit.0 e)
            (only_reserved new.list_id db.lists r v.unique found) v.sound;
    }

-- What a reservation in list `r` of valid tables may come to.
abbrev pub RecordOutcome :
    (List ℕ → List ℕ → List ℕ) → Str → Str → ℕ → ListMeta → Db → Result (ℕ × Db) → Type 0
RecordOutcome hmac id issuer exp r db (ok (idx, db')) =
    (idx < r.size)
    × (select_one (same_slot id idx) db.allocations ≡ none)
    × IsValid hmac db'
    × (db'.allocations ≡ allocation id idx issuer exp ∷ db.allocations)
RecordOutcome hmac id issuer exp r db (err e) = e ≡ no_convergence

recorded_outcome :
    (hmac : List ℕ → List ℕ → List ℕ) (issuer shard : Str) (now : ℕ) (db : Db) (new : Allocation)
    (r : ListMeta)
    → IsValid hmac db
    → select_one (reservable new.list_id) db.lists ≡ some r
    → index_of hmac r r.cursor ≡ ok new.idx
    → new.idx < r.size
    → select_one (same_slot new.list_id new.idx) db.allocations ≡ none
    → RecordOutcome hmac new.list_id new.issuer_id new.exp r db (
        ok (
          new.idx,
          count_usage issuer shard now
              (record (reserved new.list_id new.exp db) { allocations = new ∷ db.allocations }),
        ))
recorded_outcome hmac issuer shard now db new r v found e below free =
    let same =
      count_usage_lists issuer shard now
        (record (reserved new.list_id new.exp db) { allocations = new ∷ db.allocations }) in
    let after = valid_after hmac db new r v found e in
    (
      below,
      free,
      record { unique = rw same.0 after.unique; sound = rw (same.0, same.1) after.sound },
      same.1,
    )

-- On valid tables a reservation in a list with room never meets a constraint: it gives an index
-- below the list's size that no allocation of the list has, records it for the issuer and leaves
-- the tables valid; or the list's cycle walk did not converge.
pub record_allocation-RecordOutcome :
    (hmac : List ℕ → List ℕ → List ℕ) (id issuer shard : Str) (exp now : ℕ) (db : Db) (r : ListMeta)
    → IsValid hmac db
    → select_one (reservable id) db.lists ≡ some r
    → RecordOutcome hmac id issuer exp r db
        (record_allocation id issuer shard exp now (index_of hmac r) db)
unfolding reserve_cursor bump_max_exp
record_allocation-RecordOutcome hmac id issuer shard exp now db r v found =
    let hit =
      select_one-All (IsSound hmac db.allocations) (reservable id) db.lists r v.sound found in
    let parts = reservable_parts id r hit.0 in
    rw (found, reserve_cursor)
      (elim (cursor_outcome hmac db.allocations r hit.1 parts.1 (index_of hmac r r.cursor)
        (index_outcome hmac db.allocations r hit.1 parts.1)) [
          | inl e ↦ rw e refl
          | inr (i, e, below) ↦
              let free = fresh_slot hmac db.allocations r hit.1 parts.1 id i parts.0 e in
              rw (e, insert_reserved id i issuer exp db r found free)
                (recorded_outcome hmac issuer shard now db (allocation id i issuer exp) r v found e
                  below free)
        ])
