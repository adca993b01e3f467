-- ===== src/Interleaving/Kept.antt =====
-- Each statement and transaction keeps the tables consistent.
use siros_status_service.Prelude.{
  ℕ, ◌≡◌, ◌<◌, ◌^◌, refl, sym, ap, ◌∙◌, Bool, true, false, not, Bool-cases, inl, inr, List, [], ◌∷◌,
  All, none, arith, length,
}
use siros_status_service.Prelude.Str.{Str, str_eq}
use siros_status_service.Rows.{
  ListMeta, ListState, Allocation, Db, select, select_one, update, freeze_list, archive_list,
  mark_list_purged, is_archived,
}
use siros_status_service.Rows.Tables.{select-All, update-All, All-map, both-All}
use siros_status_service.Allocator.{key_size}
use siros_status_service.Store.Invariant.{IsValid, IsSound, Backs, true-false}
use siros_status_service.Store.Lifecycle.{lifecycle-IsValid}
use siros_status_service.Store.Delete.{without_list}
use siros_status_service.Interleaving.{listed, IsSame, IsConsistent}
use siros_status_service.Interleaving.Listed.{
  listed-update, listed-select, select-IsUnique, count-select, count_missing,
}

module _ (hmac : List ℕ → List ℕ → List ℕ) (known : List ListMeta) where
  -- An update that keeps the ID, the key and the size of each row, on tables that stay valid.
  update-IsConsistent :
      (p : ListMeta → Bool) (f : ListMeta → ListMeta) (db : Db)
      → ((x : ListMeta) → (f x).id ≡ x.id)
      → ((k x : ListMeta) → IsSame k x → IsSame k (f x))
      → IsValid hmac (record db { lists = update p f db.lists })
      → IsConsistent hmac db known
      → IsConsistent hmac (record db { lists = update p f db.lists }) known
  update-IsConsistent p f db id_kept same_kept v c = record {
    valid = v;
    referenced =
        All-map _ _ db.allocations (λ a h. listed-update a.list_id p f db.lists id_kept ∙ h)
          c.referenced;
    agreed =
        All-map _ _ known (λ k. update-All (IsSame k) p f db.lists (λ x _. same_kept k x)) c.agreed;
  }

  pub lifecycle-IsConsistent :
      (id : Str) (now : ℕ) (db : Db)
      → IsConsistent hmac db known
      → IsConsistent hmac (freeze_list id db) known
        × IsConsistent hmac (archive_list id now db) known
        × IsConsistent hmac (mark_list_purged id now db) known
  unfolding freeze_list archive_list mark_list_purged
  lifecycle-IsConsistent id now db c =
      let (frozen, archived, marked) = lifecycle-IsValid hmac id now db c.valid in
      (
        update-IsConsistent _ _ db (λ x. refl) (λ k x s. s) frozen c,
        update-IsConsistent _ _ db (λ x. refl) (λ k x s. s) archived c,
        update-IsConsistent _ _ db (λ x. refl) (λ k x s. s) marked c,
      )

  -- A new row without allocations beside the old ones.
  pub cons-IsConsistent :
      (new : ListMeta) (db : Db)
      → listed new.id db.lists ≡ false
      → select_one (λ r. str_eq r.id new.id) db.lists ≡ none
      → All (λ k. str_eq new.id k.id ≡ false) known
      → length new.fpe_key ≡ key_size
      → 0 < new.size
      → new.size < 2 ^ 64
      → new.cursor ≡ 0
      → new.state ≡ ListState.active
      → IsConsistent hmac db known
      → IsConsistent hmac (record db { lists = new ∷ db.lists }) known
  unfolding listed
  cons-IsConsistent new db absent missing fresh keyed room small start active c =
      let (counted, foreign) = count_missing new.id db.lists db.allocations absent c.referenced in
      record {
        valid = record {
          unique = (missing, c.valid.unique);
          sound = (
            record {
              keyed = keyed;
              small = small;
              bounded = omega arith;
              roomy = λ _. omega arith;
              counted = counted ∙ sym start;
              backed =
                  All-map _ (Backs hmac new) db.allocations
                    (λ a no yes_. absurd (true-false (sym yes_ ∙ no))) foreign;
              dated = λ h. absurd (true-false (sym h ∙ ap is_archived active));
            },
            c.valid.sound,
          );
        };
        referenced = All-map _ _ db.allocations (λ a h. ground (arith, h)) c.referenced;
        agreed =
            both-All (λ k. str_eq new.id k.id ≡ false) (λ k. All (IsSame k) db.lists)
              (λ k. All (IsSame k) (new ∷ db.lists)) known
              (λ k no all. (λ yes_. absurd (true-false (sym yes_ ∙ no)), all)) fresh c.agreed;
      }

  select-IsSound :
      (gone : Str) (given : List Allocation) (rs : List ListMeta)
      → All (IsSound hmac given) rs
      → All
          (IsSound hmac (select (λ a. not (str_eq a.list_id gone)) given))
          (select (λ r. not (str_eq r.id gone)) rs)
  unfolding select
  select-IsSound gone given [] all = tt
  select-IsSound gone given (r ∷ rs) all = elim (Bool-cases (str_eq r.id gone)) [
    | inl hit ↦ rw hit (select-IsSound gone given rs all.1)
    | inr kept ↦ rw kept (
      record {
        keyed = all.0.keyed;
        small = all.0.small;
        bounded = all.0.bounded;
        roomy = all.0.roomy;
        counted = count-select r.id gone given kept ∙ all.0.counted;
        backed = select-All (Backs hmac r) (λ a. not (str_eq a.list_id gone)) given all.0.backed;
        dated = all.0.dated;
      },
      select-IsSound gone given rs all.1,
    )
  ]

  referenced-select :
      (gone : Str) (rs : List ListMeta) (given : List Allocation)
      → All (λ a. listed a.list_id rs ≡ true) given
      → All
          (λ a. listed a.list_id (select (λ r. not (str_eq r.id gone)) rs) ≡ true)
          (select (λ a. not (str_eq a.list_id gone)) given)
  unfolding select
  referenced-select gone rs [] all = tt
  referenced-select gone rs (a ∷ given) all = elim (Bool-cases (str_eq a.list_id gone)) [
    | inl hit ↦ rw hit (referenced-select gone rs given all.1)
    | inr kept ↦
        rw kept
          (listed-select a.list_id gone rs kept ∙ all.0, referenced-select gone rs given all.1)
  ]

  pub without_list-IsConsistent :
      (id : Str) (db : Db)
      → IsConsistent hmac db known
      → IsConsistent hmac (without_list id db) known
  without_list-IsConsistent id db c = record {
    valid = record {
      unique = select-IsUnique (λ r. not (str_eq r.id id)) db.lists c.valid.unique;
      sound = select-IsSound id db.allocations db.lists c.valid.sound;
    };
    referenced = referenced-select id db.lists db.allocations c.referenced;
    agreed =
        All-map _ _ known (λ k. select-All (IsSame k) (λ r. not (str_eq r.id id)) db.lists)
          c.agreed;
  }
