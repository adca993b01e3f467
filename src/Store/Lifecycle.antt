-- ===== src/Store/Lifecycle.antt =====
-- internal/store/postgres.go: the statements that move a list through its states, on valid tables.
use siros_status_service.Prelude.{ℕ, ◌≡◌, refl, Bool, List}
use siros_status_service.Prelude.Str.{Str}
use siros_status_service.Rows.{ListMeta, Db, freeze_list, archive_list, mark_list_purged, update}
use siros_status_service.Rows.Tables.{update-All}
use siros_status_service.Store.Invariant.{IsValid, IsSound, index_of, update-IsUnique}

-- An update of the rows that keeps each row sound keeps the tables valid.
update-IsValid :
    (hmac : List ℕ → List ℕ → List ℕ) (p : ListMeta → Bool) (f : ListMeta → ListMeta) (db : Db)
    → ((x : ListMeta) → (f x).id ≡ x.id)
    → ((x : ListMeta) → IsSound hmac db.allocations x → IsSound hmac db.allocations (f x))
    → IsValid hmac db
    → IsValid hmac (record db { lists = update p f db.lists })
update-IsValid hmac p f db same keep v = record {
  unique = update-IsUnique p f db.lists same v.unique;
  sound = update-All (IsSound hmac db.allocations) p f db.lists (λ x _ s. keep x s) v.sound;
}

-- Freezing, archiving and marking a list, in any state that the tables have it in, leave valid
-- tables valid.
pub lifecycle-IsValid :
    (hmac : List ℕ → List ℕ → List ℕ) (id : Str) (now : ℕ) (db : Db)
    → IsValid hmac db
    → IsValid hmac (freeze_list id db)
      × IsValid hmac (archive_list id now db)
      × IsValid hmac (mark_list_purged id now db)
unfolding freeze_list archive_list mark_list_purged index_of
lifecycle-IsValid hmac id now db v = (
  update-IsValid hmac _ _ db (λ x. refl)
      (λ x s. record {
        keyed = s.keyed;
        small = s.small;
        bounded = s.bounded;
        roomy = λ e. cc;
        counted = s.counted;
        backed = s.backed;
        dated = λ e. cc;
      })
      v,
  update-IsValid hmac _ _ db (λ x. refl)
      (λ x s. record {
        keyed = s.keyed;
        small = s.small;
        bounded = s.bounded;
        roomy = λ e. cc;
        counted = s.counted;
        backed = s.backed;
        dated = λ _. refl;
      })
      v,
  update-IsValid hmac _ _ db (λ x. refl)
      (λ x s. record {
        keyed = s.keyed;
        small = s.small;
        bounded = s.bounded;
        roomy = s.roomy;
        counted = s.counted;
        backed = s.backed;
        dated = s.dated;
      })
      v,
)
