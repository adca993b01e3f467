-- ===== src/Gc/Shards.antt =====
-- What the purging phase does to the shards: the rows of all of them, the bitmaps of one.
use siros_status_service.Prelude.{
  ℕ, ◌+◌, ◌≡◌, refl, sym, subst, ◌∙◌, true, false, Bool-cases, List, [], ◌∷◌, All, none, some,
  arith, inl, inr, if◌then◌else◌,
}
use siros_status_service.Prelude.Str.{Str, str_eq, str_eq_refl, put_key}
use siros_status_service.Result.{Result, ok, err, unavailable}
use siros_status_service.Redis.{Redis, Laws, bitmap_key, version_key}
use siros_status_service.Rows.{ListMeta, mark_list_purged, update}
use siros_status_service.Rows.Tables.{update-All}
use siros_status_service.World.{World, call}
use siros_status_service.Store.{mark_purged}
use siros_status_service.BitmapStore.{purge}
use siros_status_service.Gc.{purge_each}

-- Every row of list `id` says that the bitmap is gone.
abbrev pub IsMarked : Str → List ListMeta → Type 0
IsMarked id rows = All (λ r. str_eq r.id id ≡ true → r.purged ≡ true) rows

marks :
    (id : Str) (now : ℕ) (rows : List ListMeta)
    → IsMarked id
        (update (λ r. str_eq r.id id) (λ r. record r { purged = true; purged_at = some now }) rows)
unfolding update
marks id now [] = tt
marks id now (r ∷ rs) = elim (Bool-cases (str_eq r.id id)) [
  | inl e ↦ rw e (λ _. refl, marks id now rs)
  | inr e ↦ rw e (λ t. ground arith, marks id now rs)
]

stays-IsMarked :
    (id other : Str) (now : ℕ) (rows : List ListMeta)
    → IsMarked id rows
    → IsMarked id (
        update
          (λ r. str_eq r.id other)
          (λ r. record r { purged = true; purged_at = some now })
          rows)
stays-IsMarked id other now rows =
    update-All _ (λ r. str_eq r.id other) (λ r. record r { purged = true; purged_at = some now })
      rows (λ r _ _ _. refl)

-- A Redis has neither the bitmap nor the version of list `id`.
abbrev pub IsGone : (R : Redis) → Str → R.State → Type 0
IsGone R id s = (R.get s (bitmap_key id) ≡ none) × (R.get_int s (version_key id) ≡ none)

-- What the phase over `lists` leaves.
abbrev pub Purged :
    {R : Redis} → Str → List ListMeta → World R → Result (Unit {0}) × World R → Type 0
Purged {R = R} shard lists w (res, w') =
    ((other : Str) → str_eq shard other ≡ false → w'.redis other ≡ w.redis other)
    × (res ≡ ok tt → All (λ lm. IsGone R lm.id (w'.redis shard) × IsMarked lm.id w'.db.lists) lists)

-- The world after the Redis keys are gone, and after the row is marked too.
abbrev keys_gone : {R : Redis} → Str → Str → World R → World R
keys_gone {R = R} shard id w = record w {
  redis = put_key w.redis shard (R.del (R.del (w.redis shard) (bitmap_key id)) (version_key id));
  calls = w.calls + 1;
}

abbrev row_marked : {R : Redis} → Str → World R → World R
row_marked id w = record w { db = mark_list_purged id w.now w.db; calls = w.calls + 1 }

-- The phase's first list.
purge_each-∷ :
    (R : Redis) (shard : Str) (lm : ListMeta) (lms : List ListMeta) (w : World R)
    → purge_each R shard (lm ∷ lms) w ≡ (
        if w.faults w.calls
        then (err unavailable, record w { calls = w.calls + 1 })
        else if w.faults (w.calls + 1)
        then (err unavailable, record (keys_gone shard lm.id w) { calls = w.calls + 1 + 1 })
        else purge_each R shard lms (row_marked lm.id (keys_gone shard lm.id w)))
unfolding purge_each purge mark_purged call
purge_each-∷ R shard lm lms w = ground arith

-- The deletion of a list's two keys leaves it gone, and any other list that was.
del-IsGone :
    (R : Redis) (laws : Laws R) (id : Str) (s : R.State)
    → IsGone R id (R.del (R.del s (bitmap_key id)) (version_key id))
del-IsGone R laws id s =
    let same = str_eq_refl id in
    (
      laws.get-del _ (version_key id) (bitmap_key id)
          ∙ (laws.get-del s (bitmap_key id) (bitmap_key id) ∙ rw same refl),
      laws.get_int-del _ (version_key id) (version_key id) ∙ rw same refl,
    )

del-stays :
    (R : Redis) (laws : Laws R) (id other : Str) (s : R.State)
    → IsGone R id s
    → IsGone R id (R.del (R.del s (bitmap_key other)) (version_key other))
del-stays R laws id other s gone = elim (Bool-cases (str_eq other id)) [
  | inl same ↦ (
    laws.get-del _ (version_key other) (bitmap_key id)
        ∙ (laws.get-del s (bitmap_key other) (bitmap_key id) ∙ rw same refl),
    laws.get_int-del _ (version_key other) (version_key id) ∙ rw same refl,
  )
  | inr differs ↦ (
    laws.get-del _ (version_key other) (bitmap_key id)
        ∙ (laws.get-del s (bitmap_key other) (bitmap_key id) ∙ rw differs gone.0),
    laws.get_int-del _ (version_key other) (version_key id)
        ∙ (rw differs (laws.get_int-del s (bitmap_key other) (version_key id)) ∙ gone.1),
  )
]

keeps_IsGone :
    (R : Redis) (laws : Laws R) (shard : Str) (lists : List ListMeta) (w : World R) (id : Str)
    → IsGone R id (w.redis shard)
    → IsGone R id ((purge_each R shard lists w).1.redis shard)
unfolding purge_each
keeps_IsGone R laws shard [] w id gone = gone
keeps_IsGone R laws shard (lm ∷ lms) w id gone =
    let left = del-stays R laws id lm.id (w.redis shard) gone in
    let self = str_eq_refl shard in
    rw (purge_each-∷ R shard lm lms w) (elim (Bool-cases (w.faults w.calls)) [
      | inl down ↦ rw down gone
      | inr up ↦ elim (Bool-cases (w.faults (w.calls + 1))) [
        | inl down ↦ rw (up, down, self) left
        | inr up' ↦ rw (up, up') (keeps_IsGone R laws shard lms _ id (rw self left))
      ]
    ])

keeps_marks :
    (R : Redis) (shard : Str) (lists : List ListMeta) (w : World R) (id : Str)
    → IsMarked id w.db.lists
    → IsMarked id (purge_each R shard lists w).1.db.lists
unfolding purge_each mark_list_purged
keeps_marks R shard [] w id m = m
keeps_marks R shard (lm ∷ lms) w id m =
    rw (purge_each-∷ R shard lm lms w) (elim (Bool-cases (w.faults w.calls)) [
      | inl down ↦ rw down m
      | inr up ↦ elim (Bool-cases (w.faults (w.calls + 1))) [
        | inl down ↦ rw (up, down) m
        | inr up' ↦
            rw (up, up') (keeps_marks R shard lms _ id (stays-IsMarked id lm.id w.now w.db.lists m))
      ]
    ])

-- With a Redis that has its documented laws: the purging phase writes to the Redis of its own shard
-- alone. If it succeeds, that Redis has neither the bitmap nor the version of any list that the phase
-- is given, and the tables mark each of these lists as purged, whichever shard the list belongs to.
pub purge_each-Purged :
    (R : Redis) (laws : Laws R) (shard : Str) (lists : List ListMeta) (w : World R)
    → Purged shard lists w (purge_each R shard lists w)
unfolding purge_each purge mark_purged mark_list_purged call
purge_each-Purged R laws shard [] w = (λ other _. refl, λ _. tt)
purge_each-Purged R laws shard (lm ∷ lms) w =
    let step = purge_each-∷ R shard lm lms w in
    let by : (t : Result (Unit {0}) × World R)
        → purge_each R shard (lm ∷ lms) w ≡ t
        → Purged shard (lm ∷ lms) w t
        → Purged shard (lm ∷ lms) w (purge_each R shard (lm ∷ lms) w) =
      λ t e. subst (λ u. Purged shard (lm ∷ lms) w u) (sym e) in
    elim (Bool-cases (w.faults w.calls)) [
      | inl down ↦
          by (err unavailable, record w { calls = w.calls + 1 }) (step ∙ rw down refl)
            (λ other _. refl, λ e. cc)
      | inr up ↦ elim (Bool-cases (w.faults (w.calls + 1))) [
        | inl down ↦
            by (err unavailable, record (keys_gone shard lm.id w) { calls = w.calls + 1 + 1 })
              (step ∙ rw (up, down) refl) (λ other ne. rw ne refl, λ e. cc)
        | inr up' ↦
            let w' = row_marked lm.id (keys_gone shard lm.id w) in
            let rest = purge_each-Purged R laws shard lms w' in
            by (purge_each R shard lms w') (step ∙ rw (up, up') refl) (
              λ other ne. rest.0 other ne ∙ rw ne refl,
              λ e. (
                (
                  keeps_IsGone R laws shard lms w' lm.id
                      (rw (str_eq_refl shard) (del-IsGone R laws lm.id (w.redis shard))),
                  keeps_marks R shard lms w' lm.id (marks lm.id w.now w.db.lists),
                ),
                rest.1 e,
              ),
            )
      ]
    ]
