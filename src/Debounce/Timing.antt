-- ===== src/Debounce/Timing.antt =====
-- The debouncer over time: a run of triggers and timers.
use siros_status_service.Prelude.{
  ℕ, ◌+◌, ◌-◌, ◌≤◌, ◌<◌, ◌≡◌, refl, sym, ap, ◌∙◌, ◌⊎◌, inl, inr, true, false, Bool-cases, List, [],
  ◌∷◌, All, Option, some, Option-cases, arith, leb, leb→le, leb_false→lt,
}
use siros_status_service.Prelude.Str.{Str, str_eq, str_eq_iff, str_eq_refl, str_eq_comm, put_key}
use siros_status_service.Rows.Tables.{All-map}
use siros_status_service.Debounce.{
  Timer, Fire, Debouncer, new_debouncer, max_duration, trigger, without, timer_fires,
}

-- A timer of `key` is scheduled for `bound` at the latest.
abbrev pub HasTimer : Str → ℕ → List Timer → Type 0
HasTimer key bound [] = ⊥
HasTimer key bound (x ∷ xs) = ((str_eq x.key key ≡ true) × (x.due ≤ bound)) ⊎ HasTimer key bound xs

-- The states that a debouncer reaches with one floor, by the clock.
pub data Run (floor : ℕ) : ℕ → Debouncer → Type 0 where
  starts : (now : ℕ) → Run floor now new_debouncer
  waits : {now later : ℕ} {d : Debouncer} → now ≤ later → Run floor now d → Run floor later d
  triggers :
      {now : ℕ} {d : Debouncer} (key : Str)
      → Run floor now d
      → Run floor now (trigger key floor now d)
  timer_runs :
      {now : ℕ} {d : Debouncer} (key : Str)
      → HasTimer key now d.timers
      → Run floor now d
      → Run floor now (timer_fires key now d)

-- Two fires of one key are at least `floor` apart.
abbrev pub Spaced : ℕ → List Fire → Type 0
Spaced floor [] = Unit
Spaced floor (f ∷ fs) =
    All (λ g. str_eq g.key f.key ≡ true → g.at + floor ≤ f.at) fs × Spaced floor fs

-- The key fired last at a time that is recorded.
abbrev pub FiredBy : (Str → Option ℕ) → Str → (ℕ → Type 0) → Type 0
FiredBy last key P = (t : ℕ) × (last key ≡ some t) × P t

pub record IsTimed (floor now : ℕ) (d : Debouncer) : Type 0 where
  pub recent : (key : Str) (t : ℕ) → d.last_fired key ≡ some t → t ≤ now
  pub fired : All (λ f. FiredBy d.last_fired f.key (λ t. f.at ≤ t)) d.fires
  pub due :
      All
        (λ x. (d.pending x.key ≡ true) × FiredBy d.last_fired x.key (λ t. t + floor ≤ x.due))
        d.timers
  pub scheduled : (key : Str) → d.pending key ≡ true → HasTimer key (now + floor) d.timers
  pub spaced : Spaced floor d.fires

HasTimer-later :
    (key : Str) (a b : ℕ) (xs : List Timer) → a ≤ b → HasTimer key a xs → HasTimer key b xs
HasTimer-later key a b [] h t = t
HasTimer-later key a b (x ∷ xs) h (inl t) = inl (t.0, omega (arith, t.1))
HasTimer-later key a b (x ∷ xs) h (inr t) = inr (HasTimer-later key a b xs h t)

-- What the timer that runs knows of its key.
due_fired :
    (P : Timer → Type 0) (key : Str) (bound : ℕ) (xs : List Timer)
    → HasTimer key bound xs
    → All P xs
    → (x : Timer) × (x.key ≡ key) × (x.due ≤ bound) × P x
due_fired P key bound [] t all = absurd t
due_fired P key bound (x ∷ xs) (inl t) all = (x, (str_eq_iff x.key key).0 t.0, t.1, all.0)
due_fired P key bound (x ∷ xs) (inr t) all = due_fired P key bound xs t all.1

without-All :
    (P : Timer → Type 0) (key : Str) (xs : List Timer)
    → All P xs
    → All (λ x. (str_eq x.key key ≡ false) × P x) (without key xs)
without-All P key [] all = tt
without-All P key (x ∷ xs) all = elim (Bool-cases (str_eq x.key key)) [
  | inl e ↦ rw e (without-All P key xs all.1)
  | inr e ↦ rw e ((e, all.0), without-All P key xs all.1)
]

HasTimer-without :
    (key other : Str) (bound : ℕ) (xs : List Timer)
    → str_eq key other ≡ false
    → HasTimer other bound xs
    → HasTimer other bound (without key xs)
HasTimer-without key other bound [] ne t = t
HasTimer-without key other bound (x ∷ xs) ne (inl t) =
    let same : x.key ≡ other = (str_eq_iff x.key other).0 t.0 in
    let off : str_eq x.key key ≡ false = str_eq_comm x.key key ∙ (ap (str_eq key) same ∙ ne) in
    rw off (inl t)
HasTimer-without key other bound (x ∷ xs) ne (inr t) = elim (Bool-cases (str_eq x.key key)) [
  | inl e ↦ rw e (HasTimer-without key other bound xs ne t)
  | inr e ↦ rw e (inr (HasTimer-without key other bound xs ne t))
]

-- A fire of `key`, which last fired at least `floor` ago.
module _ (floor now : ℕ) (d : Debouncer) (v : IsTimed floor now d) (key : Str)
    (gap : (t : ℕ) → d.last_fired key ≡ some t → t + floor ≤ now) where
  abbrev last_after : Str → Option ℕ
  last_after = put_key d.last_fired key (some now)

  recent_after : (k : Str) (t : ℕ) → last_after k ≡ some t → t ≤ now
  recent_after k t e = elim (Bool-cases (str_eq key k)) [
    | inl same ↦ ground arith
    | inr other ↦ v.recent k t (rw other at e)
  ]

  fired_after :
      All (λ f. FiredBy last_after f.key (λ t. f.at ≤ t)) (record { key = key; at = now } ∷ d.fires)
  fired_after = (
    (now, rw (str_eq_refl key) refl, omega arith),
    All-map _ _ d.fires
        (λ f (t, e, le). elim (Bool-cases (str_eq key f.key)) [
          | inl same ↦ (now, rw same refl, omega (arith, v.recent f.key t e))
          | inr other ↦ (t, rw other e, le)
        ])
        v.fired,
  )

  fires-Spaced : Spaced floor (record { key = key; at = now } ∷ d.fires)
  fires-Spaced = (
    All-map _ _ d.fires
        (λ g (t, e, le) same.
          let k : g.key ≡ key = (str_eq_iff g.key key).0 same in
          omega (arith, le, gap t (ap d.last_fired (sym k) ∙ e)))
        v.fired,
    v.spaced,
  )

  -- A timer of another key.
  due_after :
      (x : Timer)
      → str_eq x.key key ≡ false
      → FiredBy d.last_fired x.key (λ t. t + floor ≤ x.due)
      → FiredBy last_after x.key (λ t. t + floor ≤ x.due)
  due_after x ne (t, e, le) = (t, rw (str_eq_comm key x.key, ne) e, le)

  timer_fires-IsTimed : IsTimed floor now (timer_fires key now d)
  unfolding timer_fires
  timer_fires-IsTimed = record {
    recent = recent_after;
    fired = fired_after;
    due =
        All-map _ _ (without key d.timers)
          (λ x (ne, (p, f)). (rw (str_eq_comm key x.key, ne) p, due_after x ne f))
          (without-All _ key d.timers v.due);
    scheduled = λ k p. elim (Bool-cases (str_eq key k)) [
      | inl same ↦ absurd (ground arith)
      | inr other ↦
          HasTimer-without key k (now + floor) d.timers other (v.scheduled k (rw other at p))
    ];
    spaced = fires-Spaced;
  }

  fires-IsTimed :
      d.pending key ≡ false
      → IsTimed floor now
          (record d { last_fired = last_after; fires = record { key = key; at = now } ∷ d.fires })
  fires-IsTimed idle = record {
    recent = recent_after;
    fired = fired_after;
    due =
        All-map _ _ d.timers
          (λ x (p, f). elim (Bool-cases (str_eq x.key key)) [
            | inl same ↦
                let k : x.key ≡ key = (str_eq_iff x.key key).0 same in
                let busy : d.pending key ≡ true = ap d.pending (sym k) ∙ p in absurd (ground arith)
            | inr ne ↦ (p, due_after x ne f)
          ])
          v.due;
    scheduled = v.scheduled;
    spaced = fires-Spaced;
  }

-- A trigger that is put off.
defers-IsTimed :
    (floor now t : ℕ) (d : Debouncer) (key : Str)
    → IsTimed floor now d
    → d.last_fired key ≡ some t
    → now - t < floor
    → IsTimed floor now (record d {
      pending = put_key d.pending key true;
      timers = record { key = key; due = now + (floor - (now - t)) } ∷ d.timers;
    })
defers-IsTimed floor now t d key v e lt =
    let before : t ≤ now = v.recent key t e in
    record {
      recent = v.recent;
      fired = v.fired;
      due = (
        (rw (str_eq_refl key) refl, (t, e, omega arith)),
        All-map _ _ d.timers
            (λ x (p, f). elim (Bool-cases (str_eq key x.key)) [
              | inl same ↦ (rw same refl, f)
              | inr other ↦ (rw other p, f)
            ])
            v.due,
      );
      scheduled = λ k p. elim (Bool-cases (str_eq key k)) [
        | inl same ↦ inl (same, omega arith)
        | inr other ↦ inr (v.scheduled k (rw other at p))
      ];
      spaced = v.spaced;
    }

trigger-IsTimed :
    (floor now : ℕ) (d : Debouncer) (key : Str)
    → floor ≤ max_duration
    → IsTimed floor now d
    → IsTimed floor now (trigger key floor now d)
unfolding trigger
trigger-IsTimed floor now d key small v = elim (Bool-cases (d.pending key)) [
  | inl busy ↦ rw busy v
  | inr idle ↦ elim (Option-cases (d.last_fired key)) [
    | inl never ↦
        let open_now : leb floor max_duration ≡ true = ground arith in
        rw (idle, never, open_now)
          (fires-IsTimed floor now d v key (λ t e. absurd (ground arith)) idle)
    | inr (t, e) ↦ elim (Bool-cases (leb floor (now - t))) [
      | inl far ↦
          let gap : t + floor ≤ now = omega (arith, leb→le floor (now - t) far, v.recent key t e) in
          rw (idle, e, far)
            (fires-IsTimed floor now d v key
              (λ u eu. let same : u ≡ t = ground arith in omega arith) idle)
      | inr near ↦
          rw (idle, e, near)
            (defers-IsTimed floor now t d key v e (leb_false→lt floor (now - t) near))
    ]
  ]
]

-- In every state that a debouncer reaches, two fires of one key are at least the floor apart, no
-- timer is due earlier than that allows, and each key that waits has a timer that is due within
-- the floor from now; the floor is at most the longest duration.
pub Run-IsTimed :
    (floor now : ℕ) (d : Debouncer) → floor ≤ max_duration → Run floor now d → IsTimed floor now d
unfolding new_debouncer
Run-IsTimed floor now d small (starts n) = record {
  recent = λ key t e. cc;
  fired = tt;
  due = tt;
  scheduled = λ key e. cc;
  spaced = tt;
}
Run-IsTimed floor now d small (waits {now = n} {later = m} {d = c} later run) =
    let v = Run-IsTimed floor n c small run in
    record {
      recent = λ key t e. omega (arith, v.recent key t e, later);
      fired = v.fired;
      due = v.due;
      scheduled = λ key e.
          HasTimer-later key (n + floor) (m + floor) c.timers (omega (arith, later))
            (v.scheduled key e);
      spaced = v.spaced;
    }
Run-IsTimed floor now d small (triggers {now = n} {d = c} key run) =
    trigger-IsTimed floor n c key small (Run-IsTimed floor n c small run)
Run-IsTimed floor now d small (timer_runs {now = n} {d = c} key t run) =
    let v = Run-IsTimed floor n c small run in
    let (x, same, le, (p, (last, e, gap))) = due_fired _ key n c.timers t v.due in
    timer_fires-IsTimed floor n c v key (λ u eu.
      let e' : c.last_fired key ≡ some last = ap c.last_fired (sym same) ∙ e in
      let uu : u ≡ last = ground arith in omega arith)
