-- ===== src/Debounce.antt =====
-- internal/publisher/debounce.go: the leading-edge debouncer. A time and a duration are numbers of
-- nanoseconds; `afterFunc` adds a timer, and a fire is a new entry of a log.
pub mod Timing
use siros_status_service.Prelude.{
  ℕ, ◌+◌, ◌-◌, ◌^◌, Bool, true, false, List, [], ◌∷◌, Option, none, some, leb, if◌then◌else◌,
}
use siros_status_service.Prelude.Str.{Str, str_eq, put_key}

-- One scheduled callback.
pub record Timer : Type 0 where
  pub key : Str
  pub due : ℕ

-- One start of `fire`.
pub record Fire : Type 0 where
  pub key : Str
  pub at : ℕ

pub record Debouncer : Type 0 where
  -- `none` is the zero time of a key that never fired.
  pub last_fired : Str → Option ℕ
  pub pending : Str → Bool
  pub timers : List Timer
  pub fires : List Fire

unfoldable pub new_debouncer : Debouncer
new_debouncer = record { last_fired = λ _. none; pending = λ _. false; timers = []; fires = [] }

-- `time.Duration`'s largest value, where a subtraction from the zero time ends.
abbrev pub max_duration : ℕ
max_duration = 2 ^ 63 - 1

-- `d.now().Sub(d.lastFired[key])`
abbrev pub elapsed : Option ℕ → ℕ → ℕ
elapsed none now = max_duration
elapsed (some t) now = now - t

unfoldable pub trigger : Str → ℕ → ℕ → Debouncer → Debouncer
trigger key floor now d =
    let e = elapsed (d.last_fired key) now in
    if d.pending key
    then d
    else if leb floor e
    then record d {
      last_fired = put_key d.last_fired key (some now);
      fires = record { key = key; at = now } ∷ d.fires;
    }
    else record d {
      pending = put_key d.pending key true;
      timers = record { key = key; due = now + (floor - e) } ∷ d.timers;
    }

-- The callback of `key`'s timer, which is no longer scheduled once it runs.
abbrev pub without : Str → List Timer → List Timer
without key [] = []
without key (t ∷ ts) = if str_eq t.key key then without key ts else t ∷ without key ts

unfoldable pub timer_fires : Str → ℕ → Debouncer → Debouncer
timer_fires key now d = record d {
  last_fired = put_key d.last_fired key (some now);
  pending = put_key d.pending key false;
  timers = without key d.timers;
  fires = record { key = key; at = now } ∷ d.fires;
}
