-- ===== src/World.antt =====
-- What the services act on: the shared tables, one Redis per shard, this process's debouncer and the
-- clock. A call of Postgres or Redis may fail: `faults` says which, in the order of the calls. A
-- failed call has no effect. The clock stands still during one operation.
use siros_status_service.Prelude.{
  ℕ, zero, suc, ◌+◌, ◌%◌, ◌≡◌, refl, List, [], ◌∷◌, Bool, if◌then◌else◌,
}
use siros_status_service.Prelude.Str.{Str, put_key}
use siros_status_service.Result.{Result, ok, err, Error, unavailable}
use siros_status_service.Redis.{Redis}
use siros_status_service.Rows.{Db}
use siros_status_service.Debounce.{Debouncer}

pub record World (R : Redis) : Type 0 where
  pub db : Db
  pub redis : Str → R.State
  pub debouncer : Debouncer
  pub faults : ℕ → Bool
  pub calls : ℕ
  pub now : ℕ
  -- The random numbers that the process will draw, and how many it has drawn.
  pub random : ℕ → ℕ
  pub drawn : ℕ

abbrev pub M : Redis → Type 0 → Type 0
M R A = World R → Result A × World R

infixl 5 ◌>>=◌ ◌>>◌
abbrev pub ◌>>=◌ : {R : Redis} {A B : Type 0} → M R A → (A → M R B) → M R B
◌>>=◌ m f w = let (r, w') = m w in elim r [ ok a ↦ f a w' | err e ↦ (err e, w') ]

bind_pair :
    {R : Redis} {A B : Type 0} (P : Result B × World R → Type 0) (f : A → M R B)
    (r : Result A × World R)
    → ((e : Error) (w' : World R) → r ≡ (err e, w') → P (err e, w'))
    → ((a : A) (w' : World R) → r ≡ (ok a, w') → P (f a w'))
    → P (let (r₀, w') = r in elim r₀ [ ok a ↦ f a w' | err e ↦ (err e, w') ])
bind_pair P f (ok a, w') bad good = good a w' refl
bind_pair P f (err e, w') bad good = bad e w' refl

-- What holds of the outcome of two steps: it holds of the first one's error, and of what follows from
-- any value of it.
pub bind_cases :
    {R : Redis} {A B : Type 0} (P : Result B × World R → Type 0) (m : M R A) (f : A → M R B)
    (w : World R)
    → ((e : Error) (w' : World R) → m w ≡ (err e, w') → P (err e, w'))
    → ((a : A) (w' : World R) → m w ≡ (ok a, w') → P (f a w'))
    → P ((m >>= f) w)
bind_cases P m f w = bind_pair P f (m w)

-- The same where any error will do.
pub bind_then :
    {R : Redis} {A B : Type 0} (P : Result B × World R → Type 0) (m : M R A) (f : A → M R B)
    (w : World R)
    → ((e : Error) (w' : World R) → P (err e, w'))
    → ((a : A) (w' : World R) → m w ≡ (ok a, w') → P (f a w'))
    → P ((m >>= f) w)
bind_then P m f w bad = bind_cases P m f w (λ e w' _. bad e w')

abbrev pub ◌>>◌ : {R : Redis} {A B : Type 0} → M R A → M R B → M R B
m >> k = m >>= λ _. k

abbrev pub pure : {R : Redis} {A : Type 0} → A → M R A
pure a w = (ok a, w)

abbrev pub throw : {R : Redis} {A : Type 0} → Error → M R A
throw e w = (err e, w)

abbrev pub lift : {R : Redis} {A : Type 0} → Result A → M R A
lift r w = (r, w)

-- One round trip to a server.
unfoldable pub call : {R : Redis} → M R (Unit {0})
call w = (if w.faults w.calls then err unavailable else ok tt, record w { calls = w.calls + 1 })

-- The outcome of a computation as a value, for a caller that inspects the error.
abbrev pub try : {R : Redis} {A : Type 0} → M R A → M R (Result A)
try m w = let (r, w') = m w in (ok r, w')

abbrev pub draw : {R : Redis} → M R ℕ
draw w = (ok (w.random w.drawn), record w { drawn = w.drawn + 1 })

-- `IntN(n)`: a number below `n`.
abbrev pub int_n : {R : Redis} → ℕ → M R ℕ
int_n n = draw >>= λ x. pure (x % n)

-- `rand.Read` into a slice of `n` bytes.
unfoldable pub random_bytes : {R : Redis} → ℕ → M R (List ℕ)
random_bytes zero = pure []
random_bytes (suc n) = do x ← draw; xs ← random_bytes n; pure (x % 256 ∷ xs)

abbrev pub get_db : {R : Redis} → M R Db
get_db w = (ok w.db, w)

abbrev pub put_db : {R : Redis} → Db → M R (Unit {0})
put_db db w = (ok tt, record w { db = db })

abbrev pub modify_db : {R : Redis} → (Db → Db) → M R (Unit {0})
modify_db f w = (ok tt, record w { db = f w.db })

abbrev pub get_now : {R : Redis} → M R ℕ
get_now w = (ok w.now, w)

-- The state of one shard's Redis.
abbrev pub get_redis : {R : Redis} → Str → M R R.State
get_redis shard w = (ok (w.redis shard), w)

abbrev pub put_redis : {R : Redis} → Str → R.State → M R (Unit {0})
put_redis shard s w = (ok tt, record w { redis = put_key w.redis shard s })

abbrev pub modify_debouncer : {R : Redis} → (Debouncer → Debouncer) → M R (Unit {0})
modify_debouncer f w = (ok tt, record w { debouncer = f w.debouncer })

-- After the body of a transaction: an error rolls the tables back, and a commit is a call too.
abbrev pub finish : {R : Redis} {A : Type 0} → Db → Result A → World R → Result A × World R
finish db (err e) w = (err e, record w { db = db })
finish db (ok a) w =
    let (c, w') = call w in elim c [ ok _ ↦ (ok a, w') | err e ↦ (err e, record w' { db = db }) ]

-- `Begin`, the body, then `Commit` or the deferred `Rollback`.
unfoldable pub transaction : {R : Redis} {A : Type 0} → M R A → M R A
unfolding call
transaction body w =
    let (b, w₁) = call w in
    elim b [ err e ↦ (err e, w₁) | ok _ ↦ let (r, w₂) = body w₁ in finish w.db r w₂ ]
