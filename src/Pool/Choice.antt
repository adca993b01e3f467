-- ===== src/Pool/Choice.antt =====
-- The power of two choices.
use siros_status_service.Prelude.{
  ℕ, ◌+◌, ◌-◌, ◌≤◌, ◌<◌, ◌≡◌, ◌≢◌, refl, ◌⊎◌, inl, inr, Bool-cases, List, [], ◌∷◌, Option, some,
  arith, length, get_elem?, get_elem?-some, leb, ltb, if◌then◌else◌,
}
use siros_status_service.Rows.{ListMeta, remaining}
use siros_status_service.Pool.{choose_by_power_of_two}

-- The choice is the roomier of the candidates at two different places.
abbrev pub IsRoomier : List ListMeta → ℕ → Option ListMeta → Type 0
IsRoomier lists i c =
    (k : ℕ) × (a b : ListMeta) × (i ≢ k)
    × (get_elem? lists i ≡ some a)
    × (get_elem? lists k ≡ some b)
    × (((c ≡ some a) × (remaining b ≤ remaining a)) ⊎ ((c ≡ some b) × (remaining a ≤ remaining b)))

-- For two candidates or more, whatever two numbers are drawn, the choice is made between two
-- different candidates and falls on one that has no fewer slots left than the other.
pub choose_by_power_of_two-IsRoomier :
    (lists : List ListMeta) (i j : ℕ)
    → i < length lists
    → j < length lists - 1
    → IsRoomier lists i (choose_by_power_of_two lists i j)
unfolding choose_by_power_of_two
choose_by_power_of_two-IsRoomier [] i j hi hj = absurd (omega (arith, hi))
choose_by_power_of_two-IsRoomier (x ∷ []) i j hi hj = absurd (omega (arith, hj))
choose_by_power_of_two-IsRoomier (x ∷ y ∷ rest) i j hi hj =
    let lists = x ∷ y ∷ rest in
    let k : ℕ = if leb i j then j + 1 else j in
    let ne : i ≢ k = λ e. ground arith in
    let (a, ea) = get_elem?-some lists i hi in
    let (b, eb) = get_elem?-some lists k (ground arith) in
    (
      k,
      a,
      b,
      ne,
      ea,
      eb,
      rw (ea, eb)
          (elim (Bool-cases (ltb (remaining a) (remaining b))) [
            | inl less ↦ rw less (inr (refl, ground arith))
            | inr no_less ↦ rw no_less (inl (refl, ground arith))
          ]),
    )
