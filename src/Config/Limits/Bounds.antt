-- ===== src/Config/Limits/Bounds.antt =====
-- What numbers the settings form of global/settings.go accepts, and when the interval of the limiter of
-- global/rate_limits.go is the one that was typed.
use croissant.Base.{
  ℕ, zero, suc, ◌*◌, ◌%◌, ◌<◌, ◌≤◌, Option, none, some, String, ltb, ◌==◌, string_eq, nat_eq,
  if◌then◌else◌, ◌≡◌, ◌≢◌, ◌↔◌, ◌⊎◌, inl, inr, refl, arith, subst, Bool-cases, eq_of_beq,
  ne_of_beq_false,
}
use Prim.Native.Char.{code}
use Prim.Native.String.{[], ◌∷◌}
use croissant.Text.{trim_space}
use croissant.Config.{ℤ, pos, negsuc}
use croissant.Config.Limits.{
  atoi, within, negated, some_digits, not_negative, parse_int, Limiter,
  configure_group_create_rate_limit,
}

-- A number that is not negative and fits in an int64.
abbrev pub IsCount : ℤ → Type 0
IsCount (pos n) = n < 0x8000_0000_0000_0000
IsCount (negsuc n) = ⊥

-- An int64.
abbrev pub IsInt : ℤ → Type 0
IsInt (pos n) = n < 0x8000_0000_0000_0000
IsInt (negsuc n) = n < 0x8000_0000_0000_0000

bounded :
    (n : ℕ) (x : ℤ) {z : ℤ}
    → (n < 0x8000_0000_0000_0000 → IsInt x)
    → (if ltb n 0x8000_0000_0000_0000 then some x else none) ≡ some z
    → IsInt z
bounded n x {z} fits h = elim (Bool-cases (ltb n 0x8000_0000_0000_0000)) [
  | inl small ↦
      let found : x ≡ z = cc (rw small at h) in
      let lt : n < 0x8000_0000_0000_0000 = ground arith in subst IsInt found (fits lt)
  | inr large ↦ cc (rw large at h)
]

within-IsInt : (d : Option ℕ) {z : ℤ} → within d ≡ some z → IsInt z
within-IsInt none h = cc
within-IsInt (some n) h = bounded n _ (λ lt. lt) h

negated-IsInt : (d : Option ℕ) {z : ℤ} → negated d ≡ some z → IsInt z
negated-IsInt none h = cc
negated-IsInt (some zero) {z} h = let found : pos 0 ≡ z = cc h in subst IsInt found (omega arith)
negated-IsInt (some (suc n)) h = bounded n _ (λ lt. lt) h

atoi-IsInt : (value : String) {z : ℤ} → atoi value ≡ some z → IsInt z
unfolding atoi
atoi-IsInt [] h = cc
atoi-IsInt (c ∷ s) h = elim (Bool-cases (code c == b'-')) [
  | inl minus ↦ negated-IsInt (some_digits s) (rw minus at h)
  | inr other ↦ elim (Bool-cases (code c == b'+')) [
    | inl plus ↦ within-IsInt (some_digits s) (rw (other, plus) at h)
    | inr digit ↦ within-IsInt (some_digits (c ∷ s)) (rw (other, digit) at h)
  ]
]

accepted-IsCount :
    (parsed : Option ℤ) {z : ℤ}
    → ((x : ℤ) → parsed ≡ some x → IsInt x)
    → not_negative parsed ≡ some z
    → IsCount z
accepted-IsCount none fits h = cc
accepted-IsCount (some (pos n)) fits h =
    let found : pos n ≡ _ = cc h in subst IsCount found (fits _ refl)
accepted-IsCount (some (negsuc n)) fits h = cc

-- A number that the settings form accepts is the current one, where the field is blank, or else a
-- number that is not negative and fits in an int64.
pub parse_int-IsCount :
    (value : String) (current z : ℤ)
    → parse_int value current ≡ some z
    → ((trim_space value ≡ "") × (z ≡ current)) ⊎ ((trim_space value ≢ "") × IsCount z)
unfolding parse_int
parse_int-IsCount value current z h = elim (Bool-cases (trim_space value == "")) [
  | inl blank ↦ inl (eq_of_beq _ _ blank, cc (rw blank at h))
  | inr filled ↦ inr (
    ne_of_beq_false _ _ filled,
    accepted-IsCount (atoi (trim_space value)) (λ x e. atoi-IsInt (trim_space value) e)
        (rw filled at h),
  )
]

-- The seconds that are a number of nanoseconds below 2^63.
exact_seconds_iff :
    (i : ℕ)
    → (((i * 1_000_000_000) % 0x1_0000_0000_0000_0000 ≡ i * 1_000_000_000)
        × ((i * 1_000_000_000) % 0x1_0000_0000_0000_0000 < 0x8000_0000_0000_0000))
      ↔ (i ≤ 9_223_372_036)
exact_seconds_iff i = (λ h. omega arith, λ h. (omega arith, omega arith))

-- Three positive numbers configure a limiter of so many tokens and at most so many. Its interval is
-- the seconds times 10^9, not negative as an int64, exactly when they are 9223372036 or fewer: above
-- that, the product does not fit.
pub configure_group_create_rate_limit_lem :
    (t i m : ℕ)
    → 0 < t
    → 0 < i
    → 0 < m
    → (l : Limiter) × (configure_group_create_rate_limit
          (record { tokens_per_interval = pos t; interval_seconds = pos i; max_tokens = pos m })
        ≡ some l)
      × (l.tokens ≡ t)
      × (l.max ≡ m)
      × (((l.interval_nanoseconds ≡ i * 1_000_000_000)
            × (l.interval_nanoseconds < 0x8000_0000_0000_0000))
          ↔ (i ≤ 9_223_372_036))
unfolding configure_group_create_rate_limit
configure_group_create_rate_limit_lem zero i m h h' h'' = absurd (omega arith)
configure_group_create_rate_limit_lem (suc t) zero m h h' h'' = absurd (omega arith)
configure_group_create_rate_limit_lem (suc t) (suc i) zero h h' h'' = absurd (omega arith)
configure_group_create_rate_limit_lem (suc t) (suc i) (suc m) h h' h'' =
    (_, refl, refl, refl, exact_seconds_iff (suc i))
