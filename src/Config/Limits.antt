-- ===== src/Config/Limits.antt =====
-- The numbers of the settings form: parseInt of global/settings.go, and the rate limiter of
-- global/rate_limits.go that they configure.
pub mod Bounds
use Prim.Native.Char.{Char, code}
use Prim.Native.String.{[], ◌∷◌}
use croissant.Base.{
  ℕ, zero, suc, ◌+◌, ◌-◌, ◌*◌, ◌%◌, Bool, true, false, not, ◌&&◌, ◌||◌, Option, none, some, String,
  leb, ltb, ◌==◌, string_eq, nat_eq, if◌then◌else◌,
}
use croissant.Text.{trim_space}
use croissant.Config.{ℤ, pos, negsuc, RateLimit}

-- The digits of a number in base 10.
unfoldable pub digits : ℕ → String → Option ℕ
digits n [] = some n
digits n (c ∷ s) =
    let rest = digits (n * 10 + (code c - b'0')) s in
    if leb b'0' (code c) && leb (code c) b'9' then rest else none

abbrev pub some_digits : String → Option ℕ
some_digits s = if s == "" then none else digits 0 s

-- An int has 64 bits.
abbrev pub within : Option ℕ → Option ℤ
within none = none
within (some n) = if ltb n 0x8000_0000_0000_0000 then some (pos n) else none

abbrev pub negated : Option ℕ → Option ℤ
negated none = none
negated (some zero) = some (pos 0)
negated (some (suc n)) = if ltb n 0x8000_0000_0000_0000 then some (negsuc n) else none

-- strconv.Atoi
unfoldable pub atoi : String → Option ℤ
unfolding digits
atoi [] = none
atoi (c ∷ s) =
    if code c == b'-'
    then negated (some_digits s)
    else if code c == b'+'
    then within (some_digits s)
    else within (some_digits (c ∷ s))

abbrev pub not_negative : Option ℤ → Option ℤ
not_negative (some (pos n)) = some (pos n)
not_negative (some (negsuc n)) = none
not_negative none = none

-- parseInt of SettingsHandler, on the field's value; a none is its error.
unfoldable pub parse_int : String → ℤ → Option ℤ
unfolding atoi trim_space
parse_int value current =
    let trimmed = trim_space value in
    if trimmed == "" then some current else not_negative (atoi trimmed)

-- What policies.EventIPRateLimiter is given; the interval is the bit pattern of an int64.
pub record Limiter : Type 0 where
  pub tokens : ℕ
  pub interval_nanoseconds : ℕ
  pub max : ℕ

abbrev pub limiter_of : ℤ → ℤ → ℤ → Option Limiter
limiter_of (pos (suc t)) (pos (suc i)) (pos (suc m)) = some (record {
  tokens = suc t;
  interval_nanoseconds = (suc i * 1_000_000_000) % 0x1_0000_0000_0000_0000;
  max = suc m;
})
limiter_of _ _ _ = none

-- ConfigureGroupCreateRateLimit: no limiter unless all three are positive.
unfoldable pub configure_group_create_rate_limit : RateLimit → Option Limiter
configure_group_create_rate_limit cfg =
    limiter_of cfg.tokens_per_interval cfg.interval_seconds cfg.max_tokens
