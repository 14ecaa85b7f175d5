-- ===== src/Helpers/Duration.antt =====
-- internal/helpers/duration.go: saturating and rounding arithmetic on `time.Duration` (int64
-- nanoseconds) and `uint`, on a 64-bit platform.
use argo_watcher.Common.{
  ℕ, ◌+◌, ◌-◌, ◌*◌, ◌/◌, ◌≤◌, ◌<◌, min, ◌≡◌, ◌||◌, ltb, ◌==◌, if◌then◌else◌, arith,
}
use argo_watcher.Common.Int.{ℤ, pos, negsuc, lebℤ, ◌+ℤ◌, ◌-ℤ◌, int64, quot, max_int64, two_pow_64}

-- `MulDurationSaturating`.
unfoldable pub mul_duration_saturating : ℕ → ℤ → ℤ
mul_duration_saturating count (negsuc unit) = pos 0
mul_duration_saturating count (pos unit) =
    if unit == 0 || count == 0
    then pos 0
    else (let max_count = max_int64 / unit in
        if ltb max_count count then pos max_int64 else pos (count * unit))

-- `CeilDivDuration`.
unfoldable pub ceil_div_duration : ℤ → ℤ → ℤ
unfolding int64 quot ◌+ℤ◌ ◌-ℤ◌
ceil_div_duration d (negsuc unit) = pos 1
ceil_div_duration d (pos unit) =
    if unit == 0
    then pos 1
    else (let result = quot (int64 (int64 (d +ℤ pos unit) -ℤ pos 1)) unit in
        if lebℤ result (pos 0) then pos 1 else result)

-- `SafeIntToUint`; `^uint(0)` is 2^64 - 1, which no positive int64 exceeds.
unfoldable pub safe_int_to_uint : ℤ → ℕ
safe_int_to_uint (negsuc v) = 1
safe_int_to_uint (pos v) =
    if v == 0 then 1 else (if ltb (two_pow_64 - 1) v then two_pow_64 - 1 else v)

-- A count times a duration, clamped to the largest duration: it never wraps.
pub mul_duration_saturating-eq_min :
    (count unit : ℕ) → mul_duration_saturating count (pos unit) ≡ pos (min (count * unit) max_int64)
unfolding mul_duration_saturating
mul_duration_saturating-eq_min count unit = grind arith

-- The quotient is the least count of units that reaches the duration, where both are positive and the
-- sum of the two is a duration: it is rounded up, by less than a unit.
pub ceil_div_duration_bounds :
    (d unit : ℕ)
    → 0 < d
    → 0 < unit
    → d + unit ≤ max_int64
    → (r : ℕ) × (ceil_div_duration (pos d) (pos unit) ≡ pos r)
      × (d ≤ r * unit)
      × (r * unit < d + unit)
unfolding ceil_div_duration int64 quot ◌+ℤ◌ ◌-ℤ◌
ceil_div_duration_bounds d unit h k b =
    ((d + unit - 1) / unit, grind arith, grind arith, grind arith)
