-- ===== src/Server/Lockdown/Schedules/Names.antt =====
-- internal/server/lockdown.go: how a schedule is printed, and its days.
use argo_watcher.Common.{
  ℕ, zero, suc, ◌^◌, ◌<◌, String, false, some, code, ◌==◌, ◌⧺◌, if◌then◌else◌, ◌≡◌, refl, sym, ap,
  ◌∙◌, arith, Char,
}
use argo_watcher.Common.Split.{trim_left, is_space}
use text.Mathlib.TextLemmas.{cons-append}
use argo_watcher.Models.Report.Failure.{decimal}
use argo_watcher.Server.Lockdown.{LockdownSchedule}
use argo_watcher.Server.Lockdown.Schedules.{day_to_weekday}
use argo_watcher.Common.Split.Separator.{Free}

unfoldable pub day_name : ℕ → String
day_name n =
    if n == 0
    then "Sun"
    else if n == 1
    then "Mon"
    else if n == 2
    then "Tue"
    else if n == 3
    then "Wed"
    else if n == 4
    then "Thu"
    else if n == 5
    then "Fri"
    else "Sat"

abbrev pub print_time : ℕ → ℕ → String
print_time hour min = decimal hour ⧺ ":" ⧺ decimal min

abbrev pub print_end : ℕ → ℕ → ℕ → String
print_end day hour min = day_name day ⧺ " " ⧺ print_time hour min

-- A schedule such as `Fri 18:15-Mon 8:30`: no spaces at the dash, no leading zeros.
unfoldable pub print_schedule : LockdownSchedule → String
print_schedule s =
    print_end s.start_day s.start_hour s.start_min ⧺ "-" ⧺ print_end s.end_day s.end_hour s.end_min

abbrev pub InRange : ℕ → ℕ → ℕ → Type 0
InRange day hour min = (day < 7) × (hour < 2 ^ 63) × (min < 2 ^ 63)

abbrev pub IsValid : LockdownSchedule → Type 0
IsValid s = InRange s.start_day s.start_hour s.start_min × InRange s.end_day s.end_hour s.end_min

-- Facts on the seven names.
abbrev pub Named : ℕ → Type 0
Named n =
    (day_to_weekday (day_name n) ≡ some n)
    × Free b' ' (day_name n)
    × Free b'-' (day_name n)
    × Free b',' (day_name n)
    × ((x : String) → trim_left (day_name n ⧺ x) ≡ day_name n ⧺ x)

trim_left-cons :
    (c : Char) (s x : String)
    → is_space (code c) ≡ false
    → trim_left (String.◌∷◌ c s ⧺ x) ≡ String.◌∷◌ c s ⧺ x
unfolding trim_left
trim_left-cons c s x h = ap trim_left (cons-append c s x) ∙ rw h (sym (cons-append c s x))

pub day_name-Named : (n : ℕ) → n < 7 → Named n
unfolding day_name day_to_weekday
day_name-Named zero h = (
  refl,
  (refl, (refl, (refl, tt))),
  (refl, (refl, (refl, tt))),
  (refl, (refl, (refl, tt))),
  λ x. trim_left-cons "S" "un" x refl,
)
day_name-Named (suc zero) h = (
  refl,
  (refl, (refl, (refl, tt))),
  (refl, (refl, (refl, tt))),
  (refl, (refl, (refl, tt))),
  λ x. trim_left-cons "M" "on" x refl,
)
day_name-Named (suc (suc zero)) h = (
  refl,
  (refl, (refl, (refl, tt))),
  (refl, (refl, (refl, tt))),
  (refl, (refl, (refl, tt))),
  λ x. trim_left-cons "T" "ue" x refl,
)
day_name-Named (suc (suc (suc zero))) h = (
  refl,
  (refl, (refl, (refl, tt))),
  (refl, (refl, (refl, tt))),
  (refl, (refl, (refl, tt))),
  λ x. trim_left-cons "W" "ed" x refl,
)
day_name-Named (suc (suc (suc (suc zero)))) h = (
  refl,
  (refl, (refl, (refl, tt))),
  (refl, (refl, (refl, tt))),
  (refl, (refl, (refl, tt))),
  λ x. trim_left-cons "T" "hu" x refl,
)
day_name-Named (suc (suc (suc (suc (suc zero))))) h = (
  refl,
  (refl, (refl, (refl, tt))),
  (refl, (refl, (refl, tt))),
  (refl, (refl, (refl, tt))),
  λ x. trim_left-cons "F" "ri" x refl,
)
day_name-Named (suc (suc (suc (suc (suc (suc zero)))))) h = (
  refl,
  (refl, (refl, (refl, tt))),
  (refl, (refl, (refl, tt))),
  (refl, (refl, (refl, tt))),
  λ x. trim_left-cons "S" "at" x refl,
)
day_name-Named (suc (suc (suc (suc (suc (suc (suc n))))))) h = absurd (omega (arith, h))
