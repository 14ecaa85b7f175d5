-- ===== src/Server/Lockdown/Week.antt =====
-- internal/server/lockdown.go: a schedule as a span of the minutes of the week.
use argo_watcher.Common.{
  ℕ, ◌+◌, ◌*◌, ◌<◌, Bool, true, false, ◌≡◌, arith, ◌==◌, ltb, leb, if◌then◌else◌, ◌&&◌, ◌||◌, not,
  inl, inr, Bool-cases,
}
use argo_watcher.Server.Lockdown.{
  LockdownSchedule, Calendar, time_within_schedule, time_before, time_at_or_after, day_in_range,
}

-- The minutes since the week began.
abbrev pub minute_of_week : ℕ → ℕ → ℕ → ℕ
minute_of_week day hour min = day * 1440 + (hour * 60 + min)

-- Whether a minute of the week is in the span from a start up to an end, which an end before the start
-- puts into the next week.
abbrev pub in_span : ℕ → ℕ → ℕ → Bool
in_span now start end =
    if leb start end then leb start now && ltb now end else leb start now || ltb now end

abbrev pub IsTimeOfDay : ℕ → ℕ → Type 0
IsTimeOfDay hour min = (hour < 24) × (min < 60)

time_at_or_after_lem :
    (h m rh rm : ℕ)
    → m < 60
    → rm < 60
    → time_at_or_after h m rh rm ≡ leb (rh * 60 + rm) (h * 60 + m)
unfolding time_at_or_after
time_at_or_after_lem h m rh rm a b = ground arith

time_before_lem :
    (h m rh rm : ℕ) → m < 60 → rm < 60 → time_before h m rh rm ≡ ltb (h * 60 + m) (rh * 60 + rm)
unfolding time_before
time_before_lem h m rh rm a b = ground arith

-- The tests of `timeWithinSchedule`, with the minutes of the day.
abbrev by_day : ℕ → ℕ → ℕ → ℕ → ℕ → ℕ → Bool
by_day day now start_day start end_day end =
    if not (day_in_range day start_day end_day)
    then false
    else if day == start_day
    then leb start now
    else if day == end_day
    then ltb now end
    else true

by_day_lem :
    (day now start_day start end_day end : ℕ)
    → now < 1440
    → start < 1440
    → end < 1440
    → (start_day == end_day) ≡ false
    → by_day day now start_day start end_day end
      ≡ in_span (day * 1440 + now) (start_day * 1440 + start) (end_day * 1440 + end)
unfolding day_in_range
by_day_lem day now start_day start end_day end a b c ne = ground arith

in_day_lem :
    (day now start_day start end_day end : ℕ)
    → now < 1440
    → start < 1440
    → end < 1440
    → (start_day == end_day) ≡ true
    → (day == start_day && leb start now && ltb now end) ≡ (
        leb (start_day * 1440 + start) (day * 1440 + now)
        && ltb (day * 1440 + now) (end_day * 1440 + end))
in_day_lem day now start_day start end_day end a b c e = ground arith

-- A schedule whose days differ locks the span of the week from its start, included, up to its end,
-- excluded, across the end of the week where its end comes first; one whose days are the same locks
-- from its start to its end on that day, and nothing where its end comes first. The times of day are
-- those of a clock.
pub time_within_schedule_lem :
    (now : Calendar) (s : LockdownSchedule)
    → IsTimeOfDay now.hour now.minute
    → IsTimeOfDay s.start_hour s.start_min
    → IsTimeOfDay s.end_hour s.end_min
    → let n = minute_of_week now.weekday now.hour now.minute in
      let start = minute_of_week s.start_day s.start_hour s.start_min in
      let end = minute_of_week s.end_day s.end_hour s.end_min in
      time_within_schedule now s
      ≡ (if s.start_day == s.end_day then leb start n && ltb n end else in_span n start end)
unfolding time_within_schedule
time_within_schedule_lem now s a b c =
    let n = now.hour * 60 + now.minute in
    let start = s.start_hour * 60 + s.start_min in
    let end = s.end_hour * 60 + s.end_min in
    let after = time_at_or_after_lem now.hour now.minute s.start_hour s.start_min a.1 b.1 in
    let before = time_before_lem now.hour now.minute s.end_hour s.end_min a.1 c.1 in
    elim (Bool-cases (s.start_day == s.end_day)) [
      | inl e ↦
          rw (after, before, e)
            (in_day_lem now.weekday n s.start_day start s.end_day end (omega arith) (omega arith)
              (omega arith) e)
      | inr e ↦
          rw (after, before, e)
            (by_day_lem now.weekday n s.start_day start s.end_day end (omega arith) (omega arith)
              (omega arith) e)
    ]
