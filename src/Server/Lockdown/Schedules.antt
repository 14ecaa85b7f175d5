-- ===== src/Server/Lockdown/Schedules.antt =====
-- internal/server/lockdown.go: the text of the schedules.
pub mod Numbers
pub mod Names
pub mod Printed
use argo_watcher.Common.{
  ℕ, zero, suc, ◌+◌, ◌-◌, ◌*◌, ◌^◌, String, Bool, true, false, ◌&&◌, List, [], ◌∷◌, ◌++◌, Option,
  none, some, str_eq, code, ltb, leb, ◌==◌, if◌then◌else◌,
}
use argo_watcher.Common.Split.{split, trim_space}
use argo_watcher.Server.Lockdown.{LockdownSchedule}

abbrev is_digit : ℕ → Bool
is_digit c = leb 48 c && leb c 57

-- The digits of a number, after those that make up `n`.
unfoldable pub digits_from : ℕ → String → Option ℕ
digits_from n String.[] = some n
digits_from n (String.◌∷◌ c s) =
    let more = digits_from (n * 10 + (code c - 48)) s in if is_digit (code c) then more else none

-- The bound of `int`.
abbrev pub in_range : Option ℕ → Option ℕ
in_range none = none
in_range (some n) = if ltb n (2 ^ 63) then some n else none

unfoldable pub unsigned : String → Option ℕ
unsigned s = if str_eq s "" then none else in_range (digits_from 0 s)

-- `strconv.Atoi`. A schedule is split at each `-`, so that no number has that sign.
unfoldable pub atoi : String → Option ℕ
atoi String.[] = none
atoi (String.◌∷◌ c s) = if code c == b'+' then unsigned s else unsigned (String.◌∷◌ c s)

-- What comes of a text; `panicked` is an index out of range.
pub data Parsed (A : Type 0) : Type 0 where
  parsed : A → Parsed A
  invalid panicked : Parsed A

abbrev pub with_minutes : ℕ → Option ℕ → Parsed (ℕ × ℕ)
with_minutes hour none = invalid
with_minutes hour (some minutes) = parsed (hour, minutes)

abbrev pub with_hour : Option ℕ → List String → Parsed (ℕ × ℕ)
with_hour none rest = invalid
with_hour (some hour) [] = panicked
with_hour (some hour) (minutes ∷ rest) = with_minutes hour (atoi minutes)

abbrev pub time_of_parts : List String → Parsed (ℕ × ℕ)
time_of_parts [] = panicked
time_of_parts (hour ∷ rest) = with_hour (atoi hour) rest

-- `parseTime`.
unfoldable pub parse_time : String → Parsed (ℕ × ℕ)
parse_time time_str = time_of_parts (split b':' time_str)

-- `dayToWeekday`.
unfoldable pub day_to_weekday : String → Option ℕ
day_to_weekday day =
    if str_eq day "Sun"
    then some 0
    else if str_eq day "Mon"
    then some 1
    else if str_eq day "Tue"
    then some 2
    else if str_eq day "Wed"
    then some 3
    else if str_eq day "Thu"
    then some 4
    else if str_eq day "Fri"
    then some 5
    else if str_eq day "Sat"
    then some 6
    else none

-- A day and its time.
abbrev pub with_time : ℕ → Parsed (ℕ × ℕ) → Parsed (ℕ × ℕ × ℕ)
with_time day invalid = invalid
with_time day panicked = panicked
with_time day (parsed (hour, min)) = parsed (day, hour, min)

abbrev pub with_day : Option ℕ → String → Parsed (ℕ × ℕ × ℕ)
with_day none time = invalid
with_day (some day) time = with_time day (parse_time time)

abbrev pub with_end : ℕ × ℕ × ℕ → Parsed (ℕ × ℕ × ℕ) → Parsed LockdownSchedule
with_end start invalid = invalid
with_end start panicked = panicked
with_end (start_day, start_hour, start_min) (parsed (end_day, end_hour, end_min)) = parsed (record {
  start_day = start_day;
  start_hour = start_hour;
  start_min = start_min;
  end_day = end_day;
  end_hour = end_hour;
  end_min = end_min;
})

-- The end is looked at after the start.
abbrev pub with_start : Parsed (ℕ × ℕ × ℕ) → Parsed (ℕ × ℕ × ℕ) → Parsed LockdownSchedule
with_start invalid end = invalid
with_start panicked end = panicked
with_start (parsed start) end = with_end start end

abbrev pub schedule_of_parts : List String → List String → Parsed LockdownSchedule
schedule_of_parts (day ∷ time ∷ []) (day' ∷ time' ∷ []) =
    with_start (with_day (day_to_weekday day) time) (with_day (day_to_weekday day') time')
schedule_of_parts start end = invalid

abbrev pub schedule_of_times : List String → Parsed LockdownSchedule
schedule_of_times (start ∷ end ∷ []) =
    schedule_of_parts (split b' ' (trim_space start)) (split b' ' (trim_space end))
schedule_of_times times = invalid

-- `parseSchedule`.
unfoldable pub parse_schedule : String → Parsed LockdownSchedule
parse_schedule schedule = schedule_of_times (split b'-' (trim_space schedule))

-- One round of the loop of `Parse`, with what the others make of the schedules.
abbrev pub after_schedule :
    Parsed LockdownSchedule
    → List LockdownSchedule
    → (List LockdownSchedule → List LockdownSchedule × Parsed (Unit {0}))
    → List LockdownSchedule × Parsed (Unit {0})
after_schedule (parsed schedule) schedules others = others (schedules ++ schedule ∷ [])
after_schedule invalid schedules others = (schedules, invalid)
after_schedule panicked schedules others = (schedules, panicked)

unfoldable pub parse_frames :
    List String → List LockdownSchedule → List LockdownSchedule × Parsed (Unit {0})
parse_frames [] schedules = (schedules, parsed tt)
parse_frames (frame ∷ rest) schedules =
    after_schedule (parse_schedule frame) schedules (parse_frames rest)

-- `Parse`: the schedules afterwards, those that were read before an error included.
unfoldable pub parse : String → List LockdownSchedule → List LockdownSchedule × Parsed (Unit {0})
parse text schedules = parse_frames (split b',' text) schedules
