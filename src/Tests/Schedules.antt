-- ===== src/Tests/Schedules.antt =====
-- Examples for the text of the schedules of internal/server/lockdown.go.
use argo_watcher.Common.{[], ◌∷◌, ◌++◌, map, join, ◌≡◌, refl, arith}
use argo_watcher.Common.Split.{split, trim_left, trim_right}
use argo_watcher.Server.Lockdown.{LockdownSchedule}
use argo_watcher.Server.Lockdown.Schedules.{
  parse, parsed, panicked, parse_schedule, parse_time, day_to_weekday, atoi, unsigned, digits_from,
}
use argo_watcher.Server.Lockdown.Schedules.Names.{print_schedule}
use argo_watcher.Server.Lockdown.Schedules.Printed.{AllValid, parse-print_schedule}

abbrev weekend : LockdownSchedule
weekend = record {
  start_day = 5;
  start_hour = 20;
  start_min = 15;
  end_day = 1;
  end_hour = 8;
  end_min = 30;
}

abbrev night : LockdownSchedule
night = record weekend { start_day = 3; end_day = 4 }

in_range : AllValid (night ∷ weekend ∷ [])
in_range = (
  ((omega arith, omega arith, omega arith), (omega arith, omega arith, omega arith)),
  (((omega arith, omega arith, omega arith), (omega arith, omega arith, omega arith)), tt),
)

schedules_example :
    parse (join (map print_schedule (night ∷ weekend ∷ [])) ",") []
    ≡ ([] ++ night ∷ weekend ∷ [], parsed tt)
schedules_example = parse-print_schedule night (weekend ∷ []) [] in_range

-- The text of the guide.
documented : parse_schedule " Fri 20:15 - Mon 08:30" ≡ parsed weekend
unfolding parse_schedule split trim_left trim_right day_to_weekday parse_time atoi unsigned
    digits_from
documented = refl

-- A time without a colon.
no_colon : parse_schedule "Mon 10 - Tue 11:00" ≡ panicked
unfolding parse_schedule split trim_left trim_right day_to_weekday parse_time atoi unsigned
    digits_from
no_colon = refl
