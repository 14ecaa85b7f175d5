-- ===== src/Tests/Locks.antt =====
-- Examples for the deployment lock of internal/server and internal/lock.
use argo_watcher.Common.{
  ℕ, ◌+◌, Bool, true, false, List, [], ◌∷◌, none, some, Option, ◌≡◌, ◌&&◌, not, ltb, leb, ◌==◌,
  arith, if◌then◌else◌,
}
use argo_watcher.Server.Store.{Row, postgres_deploy_lock_store, postgres_laws}
use argo_watcher.Server.Lockdown.{
  LockdownSchedule, Calendar, Lockdown, schedule_active, is_locked, set_lock, release_lock,
  time_within_schedule, watch_transitions,
}
use argo_watcher.Server.Lockdown.Week.{minute_of_week, in_span, time_within_schedule_lem}
use argo_watcher.Server.Lockdown.Release.{set_and_release_lock_lem}
use argo_watcher.Server.Lockdown.Transitions.{
  Alternates, last_of, readings, watch_transitions-Alternates,
}

-- From Friday evening to Monday morning.
abbrev weekend : LockdownSchedule
weekend = record {
  start_day = 5;
  start_hour = 18;
  start_min = 0;
  end_day = 1;
  end_hour = 8;
  end_min = 30;
}

abbrev sunday : Calendar
sunday = record { weekday = 0; hour = 12; minute = 15 }

abbrev lockdown : Lockdown
lockdown = record { schedules = weekend ∷ []; override_duration = 900 }

abbrev always_sunday : ℕ → Calendar
always_sunday now = sunday

weekend_example : time_within_schedule sunday weekend ≡ (
    if 5 == 1
    then leb (minute_of_week 5 18 0) (minute_of_week 0 12 15)
      && ltb (minute_of_week 0 12 15) (minute_of_week 1 8 30)
    else in_span (minute_of_week 0 12 15) (minute_of_week 5 18 0) (minute_of_week 1 8 30))
weekend_example =
    time_within_schedule_lem sunday weekend (omega arith, omega arith) (omega arith, omega arith)
      (omega arith, omega arith)

set_and_release_example :
    ((set_lock always_sunday postgres_deploy_lock_store lockdown true none).1 ≡ true
      → is_locked always_sunday postgres_deploy_lock_store lockdown true 60
          (set_lock always_sunday postgres_deploy_lock_store lockdown true none).0
        ≡ true)
    × ((release_lock always_sunday postgres_deploy_lock_store lockdown true 50 none).1 ≡ true
        → is_locked always_sunday postgres_deploy_lock_store lockdown true 60
            (release_lock always_sunday postgres_deploy_lock_store lockdown true 50 none).0
          ≡ (schedule_active always_sunday lockdown 60
              && not (schedule_active always_sunday lockdown 50 && ltb 60 (50 + 900))))
set_and_release_example =
    set_and_release_lock_lem always_sunday postgres_deploy_lock_store postgres_laws lockdown 50 60
      none

-- The database fails at the second tick.
abbrev ticks : List (Bool × ℕ × Option Row)
ticks =
    (true, 40, some (record { row_lock = false; row_until = some 50 }))
    ∷ (false, 45, none)
    ∷ (true, 60, none)
    ∷ []

watch_transitions_example :
    Alternates true
      (watch_transitions always_sunday postgres_deploy_lock_store lockdown (false, 30, none) ticks)
    × (last_of true (
          watch_transitions always_sunday postgres_deploy_lock_store lockdown
            (false, 30, none)
            ticks)
        ≡ last_of true (readings always_sunday postgres_deploy_lock_store lockdown ticks))
watch_transitions_example =
    watch_transitions-Alternates always_sunday postgres_deploy_lock_store lockdown (false, 30, none)
      ticks
