-- ===== src/Server/Lockdown.antt =====
-- internal/server/lockdown.go: the deployment lock, from the shared state and the local schedules.
-- `time.Time`'s weekday, hour and minute are those of a calendar, which is a parameter.
pub mod Week
pub mod Release
pub mod Transitions
pub mod Schedules
use argo_watcher.Common.{
  ℕ, ◌+◌, ◌*◌, Bool, true, false, ◌&&◌, ◌||◌, not, List, [], ◌∷◌, Option, none, some, if◌then◌else◌,
  ◌==◌, ltb, leb, any,
}
use argo_watcher.Server.Store.{DeployLockState, DeployLockStore}

-- `LockdownSchedule`; a weekday counts from Sunday.
pub record LockdownSchedule : Type 0 where
  pub start_day : ℕ
  pub start_hour : ℕ
  pub start_min : ℕ
  pub end_day : ℕ
  pub end_hour : ℕ
  pub end_min : ℕ

-- `Weekday()`, `Hour()` and `Minute()` of an instant.
pub record Calendar : Type 0 where
  pub weekday : ℕ
  pub hour : ℕ
  pub minute : ℕ

-- `timeAtOrAfter`.
unfoldable pub time_at_or_after : ℕ → ℕ → ℕ → ℕ → Bool
time_at_or_after hour min ref_hour ref_min =
    ltb ref_hour hour || (hour == ref_hour && leb ref_min min)

-- `timeBefore`.
unfoldable pub time_before : ℕ → ℕ → ℕ → ℕ → Bool
time_before hour min ref_hour ref_min = ltb hour ref_hour || (hour == ref_hour && ltb min ref_min)

-- `dayInRange`.
unfoldable pub day_in_range : ℕ → ℕ → ℕ → Bool
day_in_range day start end =
    if leb start end then leb start day && leb day end else leb start day || leb day end

-- `timeWithinSchedule`.
unfoldable pub time_within_schedule : Calendar → LockdownSchedule → Bool
unfolding time_at_or_after time_before day_in_range
time_within_schedule now s =
    if s.start_day == s.end_day
    then now.weekday == s.start_day
      && time_at_or_after now.hour now.minute s.start_hour s.start_min
      && time_before now.hour now.minute s.end_hour s.end_min
    else if not (day_in_range now.weekday s.start_day s.end_day)
    then false
    else if now.weekday == s.start_day
    then time_at_or_after now.hour now.minute s.start_hour s.start_min
    else if now.weekday == s.end_day
    then time_before now.hour now.minute s.end_hour s.end_min
    else true

-- `Lockdown`, less its store.
pub record Lockdown : Type 0 where
  pub schedules : List LockdownSchedule
  pub override_duration : ℕ

-- A tick of `WatchTransitions` that reads a state, or fails to, with what follows for the state that
-- it leaves.
abbrev pub at_tick : Bool → Bool × Bool → (Bool → List Bool) → List Bool
at_tick last (current, true) rest = rest last
at_tick last (current, false) rest =
    if (if current then last else not last) then rest last else current ∷ rest current

module _ (calendar : ℕ → Calendar) where
  -- `scheduleActive`.
  unfoldable pub schedule_active : Lockdown → ℕ → Bool
  schedule_active l now = any (time_within_schedule (calendar now)) l.schedules

  -- `isLockedWith`.
  unfoldable pub is_locked_with : Lockdown → DeployLockState → ℕ → Bool
  is_locked_with l state now =
      if state.manual_lock
      then true
      else if ltb now state.override_until
      then false
      else schedule_active l now

  module _ (d : DeployLockStore) where
    -- `resolve`: whether deployments are locked, and whether the state could not be read.
    unfoldable pub resolve : Lockdown → Bool → ℕ → d.Store → Bool × Bool
    resolve l up now s = elim (d.state up s) [
      | none ↦ (true, true)
      | some state ↦ (is_locked_with l state now, false)
    ]

    -- `IsLocked`.
    unfoldable pub is_locked : Lockdown → Bool → ℕ → d.Store → Bool
    unfolding resolve
    is_locked l up now s = (resolve l up now s).0

    -- `SetLock`.
    unfoldable pub set_lock : Lockdown → Bool → d.Store → d.Store × Bool
    set_lock l up s = d.lock up s

    -- `ReleaseLock`.
    unfoldable pub release_lock : Lockdown → Bool → ℕ → d.Store → d.Store × Bool
    release_lock l up now s =
        d.release up (if schedule_active l now then now + l.override_duration else 0) s

    -- The ticks of `WatchTransitions` until it is stopped, each with what it reads; `last` is the state
    -- it compares with. The result are the states that `notify` is called with, in order.
    unfoldable pub watch_ticks : Lockdown → Bool → List (Bool × ℕ × d.Store) → List Bool
    watch_ticks l last [] = []
    watch_ticks l last ((up, now, s) ∷ ticks) =
        at_tick last (resolve l up now s) (λ current. watch_ticks l current ticks)

    -- `WatchTransitions`.
    unfoldable pub watch_transitions :
        Lockdown → Bool × ℕ × d.Store → List (Bool × ℕ × d.Store) → List Bool
    watch_transitions l (up, now, s) ticks = watch_ticks l (resolve l up now s).0 ticks
