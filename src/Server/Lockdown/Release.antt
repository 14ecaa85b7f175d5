-- ===== src/Server/Lockdown/Release.antt =====
-- internal/server/lockdown.go: what setting and releasing the lock does to it.
use argo_watcher.Common.{
  ℕ, ◌+◌, true, false, ◌&&◌, not, ◌≡◌, refl, if◌then◌else◌, ltb, Bool-cases, inl, inr, arith,
}
use argo_watcher.Server.Store.{DeployLockStore, DeployLockLaws}
use argo_watcher.Server.Lockdown.{
  Calendar, Lockdown, schedule_active, is_locked_with, is_locked, set_lock, release_lock,
}

locked_manually :
    (calendar : ℕ → Calendar) (l : Lockdown) (later : ℕ)
    → is_locked_with calendar l (record { manual_lock = true; override_until = 0 }) later ≡ true
unfolding is_locked_with
locked_manually calendar l later = refl

released :
    (calendar : ℕ → Calendar) (l : Lockdown) (now later : ℕ)
    → is_locked_with calendar l
        (record {
          manual_lock = false;
          override_until = if schedule_active calendar l now then now + l.override_duration else 0;
        })
        later
      ≡ (schedule_active calendar l later
          && not (schedule_active calendar l now && ltb later (now + l.override_duration)))
unfolding is_locked_with
released calendar l now later = elim (Bool-cases (schedule_active calendar l now)) [
  | inl a ↦ rw a (ground arith)
  | inr a ↦ rw a (ground arith)
]

-- Once the lock is set without an error, deployments are locked at every instant, whatever the
-- schedules say. Once it is released without an error, they are locked exactly where a schedule is
-- active and not overridden: an override is in effect only if a schedule was active at the release, and
-- it ends after its duration.
pub set_and_release_lock_lem :
    (calendar : ℕ → Calendar) (d : DeployLockStore) (laws : DeployLockLaws d) (l : Lockdown)
    (now later : ℕ) (s : d.Store)
    → ((set_lock calendar d l true s).1 ≡ true
        → is_locked calendar d l true later (set_lock calendar d l true s).0 ≡ true)
      × ((release_lock calendar d l true now s).1 ≡ true
          → is_locked calendar d l true later (release_lock calendar d l true now s).0 ≡ (
              schedule_active calendar l later
              && not (schedule_active calendar l now && ltb later (now + l.override_duration))))
unfolding is_locked set_lock release_lock
set_and_release_lock_lem calendar d laws l now later s =
    let until = if schedule_active calendar l now then now + l.override_duration else 0 in
    (
      λ h.
          rw (is_locked, set_lock, release_lock, laws.state-lock s h)
            (locked_manually calendar l later),
      λ h.
          rw (is_locked, set_lock, release_lock, laws.state-release until s h)
            (released calendar l now later),
    )
