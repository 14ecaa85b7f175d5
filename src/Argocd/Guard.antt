-- ===== src/Argocd/Guard.antt =====
-- internal/argocd/lease_guard.go: the guard that keeps a task's claim alive while its rollout is
-- monitored, next to the row of the task, which other statements change. Instants are nanoseconds of
-- one clock.
pub mod Exclusive
use argo_watcher.Common.{
  ℕ, ◌+◌, ◌-◌, ◌≤◌, ◌<◌, String, Bool, true, false, ◌&&◌, ◌||◌, Option, none, some, ◌≡◌, ◌≢◌,
  if◌then◌else◌, leb, str_eq, is_some,
}
use argo_watcher.State.Lease.{
  Lease, is_claimable, is_owned_by, taken_over, extended, released, task_lease_ttl,
  task_lease_renew_interval,
}

-- `leaseGuard`, with the instant at which a renewal under way was issued.
pub record LeaseGuard : Type 0 where
  pub lost : Bool
  pub last_renewed : ℕ
  pub interval : ℕ
  pub ttl : ℕ
  pub issued : Option ℕ

-- `aged` at the instant `now`.
unfoldable pub aged : ℕ → LeaseGuard → Bool
aged now guard = leb guard.ttl (now - guard.last_renewed + guard.interval)

-- `Lost`.
unfoldable pub is_lost : ℕ → LeaseGuard → Bool
unfolding aged
is_lost now guard = guard.lost || aged now guard

-- `newLeaseGuard`: the guard at its creation.
unfoldable pub new_lease_guard : ℕ → ℕ → ℕ → LeaseGuard
new_lease_guard interval ttl now = record {
  lost = false;
  last_renewed = now;
  interval = interval;
  ttl = ttl;
  issued = none;
}

-- A tick of the renewing goroutine, up to the statement.
unfoldable pub tick : ℕ → LeaseGuard → LeaseGuard
unfolding aged
tick now guard =
    if aged now guard then record guard { lost = true } else record guard { issued = some now }

-- What the goroutine does with the renewal's answer, `none` on an error.
unfoldable pub answered : ℕ → Option Bool → LeaseGuard → LeaseGuard
answered issued none guard = record guard { issued = none }
answered issued (some false) guard = record guard { issued = none; lost = true }
answered issued (some true) guard = record guard { issued = none; last_renewed = issued }

-- The guard and the task's row; `taken` says whether a sweep, of this process or of another one, took
-- the task over since the guard was created.
pub record Watch : Type 0 where
  pub now : ℕ
  pub guard : LeaseGuard
  pub row : Lease
  pub taken : Bool

abbrev pub IsDue : ℕ → Option ℕ → ℕ → Type 0
IsDue longest none now = Unit {0}
IsDue longest (some issued) now = now ≤ issued + longest

-- The steps, up to a shutdown of this replica. A statement of a renewal ends, by its timeout if not before, within `longest`.
pub data Step (owner : String) (longest : ℕ) : Watch → Watch → Type 0 where
  passes :
      (w : Watch) (later : ℕ)
      → w.now ≤ later
      → IsDue longest w.guard.issued later
      → Step owner longest w (record w { now = later })
  ticks :
      (w : Watch)
      → w.guard.lost ≡ false
      → w.guard.issued ≡ none
      → Step owner longest w (record w { guard = tick w.now w.guard })
  renews :
      (w : Watch) (issued : ℕ)
      → w.guard.issued ≡ some issued
      → Step owner longest w (record w {
        row = if is_owned_by owner w.row then extended w.now w.row else w.row;
        guard = answered issued (some (is_owned_by owner w.row)) w.guard;
      })
  -- An error after the statement took effect, and one before it.
  renews_unseen :
      (w : Watch) (issued : ℕ)
      → w.guard.issued ≡ some issued
      → Step owner longest w (record w {
        row = if is_owned_by owner w.row then extended w.now w.row else w.row;
        guard = answered issued none w.guard;
      })
  fails :
      (w : Watch) (issued : ℕ)
      → w.guard.issued ≡ some issued
      → Step owner longest w (record w { guard = answered issued none w.guard })
  -- A sweep of any replica, this one included.
  sweeps :
      (w : Watch) (other : String)
      → is_claimable w.now w.row ≡ true
      → Step owner longest w (record w { row = taken_over other w.now w.row; taken = true })
  -- The replica that owns the row extends or releases its claim.
  changes_elsewhere :
      (w : Watch) (row : Lease)
      → is_owned_by owner w.row ≡ false
      → Step owner longest w (record w { row = row })
  -- The task's status is written.
  written :
      (w : Watch) (status : String)
      → Step owner longest w (record w { row = record w.row { status = status } })

pub data Reaches (owner : String) (longest : ℕ) : Watch → Watch → Type 0 where
  start : (w : Watch) → Reaches owner longest w w
  then_step :
      (u v w : Watch)
      → Reaches owner longest u v
      → Step owner longest v w
      → Reaches owner longest u w

-- The guard that is created once the task is claimed.
abbrev pub watching : ℕ → ℕ → Lease → Watch
watching now interval row = record {
  now = now;
  guard = new_lease_guard interval task_lease_ttl now;
  row = row;
  taken = false;
}
