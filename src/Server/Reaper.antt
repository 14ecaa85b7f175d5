-- ===== src/Server/Reaper.antt =====
-- internal/server/task_reaper.go: the takeover of deployments that another replica abandoned, and the
-- release of one's own claims, on the rows of the table of tasks.
pub mod HandOver
use argo_watcher.Common.{ℕ, String, Bool, true, false, List, [], ◌∷◌, ◌++◌, if◌then◌else◌}
use argo_watcher.State.Lease.{
  Lease, claim_expired_tasks, release_owned_leases, task_reap_batch_size,
}

-- A tick of the timer: whether the replica drains, the database's clock, whether the statement fails,
-- and what others did to the table since the tick before.
pub record Tick : Type 0 where
  pub draining : Bool
  pub now : ℕ
  pub fails : Bool
  pub meanwhile : List Lease → List Lease

-- The body of the loop of `reapAbandonedTasks`: the table, and the rows whose tasks are handed on.
unfoldable pub reap : String → Tick → List Lease → List Lease × List Lease
reap owner tick rows =
    if tick.draining
    then (rows, [])
    else if tick.fails
    then (rows, [])
    else claim_expired_tasks owner task_reap_batch_size tick.now rows

-- `reapAbandonedTasks` at the ticks before it is stopped.
unfoldable pub reap_abandoned_tasks : String → List Tick → List Lease → List Lease × List Lease
reap_abandoned_tasks owner [] rows = (rows, [])
reap_abandoned_tasks owner (tick ∷ ticks) rows =
    let (rows', claimed) = reap owner tick (tick.meanwhile rows) in
    let (rows'', later) = reap_abandoned_tasks owner ticks rows' in (rows'', claimed ++ later)

-- What becomes of a claimed task; a panic ends with its goroutine.
pub data Resumption : Type 0 where
  given_up resumed panicked : Resumption

-- `resumeSafely`, at what the second look at the shutdown says, and whether `resume` panics.
unfoldable pub resume_safely : Bool → Bool → Resumption
resume_safely draining panics = if draining then given_up else if panics then panicked else resumed

-- `releaseTaskLeases`: a statement that fails is logged.
unfoldable pub release_task_leases : String → Bool → ℕ → List Lease → List Lease
release_task_leases owner fails now rows =
    if fails then rows else (release_owned_leases owner now rows).0
