-- ===== src/State/Postgres/Sweep.antt =====
-- internal/state/postgres_state.go: the sweep of obsolete tasks. What other replicas hold locked at a
-- round of the retention, and whether its statement fails, is an argument.
pub mod Retention
use argo_watcher.Common.{
  ℕ, zero, suc, ◌+◌, ◌*◌, String, Bool, true, false, ◌&&◌, not, List, Option, none, some, map,
  select, any, length, take, str_eq, ltb, leb, if◌then◌else◌,
}
use argo_watcher.Common.Sort.{sort}
use argo_watcher.Models.Status.{status_in_progress, status_app_not_found, status_aborted}
use argo_watcher.State.Memory.{stale_task_abort_reason}
use argo_watcher.State.Postgres.{TaskModel, nanoseconds, with_status, update_rows}

abbrev pub one_hour : ℕ
one_hour = 3600 * nanoseconds

abbrev pub one_day : ℕ
one_day = 86400 * nanoseconds

abbrev pub retention_delete_batch_size : ℕ
retention_delete_batch_size = 1000

-- The two conditions on rows that are older than an hour.
unfoldable pub is_obsolete : String → ℕ → TaskModel → Bool
is_obsolete status now row = str_eq row.status status && ltb (row.created + one_hour) now

-- `lease_expires_at IS NULL OR lease_expires_at <= now()`.
abbrev pub is_unclaimed : ℕ → Option ℕ → Bool
is_unclaimed now none = true
is_unclaimed now (some expires) = leb expires now

-- The condition of the DELETE in `deleteExpiredTasks`.
unfoldable pub is_expired : ℕ → ℕ → TaskModel → Bool
is_expired retention_days now row =
    ltb (row.created + retention_days * one_day) now
    && not (str_eq row.status status_in_progress)
    && is_unclaimed now row.lease_expires_at

-- One round of it: the clock, the rows that others hold locked, and whether it fails.
pub record Round : Type 0 where
  pub now : ℕ
  pub locked : TaskModel → Bool
  pub fails : Bool

-- Its inner SELECT: a batch of the oldest, stepping over the locked rows.
unfoldable pub batch_of : ℕ → ℕ → Round → List TaskModel → List TaskModel
batch_of size retention_days round rows = take size (
    sort (λ a b. leb a.created b.created)
      (select (λ row. is_expired retention_days round.now row && not (round.locked row)) rows))

abbrev pub in_batch : List TaskModel → TaskModel → Bool
in_batch batch row = any (str_eq row.id) (map (λ r. r.id) batch)

-- The loop of `deleteExpiredTasks`, with fuel: the rows, and whether it returned no error. `none` means
-- that the fuel ran out.
unfoldable pub delete_batches :
    ℕ → ℕ → ℕ → (ℕ → Round) → ℕ → List TaskModel → Option (List TaskModel × Bool)
delete_batches zero size retention_days rounds i rows = none
delete_batches (suc fuel) size retention_days rounds i rows =
    let gone = in_batch (batch_of size retention_days (rounds i) rows) in
    let rest = select (λ row. not (gone row)) rows in
    let more = delete_batches fuel size retention_days rounds (suc i) rest in
    if (rounds i).fails
    then some (rows, false)
    else if ltb (length (select gone rows)) size
    then some (rest, true)
    else more

-- `deleteExpiredTasks`, with a round for each row and one to see that none is left.
unfoldable pub delete_expired_tasks :
    Bool → ℕ → (ℕ → Round) → List TaskModel → Option (List TaskModel × Bool)
delete_expired_tasks retention_enabled retention_days rounds rows =
    if not retention_enabled
    then some (rows, true)
    else delete_batches (suc (length rows)) retention_delete_batch_size retention_days rounds 0 rows

-- `doProcessPostgresObsoleteTasks`: which of the first two statements fail, and their clock.
unfoldable pub do_process_postgres_obsolete_tasks :
    Bool → Bool → ℕ → Bool → ℕ → (ℕ → Round) → List TaskModel → Option (List TaskModel × Bool)
do_process_postgres_obsolete_tasks fails fails' now retention_enabled retention_days rounds rows =
    let kept = select (λ row. not (is_obsolete status_app_not_found now row)) rows in
    let rows' =
      update_rows (is_obsolete status_in_progress now)
        (with_status status_aborted stale_task_abort_reason now) kept in
    if fails
    then some (rows, false)
    else if fails'
    then some (kept, false)
    else delete_expired_tasks retention_enabled retention_days rounds rows'
