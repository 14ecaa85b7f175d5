-- ===== src/State/Lease.antt =====
-- internal/state/lease.go: the claims of replicas on tasks, as the statements that `PostgresState` runs
-- on the rows of its table. Instants are nanoseconds of the database's clock.
pub mod Sweep
use argo_watcher.Common.{
  ℕ, ◌+◌, ◌*◌, ◌/◌, String, Bool, true, false, ◌&&◌, ◌||◌, List, Option, none, some, map, str_eq,
  any, select, take, length, ltb, leb, ◌==◌, if◌then◌else◌,
}
use argo_watcher.Common.Sort.{sort}
use argo_watcher.Models.Status.{status_in_progress}

-- `TaskLeaseTTL`, `TaskLeaseRenewInterval` and `TaskReapBatchSize`.
abbrev pub task_lease_ttl : ℕ
task_lease_ttl = 30000000000

abbrev pub task_lease_renew_interval : ℕ
task_lease_renew_interval = task_lease_ttl / 5

abbrev pub task_reap_batch_size : ℕ
task_reap_batch_size = 20

-- The columns of a row that a claim is about; NULL is `none`.
pub record Lease : Type 0 where
  pub id : String
  pub owner_id : Option String
  pub lease_expires_at : Option ℕ
  pub status : String
  pub created : ℕ

abbrev pub is_owned_by : String → Lease → Bool
is_owned_by owner lease = elim lease.owner_id [ none ↦ false | some o ↦ str_eq o owner ]

abbrev pub taken_over : String → ℕ → Lease → Lease
taken_over owner now lease = record lease {
  owner_id = some owner;
  lease_expires_at = some (now + task_lease_ttl);
}

abbrev pub extended : ℕ → Lease → Lease
extended now lease = record lease { lease_expires_at = some (now + task_lease_ttl) }

abbrev pub released : ℕ → Lease → Lease
released now lease = record lease { owner_id = none; lease_expires_at = some now }

-- `PostgresState.ClaimTask`.
unfoldable pub claim_task : String → String → ℕ → List Lease → List Lease
claim_task owner id now rows =
    map (λ row. if str_eq row.id id then taken_over owner now row else row) rows

-- `PostgresState.RenewLease`, and whether exactly one row was affected.
unfoldable pub renew_lease : String → String → ℕ → List Lease → List Lease × Bool
renew_lease owner id now rows =
    let mine : Lease → Bool = λ row. str_eq row.id id && is_owned_by owner row in
    (map (λ row. if mine row then extended now row else row) rows, length (select mine rows) == 1)

-- `PostgresState.ReleaseOwnedLeases`, and the number of rows affected.
unfoldable pub release_owned_leases : String → ℕ → List Lease → List Lease × ℕ
release_owned_leases owner now rows =
    let mine : Lease → Bool =
      λ row. is_owned_by owner row && str_eq row.status status_in_progress in
    (map (λ row. if mine row then released now row else row) rows, length (select mine rows))

-- The condition of `ClaimExpiredTasks`; the bound on an age is a sum, as an instant below the TTL has
-- none.
unfoldable pub is_claimable : ℕ → Lease → Bool
is_claimable now lease = str_eq lease.status status_in_progress && elim lease.lease_expires_at [
  | none ↦ ltb (lease.created + task_lease_ttl) now
  | some expires ↦ ltb expires now
]

-- The inner SELECT of `ClaimExpiredTasks`.
unfoldable pub chosen_ids : ℕ → ℕ → List Lease → List String
chosen_ids limit now rows =
    take limit
      (map (λ row. row.id) (sort (λ a b. leb a.created b.created) (select (is_claimable now) rows)))

abbrev pub swept : String → ℕ → List String → Lease → Lease
swept owner now ids row = if any (str_eq row.id) ids then taken_over owner now row else row

-- `PostgresState.ClaimExpiredTasks`: the table and the rows returned.
unfoldable pub claim_expired_tasks : String → ℕ → ℕ → List Lease → List Lease × List Lease
claim_expired_tasks owner limit now rows =
    let ids = chosen_ids limit now rows in
    let rows' = map (swept owner now ids) rows in
    (rows', select (λ row. any (str_eq row.id) ids) rows')
