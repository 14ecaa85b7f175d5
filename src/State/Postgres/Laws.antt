-- ===== src/State/Postgres/Laws.antt =====
-- internal/state/postgres_state.go: the table's repository keeps the laws that its clients rely on, and a
-- task survives the way through the table.
use argo_watcher.Common.{
  ℕ, ◌+◌, ◌*◌, ◌/◌, String, Bool, true, false, not, List, [], ◌∷◌, ◌++◌, Option, none, some, ◌≡◌,
  refl, ◌∙◌, str_eq, eq_refl, arith, ap, if◌then◌else◌,
}
use argo_watcher.Common.Int.{pos}
use argo_watcher.Models.Task.{Task}
use argo_watcher.Models.Status.{status_in_progress}
use argo_watcher.State.Repository.{Repository, RepositoryLaws}
use argo_watcher.State.Lease.{taken_over, task_lease_ttl}
use argo_watcher.State.Postgres.Reads.{
  task_of, Agree, named_eq, get_task-Found, set_task_status-cases, read_status, read_same,
  read_other,
}
use argo_watcher.State.Postgres.{
  TaskModel, nanoseconds, convert_to_external_task, convert_to_resumed_task, lease_of, add_task,
  get_tasks, get_task, set_task_status, cancel_in_progress_tasks, find_row, update_rows,
  created_row,
}

-- `ClaimTask`, at a row of the task.
abbrev pub claimed : String → ℕ → TaskModel → TaskModel
claimed owner now row = record row {
  owner_id = some owner;
  lease_expires_at = some (now + task_lease_ttl);
}

claimed-taken_over :
    (owner : String) (now : ℕ) (row : TaskModel)
    → lease_of (claimed owner now row) ≡ taken_over owner now (lease_of row)
claimed-taken_over owner now row = refl

-- Which statements the database fails, for each table and each identifier.
pub record Faults : Type 0 where
  pub add_fails : List TaskModel → Bool
  pub list_fails : List TaskModel → Bool
  pub get_fails : String → List TaskModel → Bool
  pub set_fails : String → List TaskModel → Bool
  pub cancel_fails : List TaskModel → Bool
  pub ping_fails : List TaskModel → Bool
  pub claim_fails : String → List TaskModel → Bool

module _ (parse : String → Option String) (read : String → Option String) (faults : Faults)
    (tie : TaskModel → TaskModel → Bool) (owner : String) where
  -- The repository of a replica, while no other statement comes between the two of a cancellation.
  abbrev pub postgres_repository : Repository
  postgres_repository = record {
    Store = List TaskModel;
    add_task = λ new_id now rows task.
        add_task (faults.add_fails rows) new_id (now * nanoseconds) rows task;
    get_tasks = λ rows. get_tasks tie (faults.list_fails rows) rows;
    get_task = λ rows id. task_of (get_task parse read (faults.get_fails id rows) rows id);
    set_task_status = λ id status reason now rows.
        set_task_status parse (faults.set_fails id rows) id status reason (now * nanoseconds) rows;
    cancel_in_progress_tasks = λ app images reason validated now rows.
        cancel_in_progress_tasks (faults.cancel_fails rows) app images reason validated
          (now * nanoseconds) rows rows;
    check = λ rows. not (faults.ping_fails rows);
    claim_task = λ id now rows.
        if faults.claim_fails id rows
        then (rows, false)
        else (update_rows (λ row. str_eq row.id id) (claimed owner (now * nanoseconds)) rows, true);
  }

-- Whichever statements the database fails, the table, read and written through its queries, keeps the
-- laws that the clients of a repository rely on. Whenever a write of a status that is not the empty text, a read before it
-- and a read after it return no error, the task that was written has the new status, reason and time and all
-- else as it was, and every other task is as it was; a write that returns an error has changed
-- nothing. The two readings of an identifier, by uuid.Parse and by Postgres, are to agree where both
-- give one.
pub postgres_repository-RepositoryLaws :
    (parse read : String → Option String)
    → Agree parse read
    → (faults : Faults) (tie : TaskModel → TaskModel → Bool) (owner : String)
    → RepositoryLaws (postgres_repository parse read faults tie owner)
postgres_repository-RepositoryLaws parse read agree faults tie owner = record {
  get-set = λ id status reason now rows t t' named ok e f.
      read_same parse read agree id status reason now rows _ t t' named
        ((set_task_status-cases parse read agree (faults.set_fails id rows) id status reason
            (now * nanoseconds) rows).0
          ok)
        (get_task-Found parse read agree _ rows id t e)
        (get_task-Found parse read agree _ _ id t' f);
  get-set_status = λ id status reason now rows t' named ok f.
      let (row, _, _, _, e) =
        read_status parse read agree id status reason (now * nanoseconds) rows _ t'
          ((set_task_status-cases parse read agree (faults.set_fails id rows) id status reason
              (now * nanoseconds) rows).0
            ok)
          (get_task-Found parse read agree _ _ id t' f) in
      ap (λ t. t.status) e ∙ rw (named_eq status named) refl;
  get-set_other = λ id j status reason now rows t x x' ok e f ne g.
      read_other parse read agree id j status reason (now * nanoseconds) rows _ t x x'
        ((set_task_status-cases parse read agree (faults.set_fails id rows) id status reason
            (now * nanoseconds) rows).0
          ok)
        (get_task-Found parse read agree _ rows id t e)
        (get_task-Found parse read agree _ rows j x f) ne
        (get_task-Found parse read agree _ _ j x' g);
  set_failed = λ id status reason now rows failed.
      (set_task_status-cases parse read agree (faults.set_fails id rows) id status reason
          (now * nanoseconds) rows).1
        failed;
}

find_row-append :
    (rows : List TaskModel) (row : TaskModel)
    → find_row rows row.id ≡ none
    → find_row (rows ++ row ∷ []) row.id ≡ some row
unfolding find_row
find_row-append [] row h = rw (eq_refl row.id)
find_row-append (r ∷ rest) row h = ground (arith, find_row-append rest row)

-- A task that is stored under a fresh identifier is resumed by another replica with all that its
-- rollout acts on: the application, the author, the project, the images, the credential's verdict, the
-- rollout window and the refresh, and whether and what it rolls back; and it is in progress. What
-- clients are served of it holds neither the credential's verdict nor the window nor the refresh.
pub convert_to_resumed_task-add_task :
    (new_id : String) (now : ℕ) (rows : List TaskModel) (task : Task)
    → find_row rows new_id ≡ none
    → (row : TaskModel) × (find_row (add_task false new_id now rows task).0 new_id ≡ some row)
      × (convert_to_resumed_task row ≡ record task {
        id = new_id;
        created = now / nanoseconds;
        updated = now / nanoseconds;
        status = status_in_progress;
        status_reason = "";
        saved_app_status = record { app_status = ""; images_hash = "" };
      })
      × (convert_to_external_task row ≡ record (convert_to_resumed_task row) {
        validated = false;
        timeout = pos 0;
        refresh = none;
      })
unfolding add_task
convert_to_resumed_task-add_task new_id now rows task fresh = (
  created_row new_id now task,
  find_row-append rows (created_row new_id now task) fresh,
  refl,
  refl,
)
