-- ===== src/State/Postgres.antt =====
-- internal/state/postgres_state.go and state_models/task_model.go: the task repository over the rows of
-- the table `tasks`. An instant is a count of nanoseconds; `now` is what the database's clock says at a
-- statement. That a statement fails is an argument, and so are the rows that it then finds.
pub mod Sweep
pub mod Reads
pub mod Laws
pub mod Listing
pub mod Cancel
use argo_watcher.Common.{
  ℕ, zero, suc, ◌+◌, ◌*◌, ◌/◌, String, Bool, true, false, ◌&&◌, ◌||◌, not, List, [], ◌∷◌, ◌++◌,
  Option, none, some, map, select, any, length, take, drop, Has, ◌≡◌, str_eq, ltb, leb, ◌==◌,
  is_empty, if◌then◌else◌,
}
use argo_watcher.Common.Int.{ℤ, pos}
use argo_watcher.Common.Sort.{sort}
use argo_watcher.Models.Status.{
  status_in_progress, status_cancelled, status_app_not_found, status_aborted,
}
use argo_watcher.Models.Task.{Task, Image}
use argo_watcher.State.Supersede.{may_supersede, image_names_overlap}
use argo_watcher.State.Memory.{clamp, stale_task_abort_reason}
use argo_watcher.State.Lease.{Lease}

-- `TaskModel`; NULL is `none`.
pub record TaskModel : Type 0 where
  pub id : String
  pub created : ℕ
  pub updated : ℕ
  pub images : List Image
  pub status : String
  pub application_name : Option String
  pub author : Option String
  pub project : Option String
  pub status_reason : Option String
  pub is_rollback : Bool
  pub rollback_target_id : String
  pub validated : Bool
  pub timeout : ℤ
  pub refresh : Option Bool
  pub owner_id : Option String
  pub lease_expires_at : Option ℕ

abbrev pub nanoseconds : ℕ
nanoseconds = 1000000000

-- `sql.NullString.String`.
abbrev pub null_string : Option String → String
null_string none = ""
null_string (some s) = s

-- `ConvertToExternalTask`: the fields that it leaves out are zero.
abbrev pub convert_to_external_task : TaskModel → Task
convert_to_external_task row = record {
  id = row.id;
  created = row.created / nanoseconds;
  updated = row.updated / nanoseconds;
  app = null_string row.application_name;
  author = null_string row.author;
  project = null_string row.project;
  images = row.images;
  status = row.status;
  status_reason = null_string row.status_reason;
  validated = false;
  timeout = pos 0;
  is_rollback = row.is_rollback;
  refresh = none;
  rollback_target_id = row.rollback_target_id;
  saved_app_status = record { app_status = ""; images_hash = "" };
}

-- `ConvertToResumedTask`.
abbrev pub convert_to_resumed_task : TaskModel → Task
convert_to_resumed_task row = record (convert_to_external_task row) {
  validated = row.validated;
  timeout = row.timeout;
  refresh = row.refresh;
}

-- The columns that a claim is about.
abbrev pub lease_of : TaskModel → Lease
lease_of row = record {
  id = row.id;
  owner_id = row.owner_id;
  lease_expires_at = row.lease_expires_at;
  status = row.status;
  created = row.created;
}

-- The row that `AddTask` creates.
abbrev pub created_row : String → ℕ → Task → TaskModel
created_row new_id now task = record {
  id = new_id;
  created = now;
  updated = now;
  images = task.images;
  status = status_in_progress;
  application_name = some task.app;
  author = some task.author;
  project = some task.project;
  status_reason = none;
  is_rollback = task.is_rollback;
  rollback_target_id = task.rollback_target_id;
  validated = task.validated;
  timeout = task.timeout;
  refresh = task.refresh;
  owner_id = none;
  lease_expires_at = none;
}

-- `AddTask`. The creation time of the task it returns is in milliseconds.
unfoldable pub add_task : Bool → String → ℕ → List TaskModel → Task → List TaskModel × Option Task
add_task fails new_id now rows task = if fails then (rows, none) else (
  rows ++ created_row new_id now task ∷ [],
  some (record task { id = new_id; created = now / 1000000; status = status_in_progress }),
)

-- The conditions of the query of `GetTasks`.
unfoldable pub row_matches : ℕ → ℕ → String → String → TaskModel → Bool
row_matches start_time end_time app status row =
    ltb (start_time * nanoseconds) row.created
    && leb row.created (end_time * nanoseconds)
    && (str_eq app "" || str_eq app (null_string row.application_name))
    && (str_eq status "" || str_eq status row.status)

-- `LIMIT` and `OFFSET`, each given only if it is positive.
abbrev pub limited : ℕ → List TaskModel → List TaskModel
limited zero rows = rows
limited (suc n) rows = take (suc n) rows

-- `ORDER BY created DESC`. It says nothing of rows of one time: `tie` is the order in which the database
-- happens to return those.
abbrev pub created_desc : (TaskModel → TaskModel → Bool) → TaskModel → TaskModel → Bool
created_desc tie a b = ltb b.created a.created || (b.created == a.created && tie a b)

-- `GetTasks`; either of its two queries may fail.
unfoldable pub get_tasks :
    (TaskModel → TaskModel → Bool)
    → Bool
    → List TaskModel
    → ℕ
    → ℕ
    → String
    → String
    → ℤ
    → ℤ
    → List Task × ℕ
get_tasks tie fails rows start_time end_time app status limit offset =
    let found = select (row_matches start_time end_time app status) rows in
    if fails then ([], 0) else (
      map convert_to_external_task
          (limited (clamp limit) (drop (clamp offset) (sort (created_desc tie) found))),
      length found,
    )

unfoldable pub find_row : List TaskModel → String → Option TaskModel
find_row [] id = none
find_row (row ∷ rest) id = if str_eq row.id id then some row else find_row rest id

-- The results of `GetTask`.
pub data Lookup : Type 0 where
  found : Task → Lookup
  task_not_found retrieval_error : Lookup

abbrev pub lookup_of : Option TaskModel → Lookup
lookup_of none = task_not_found
lookup_of (some row) = found (convert_to_external_task row)

-- The columns that an update to a status writes.
abbrev pub with_status : String → String → ℕ → TaskModel → TaskModel
with_status status reason now row = record row {
  status = status;
  status_reason = some reason;
  updated = now;
}

-- `Updates` of a status: it leaves out a column whose value is the empty text.
abbrev pub with_updates : String → String → ℕ → TaskModel → TaskModel
with_updates status reason now row =
    with_status (if str_eq status "" then row.status else status) reason now row

abbrev pub update_rows :
    (TaskModel → Bool) → (TaskModel → TaskModel) → List TaskModel → List TaskModel
update_rows where_clause f rows = map (λ row. if where_clause row then f row else row) rows

-- `GetTask`, by what `uuid.Parse` and then Postgres make of the text of the request.
abbrev pub get_at : Bool → List TaskModel → Option String → Option String → Lookup
get_at fails rows none read = task_not_found
get_at fails rows (some parsed) none = retrieval_error
get_at fails rows (some parsed) (some uuid) =
    if fails then retrieval_error else lookup_of (find_row rows uuid)

-- `SetTaskStatus`, by an identifier that was parsed, or was not one.
abbrev pub set_at :
    Bool → Option String → String → String → ℕ → List TaskModel → List TaskModel × Bool
set_at fails none status reason now rows = (rows, false)
set_at fails (some uuid) status reason now rows =
    let mine : TaskModel → Bool = λ row. str_eq row.id uuid in
    if fails
    then (rows, false)
    else (update_rows mine (with_updates status reason now) rows, not (is_empty (select mine rows)))

-- `GetTask`. `parse` is `uuid.Parse` of google/uuid and `read` the input of a uuid by Postgres, to which
-- the query sends the text of the request; each gives the identifier's canonical text.
unfoldable pub get_task :
    (String → Option String) → (String → Option String) → Bool → List TaskModel → String → Lookup
get_task parse read fails rows id = get_at fails rows (parse id) (read id)

module _ (parse : String → Option String) where
  -- `SetTaskStatus`, and whether it returned no error.
  unfoldable pub set_task_status :
      Bool → String → String → String → ℕ → List TaskModel → List TaskModel × Bool
  set_task_status fails id status reason now rows = set_at fails (parse id) status reason now rows

-- The rows that `CancelInProgressTasks` fetches and filters.
unfoldable pub is_candidate : String → List Image → Bool → TaskModel → Bool
is_candidate app images new_task_validated row =
    str_eq (null_string row.application_name) app
    && str_eq row.status status_in_progress
    && may_supersede new_task_validated row.validated
    && image_names_overlap row.images images

-- `CancelInProgressTasks`: `rows` is the table at its SELECT, `rows'` at its UPDATE.
unfoldable pub cancel_in_progress_tasks :
    Bool
    → String
    → List Image
    → String
    → Bool
    → ℕ
    → List TaskModel
    → List TaskModel
    → List TaskModel × Option ℕ
cancel_in_progress_tasks fails app images reason new_task_validated now rows rows' =
    let ids = map (λ row. row.id) (select (is_candidate app images new_task_validated) rows) in
    let ours : TaskModel → Bool =
      λ row. any (str_eq row.id) ids && str_eq row.status status_in_progress in
    if fails then (rows', none) else if is_empty ids then (rows', some 0) else (
      update_rows ours (with_status status_cancelled reason now) rows',
      some (length (select ours rows')),
    )

-- The primary key of the table.
abbrev pub HasKey : List TaskModel → Type 0
HasKey rows = (a b : TaskModel) → Has a rows → Has b rows → a.id ≡ b.id → a ≡ b
