-- ===== src/State/Memory.antt =====
-- internal/state/in_memory_state.go. The clock's reading in seconds, `now`, and the fresh UUID, `new_id`,
-- are arguments; `time.Now().Unix()` is read once for a call.
pub mod Lookup
pub mod Superseded
pub mod Obsolete
pub mod Listing
use argo_watcher.Common.{
  ℕ, suc, ◌+◌, ◌-◌, String, Bool, true, false, ◌&&◌, ◌||◌, not, List, [], ◌∷◌, ◌++◌, Option, none,
  some, map, select, length, take, drop, is_empty, str_eq, ltb, leb, ◌==◌, if◌then◌else◌,
}
use argo_watcher.Common.Int.{ℤ, pos, negsuc, lebℤ, int64}
use argo_watcher.Common.Sort.{sort}
use argo_watcher.Models.Status.{
  status_in_progress, status_cancelled, status_app_not_found, status_aborted,
}
use argo_watcher.Models.Task.{Task, Image}
use argo_watcher.State.Supersede.{may_supersede, image_names_overlap}

pub record InMemoryState : Type 0 where
  pub tasks : List Task

abbrev pub task_stale_threshold_seconds : ℕ
task_stale_threshold_seconds = 3600

abbrev pub stale_task_abort_reason : String
stale_task_abort_reason =
    "Deployment did not complete within the staleness window; marked aborted by argo-watcher."

abbrev pub accept_task : String → ℕ → Task → Task
accept_task new_id now task = record task {
  id = new_id;
  created = now;
  updated = now;
  status = status_in_progress;
}

-- `AddTask`.
unfoldable pub add_task : String → ℕ → InMemoryState → Task → InMemoryState × Task
add_task new_id now state task =
    let task' = accept_task new_id now task in (record { tasks = state.tasks ++ task' ∷ [] }, task')

-- `taskMatchesFilters`.
unfoldable pub task_matches_filters : Task → ℕ → ℕ → String → String → Bool
task_matches_filters task start_time end_time app status =
    if leb task.created start_time || ltb end_time task.created
    then false
    else if not (str_eq app "") && not (str_eq app task.app)
    then false
    else if not (str_eq status "") && not (str_eq status task.status)
    then false
    else true

-- `tasks[low:high]` at a `low` that is at most the length. At a negative `high` Go panics; here the
-- slice is empty.
abbrev pub slice {ℓ} : {A : Type ℓ} → List A → ℕ → ℤ → List A
slice tasks low (pos high) = take (high - low) (drop low tasks)
slice tasks low (negsuc high) = []

-- `paginate`, at bounds that are not negative; their sum is an `int` and wraps around.
unfoldable pub paginate {ℓ} : {A : Type ℓ} → List A → ℕ → ℕ → List A
paginate tasks limit offset =
    let end = int64 (pos (offset + limit)) in
    if leb (length tasks) offset
    then []
    else if ltb 0 limit && not (lebℤ (pos (length tasks)) end)
    then slice tasks offset end
    else drop offset tasks

abbrev pub clamp : ℤ → ℕ
clamp (pos n) = n
clamp (negsuc n) = 0

abbrev pub newer : Task → Task → Bool
newer a b = leb b.created a.created

-- The matching tasks, newest first.
unfoldable pub matching : InMemoryState → ℕ → ℕ → String → String → List Task
matching state start_time end_time app status =
    sort newer (select (λ t. task_matches_filters t start_time end_time app status) state.tasks)

-- `GetTasks`.
unfoldable pub get_tasks : InMemoryState → ℕ → ℕ → String → String → ℤ → ℤ → List Task × ℕ
unfolding matching
get_tasks state start_time end_time app status limit offset =
    let tasks = matching state start_time end_time app status in
    if is_empty tasks then ([], 0) else (paginate tasks (clamp limit) (clamp offset), length tasks)

unfoldable pub find_task : List Task → String → Option Task
find_task [] id = none
find_task (task ∷ rest) id = if str_eq task.id id then some task else find_task rest id

-- `GetTask`; `none` is `ErrTaskNotFound`.
unfoldable pub get_task : InMemoryState → String → Option Task
get_task state id = find_task state.tasks id

abbrev pub with_status : String → String → ℕ → Task → Task
with_status status reason now task = record task {
  status = status;
  status_reason = reason;
  updated = now;
}

-- The loop of `SetTaskStatus`; `none` is its error.
unfoldable pub set_status_in : String → String → String → ℕ → List Task → Option (List Task)
set_status_in id status reason now [] = none
set_status_in id status reason now (task ∷ rest) =
    if str_eq task.id id
    then some (with_status status reason now task ∷ rest)
    else elim (set_status_in id status reason now rest) [
      | none ↦ none
      | some rest' ↦ some (task ∷ rest')
    ]

-- `SetTaskStatus`: the state, and whether it returned no error.
unfoldable pub set_task_status : String → String → String → ℕ → InMemoryState → InMemoryState × Bool
set_task_status id status reason now state = elim (set_status_in id status reason now state.tasks) [
  | none ↦ (state, false)
  | some tasks ↦ (record { tasks = tasks }, true)
]

-- The condition of `CancelInProgressTasks`.
unfoldable pub is_superseded : String → List Image → Bool → Task → Bool
is_superseded app images new_task_validated task =
    str_eq task.app app
    && str_eq task.status status_in_progress
    && may_supersede new_task_validated task.validated
    && image_names_overlap task.images images

-- Its loop.
unfoldable pub cancel_in : String → List Image → String → Bool → ℕ → List Task → List Task × ℕ
cancel_in app images reason new_task_validated now [] = ([], 0)
cancel_in app images reason new_task_validated now (task ∷ rest) =
    let (rest', count) = cancel_in app images reason new_task_validated now rest in
    if is_superseded app images new_task_validated task
    then (with_status status_cancelled reason now task ∷ rest', suc count)
    else (task ∷ rest', count)

-- `CancelInProgressTasks`.
unfoldable pub cancel_in_progress_tasks :
    String → List Image → String → Bool → ℕ → InMemoryState → InMemoryState × ℕ
cancel_in_progress_tasks app images reason new_task_validated now state =
    let (tasks, count) = cancel_in app images reason new_task_validated now state.tasks in
    (record { tasks = tasks }, count)

unfoldable pub is_stale : ℕ → Task → Bool
is_stale now task =
    str_eq task.status status_in_progress && ltb (task.updated + task_stale_threshold_seconds) now

-- `processInMemoryObsoleteTasks`. Its abort leaves `Updated` as it was.
unfoldable pub process_in_memory_obsolete_tasks : ℕ → List Task → List Task
process_in_memory_obsolete_tasks now [] = []
process_in_memory_obsolete_tasks now (task ∷ rest) =
    let rest' = process_in_memory_obsolete_tasks now rest in
    if str_eq task.status status_app_not_found
    then rest'
    else if is_stale now task
    then record task { status = status_aborted; status_reason = stale_task_abort_reason } ∷ rest'
    else task ∷ rest'
