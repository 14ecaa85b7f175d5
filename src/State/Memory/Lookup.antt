-- ===== src/State/Memory/Lookup.antt =====
-- What `GetTask` reads after each operation of the in-memory state.
use mathlib.Core.Option
use argo_watcher.Common.{
  ℕ, String, Bool, true, false, List, [], ◌∷◌, ◌++◌, none, some, ◌≡◌, refl, inl, inr, map, select,
  length, str_eq, eq_iff, if◌then◌else◌, is_some, arith, Option-cases, Bool-cases, Has, Has-map, ap,
  subst, ◌∙◌,
}
use argo_watcher.Models.Status.{status_cancelled}
use argo_watcher.Models.Task.{Task, Image}
use argo_watcher.State.Supersede.{may_supersede}
use argo_watcher.State.Memory.{
  InMemoryState, accept_task, add_task, find_task, get_task, with_status, set_status_in,
  set_task_status, is_superseded, cancel_in, cancel_in_progress_tasks,
}

find_task-append :
    (id : String) (tasks : List Task) (task : Task)
    → find_task tasks task.id ≡ none
    → find_task (tasks ++ task ∷ []) id
      ≡ (if str_eq task.id id then some task else find_task tasks id)
unfolding find_task
find_task-append id [] task fresh = refl
find_task-append id (t ∷ rest) task fresh =
    ground
      (arith, eq_iff t.id id, eq_iff task.id id, eq_iff t.id task.id, find_task-append id rest task)

-- A task accepted under a fresh id is read back, in progress and stamped with the time; every other
-- id reads as before.
pub get_task-add_task :
    (new_id id : String) (now : ℕ) (state : InMemoryState) (task : Task)
    → get_task state new_id ≡ none
    → get_task (add_task new_id now state task).0 id
      ≡ (if str_eq new_id id then some (accept_task new_id now task) else get_task state id)
unfolding get_task add_task
get_task-add_task new_id id now state task fresh =
    find_task-append id state.tasks (accept_task new_id now task) fresh

find_task-set_status_in :
    (id j status reason : String) (now : ℕ) (tasks : List Task) (tasks' : List Task)
    → set_status_in id status reason now tasks ≡ some tasks'
    → find_task tasks' j ≡ (
        if str_eq id j
        then Option.map (with_status status reason now) (find_task tasks j)
        else find_task tasks j)
unfolding find_task set_status_in
find_task-set_status_in id j status reason now [] tasks' e = cc
find_task-set_status_in id j status reason now (t ∷ rest) tasks' e =
    elim (Option-cases (set_status_in id status reason now rest)) [
      | inl n ↦ ground (arith, eq_iff t.id id, eq_iff t.id j, eq_iff id j)
      | inr (rest', r) ↦ ground (
        arith,
        eq_iff t.id id,
        eq_iff t.id j,
        eq_iff id j,
        find_task-set_status_in id j status reason now rest rest' r,
      )
    ]

set_status_in-none :
    (id status reason : String) (now : ℕ) (tasks : List Task)
    → is_some (set_status_in id status reason now tasks) ≡ is_some (find_task tasks id)
unfolding set_status_in find_task
set_status_in-none id status reason now [] = refl
set_status_in-none id status reason now (t ∷ rest) =
    ground (arith, set_status_in-none id status reason now rest)

-- `SetTaskStatus` fails exactly on an unknown id, and then changes nothing; otherwise the task reads
-- back with the new status, reason and time and all else as it was, and no other task changes.
pub get_task-set_task_status :
    (id j status reason : String) (now : ℕ) (state : InMemoryState)
    → let (state', done) = set_task_status id status reason now state in
      (done ≡ is_some (get_task state id))
      × (get_task state' j ≡ (
          if str_eq id j
          then Option.map (with_status status reason now) (get_task state j)
          else get_task state j))
unfolding set_task_status get_task
get_task-set_task_status id j status reason now state =
    elim (Option-cases (set_status_in id status reason now state.tasks)) [
      | inl n ↦
          rw (n, set_task_status)
            (
              ground (arith, set_status_in-none id status reason now state.tasks),
              ground (arith, eq_iff id j, set_status_in-none id status reason now state.tasks),
            )
      | inr (tasks', e) ↦
          rw (e, set_task_status)
            (
              ground (arith, set_status_in-none id status reason now state.tasks),
              find_task-set_status_in id j status reason now state.tasks tasks' e,
            )
    ]

-- How a task may differ after a newer deployment of the application asked for the others' end.
abbrev pub superseded_by : String → List Image → String → Bool → ℕ → Task → Task
superseded_by app images reason validated now task =
    if is_superseded app images validated task
    then with_status status_cancelled reason now task
    else task

-- Cancelling changes the tasks that are superseded, each one, and no others.
cancel_in-map :
    (app : String) (images : List Image) (reason : String) (validated : Bool) (now : ℕ)
    (tasks : List Task)
    → (cancel_in app images reason validated now tasks).0
      ≡ map (superseded_by app images reason validated now) tasks
unfolding cancel_in
cancel_in-map app images reason validated now [] = refl
cancel_in-map app images reason validated now (t ∷ rest) =
    ground (arith, cancel_in-map app images reason validated now rest)

cancel_in-count :
    (app : String) (images : List Image) (reason : String) (validated : Bool) (now : ℕ)
    (tasks : List Task)
    → (cancel_in app images reason validated now tasks).1
      ≡ length (select (is_superseded app images validated) tasks)
unfolding cancel_in
cancel_in-count app images reason validated now [] = refl
cancel_in-count app images reason validated now (t ∷ rest) =
    ground (arith, cancel_in-count app images reason validated now rest)

cancelled_settled :
    (app : String) (images : List Image) (reason : String) (validated : Bool) (now : ℕ) (t : Task)
    → is_superseded app images validated (with_status status_cancelled reason now t) ≡ false
unfolding is_superseded
cancelled_settled app images reason validated now t = ground arith

-- A cancelled task is no longer in progress, so it is not cancelled again.
settled :
    (app : String) (images : List Image) (reason : String) (validated : Bool) (now : ℕ) (t : Task)
    → is_superseded app images validated (superseded_by app images reason validated now t) ≡ false
settled app images reason validated now t =
    elim (Bool-cases (is_superseded app images validated t)) [
      | inl e ↦ rw e (cancelled_settled app images reason validated now t)
      | inr e ↦ rw e e
    ]

select_settled :
    (app : String) (images : List Image) (reason : String) (validated : Bool) (now : ℕ)
    (tasks : List Task)
    → select
        (is_superseded app images validated)
        (map (superseded_by app images reason validated now) tasks)
      ≡ []
select_settled app images reason validated now [] = refl
select_settled app images reason validated now (t ∷ rest) =
    rw (settled app images reason validated now t)
      (select_settled app images reason validated now rest)

-- A superseding deployment ends every task of the application that it may supersede, changes no
-- other task, and counts the tasks that it ended; a repeated call finds none left.
pub cancel_in_progress_tasks_lem :
    (app : String) (images : List Image) (reason : String) (validated : Bool) (now : ℕ)
    (state : InMemoryState)
    → let (state', count) = cancel_in_progress_tasks app images reason validated now state in
      (state'.tasks ≡ map (superseded_by app images reason validated now) state.tasks)
      × (count ≡ length (select (is_superseded app images validated) state.tasks))
      × ((cancel_in_progress_tasks app images reason validated now state').1 ≡ 0)
unfolding cancel_in_progress_tasks
cancel_in_progress_tasks_lem app images reason validated now state =
    let kept = cancel_in-map app images reason validated now state.tasks in
    (
      kept,
      cancel_in-count app images reason validated now state.tasks,
      cancel_in-count app images reason validated now _
          ∙ rw kept (ap length (select_settled app images reason validated now state.tasks)),
    )

untouched :
    (app : String) (images : List Image) (reason : String) (now : ℕ) (task : Task)
    → task.validated ≡ true
    → superseded_by app images reason false now task ≡ task
unfolding is_superseded may_supersede
untouched app images reason now task credentialed = ground arith

-- A deployment that presented no credential never ends one that did.
pub credentialed_kept :
    (app : String) (images : List Image) (reason : String) (now : ℕ) (state : InMemoryState)
    (task : Task)
    → Has task state.tasks
    → task.validated ≡ true
    → Has task (cancel_in_progress_tasks app images reason false now state).0.tasks
credentialed_kept app images reason now state task held credentialed =
    rw (cancel_in_progress_tasks_lem app images reason false now state).0 (
      subst (λ t. Has t (map (superseded_by app images reason false now) state.tasks))
        (untouched app images reason now task credentialed)
        (Has-map (superseded_by app images reason false now) task state.tasks held))

superseded_by-id :
    (app : String) (images : List Image) (reason : String) (validated : Bool) (now : ℕ) (t : Task)
    → (superseded_by app images reason validated now t).id ≡ t.id
superseded_by-id app images reason validated now t =
    elim (Bool-cases (is_superseded app images validated t)) [ inl e ↦ rw e | inr e ↦ rw e ]

find_task-map :
    (f : Task → Task) (tasks : List Task) (id : String)
    → ((t : Task) → (f t).id ≡ t.id)
    → find_task (map f tasks) id ≡ Option.map f (find_task tasks id)
unfolding find_task
find_task-map f [] id same = refl
find_task-map f (t ∷ rest) id same =
    let ids = ap (λ (x : String). str_eq x id) (same t) in
    elim (Bool-cases (str_eq t.id id)) [
      | inl e ↦ rw (ids ∙ e, e)
      | inr e ↦ rw (ids ∙ e, e) (find_task-map f rest id same)
    ]

-- A lookup after a cancellation finds the task as the cancellation left it.
pub get_task-cancel :
    (app : String) (images : List Image) (reason : String) (validated : Bool) (now : ℕ)
    (state : InMemoryState) (id : String)
    → get_task (cancel_in_progress_tasks app images reason validated now state).0 id
      ≡ Option.map (superseded_by app images reason validated now) (get_task state id)
unfolding get_task
get_task-cancel app images reason validated now state id =
    rw (cancel_in_progress_tasks_lem app images reason validated now state).0
      (find_task-map _ state.tasks id (superseded_by-id app images reason validated now))
