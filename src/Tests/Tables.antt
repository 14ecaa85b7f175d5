-- ===== src/Tests/Tables.antt =====
-- Examples for the table of tasks of internal/state/postgres_state.go.
use argo_watcher.Common.{
  ℕ, ◌*◌, ◌/◌, String, true, false, List, [], ◌∷◌, Option, none, some, map, ◌≡◌, refl, inl, inr,
  sym, ap, ◌∙◌, subst, eq_iff, arith, str_eq, is_empty, if◌then◌else◌, Bool-cases,
}
use argo_watcher.Common.Int.{pos}
use argo_watcher.Models.Status.{status_in_progress, status_deployed}
use argo_watcher.Models.Task.{Image}
use argo_watcher.State.Memory
use argo_watcher.State.Repository.{RepositoryLaws}
use argo_watcher.State.Postgres.{
  TaskModel, nanoseconds, created_row, add_task, get_tasks, cancel_in_progress_tasks,
  convert_to_external_task, convert_to_resumed_task, find_row, HasKey,
}
use argo_watcher.State.Postgres.Laws.{
  Faults, postgres_repository, postgres_repository-RepositoryLaws, convert_to_resumed_task-add_task,
}
use argo_watcher.State.Postgres.Reads.{Agree}
use argo_watcher.State.Postgres.Cancel.{in_memory, cancel_in_progress_tasks-in_memory}
use argo_watcher.State.Postgres.Listing.{AtSeconds, AtTimes, get_tasks-in_memory}
use argo_watcher.State.Postgres.Sweep.{Round}
use argo_watcher.Tests.{api_task}

abbrev first_row : TaskModel
first_row = created_row "1" (10 * nanoseconds) api_task

abbrev second_row : TaskModel
second_row = record (created_row "2" (20 * nanoseconds) api_task) { status = status_deployed }

abbrev rows : List TaskModel
rows = first_row ∷ second_row ∷ []

two_ids : ¬ (◌≡◌ {A = String} "1" "2")
two_ids h = let q : false ≡ true = (eq_iff "1" "2").1 h in cc q

rows-HasKey : HasKey rows
rows-HasKey a b (inl p) (inl q) e = cc (p, q)
rows-HasKey a b (inl p) (inr (inl q)) e =
    absurd (two_ids (ap (λ r. r.id) p ∙ e ∙ sym (ap (λ r. r.id) q)))
rows-HasKey a b (inr (inl p)) (inl q) e =
    absurd (two_ids (ap (λ r. r.id) q ∙ sym e ∙ sym (ap (λ r. r.id) p)))
rows-HasKey a b (inr (inl p)) (inr (inl q)) e = cc (p, q)
rows-HasKey a b (inl p) (inr (inr empty)) e = absurd empty
rows-HasKey a b (inr (inl p)) (inr (inr empty)) e = absurd empty
rows-HasKey a b (inr (inr empty)) h e = absurd empty

rows-AtSeconds : AtSeconds rows
rows-AtSeconds a (inl p) =
    let whole : first_row.created ≡ first_row.created / nanoseconds * nanoseconds = refl in
    subst (λ r. r.created ≡ r.created / nanoseconds * nanoseconds) p whole
rows-AtSeconds a (inr (inl p)) =
    let whole : second_row.created ≡ second_row.created / nanoseconds * nanoseconds = refl in
    subst (λ r. r.created ≡ r.created / nanoseconds * nanoseconds) p whole
rows-AtSeconds a (inr (inr empty)) = absurd empty

fresh_id : find_row rows "3" ≡ none
unfolding find_row
fresh_id = refl

abbrev urn : String
urn = "urn:uuid:00000000-0000-0000-0000-000000000001"

-- A canonical text is read as it is; `uuid.Parse` alone reads the longer form of one.
abbrev parse : String → Option String
parse id = if str_eq id urn then some "00000000-0000-0000-0000-000000000001" else some id

abbrev read : String → Option String
read id = if str_eq id urn then none else some id

parse-Agree : Agree parse read
parse-Agree id u v p q = elim (Bool-cases (str_eq id urn)) [
  | inl e ↦ let h : none ≡ some v = rw e at q in absurd (cc h)
  | inr e ↦
      let f : some id ≡ some u = rw e at p in let g : some id ≡ some v = rw e at q in cc (f, g)
]

-- The database fails writes to an empty table, and every ping.
abbrev faults : Faults
faults = record {
  add_fails = is_empty;
  list_fails = λ rows. false;
  get_fails = λ id rows. false;
  set_fails = λ id rows. is_empty rows;
  cancel_fails = is_empty;
  ping_fails = λ rows. true;
  claim_fails = λ id rows. is_empty rows;
}

repository_example : RepositoryLaws (postgres_repository parse read faults (λ a b. false) "replica")
repository_example =
    postgres_repository-RepositoryLaws parse read parse-Agree faults (λ a b. false) "replica"

resumed_example :
    (row : TaskModel) × (find_row (add_task false "3" (30 * nanoseconds) rows api_task).0 "3"
      ≡ some row)
    × (convert_to_resumed_task row ≡ record api_task {
      id = "3";
      created = 30 * nanoseconds / nanoseconds;
      updated = 30 * nanoseconds / nanoseconds;
      status = status_in_progress;
      status_reason = "";
      saved_app_status = record { app_status = ""; images_hash = "" };
    })
    × (convert_to_external_task row ≡ record (convert_to_resumed_task row) {
      validated = false;
      timeout = pos 0;
      refresh = none;
    })
resumed_example = convert_to_resumed_task-add_task "3" (30 * nanoseconds) rows api_task fresh_id

abbrev images : List Image
images = record { image = "reg/api"; tag = "v3" } ∷ []

superseded_example :
    let (rows', count) =
      cancel_in_progress_tasks false "api" images "newer" true (30 * nanoseconds) rows rows in
    let (state', count') =
      Memory.cancel_in_progress_tasks "api" images "newer" true 30 (in_memory rows) in
    (in_memory rows' ≡ state') × (count ≡ some count')
superseded_example =
    cancel_in_progress_tasks-in_memory "api" images "newer" true 30 rows rows-HasKey

rows-AtTimes : AtTimes rows
rows-AtTimes = (
  λ y h e. elim h [
    | inl p ↦
        let q : first_row.created ≡ second_row.created = e ∙ ap (λ r. r.created) (sym p) in
        ground (arith, q)
    | inr empty ↦ empty
  ],
  (λ y h. absurd h, tt),
)

listed_example :
    get_tasks (λ a b. true) false rows 0 100 "api" "" (pos 1) (pos 0)
    ≡ Memory.get_tasks
        (record { tasks = map convert_to_external_task rows })
        0
        100
        "api"
        ""
        (pos 1)
        (pos 0)
listed_example =
    get_tasks-in_memory (λ a b. true) rows 0 100 "api" "" (pos 1) (pos 0) rows-AtSeconds
      rows-AtTimes (omega arith)

-- Nothing is locked, and nothing fails; a day after the rows were created.
abbrev rounds : ℕ → Round
rounds i = record { now = 86500 * nanoseconds; locked = λ row. false; fails = false }
