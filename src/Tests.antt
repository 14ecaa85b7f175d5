-- ===== src/Tests.antt =====
-- Test data: a task, an application and a monitor's surroundings.
mod Rollouts
mod Deployments
mod Stores
mod Locks
mod Batches
mod Credentials
mod WriteBacks
mod Submissions
mod Tables
mod Clients
mod Guards
mod Providers
mod Overrides
mod Reapers
mod Schedules
use argo_watcher.Common.{
  ℕ, zero, suc, ◌+◌, ◌*◌, Bool, true, false, String, List, [], ◌∷◌, Option, none, some, ◌≡◌, refl,
  if◌then◌else◌, Bool-cases, inl, inr,
}
use argo_watcher.Common.Int.{ℤ, pos}
use argo_watcher.Models.Status.{status_in_progress, status_cancelled, status_deployed}
use argo_watcher.Models.Task.{Task, Image}
use argo_watcher.Models.Application.{Application, Tree, TreeNode}
use argo_watcher.State.Memory.{InMemoryState}
use argo_watcher.State.Repository.{memory_repository}
use argo_watcher.Argocd.Errors.{Err}
use argo_watcher.Argocd.Window.{Schedule, second}
use argo_watcher.Argocd.World.{Config, World}
use argo_watcher.Argocd.Poll.{
  Outcome, finished, retryable, unrecoverable, deadline_exceeded, Retry, RetryLaws, Poll, fetched,
}
use argo_watcher.Argocd.Updater.{Env}

abbrev pub api_task : Task
api_task = record {
  id = "1";
  created = 100;
  updated = 100;
  app = "api";
  author = "ci";
  project = "shop";
  images = record { image = "reg/api"; tag = "v2" } ∷ [];
  status = status_in_progress;
  status_reason = "";
  validated = true;
  timeout = pos 60;
  is_rollback = false;
  refresh = none;
  rollback_target_id = "";
  saved_app_status = record { app_status = ""; images_hash = "" };
}

abbrev pub with_images : List String → String → Application
with_images images health = record {
  metadata = record { name = "api"; annotations = [] };
  spec = record {
    source = record { repo_url = ""; target_revision = ""; path = "" };
    sources = none;
    sync_policy = none;
  };
  status = record {
    health_status = health;
    conditions = [];
    operation_state = record {
      phase = "";
      message = "";
      result_resources = [];
      result_revision = "";
      result_revisions = [];
    };
    resources = [];
    images = images;
    sync_status = "Synced";
    sync_revision = "";
    sync_revisions = [];
  };
}

abbrev pub running : Application
running = with_images ("reg/api:v2" ∷ []) "Healthy"

abbrev pub outdated : Application
outdated = with_images ("reg/api:v1" ∷ []) "Healthy"

abbrev pub degraded_node : TreeNode
degraded_node = record {
  kind = "Pod";
  name = "api-1";
  namespace = "shop";
  health_status = "Degraded";
  health_message = "ImagePullBackOff";
}

abbrev pub schedule : Schedule
schedule = record { retry_delay = pos (15 * second); default_attempts = 15 }

abbrev pub config : Config
config = record {
  schedule = schedule;
  registry_proxy_url = "";
  accept_suspended = false;
  refresh_app = true;
  quote = λ s. s;
  hash = λ s. s;
}

-- The second poll sees the new image.
abbrev pub rolling : ℕ → Poll
rolling n = record {
  expired = false;
  stored = some api_task;
  abandoned = false;
  application = fetched (elim n [ zero ↦ outdated | suc _ ↦ running ]);
  managed_resources = none;
}

-- The second poll sees that the task was superseded.
abbrev pub superseding : ℕ → Poll
superseding n = record {
  expired = false;
  stored = some (record api_task {
    status = elim n [ zero ↦ status_in_progress | suc _ ↦ status_cancelled ];
  });
  abandoned = false;
  application = fetched outdated;
  managed_resources = none;
}

abbrev pub env : Env
env = record {
  first_read = some api_task;
  confirmation = fetched outdated;
  write_back = λ app task. none;
  given_up_in_write_back = false;
  read_after_write_back = none;
  feed = rolling;
  waited = 15;
  lost = false;
  draining = false;
  tree = none;
}

-- The task as an earlier deployment.
abbrev pub earlier : String → String → ℕ → Task
earlier id tag created = record api_task {
  id = id;
  created = created;
  status = status_deployed;
  images = record { image = "reg/api"; tag = tag } ∷ [];
}

abbrev pub history : InMemoryState
history = record { tasks = earlier "8" "v2" 10 ∷ earlier "9" "v3" 20 ∷ [] }

abbrev pub ongoing : InMemoryState
ongoing = record { tasks = api_task ∷ [] }

abbrev pub world : World memory_repository
world = record { store = ongoing; now = 200; events = [] }

-- `retry.Do` as a function.
abbrev after_attempt : {S : Type 0} → ℕ → S × Outcome → (S → S × Option Err) → S × Option Err
after_attempt n (s, finished) again = (s, none)
after_attempt n (s, unrecoverable e) again = (s, some e)
after_attempt zero (s, retryable e) again = (s, some e)
after_attempt (suc n) (s, retryable e) again = again s

abbrev attempts_from : (S : Type 0) → ℕ → (S → Bool) → (S → S × Outcome) → S → S × Option Err
attempts_from S zero expired body s = (s, none)
attempts_from S (suc n) expired body s =
    if expired s
    then (s, some deadline_exceeded)
    else after_attempt n (body s) (attempts_from S n expired body)

abbrev pub retry : Retry
retry = record { retry_do = attempts_from }

after_finished :
    {S : Type 0} (n : ℕ) (x : S × Outcome) (again : S → S × Option Err)
    → x.1 ≡ finished
    → after_attempt n x again ≡ (x.0, none)
after_finished n (s, finished) again h = refl
after_finished n (s, unrecoverable e) again h = cc h
after_finished n (s, retryable e) again h = cc h

after_unrecoverable :
    {S : Type 0} (n : ℕ) (x : S × Outcome) (e : Err) (again : S → S × Option Err)
    → x.1 ≡ unrecoverable e
    → after_attempt n x again ≡ (x.0, some e)
after_unrecoverable n (s, finished) e again h = cc h
after_unrecoverable n (s, unrecoverable x) e again h = cc h
after_unrecoverable n (s, retryable x) e again h = cc h

after_last :
    {S : Type 0} (x : S × Outcome) (e : Err) (again : S → S × Option Err)
    → x.1 ≡ retryable e
    → after_attempt 0 x again ≡ (x.0, some e)
after_last (s, finished) e again h = cc h
after_last (s, unrecoverable x) e again h = cc h
after_last (s, retryable x) e again h = cc h

after_retryable :
    {S : Type 0} (n : ℕ) (x : S × Outcome) (e : Err) (again : S → S × Option Err)
    → x.1 ≡ retryable e
    → after_attempt (suc n) x again ≡ again x.0
after_retryable n (s, finished) e again h = cc h
after_retryable n (s, unrecoverable x) e again h = cc h
after_retryable n (s, retryable x) e again h = refl

pub retry_laws : RetryLaws retry
retry_laws = record {
  at_deadline = λ S n expired body s h. rw h refl;
  on_success =
      λ S n expired body s h k. rw h (after_finished n (body s) (attempts_from S n expired body) k);
  on_unrecoverable = λ S n expired body s e h k.
      rw h (after_unrecoverable n (body s) e (attempts_from S n expired body) k);
  on_last =
      λ S expired body s e h k. rw h (after_last (body s) e (attempts_from S 0 expired body) k);
  on_retry = λ S n expired body s e h k.
      rw h (after_retryable n (body s) e (attempts_from S (suc n) expired body) k);
}
