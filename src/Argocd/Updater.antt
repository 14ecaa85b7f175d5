-- ===== src/Argocd/Updater.antt =====
-- internal/argocd/argo_status_updater.go and resume.go: the life of a monitored rollout. What other
-- processes, ArgoCD, git and the clock do while it runs is its environment, in the order in which the
-- code asks.
pub mod Seen
pub mod Outcomes
pub mod Safety
use argo_watcher.Common.{ℕ, Bool, true, false, ◌&&◌, not, Option, none, some, str_eq, if◌then◌else◌}
use argo_watcher.Common.Int.{quot}
use argo_watcher.Models.Status.{status_cancelled, status_deployed}
use argo_watcher.Models.Task.{Task, list_images}
use argo_watcher.Models.Application.{Application, Tree}
use argo_watcher.Models.Rollout.{get_rollout_status}
use argo_watcher.State.Repository.{Repository}
use argo_watcher.Argocd.Errors.{
  Err, call, task_superseded, lease_lost, replica_draining, deployment_superseded,
  application_is_nil, image_not_part_of_app,
}
use argo_watcher.Argocd.Window.{second, remaining_window}
use argo_watcher.Argocd.World.{
  Config, in_progress_added, in_progress_removed, duration_observed, outcome_counted, notified,
  World, emit, handle_argo_api_failure, handle_image_not_part_of_app, process_deployment_result,
  abort_stale_task,
}
use argo_watcher.Argocd.Poll.{
  Retry, Fetch, fetched, fetch_failed, Poll, PollState, images_hash, task_superseded_by,
  wait_rollout,
}

pub record Env : Type 0 where
  pub first_read : Option Task
  pub confirmation : Fetch
  -- `UpdateIfNeeded`'s error, for the application and the task.
  pub write_back : Application → Task → Option Err
  pub given_up_in_write_back : Bool
  pub read_after_write_back : Option Task
  pub feed : ℕ → Poll
  pub waited : ℕ
  pub lost : Bool
  pub draining : Bool
  pub tree : Option Tree

-- `StoreInitialAppStatus`.
unfoldable pub store_initial_app_status : Config → Task → Option Application → Task × Option Err
store_initial_app_status c task none = (task, some application_is_nil)
store_initial_app_status c task (some app) = (
  record task {
    saved_app_status = record {
      app_status =
          get_rollout_status app (list_images task) c.registry_proxy_url c.accept_suspended;
      images_hash = images_hash c app;
    };
  },
  none,
)

-- `abortedWriteBackCause`.
unfoldable pub aborted_write_back_cause : Env → Err
aborted_write_back_cause env =
    if env.given_up_in_write_back && not (task_superseded_by env.read_after_write_back)
    then lease_lost
    else task_superseded

-- What `waitForApplicationDeployment` returns, less the wait.
pub record Deployment : Type 0 where
  pub application : Option Application
  pub confirmed : Bool
  pub error : Option Err

abbrev pub write_back_cause : Env → Err → Err
write_back_cause env deployment_superseded = aborted_write_back_cause env
write_back_cause env e = e

abbrev pub polled : PollState × Option Err → Deployment
polled (s, err) = record { application = s.application; confirmed = true; error = err }

abbrev pub write_back_ended : Retry → Config → Env → Task → Option Err → Deployment
write_back_ended r c env task none = polled (wait_rollout r c task env.feed)
write_back_ended r c env task (some e) = record {
  application = none;
  confirmed = true;
  error = some (write_back_cause env e);
}

abbrev pub confirmed_deployment : Retry → Config → Env → Task → Fetch → Deployment
confirmed_deployment r c env task (fetch_failed e) = record {
  application = none;
  confirmed = false;
  error = some (call e);
}
confirmed_deployment r c env task (fetched app) =
    let task' = (store_initial_app_status c task (some app)).0 in
    write_back_ended r c env task' (env.write_back app task')

-- `waitForApplicationDeployment`.
unfoldable pub wait_for_application_deployment : Retry → Config → Env → Task → Deployment
unfolding store_initial_app_status aborted_write_back_cause
wait_for_application_deployment r c env task =
    if task_superseded_by env.first_read
    then record { application = none; confirmed = false; error = some task_superseded }
    else confirmed_deployment r c env task env.confirmation

abbrev pub is_superseded_error : Option Err → Bool
is_superseded_error (some task_superseded) = true
is_superseded_error _ = false

-- The first `switch` of `waitForRollout`: a claim that was lost outranks a supersession, which
-- outranks a shutdown.
unfoldable pub final_error : Env → Option Err → Option Err
final_error env err =
    if env.lost
    then some lease_lost
    else if is_superseded_error err
    then err
    else if env.draining
    then some replica_draining
    else err

module _ (r : Repository) where
  -- Its second `switch`; `none` is an early return. The default branch reads the application.
  unfoldable pub record_outcome :
      Config → Env → Task → Deployment → Option Err → World r → World r × Option Task
  record_outcome c env task d (some replica_draining) w = (w, none)
  record_outcome c env task d (some lease_lost) w = (w, none)
  record_outcome c env task d (some (image_not_part_of_app e)) w =
      let (w', task') = handle_image_not_part_of_app r c task e w in (w', some task')
  record_outcome c env task d (some task_superseded) w =
      (w, some (record task { status = status_cancelled }))
  record_outcome c env task d (some e) w =
      let (w', task') = handle_argo_api_failure r c task e d.confirmed w in (w', some task')
  record_outcome c env task d none w = elim d.application [
    | none ↦ (w, none)
    | some app ↦
        let (w', task') = process_deployment_result r c task app env.waited env.tree w in
        (w', some task')
  ]

  -- What follows the recorded outcome.
  unfoldable pub announce : Task → Bool → World r → World r
  announce task confirmed w =
      let counted = if confirmed then emit r (outcome_counted task.app task.status) w else w in
      let timed =
        if str_eq task.status status_deployed
        then emit r (duration_observed task.app) counted
        else counted in
      emit r (notified task) timed

  abbrev pub conclude : Bool → World r × Option Task → World r
  conclude confirmed (w, none) = w
  conclude confirmed (w, some task) = announce task confirmed w

  -- `waitForRollout`.
  unfoldable pub wait_for_rollout : Retry → Config → Env → Bool → Task → World r → World r
  unfolding record_outcome announce
  wait_for_rollout retry c env resumed task w =
      let begun = emit r in_progress_added w in
      let started = if not resumed then emit r (notified task) begun else begun in
      let d = wait_for_application_deployment retry c env task in
      let ended = record_outcome c env task d (final_error env d.error) started in
      emit r in_progress_removed (conclude d.confirmed ended)

  -- `ResumeRollout` at the time `now` in nanoseconds.
  unfoldable pub resume_rollout : Retry → Config → Env → ℕ → Task → World r → World r
  resume_rollout retry c env now task w =
      let (remaining, resumable) = remaining_window c.schedule task now in
      if not resumable
      then (let (w', task') = abort_stale_task r task w in emit r (notified task') w')
      else wait_for_rollout retry c env true (record task { timeout = quot remaining second }) w
