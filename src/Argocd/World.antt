-- ===== src/Argocd/World.antt =====
-- internal/argocd/deployment_monitor.go and resume.go: what the monitor does to the world around it,
-- the store, the metrics and the notifications, and how a rollout's outcome is recorded.
use argo_watcher.Common.{ℕ, String, Bool, List, ◌∷◌, Option, str_eq, ◌⧺◌, if◌then◌else◌}
use argo_watcher.Models.Status.{status_failed, status_deployed, status_aborted}
use argo_watcher.Models.Task.{Task, list_images}
use argo_watcher.Models.Application.{Application, Tree, is_fire_and_forget_mode_active}
use argo_watcher.Models.Rollout.{get_rollout_status, rollout_success}
use argo_watcher.Models.Report.Failure.{rollout_failure_headline, get_rollout_message}
use argo_watcher.State.Repository.{Repository}
use argo_watcher.Argocd.Errors.{
  Err, ImageError, error_text, image_error_reason, determine_failure_status,
}
use argo_watcher.Argocd.Window.{Schedule}

-- The monitor's configuration, with `strconv.Quote` and the SHA-256 digest.
pub record Config : Type 0 where
  pub schedule : Schedule
  pub registry_proxy_url : String
  pub accept_suspended : Bool
  pub refresh_app : Bool
  pub quote : String → String
  pub hash : String → String

-- What is seen of the monitor from outside: calls of the metrics, writes of a status, and what a
-- notifier was handed.
pub data Event : Type 0 where
  in_progress_added in_progress_removed unconfirmed_failure : Event
  failed_deployment failed_deployment_reset duration_observed : String → Event
  outcome_counted : String → String → Event
  status_written : String → String → String → Event
  notified : Task → Event

abbrev pub stale_resumed_task_reason : String
stale_resumed_task_reason =
    "Deployment window elapsed while the task was unattended; marked aborted by argo-watcher."

module _ (r : Repository) where
  open r use {Store}

  -- `events` has the latest at the head.
  pub record World : Type 0 where
    pub store : Store
    pub now : ℕ
    pub events : List Event

  abbrev pub emit : Event → World → World
  emit e w = record w { events = e ∷ w.events }

  -- `State.SetTaskStatus`; its error is logged.
  unfoldable pub set_status : String → String → String → World → World
  set_status id status reason w = record w {
    store = (r.set_task_status id status reason w.now w.store).0;
    events = status_written id status reason ∷ w.events;
  }

  -- `HandleArgoAPIFailure`.
  unfoldable pub handle_argo_api_failure : Config → Task → Err → Bool → World → World × Task
  unfolding set_status
  handle_argo_api_failure c task err confirmed w =
      let counted =
        emit (if confirmed then failed_deployment task.app else unconfirmed_failure) w in
      let final_status = determine_failure_status c.quote task err in
      let reason = "ArgoCD API Error: " ⧺ error_text c.quote err in
      (set_status task.id final_status reason counted, record task { status = final_status })

  -- `HandleImageNotPartOfApp`.
  unfoldable pub handle_image_not_part_of_app : Config → Task → ImageError → World → World × Task
  unfolding set_status
  handle_image_not_part_of_app c task err w = (
    set_status task.id status_failed (image_error_reason c.quote err)
        (emit (failed_deployment task.app) w),
    record task { status = status_failed },
  )

  -- `handleDeploymentSuccess`.
  unfoldable pub handle_deployment_success : Task → World → World × Task
  unfolding set_status
  handle_deployment_success task w = (
    set_status task.id status_deployed "" (emit (failed_deployment_reset task.app) w),
    record task { status = status_deployed },
  )

  -- `handleDeploymentFailure`; `tree` is what `fetchResourceTree` brought, `none` on an error.
  unfoldable pub handle_deployment_failure :
      Config → Task → String → Application → ℕ → Option Tree → World → World × Task
  unfolding set_status
  handle_deployment_failure c task status app waited tree w =
      let reason =
        rollout_failure_headline app status waited
        ⧺ "\n\n"
        ⧺ get_rollout_message c.quote app status (list_images task) tree in
      (
        set_status task.id status_failed reason (emit (failed_deployment task.app) w),
        record task { status = status_failed },
      )

  -- The status by which `ProcessDeploymentResult` goes.
  unfoldable pub resulting_status : Config → Task → Application → String
  resulting_status c task app =
      if is_fire_and_forget_mode_active app
      then rollout_success
      else get_rollout_status app (list_images task) c.registry_proxy_url c.accept_suspended

  -- `ProcessDeploymentResult`.
  unfoldable pub process_deployment_result :
      Config → Task → Application → ℕ → Option Tree → World → World × Task
  unfolding handle_deployment_success handle_deployment_failure
  process_deployment_result c task app waited tree w =
      let status = resulting_status c task app in
      if str_eq status rollout_success
      then handle_deployment_success task w
      else handle_deployment_failure c task status app waited tree w

  -- `abortStaleTask`.
  unfoldable pub abort_stale_task : Task → World → World × Task
  unfolding set_status
  abort_stale_task task w = (
    set_status task.id status_aborted stale_resumed_task_reason (emit unconfirmed_failure w),
    record task { status = status_aborted },
  )
