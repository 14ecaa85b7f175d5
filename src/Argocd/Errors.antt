-- ===== src/Argocd/Errors.antt =====
-- internal/argocd: the errors of a rollout, and the task status that each leads to.
use argo_watcher.Common.{
  ℕ, String, Bool, true, false, ◌||◌, List, Option, none, some, ◌⧺◌, join, leb, if◌then◌else◌,
}
use argo_watcher.Models.Status.{status_app_not_found, status_aborted, status_failed}
use argo_watcher.Models.Task.{Task, is_app_not_found_error}

-- An error of a call to ArgoCD or to git: its text, and what `errors.As` and `errors.Is` find in it,
-- a `net.Error`, `context.DeadlineExceeded`, `context.Canceled` and the status of an `ArgoAPIError`.
pub record CallError : Type 0 where
  pub message : String
  pub is_net : Bool
  pub is_deadline : Bool
  pub is_canceled : Bool
  pub api_status : Option ℕ

-- `ImageNotPartOfAppError`.
pub record ImageError : Type 0 where
  pub app : String
  pub image : String
  pub desired_images : List String

-- The sentinels, the image error, and the errors of calls.
pub data Err : Type 0 where
  force_retry app_degraded task_superseded lease_lost replica_draining deployment_superseded : Err
  application_is_nil : Err
  image_not_part_of_app : ImageError → Err
  call : CallError → Err

-- `err.Error()`; `quote` is the verb `%q`.
unfoldable pub error_text : (String → String) → Err → String
error_text quote force_retry = "force retry"
error_text quote app_degraded = "application has degraded"
error_text quote task_superseded = "task superseded by a newer deployment"
error_text quote lease_lost = "task taken over by another replica"
error_text quote replica_draining = "replica is shutting down"
error_text quote deployment_superseded =
    "deployment superseded before write-back; aborting to avoid committing a stale image tag"
error_text quote application_is_nil = "application is nil"
error_text quote (image_not_part_of_app e) =
    "image " ⧺ quote e.image ⧺ " is not part of application " ⧺ quote e.app
error_text quote (call e) = e.message

-- `ImageNotPartOfAppError.Reason`.
unfoldable pub image_error_reason : (String → String) → ImageError → String
image_error_reason quote e =
    "Application deployment failed. Image "
    ⧺ quote e.image
    ⧺ " is not part of application "
    ⧺ quote e.app
    ⧺ ".\n\nList of images defined in the application:\n\t"
    ⧺ join e.desired_images "\n\t"
    ⧺ "\n\nThe application finished rolling out without this image, so waiting for it would only end in a timeout. Check the image name in the deployment request."

abbrev is_server_error : Option ℕ → Bool
is_server_error none = false
is_server_error (some status) = leb 500 status

-- `isArgoUnavailable`.
unfoldable pub is_argo_unavailable : Err → Bool
is_argo_unavailable (call e) =
    e.is_net || (e.is_canceled || e.is_deadline) || is_server_error e.api_status
is_argo_unavailable _ = false

-- `determineFailureStatus`.
unfoldable pub determine_failure_status : (String → String) → Task → Err → String
unfolding is_argo_unavailable error_text
determine_failure_status quote task err =
    if is_app_not_found_error task (error_text quote err)
    then status_app_not_found
    else if is_argo_unavailable err
    then status_aborted
    else status_failed

-- `rolloutStateAlreadyObserved`.
unfoldable pub rollout_state_already_observed : Err → Bool
rollout_state_already_observed force_retry = true
rollout_state_already_observed app_degraded = true
rollout_state_already_observed (call e) = e.is_deadline || e.is_canceled
rollout_state_already_observed _ = false
