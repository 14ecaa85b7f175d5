-- ===== src/Argocd/Poll.antt =====
-- internal/argocd/deployment_monitor.go: the polling of a rollout, `WaitRollout`. `retry.Do` is
-- github.com/avast/retry-go, a parameter. What another process or ArgoCD answers comes from a feed
-- with an entry for each poll.
pub mod Rule
pub mod Ends
pub mod Bounds
use argo_watcher.Common.{
  ℕ, zero, suc, ◌+◌, String, Bool, true, false, ◌&&◌, not, List, [], ◌∷◌, Option, none, some,
  str_eq, join, is_empty, map, if◌then◌else◌, ◌≡◌, is_some,
}
use argo_watcher.Helpers.Images.{images_contains, image_name, normalize_images}
use argo_watcher.Models.Status.{status_cancelled}
use argo_watcher.Models.Task.{Task, Image, list_images, is_app_not_found_error}
use argo_watcher.Models.Application.{
  Application, is_fire_and_forget_mode_active, is_image_validation_skipped,
}
use argo_watcher.Models.Managed.{TargetState, desired_image_names}
use argo_watcher.Models.Rollout.{
  get_rollout_status, rollout_success, rollout_degraded, rollout_not_available,
}
use argo_watcher.Argocd.Errors.{
  Err, CallError, call, force_retry, app_degraded, task_superseded, lease_lost,
  image_not_part_of_app, rollout_state_already_observed,
}
use argo_watcher.Argocd.Window.{configure_retry_options}
use argo_watcher.Argocd.World.{Config}

-- How one attempt of a retried function ends: without an error, with one that may be retried, or with
-- one wrapped by `retry.Unrecoverable`.
pub data Outcome : Type 0 where
  finished : Outcome
  retryable unrecoverable : Err → Outcome

abbrev pub deadline_exceeded : Err
deadline_exceeded = call (record {
  message = "context deadline exceeded";
  is_net = true;
  is_deadline = true;
  is_canceled = false;
  api_status = none;
})

-- `retry.Do` with `Attempts`, `Context` and `LastErrorOnly(true)`: `retry_do attempts expired body s`
-- runs the body from the state `s`; `expired` says whether the context is done.
pub record Retry : Type 1 where
  pub retry_do : (S : Type 0) → ℕ → (S → Bool) → (S → S × Outcome) → S → S × Option Err

-- What the package documents of it.
pub record RetryLaws (r : Retry) : Type 1 where
  pub at_deadline :
      (S : Type 0) (n : ℕ) (expired : S → Bool) (body : S → S × Outcome) (s : S)
      → expired s ≡ true
      → r.retry_do S (suc n) expired body s ≡ (s, some deadline_exceeded)
  pub on_success :
      (S : Type 0) (n : ℕ) (expired : S → Bool) (body : S → S × Outcome) (s : S)
      → expired s ≡ false
      → (body s).1 ≡ finished
      → r.retry_do S (suc n) expired body s ≡ ((body s).0, none)
  pub on_unrecoverable :
      (S : Type 0) (n : ℕ) (expired : S → Bool) (body : S → S × Outcome) (s : S) (e : Err)
      → expired s ≡ false
      → (body s).1 ≡ unrecoverable e
      → r.retry_do S (suc n) expired body s ≡ ((body s).0, some e)
  pub on_last :
      (S : Type 0) (expired : S → Bool) (body : S → S × Outcome) (s : S) (e : Err)
      → expired s ≡ false
      → (body s).1 ≡ retryable e
      → r.retry_do S 1 expired body s ≡ ((body s).0, some e)
  pub on_retry :
      (S : Type 0) (n : ℕ) (expired : S → Bool) (body : S → S × Outcome) (s : S) (e : Err)
      → expired s ≡ false
      → (body s).1 ≡ retryable e
      → r.retry_do S (suc (suc n)) expired body s ≡ r.retry_do S (suc n) expired body (body s).0

-- What `GetApplication` answered.
pub data Fetch : Type 0 where
  fetched : Application → Fetch
  fetch_failed : CallError → Fetch

-- What a poll meets: whether the deadline has passed before it, the task in the shared state (`none`
-- on an error), whether the rollout is given up, and ArgoCD's answers.
pub record Poll : Type 0 where
  pub expired : Bool
  pub stored : Option Task
  pub abandoned : Bool
  pub application : Fetch
  pub managed_resources : Option (List TargetState)

-- The variables that the polls share, with the number of polls made, of fetches, and of fetches whose
-- duration was recorded as a refresh.
pub record PollState : Type 0 where
  pub polls : ℕ
  pub fetches : ℕ
  pub refreshes_observed : ℕ
  pub application : Option Application
  pub images_validated : Bool

-- `taskSuperseded`, on what `GetTask` returned.
unfoldable pub task_superseded_by : Option Task → Bool
task_superseded_by none = false
task_superseded_by (some current) = str_eq current.status status_cancelled

-- `resolveRefresh`.
unfoldable pub resolve_refresh : Config → Task → Bool
resolve_refresh c task = elim task.refresh [ none ↦ c.refresh_app | some refresh ↦ refresh ]

-- `handleApplicationFetchError`.
unfoldable pub handle_application_fetch_error : Task → CallError → Outcome
handle_application_fetch_error task e =
    if is_app_not_found_error task e.message then unrecoverable (call e) else retryable (call e)

-- `shouldValidateDesiredImages`.
unfoldable pub should_validate_desired_images : Application → String → Bool
should_validate_desired_images app status =
    str_eq status rollout_not_available
    && str_eq app.status.sync_status "Synced"
    && str_eq app.status.health_status "Healthy"

-- The loop of `validateDesiredImages` over the task's images: the first that is not desired.
unfoldable pub first_undesired : List String → String → List Image → Option String
first_undesired desired registry_proxy [] = none
first_undesired desired registry_proxy (image ∷ rest) =
    let name = image_name image.image in
    if images_contains desired name registry_proxy
    then first_undesired desired registry_proxy rest
    else some name

-- `validateDesiredImages`.
unfoldable pub validate_desired_images :
    Config → Task → Application → Option (List TargetState) → Option Err
validate_desired_images c task app none = none
validate_desired_images c task app (some resources) =
    let desired = desired_image_names resources in
    if is_image_validation_skipped app
    then none
    else if is_empty desired
    then none
    else elim (first_undesired desired c.registry_proxy_url task.images) [
      | none ↦ none
      | some name ↦ some (
          image_not_part_of_app (record { app = task.app; image = name; desired_images = desired }))
    ]

abbrev pub images_hash : Config → Application → String
images_hash c app = c.hash (join (normalize_images app.status.images) ",")

-- `checkRolloutStatus`.
unfoldable pub check_rollout_status : Config → Task → Application → String → Outcome
check_rollout_status c task app status =
    if str_eq status rollout_degraded
    then (if not (str_eq task.saved_app_status.images_hash (images_hash c app))
        then unrecoverable app_degraded
        else retryable force_retry)
    else if str_eq status rollout_success
    then finished
    else retryable force_retry

-- A poll that fetched the application, up to the end of the retried function.
unfoldable pub examine : Config → Task → Poll → Application → PollState → PollState × Outcome
unfolding check_rollout_status
examine c task p app s =
    let s' = record s { application = some app } in
    let status =
      get_rollout_status app (list_images task) c.registry_proxy_url c.accept_suspended in
    let verdict = check_rollout_status c task app status in
    let validated = record s' { images_validated = true } in
    if is_fire_and_forget_mode_active app
    then (s', finished)
    else if not s.images_validated
        && resolve_refresh c task
        && should_validate_desired_images app status
    then elim (validate_desired_images c task app p.managed_resources) [
      | none ↦ (validated, verdict)
      | some e ↦ (validated, unrecoverable e)
    ]
    else (s', verdict)

abbrev pub examine_fetch : Config → Task → Poll → Fetch → PollState → PollState × Outcome
examine_fetch c task p (fetched app) s = examine c task p app s
examine_fetch c task p (fetch_failed e) s = (s, handle_application_fetch_error task e)

-- What `FetchApplication` records, whatever the answer.
abbrev pub count_fetch : Bool → PollState → PollState
count_fetch refresh s = record s {
  fetches = s.fetches + 1;
  refreshes_observed = if refresh then s.refreshes_observed + 1 else s.refreshes_observed;
}

-- The function that `WaitRollout` retries.
unfoldable pub poll_once : Config → Task → (ℕ → Poll) → PollState → PollState × Outcome
poll_once c task feed s =
    let p = feed s.polls in
    let counted = record s { polls = s.polls + 1 } in
    if task_superseded_by p.stored
    then (counted, unrecoverable task_superseded)
    else if p.abandoned
    then (counted, unrecoverable lease_lost)
    else examine_fetch c task p p.application (count_fetch (resolve_refresh c task) counted)

abbrev pub start_polling : PollState
start_polling = record {
  polls = 0;
  fetches = 0;
  refreshes_observed = 0;
  application = none;
  images_validated = false;
}

-- The error that `WaitRollout` returns: one that only says that polling ended is swallowed once the
-- application was seen.
abbrev pub reported : Option Application → Option Err → Option Err
reported none err = err
reported (some app) none = none
reported (some app) (some e) = if rollout_state_already_observed e then none else some e

-- `WaitRollout`: the state at its end and the error.
unfoldable pub wait_rollout : Retry → Config → Task → (ℕ → Poll) → PollState × Option Err
wait_rollout r c task feed =
    let attempts = (configure_retry_options c.schedule task).0 in
    let (s, err) =
      r.retry_do PollState attempts (λ s. (feed s.polls).expired) (poll_once c task feed)
        start_polling in
    (s, reported s.application err)
