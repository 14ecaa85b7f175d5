-- ===== src/Server/Handlers.antt =====
-- internal/server/handlers.go: the submission of a deployment and the listing of tasks. The request's
-- body as `bindJSON` reads it, and the credentials as the authenticator judges them, are arguments.
pub mod Submission
pub mod Paging
pub mod Refusal
use argo_watcher.Common.{
  ℕ, String, Bool, true, false, List, Option, none, some, if◌then◌else◌, ◌||◌, str_eq, is_empty,
  not, ◌&&◌, ◌==◌,
}
use argo_watcher.Common.Int.{ℤ, pos, lebℤ}
use argo_watcher.Models.Task.{Task}
use argo_watcher.Models.Status.{is_allowed_task_status}
use argo_watcher.State.Repository.{Repository}
use argo_watcher.Argocd.Argo.{Argo, AddError, AddResult, accepted, refused, add_task}
use argo_watcher.Auth.{Answer, AuthError}

abbrev pub max_task_list_limit : ℤ
max_task_list_limit = pos 1000

-- The responses of `addTask`: 406, 406, 401, 503 and 202.
pub data Response : Type 0 where
  invalid_payload lockdown_active : Response
  unauthorized : AuthError → Response
  down : AddError → Response
  created : String → Response

-- The task that is handed on: validated by the token, with its rollout window resolved.
abbrev pub submitted : ℤ → Bool → Task → Task
submitted deployment_timeout token_valid task = record task {
  validated = token_valid;
  timeout = if lebℤ task.timeout (pos 0) then deployment_timeout else task.timeout;
}

abbrev pub respond : {A : Type 0} → A × AddResult → A × Response
respond (argo, accepted task) = (argo, created task.id)
respond (argo, refused e) = (argo, down e)

module _ (r : Repository) where
  abbrev pub with_token : String → ℕ → ℤ → Argo r → Task → Answer → Argo r × Response
  with_token new_id now deployment_timeout argo task (token_valid, some e) = (argo, unauthorized e)
  with_token new_id now deployment_timeout argo task (token_valid, none) =
      respond (add_task r new_id now argo (submitted deployment_timeout token_valid task))

  abbrev pub with_payload :
      String → ℕ → ℤ → Bool → Answer → Argo r → Option Task → Argo r × Response
  with_payload new_id now deployment_timeout locked token argo none = (argo, invalid_payload)
  with_payload new_id now deployment_timeout locked token argo (some task) =
      if locked
      then (argo, lockdown_active)
      else with_token new_id now deployment_timeout argo task token

  -- `addTask`, up to the goroutine that it starts.
  unfoldable pub handle_add_task :
      String → ℕ → ℤ → Bool → Answer → Argo r → Option Task → Argo r × Response
  handle_add_task new_id now deployment_timeout locked token argo payload =
      with_payload new_id now deployment_timeout locked token argo payload

  -- `getState` past the parsing of its numbers, 0 where they do not parse; `none` is the response 400.
  unfoldable pub get_state : ℕ → r.Store → ℕ → ℕ → String → String → ℤ → ℤ → Option (List Task × ℕ)
  get_state now store start_time end_time app status limit offset =
      let end_time' = if end_time == 0 then now else end_time in
      let limit' =
        if lebℤ limit (pos 0) || not (lebℤ limit max_task_list_limit)
        then max_task_list_limit
        else limit in
      let offset' = if lebℤ (pos 0) offset then offset else pos 0 in
      if not (str_eq status "") && not (is_allowed_task_status status)
      then none
      else some (r.get_tasks store start_time end_time' app status limit' offset')
