-- ===== src/Argocd/Argo.antt =====
-- internal/argocd/argo.go.
pub mod Checks
pub mod Rollback
pub mod Acceptance
use argo_watcher.Common.{
  ℕ, zero, suc, ◌+◌, String, Bool, true, false, ◌&&◌, ◌||◌, not, List, [], ◌∷◌, Option, none, some,
  str_eq, ◌⧺◌, join, is_empty, if◌then◌else◌, ltb,
}
use argo_watcher.Common.Int.{ℤ, pos}
use argo_watcher.Helpers.Images.{normalize_images}
use argo_watcher.Models.Status.{
  status_argocd_unavailable, status_connection_unavailable, status_argocd_failed_login,
  status_deployed,
}
use argo_watcher.Models.Task.{Task, Image, list_images}
use argo_watcher.State.Repository.{Repository}

abbrev pub rollback_history_window : ℕ
rollback_history_window = 100

abbrev pub reason_none : String
reason_none = ""

abbrev pub reason_argocd : String
reason_argocd = "argocd"

abbrev pub reason_database : String
reason_database = "database"

abbrev pub reason_both : String
reason_both = "both"

abbrev pub superseded_task_reason : String
superseded_task_reason = "superseded by a newer deployment for the same image"

-- The cache that `setReason` keeps, with its two gauges.
pub record Availability : Type 0 where
  pub reason : String
  pub argo_unavailable : Bool
  pub state_unavailable : Bool

-- `setReason`.
unfoldable pub set_reason : String → Availability
set_reason reason = record {
  reason = reason;
  argo_unavailable = str_eq reason reason_argocd || str_eq reason reason_both;
  state_unavailable = str_eq reason reason_database || str_eq reason reason_both;
}

-- What `GetUserInfo` returned: an error, or a user that may be nil, with its `LoggedIn`.
pub data UserInfo : Type 0 where
  login_error : UserInfo
  answered : Option Bool → UserInfo

abbrev argo_error : UserInfo → Option String
argo_error login_error = some status_argocd_unavailable
argo_error (answered none) = some status_argocd_failed_login
argo_error (answered (some false)) = some status_argocd_failed_login
argo_error (answered (some true)) = none

abbrev decide : Bool → Option String → Availability × String × Option String
decide true (some err) =
    (set_reason reason_both, "down", some (status_connection_unavailable ⧺ "; " ⧺ err))
decide true none = (set_reason reason_database, "down", some status_connection_unavailable)
decide false (some err) = (set_reason reason_argocd, "down", some err)
decide false none = (set_reason reason_none, "up", none)

-- `Check`: the cache it leaves, the status and the text of the error.
unfoldable pub check : Bool → UserInfo → Availability × String × Option String
unfolding set_reason
check database_up user =
    let database_down = not database_up in decide database_down (argo_error user)

-- `IsAvailable`.
unfoldable pub is_available : Availability → Bool
is_available a = str_eq a.reason reason_none

-- `imageSignature`.
unfoldable pub image_signature : Task → String
image_signature task = join (normalize_images (list_images task)) ","

-- The loop of `detectRollback` over the earlier deployments.
unfoldable pub find_signature : String → List Task → String
find_signature target [] = ""
find_signature target (previous ∷ rest) =
    if str_eq (image_signature previous) target then previous.id else find_signature target rest

-- `detectRollback` on the deployments that the store lists.
unfoldable pub rollback_target : Task → List Task → String
rollback_target task [] = ""
rollback_target task (current ∷ earlier) =
    let target = image_signature task in
    if str_eq (image_signature current) target then "" else find_signature target earlier

-- The errors of `AddTask`.
pub data AddError : Type 0 where
  argocd_unavailable without_images without_app store_failed : AddError

pub data AddResult : Type 0 where
  accepted : Task → AddResult
  refused : AddError → AddResult

abbrev pub with_rollback : Task → String → Task
with_rollback task target = record task {
  rollback_target_id = target;
  is_rollback = not (str_eq target "");
}

module _ (r : Repository) where
  open r use {Store}

  pub record Argo : Type 0 where
    pub availability : Availability
    pub store : Store
    pub accepted_deployments : ℕ

  -- `detectRollback`.
  unfoldable pub detect_rollback : ℕ → Store → Task → String
  unfolding rollback_target
  detect_rollback now store task =
      let deployed =
        (r.get_tasks store 0 now task.app status_deployed (pos rollback_history_window)
          (pos 0)).0 in
      rollback_target task deployed

  -- `AddTask` past its guards: a failed cancellation or claim is logged, and goes on.
  unfoldable pub accept : String → ℕ → Argo → Task → Argo × AddResult
  unfolding detect_rollback
  accept new_id now argo task =
      let task' = with_rollback task (detect_rollback now argo.store task) in
      let (store, _) =
        r.cancel_in_progress_tasks task'.app task'.images superseded_task_reason task'.validated now
          argo.store in
      let (store', added) = r.add_task new_id now store task' in
      elim added [
        | none ↦ (record argo { store = store' }, refused store_failed)
        | some new_task ↦ (
          record argo {
            store = (r.claim_task new_task.id now store').0;
            accepted_deployments = argo.accepted_deployments + 1;
          },
          accepted new_task,
        )
      ]

  -- `AddTask`.
  unfoldable pub add_task : String → ℕ → Argo → Task → Argo × AddResult
  unfolding accept
  add_task new_id now argo task =
      if not (is_available argo.availability)
      then (argo, refused argocd_unavailable)
      else if is_empty task.images
      then (argo, refused without_images)
      else if str_eq task.app ""
      then (argo, refused without_app)
      else accept new_id now argo task
