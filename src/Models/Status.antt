-- ===== src/Models/Status.antt =====
-- internal/models/constants.go: the texts of a task's status.
use argo_watcher.Common.{String, Bool, List, [], ◌∷◌, contains}

abbrev pub status_app_not_found : String
status_app_not_found = "app not found"

abbrev pub status_in_progress : String
status_in_progress = "in progress"

abbrev pub status_failed : String
status_failed = "failed"

abbrev pub status_aborted : String
status_aborted = "aborted"

abbrev pub status_argocd_unavailable : String
status_argocd_unavailable = "argocd is unavailable"

abbrev pub status_connection_unavailable : String
status_connection_unavailable = "cannot connect to database"

abbrev pub status_argocd_failed_login : String
status_argocd_failed_login = "failed to login to argocd"

abbrev pub status_deployed : String
status_deployed = "deployed"

abbrev pub status_accepted : String
status_accepted = "accepted"

abbrev pub status_cancelled : String
status_cancelled = "cancelled"

-- The keys of `allowedTaskStatusFilters`.
abbrev pub allowed_task_status_filters : List String
allowed_task_status_filters =
    status_app_not_found ∷ status_in_progress ∷ status_failed ∷ status_aborted
    ∷ status_argocd_unavailable ∷ status_connection_unavailable ∷ status_argocd_failed_login
    ∷ status_deployed ∷ status_accepted ∷ status_cancelled ∷ []

-- `IsAllowedTaskStatus`.
unfoldable pub is_allowed_task_status : String → Bool
unfolding contains
is_allowed_task_status status = contains allowed_task_status_filters status
