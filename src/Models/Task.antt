-- ===== src/Models/Task.antt =====
-- internal/models/task.go. `Created` and `Updated` are whole seconds since the epoch.
use text.Mathlib.Text.{find?}
use argo_watcher.Common.{ℕ, String, Bool, not, ◌||◌, List, Option, map, ◌⧺◌, is_some, if◌then◌else◌}
use argo_watcher.Common.Int.{ℤ}

pub record Image : Type 0 where
  pub image : String
  pub tag : String

pub record SavedAppStatus : Type 0 where
  pub app_status : String
  pub images_hash : String

pub record Task : Type 0 where
  pub id : String
  pub created : ℕ
  pub updated : ℕ
  pub app : String
  pub author : String
  pub project : String
  pub images : List Image
  pub status : String
  pub status_reason : String
  pub validated : Bool
  pub timeout : ℤ
  pub is_rollback : Bool
  pub refresh : Option Bool
  pub rollback_target_id : String
  pub saved_app_status : SavedAppStatus

abbrev pub unknown_app : String
unknown_app = "unknown"

-- `MetricApp`.
unfoldable pub metric_app : Task → String
metric_app task = if not task.validated then unknown_app else task.app

-- `ListImages`.
unfoldable pub list_images : Task → List String
list_images task = map (λ i. i.image ⧺ ":" ⧺ i.tag) task.images

-- `strings.Contains`.
abbrev pub contains_text : String → String → Bool
contains_text s part = is_some (find? s part)

-- `IsAppNotFoundError`, at the text of the error.
unfoldable pub is_app_not_found_error : Task → String → Bool
is_app_not_found_error task message =
    let app_not_found_error = "applications.argoproj.io \"" ⧺ task.app ⧺ "\" not found" in
    contains_text message app_not_found_error || contains_text message "permission denied"
