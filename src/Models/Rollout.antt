-- ===== src/Models/Rollout.antt =====
-- internal/models/argo.go: `GetRolloutStatus`.
pub mod Verdict
use argo_watcher.Common.{String, Bool, true, false, ◌&&◌, not, List, [], ◌∷◌, str_eq, if◌then◌else◌}
use argo_watcher.Helpers.Images.{images_contains}
use argo_watcher.Models.Application.{Application}

abbrev pub rollout_success : String
rollout_success = "success"

abbrev pub rollout_not_synced : String
rollout_not_synced = "not synced"

abbrev pub rollout_not_available : String
rollout_not_available = "not available"

abbrev pub rollout_not_healthy : String
rollout_not_healthy = "not healthy"

abbrev pub rollout_degraded : String
rollout_degraded = "degraded"

-- The loop over the expected images: whether none is missing.
unfoldable pub all_available : List String → List String → String → Bool
all_available current [] registry_proxy = true
all_available current (image ∷ rest) registry_proxy =
    if not (images_contains current image registry_proxy)
    then false
    else all_available current rest registry_proxy

-- `GetRolloutStatus`.
unfoldable pub get_rollout_status : Application → List String → String → Bool → String
get_rollout_status app rollout_images registry_proxy accept_suspended =
    if not (all_available app.status.images rollout_images registry_proxy)
    then rollout_not_available
    else if str_eq health "Degraded" && not (str_eq sync "OutOfSync")
    then rollout_degraded
    else if not (str_eq sync "Synced")
    then rollout_not_synced
    else if str_eq health "Suspended" && str_eq sync "Synced" && accept_suspended
    then rollout_success
    else if not (str_eq health "Healthy")
    then rollout_not_healthy
    else rollout_success
  where
    health : String
    health = app.status.health_status

    sync : String
    sync = app.status.sync_status
