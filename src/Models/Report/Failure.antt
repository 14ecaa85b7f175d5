-- ===== src/Models/Report/Failure.antt =====
-- internal/models/argo.go: the headline and the message of a failed rollout. A rollout's wait is in
-- nanoseconds.
use argo_watcher.Common.{
  ℕ, zero, suc, ◌+◌, ◌/◌, ◌%◌, String, Bool, true, false, not, ◌||◌, List, [], ◌∷◌, ◌++◌, Option,
  none, some, str_eq, ◌⧺◌, join, is_empty, ltb, ◌==◌, if◌then◌else◌,
}
use argo_watcher.Models.Application.{Application, Tree, is_terminal_failure_phase}
use argo_watcher.Models.Rollout.{
  rollout_not_synced, rollout_not_available, rollout_not_healthy, rollout_degraded,
}
use argo_watcher.Models.Report.Lines.{
  list_unhealthy_resources, list_failed_sync_result_resources, list_problem_resources,
  list_problem_nodes, list_progressing_nodes,
}
use argo_watcher.Models.Report.Sync.{build_sync_failure_report, listing_section, tree_section}

abbrev pub digit : ℕ → String
digit n =
    if n == 0
    then "0"
    else if n == 1
    then "1"
    else if n == 2
    then "2"
    else if n == 3
    then "3"
    else if n == 4
    then "4"
    else if n == 5
    then "5"
    else if n == 6
    then "6"
    else if n == 7
    then "7"
    else if n == 8
    then "8"
    else "9"

-- A number in decimal; `suc n` rounds are enough for `n`.
unfoldable pub decimal_from : ℕ → ℕ → String
decimal_from zero n = ""
decimal_from (suc fuel) n =
    let rest = decimal_from fuel (n / 10) in if ltb n 10 then digit n else rest ⧺ digit (n % 10)

unfoldable pub decimal : ℕ → String
unfolding decimal_from
decimal n = decimal_from (suc n) n

-- A duration of whole seconds as Go prints it, from one second up.
unfoldable pub duration_text : ℕ → String
unfolding decimal
duration_text s =
    let hours = s / 3600 in
    let minutes = s / 60 % 60 in
    let seconds = decimal (s % 60) ⧺ "s" in
    if ltb s 60
    then seconds
    else if ltb s 3600
    then decimal minutes ⧺ "m" ⧺ seconds
    else decimal hours ⧺ "h" ⧺ decimal minutes ⧺ "m" ⧺ seconds

-- `RolloutFailureHeadline`; `Round` takes half a second up.
unfoldable pub rollout_failure_headline : Application → String → ℕ → String
rollout_failure_headline app status waited =
    if not (str_eq status rollout_not_synced)
    then "Application deployment failed. Rollout status is " ⧺ status
    else (let sync = app.status.sync_status in
        let sync_status = if str_eq sync "" then "unknown" else sync in
        let headline = "Deployment failed: ArgoCD reports sync status " ⧺ sync_status in
        let rounded = (waited + 500000000) / 1000000000 in
        (if ltb 0 rounded then headline ⧺ " after waiting " ⧺ duration_text rounded else headline)
        ⧺ ".")

-- `appendResourceListing`.
unfoldable pub append_resource_listing : String → List String → String
append_resource_listing base resources =
    if is_empty resources then base else base ⧺ "\nResources:\n\t" ⧺ join resources "\n\t"

-- `appendDiagnostics`.
unfoldable pub append_diagnostics : String → String → String
append_diagnostics base diagnostics =
    if str_eq diagnostics "" then base else base ⧺ "\n\n" ⧺ diagnostics

-- `problemResourceLines`.
unfoldable pub problem_resource_lines : Application → Option Tree → Bool → List String
problem_resource_lines app (some tree) allow_status_fallback = list_problem_nodes tree
problem_resource_lines app none allow_status_fallback =
    if allow_status_fallback then list_problem_resources app else []

-- The first section of `buildFailureDiagnostics`.
unfoldable pub operation_section : Application → List String
operation_section app =
    let operation = app.status.operation_state in
    if is_terminal_failure_phase operation.phase
    then (let section = "Sync operation phase: " ⧺ operation.phase in
        (if not (str_eq operation.message "")
          then section ⧺ "\nSync operation message: " ⧺ operation.message
          else section)
        ∷ [])
    else []

-- The sections of `buildFailureDiagnostics`.
unfoldable pub failure_sections : Application → Option Tree → Bool → List String
unfolding problem_resource_lines operation_section
failure_sections app tree allow_status_fallback =
    operation_section app
    ++ (listing_section "Failed resources:" (list_failed_sync_result_resources app)
        ++ (listing_section "Unhealthy resources:"
              (problem_resource_lines app tree allow_status_fallback)
            ++ (if str_eq app.status.health_status "Progressing"
                then tree_section "Resources still progressing:" list_progressing_nodes tree
                else [])))

-- `buildFailureDiagnostics`.
unfoldable pub build_failure_diagnostics : Application → Option Tree → Bool → String
unfolding failure_sections
build_failure_diagnostics app tree allow_status_fallback =
    join (failure_sections app tree allow_status_fallback) "\n\n"

-- `GetRolloutMessage`.
unfoldable pub get_rollout_message :
    (String → String) → Application → String → List String → Option Tree → String
get_rollout_message quote app status rollout_images tree =
    if str_eq status rollout_not_available
    then (let base =
          "List of current images (last app check):\n\t"
          ⧺ join app.status.images "\n\t"
          ⧺ "\n\nList of expected images:\n\t"
          ⧺ join rollout_images "\n\t" in
        append_diagnostics base (build_failure_diagnostics app tree true))
    else if str_eq status rollout_not_synced
    then build_sync_failure_report quote app tree
    else if str_eq status rollout_not_healthy || str_eq status rollout_degraded
    then (let base =
          "App sync status \"" ⧺ app.status.sync_status ⧺ "\"\nApp health status \""
          ⧺ app.status.health_status ⧺ "\"" in
        append_diagnostics (append_resource_listing base (list_unhealthy_resources app))
          (build_failure_diagnostics app tree false))
    else "received unexpected rollout status \"" ⧺ status ⧺ "\""
