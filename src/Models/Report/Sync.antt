-- ===== src/Models/Report/Sync.antt =====
-- internal/models/argo.go: the report of a "not synced" failure. `quote` is `strconv.Quote`, the verb
-- `%q`.
use argo_watcher.Common.{
  String, Bool, ◌&&◌, not, List, [], ◌∷◌, ◌++◌, Option, none, some, str_eq, ◌⧺◌, join, is_empty,
  ◌||◌, if◌then◌else◌,
}
use argo_watcher.Models.Application.{
  Application, Tree, SyncPolicy, SyncPolicyAutomated, auto_sync_enabled,
}
use argo_watcher.Models.Report.Lines.{
  list_error_conditions, list_problem_nodes, list_out_of_sync_resources,
  list_failed_sync_result_resources,
}
use argo_watcher.Models.Report.Revisions.{new_revisions}

-- `onOff`.
unfoldable pub on_off : Bool → String
on_off enabled = if enabled then "on" else "off"

abbrev automated_of : Option SyncPolicy → Option SyncPolicyAutomated
automated_of none = none
automated_of (some policy) = policy.automated

abbrev enabled_note : Option SyncPolicyAutomated → String
enabled_note none = ""
enabled_note (some automated) =
    "Auto-sync is enabled (prune "
    ⧺ on_off automated.prune
    ⧺ ", self-heal "
    ⧺ on_off automated.self_heal
    ⧺ ")."

-- `autoSyncNote`. Where auto-sync is enabled the `automated` block is there.
unfoldable pub auto_sync_note : Application → String
unfolding on_off
auto_sync_note app =
    if not (auto_sync_enabled app)
    then "Auto-sync is disabled: ArgoCD applies the desired state only when a sync is triggered."
    else enabled_note (automated_of app.spec.sync_policy)

-- `buildDriftExplanation`.
unfoldable pub build_drift_explanation : Application → String
build_drift_explanation app =
    let operation = app.status.operation_state in
    let applied = new_revisions operation.result_revision operation.result_revisions in
    let compared = new_revisions app.status.sync_revision app.status.sync_revisions in
    if not (str_eq operation.phase "Succeeded")
    then ""
    else if str_eq applied.key "" || str_eq compared.key ""
    then ""
    else (if str_eq applied.key compared.key
        then "The last sync succeeded for " ⧺ applied.phrase
          ⧺ " and the application is still out of sync against exactly "
          ⧺ "what that sync applied, so applying it did not converge the live state. Usual causes: "
          ⧺ "a mutating admission webhook, a controller that owns a field the manifests also set "
          ⧺ "(replicas versus an HPA), a resource that has to be pruned, or a sync that covered "
          ⧺ "only some resources. Extra waiting is unlikely to help."
        else "The last sync applied " ⧺ applied.phrase
          ⧺ ", but ArgoCD now compares the application against " ⧺ compared.phrase ⧺ ", so the "
          ⧺ "desired state has changed since that sync.")
      ⧺ "\n"
      ⧺ auto_sync_note app

-- `lastSyncOperationLine`.
unfoldable pub last_sync_operation_line : (String → String) → Application → String
last_sync_operation_line quote app =
    let operation = app.status.operation_state in
    if str_eq operation.phase "" && str_eq operation.message ""
    then "No sync operation is recorded for this application."
    else (let phase = if str_eq operation.phase "" then "unknown" else operation.phase in
        let line = "Last sync operation: " ⧺ phase in
        if not (str_eq operation.message "")
        then line ⧺ ", message: " ⧺ quote operation.message
        else line)

-- `append(sections, heading + strings.Join(list, "\n\t"))` where the list is not empty.
unfoldable pub listing_section : String → List String → List String
listing_section heading list =
    if is_empty list then [] else (heading ⧺ "\n\t" ⧺ join list "\n\t") ∷ []

abbrev pub tree_section : String → (Tree → List String) → Option Tree → List String
tree_section heading list none = []
tree_section heading list (some tree) = listing_section heading (list tree)

abbrev pub text_section : String → List String
text_section s = if str_eq s "" then [] else s ∷ []

-- The sections of `buildSyncFailureReport` before the last.
unfoldable pub sync_failure_sections : Application → Option Tree → List String
sync_failure_sections app tree =
    text_section (build_drift_explanation app)
    ++ (listing_section "Sync errors:" (list_error_conditions app)
        ++ (tree_section "Unhealthy resources:" list_problem_nodes tree
            ++ (listing_section "Out-of-sync resources:" (list_out_of_sync_resources app)
                ++ listing_section "Failed resources:" (list_failed_sync_result_resources app))))

-- `buildSyncFailureReport`.
unfoldable pub build_sync_failure_report : (String → String) → Application → Option Tree → String
unfolding sync_failure_sections
build_sync_failure_report quote app tree =
    join (sync_failure_sections app tree ++ last_sync_operation_line quote app ∷ []) "\n\n"
