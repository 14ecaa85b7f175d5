-- ===== src/Models/Report/Lines.antt =====
-- internal/models/argo.go: the lines and listings of a failure report.
use argo_watcher.Common.{
  String, Bool, ◌&&◌, ◌||◌, not, List, [], ◌∷◌, ◌++◌, map, select, str_eq, ◌⧺◌, join, is_empty,
  if◌then◌else◌,
}
use argo_watcher.Models.Application.{
  Application, OperationResource, Resource, TreeNode, Tree, is_terminal_failure_phase,
  is_problem_health_status,
}

-- `withMessage`.
unfoldable pub with_message : String → String → String
with_message line message = if str_eq message "" then line else line ⧺ " with message " ⧺ message

-- `syncResultOutcome`.
unfoldable pub sync_result_outcome : OperationResource → String
sync_result_outcome r =
    if not (str_eq r.status "") && not (str_eq r.status "Synced")
    then r.status
    else if is_terminal_failure_phase r.hook_phase
    then r.hook_phase
    else if not (str_eq r.status "")
    then r.status
    else r.hook_phase

-- `append(outcome, s)` where `s` is not empty.
abbrev append_text : List String → String → List String
append_text outcome s = if str_eq s "" then outcome else outcome ++ s ∷ []

-- `formatSyncResultResource`.
unfoldable pub format_sync_result_resource : OperationResource → String
unfolding with_message sync_result_outcome join
format_sync_result_resource r =
    let outcome = append_text (append_text [] r.hook_type) (sync_result_outcome r) in
    let line = r.kind ⧺ "(" ⧺ r.name ⧺ ")" in
    with_message (if is_empty outcome then line else line ⧺ " " ⧺ join outcome " ") r.message

-- `formatHealthResource`.
unfoldable pub format_health_resource : Resource → String
unfolding with_message
format_health_resource r =
    with_message (r.kind ⧺ "(" ⧺ r.name ⧺ ") " ⧺ r.health_status) r.health_message

-- `formatTreeNode`.
unfoldable pub format_tree_node : TreeNode → String
unfolding with_message
format_tree_node n = with_message (n.kind ⧺ "(" ⧺ n.name ⧺ ") " ⧺ n.health_status) n.health_message

-- `ListUnhealthyResources`.
unfoldable pub list_unhealthy_resources : Application → List String
list_unhealthy_resources app =
    map format_health_resource (select (λ r. not (str_eq r.health_status "")) app.status.resources)

abbrev out_of_sync_line : Resource → String
out_of_sync_line r =
    let line = r.kind ⧺ "(" ⧺ r.name ⧺ ") " ⧺ r.status in
    if r.requires_pruning then line ⧺ " (requires pruning)" else line

-- `listOutOfSyncResources`.
unfoldable pub list_out_of_sync_resources : Application → List String
list_out_of_sync_resources app =
    map out_of_sync_line
      (select (λ r. not (str_eq r.status "" || str_eq r.status "Synced")) app.status.resources)

-- `strings.HasSuffix(s, suffix)`: `suffix` is one of the ends of `s`.
unfoldable pub has_suffix : String → String → Bool
has_suffix String.[] suffix = str_eq "" suffix
has_suffix (String.◌∷◌ c s) suffix = str_eq (String.◌∷◌ c s) suffix || has_suffix s suffix

-- `listErrorConditions`.
unfoldable pub list_error_conditions : Application → List String
unfolding has_suffix
list_error_conditions app =
    map (λ c. c.type ⧺ ": " ⧺ c.message)
      (select (λ c. has_suffix c.type "Error") app.status.conditions)

-- `listFailedSyncResultResources`.
unfoldable pub list_failed_sync_result_resources : Application → List String
list_failed_sync_result_resources app = map format_sync_result_resource (
    select (λ r. is_terminal_failure_phase r.hook_phase || str_eq r.status "SyncFailed")
      app.status.operation_state.result_resources)

-- `listProblemResources`.
unfoldable pub list_problem_resources : Application → List String
list_problem_resources app =
    map format_health_resource
      (select (λ r. is_problem_health_status r.health_status) app.status.resources)

-- `ListProblemNodes`.
unfoldable pub list_problem_nodes : Tree → List String
list_problem_nodes tree =
    map format_tree_node (select (λ n. is_problem_health_status n.health_status) tree.nodes)

-- `ListProgressingNodes`.
unfoldable pub list_progressing_nodes : Tree → List String
list_progressing_nodes tree =
    map format_tree_node (select (λ n. str_eq n.health_status "Progressing") tree.nodes)
