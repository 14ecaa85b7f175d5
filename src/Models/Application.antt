-- ===== src/Models/Application.antt =====
-- internal/models/argo.go: the parts of ArgoCD's application that the watcher reads. The anonymous
-- structs `Health`, `Summary`, `Sync` and `SyncResult` are spelled out as fields with a prefix.
use argo_watcher.Common.{
  String, Bool, true, false, ◌||◌, List, [], ◌∷◌, Option, none, some, str_eq, if◌then◌else◌,
}

pub record OperationResource : Type 0 where
  pub hook_phase : String
  pub hook_type : String
  pub kind : String
  pub message : String
  pub status : String
  pub sync_phase : String
  pub name : String
  pub namespace : String

pub record Resource : Type 0 where
  pub kind : String
  pub name : String
  pub namespace : String
  pub status : String
  pub requires_pruning : Bool
  pub health_message : String
  pub health_status : String

pub record TreeNode : Type 0 where
  pub kind : String
  pub name : String
  pub namespace : String
  pub health_status : String
  pub health_message : String

pub record Tree : Type 0 where
  pub nodes : List TreeNode

pub record Condition : Type 0 where
  pub type : String
  pub message : String

pub record OperationState : Type 0 where
  pub phase : String
  pub message : String
  pub result_resources : List OperationResource
  pub result_revision : String
  pub result_revisions : List String

pub record ApplicationStatus : Type 0 where
  pub health_status : String
  pub conditions : List Condition
  pub operation_state : OperationState
  pub resources : List Resource
  pub images : List String
  pub sync_status : String
  pub sync_revision : String
  pub sync_revisions : List String

-- `Annotations` is a map; a nil map and a missing key both read as the empty text.
pub record Metadata : Type 0 where
  pub name : String
  pub annotations : List (String × String)

pub record Source : Type 0 where
  pub repo_url : String
  pub target_revision : String
  pub path : String

pub record SyncPolicyAutomated : Type 0 where
  pub prune : Bool
  pub self_heal : Bool
  pub enabled : Option Bool

pub record SyncPolicy : Type 0 where
  pub automated : Option SyncPolicyAutomated

-- A nil `Sources` is `none`.
pub record Spec : Type 0 where
  pub source : Source
  pub sources : Option (List Source)
  pub sync_policy : Option SyncPolicy

pub record Application : Type 0 where
  pub metadata : Metadata
  pub spec : Spec
  pub status : ApplicationStatus

-- `m[key]` on a map of texts: "" where the key is missing.
unfoldable pub lookup_text : String → List (String × String) → String
lookup_text key [] = ""
lookup_text key ((k, v) ∷ rest) = if str_eq k key then v else lookup_text key rest

abbrev pub managed_annotation : String
managed_annotation = "argo-watcher/managed"

abbrev pub fire_and_forget_annotation : String
fire_and_forget_annotation = "argo-watcher/fire-and-forget"

abbrev pub skip_image_validation_annotation : String
skip_image_validation_annotation = "argo-watcher/skip-image-validation"

-- `IsManagedByWatcher`.
unfoldable pub is_managed_by_watcher : Application → Bool
is_managed_by_watcher app = str_eq (lookup_text managed_annotation app.metadata.annotations) "true"

-- `IsFireAndForgetModeActive`.
unfoldable pub is_fire_and_forget_mode_active : Application → Bool
is_fire_and_forget_mode_active app =
    str_eq (lookup_text fire_and_forget_annotation app.metadata.annotations) "true"

-- `IsImageValidationSkipped`.
unfoldable pub is_image_validation_skipped : Application → Bool
is_image_validation_skipped app =
    str_eq (lookup_text skip_image_validation_annotation app.metadata.annotations) "true"

abbrev automated_enabled : SyncPolicyAutomated → Bool
automated_enabled automated = elim automated.enabled [ none ↦ true | some enabled ↦ enabled ]

abbrev policy_enabled : Option SyncPolicy → Bool
policy_enabled none = false
policy_enabled (some policy) = elim policy.automated [
  | none ↦ false
  | some automated ↦ automated_enabled automated
]

-- `AutoSyncEnabled`.
unfoldable pub auto_sync_enabled : Application → Bool
auto_sync_enabled app = policy_enabled app.spec.sync_policy

-- `isTerminalFailurePhase`.
unfoldable pub is_terminal_failure_phase : String → Bool
is_terminal_failure_phase phase = str_eq phase "Failed" || str_eq phase "Error"

-- `isProblemHealthStatus`.
unfoldable pub is_problem_health_status : String → Bool
is_problem_health_status status =
    str_eq status "Degraded"
    || str_eq status "Missing"
    || str_eq status "Unknown"
    || str_eq status "Suspended"
