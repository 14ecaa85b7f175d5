-- ===== src/Updater/Commit.antt =====
-- internal/updater/updater.go: an application's override file is merged, written, committed and pushed.
-- The YAML library is two arguments, and what the file system and git answer is the environment. A file
-- is known by the text of its cleaned path.
pub mod Outcome
pub mod Written
pub mod Repeated
use argo_watcher.Common.{
  String, Bool, true, false, List, [], ◌∷◌, ◌++◌, Option, none, some, str_eq, not, ◌&&◌, ◌⧺◌,
  if◌then◌else◌,
}
use argo_watcher.Argocd.Overrides.{ParameterOverride}
use argo_watcher.Updater.Merge.{merge_parameters}
use argo_watcher.Updater.Paths.{
  CleanPath, join_path, text_of, assert_inside_root, generate_override_file_name_for_app,
}

-- A file with its content.
abbrev pub Entry : Type 0
Entry = String × String

pub record Snapshot : Type 0 where
  pub message : String
  pub changes : List Entry

-- The local clone: the files of its worktree, what is staged, and the commits on top of origin.
pub record Clone : Type 0 where
  pub files : String → Option String
  pub staged : List Entry
  pub commits : List Snapshot

-- What goes wrong, at each call that can: the error's text. A write that fails leaves `torn`.
pub record Env : Type 0 where
  pub read_error : Option String
  pub worktree_error : Option String
  pub reread_fails : Bool
  pub write_error : Option String
  pub torn : Option String
  pub add_error : Option String
  pub commit_error : Option String

pub data UpdaterError : Type 0 where
  outside_root unmarshal_error marshal_error : UpdaterError
  read_failed worktree_failed write_failed add_failed commit_failed : String → UpdaterError
  budget_exhausted push_failed : String → UpdaterError

-- The results of `CommitAppLocal`.
pub data Committed : Type 0 where
  failed : UpdaterError → Committed
  committed unchanged : Committed

abbrev pub write_file : String → Option String → Clone → Clone
write_file path content clone = record clone {
  files = λ other. if str_eq path other then content else clone.files other;
}

-- `generateCommitMessage`, at what the template makes of the data; `none` is an error in it.
unfoldable pub generate_commit_message : String → Option String → String → String
generate_commit_message commit_message_format rendered app_name =
    let default_message = "argo-watcher(" ⧺ app_name ⧺ "): update image tag" in
    if str_eq commit_message_format ""
    then default_message
    else elim rendered [ none ↦ default_message | some text ↦ text ]

-- Staging and committing the file that was written.
abbrev pub commit_staged : Option String → String → Clone → Clone × Committed
commit_staged (some e) message clone = (clone, failed (commit_failed e))
commit_staged none message clone = (
  record clone {
    staged = [];
    commits = clone.commits ++ record { message = message; changes = clone.staged } ∷ [];
  },
  committed,
)

abbrev pub stage :
    Option String → Option String → String → String → String → Clone → Clone × Committed
stage (some e) commit_error path content message clone = (clone, failed (add_failed e))
stage none commit_error path content message clone =
    commit_staged commit_error message
      (record clone { staged = clone.staged ++ (path, content) ∷ [] })

abbrev pub write_and_commit :
    Option String → Env → String → String → String → Clone → Clone × Committed
write_and_commit (some e) env path content message clone =
    (write_file path env.torn clone, failed (write_failed e))
write_and_commit none env path content message clone =
    stage env.add_error env.commit_error path content message (write_file path (some content) clone)

-- Whether the file can be read and holds these bytes.
abbrev pub is_same : Bool → Option String → String → Bool
is_same reread_fails none content = false
is_same reread_fails (some existing) content = not reread_fails && str_eq existing content

-- The result of a merge.
pub data Merged : Type 0 where
  merge_failed : UpdaterError → Merged
  merged : List ParameterOverride → Merged

module _ (unmarshal : String → Option (List ParameterOverride))
    (marshal : List ParameterOverride → Option String) where
  abbrev pub merge_into : List ParameterOverride → Option (List ParameterOverride) → Merged
  merge_into new none = merge_failed unmarshal_error
  merge_into new (some existing) = merged (merge_parameters existing new)

  abbrev pub merge_with : Option String → Option String → List ParameterOverride → Merged
  merge_with read_error none new = merged new
  merge_with (some e) (some existing) new = merge_failed (read_failed e)
  merge_with none (some existing) new = merge_into new (unmarshal existing)

  -- `mergeOverrideFileContent`, at the file's content.
  unfoldable pub merge_override_file_content :
      Env → String → List ParameterOverride → Clone → Merged
  merge_override_file_content env path new clone = merge_with env.read_error (clone.files path) new

  abbrev pub commit_content : Env → String → String → Option String → Clone → Clone × Committed
  commit_content env path message none clone = (clone, failed marshal_error)
  commit_content env path message (some content) clone =
      if is_same env.reread_fails (clone.files path) content
      then (clone, unchanged)
      else write_and_commit env.write_error env path content message clone

  abbrev pub with_worktree :
      Option String → Env → String → String → List ParameterOverride → Clone → Clone × Committed
  with_worktree (some e) env path message parameters clone = (clone, failed (worktree_failed e))
  with_worktree none env path message parameters clone =
      commit_content env path message (marshal parameters) clone

  -- `commitLocal`.
  unfoldable pub commit_local :
      Env → String → String → List ParameterOverride → Clone → Clone × Committed
  commit_local env path message parameters clone =
      with_worktree env.worktree_error env path message parameters clone

  abbrev pub commit_merged : Env → String → String → Merged → Clone → Clone × Committed
  commit_merged env path message (merge_failed e) clone = (clone, failed e)
  commit_merged env path message (merged parameters) clone =
      commit_local env path message parameters clone

  -- `CommitAppLocal`, at the clone's root and the commit message.
  unfoldable pub commit_app_local :
      CleanPath
      → String
      → String
      → String
      → String
      → List ParameterOverride
      → Env
      → Clone
      → Clone × Committed
  commit_app_local root app_name path file_name message new env clone =
      let full_path =
        join_path root (generate_override_file_name_for_app path file_name app_name) in
      let file = text_of full_path in
      if not (assert_inside_root root full_path)
      then (clone, failed outside_root)
      else commit_merged env file message (merge_override_file_content env file new clone) clone

  -- `push`, at the context's error and the answer of the remote.
  unfoldable pub push : Option String → Option String → Option UpdaterError
  push (some e) answer = some (budget_exhausted e)
  push none (some e) = some (push_failed e)
  push none none = none

  abbrev pub push_after : Option UpdaterError → Clone × Committed → Clone × Option UpdaterError
  push_after pushed (clone, failed e) = (clone, some e)
  push_after pushed (clone, unchanged) = (clone, none)
  push_after pushed (clone, committed) = (clone, pushed)

  -- `UpdateApp`: its error, after the push where there is something to push.
  unfoldable pub update_app :
      CleanPath
      → String
      → String
      → String
      → String
      → List ParameterOverride
      → Env
      → Option String
      → Option String
      → Clone
      → Clone × Option UpdaterError
  update_app root app_name path file_name message new env expired answer clone =
      push_after (push expired answer)
        (commit_app_local root app_name path file_name message new env clone)
