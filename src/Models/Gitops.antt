-- ===== src/Models/Gitops.antt =====
-- internal/models/gitops.go: where a managed application is written back to.
pub mod Complete
use argo_watcher.Common.{
  String, Bool, List, [], ◌∷◌, ◌++◌, Option, none, some, str_eq, ◌⧺◌, join, is_empty, if◌then◌else◌,
  not, is_some,
}
use argo_watcher.Models.Application.{Application}

pub record GitopsRepo : Type 0 where
  pub repo_url : String
  pub branch_name : String
  pub path : String
  pub filename : String
  pub repo_cache_path : String

abbrev pub managed_git_repo : String
managed_git_repo = "argo-watcher/write-back-repo"

abbrev pub managed_git_branch : String
managed_git_branch = "argo-watcher/write-back-branch"

abbrev pub managed_git_path : String
managed_git_path = "argo-watcher/write-back-path"

abbrev pub managed_git_file : String
managed_git_file = "argo-watcher/write-back-filename"

-- `*field = value` for the field that the annotation names; the map of fields holds the file name
-- alone where the application has no list of sources.
unfoldable pub override : Bool → GitopsRepo → String × String → GitopsRepo
override is_source_nil gr (key, value) =
    if str_eq key managed_git_file
    then record gr { filename = value }
    else if is_source_nil
    then gr
    else if str_eq key managed_git_repo
    then record gr { repo_url = value }
    else if str_eq key managed_git_branch
    then record gr { branch_name = value }
    else if str_eq key managed_git_path
    then record gr { path = value }
    else gr

unfoldable pub override_all : Bool → GitopsRepo → List (String × String) → GitopsRepo
override_all is_source_nil gr [] = gr
override_all is_source_nil gr (annotation ∷ rest) =
    override_all is_source_nil (override is_source_nil gr annotation) rest

abbrev missing_field : String → String → List String
missing_field value name = if str_eq value "" then name ∷ [] else []

unfoldable pub missing_fields : GitopsRepo → List String
missing_fields gr =
    missing_field gr.repo_url "RepoUrl"
    ++ (missing_field gr.branch_name "BranchName" ++ missing_field gr.path "Path")

-- `extractGitOverrides`: the record, and the error's text where there is one.
unfoldable pub extract_git_overrides :
    List (String × String) → Application → Bool → GitopsRepo × Option String
extract_git_overrides annotations app is_source_nil =
    let gr =
      override_all is_source_nil
        (record {
          repo_url = app.spec.source.repo_url;
          branch_name = app.spec.source.target_revision;
          path = app.spec.source.path;
          filename = "";
          repo_cache_path = "";
        })
        annotations in
    let missing = missing_fields gr in
    if is_empty missing
    then (gr, none)
    else (gr, some ("invalid gitops repo: missing required field(s): " ⧺ join missing ", "))

-- `NewGitopsRepo`.
unfoldable pub new_gitops_repo : Application → String → GitopsRepo × Option String
new_gitops_repo app repo_cache_path =
    let is_source_nil = not (is_some app.spec.sources) in
    let (gr, err) = extract_git_overrides app.metadata.annotations app is_source_nil in
    elim err [
      | none ↦ (record gr { repo_cache_path = repo_cache_path }, none)
      | some e ↦ (gr, some e)
    ]
