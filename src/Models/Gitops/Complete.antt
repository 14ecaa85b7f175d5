-- ===== src/Models/Gitops/Complete.antt =====
-- internal/models/gitops.go: a repository that is accepted has no field missing.
use argo_watcher.Common.{
  String, Bool, List, none, str_eq, true, false, ◌≡◌, is_empty, arith, is_some, not,
}
use argo_watcher.Models.Application.{Application}
use argo_watcher.Models.Gitops.{GitopsRepo, new_gitops_repo, extract_git_overrides, missing_fields}

unfinished : (gr : GitopsRepo) → is_empty (missing_fields gr) ≡ true → str_eq gr.path "" ≡ false
unfolding missing_fields
unfinished gr h = ground arith

extracted :
    (annotations : List (String × String)) (app : Application) (b : Bool)
    → (extract_git_overrides annotations app b).1 ≡ none
    → str_eq (extract_git_overrides annotations app b).0.path "" ≡ false
unfolding extract_git_overrides
extracted annotations app b h = grind (arith, unfinished)

pub new_gitops_repo-path :
    (app : Application) (repo_cache_path : String)
    → (new_gitops_repo app repo_cache_path).1 ≡ none
    → str_eq (new_gitops_repo app repo_cache_path).0.path "" ≡ false
unfolding new_gitops_repo
new_gitops_repo-path app repo_cache_path h =
    ground (arith, extracted app.metadata.annotations app (not (is_some app.spec.sources)))
