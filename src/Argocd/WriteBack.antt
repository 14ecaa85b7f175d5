-- ===== src/Argocd/WriteBack.antt =====
-- internal/argocd/git_writeback.go and git_updater.go: the write-back of one application, with its
-- attempts. What git, the clock and other processes do is the environment, an entry for each attempt,
-- counted from 1. The invalidation of the clone's cache
-- before the last attempt and the length of the waits are left out, and the way through a batcher.
pub mod Written
pub mod Needed
use argo_watcher.Common.{
  ℕ, zero, suc, String, Bool, true, false, not, List, Option, none, some, str_eq, if◌then◌else◌,
}
use argo_watcher.Models.Task.{Task}
use argo_watcher.Models.Application.{Application, is_managed_by_watcher}
use argo_watcher.Models.Gitops.{GitopsRepo, new_gitops_repo}
use argo_watcher.Argocd.Overrides.{
  OverrideError, ParameterOverride, Overrides, failed, parameters, generate_override_file_content,
}
use argo_watcher.Argocd.BatchWrite.{GitError}

-- An attempt's surroundings: `cancelled` is the error of a context that ends during the wait after it.
pub record GitAttempt : Type 0 where
  pub is_superseded : Bool
  pub clone : Option GitError
  pub update_app : List ParameterOverride → Option GitError
  pub cancelled : Option GitError

-- The errors of an attempt.
pub data AttemptError : Type 0 where
  clone_failed update_failed : GitError → AttemptError

-- The errors of an update. `attempts_exhausted` holds the last attempt's, if there was one.
pub data UpdateError : Type 0 where
  deployment_superseded : UpdateError
  attempt_failed : AttemptError → UpdateError
  backoff_cancelled config_error lock_error : GitError → UpdateError
  attempts_exhausted : Option AttemptError → UpdateError
  invalid_overrides : OverrideError → UpdateError
  invalid_repo : String → UpdateError

-- `updater.IsPermanent`, which sees through the wrapping.
abbrev pub is_permanent : AttemptError → Bool
is_permanent (clone_failed g) = g.permanent
is_permanent (update_failed g) = g.permanent

abbrev pub after_clone : Option GitError → Option GitError → Option AttemptError
after_clone (some g) update = some (clone_failed g)
after_clone none (some g) = some (update_failed g)
after_clone none none = none

-- `runGitUpdateAttempt`.
abbrev pub run_git_update_attempt : List ParameterOverride → GitAttempt → Option AttemptError
run_git_update_attempt overrides a = after_clone a.clone (a.update_app overrides)

-- `backoffBeforeRetry` with so many attempts left, and what follows it.
abbrev pub after_backoff : ℕ → Option GitError → Option UpdateError → Option UpdateError
after_backoff zero cancelled more = more
after_backoff (suc left) none more = more
after_backoff (suc left) (some g) more = some (backoff_cancelled g)

abbrev pub after_attempt :
    ℕ → GitAttempt → Option AttemptError → Option UpdateError → Option UpdateError
after_attempt left a none more = none
after_attempt left a (some e) more =
    if is_permanent e then some (attempt_failed e) else after_backoff left a.cancelled more

module _ (feed : ℕ → GitAttempt) (overrides : List ParameterOverride) where
  -- The loop of `runGitUpdateWithRetry` with so many attempts left, from the attempt `i`.
  unfoldable pub tries : ℕ → ℕ → Option AttemptError → Option UpdateError
  tries zero i last = some (attempts_exhausted last)
  tries (suc left) i last =
      let result = run_git_update_attempt overrides (feed i) in
      let more = tries left (suc i) result in
      if (feed i).is_superseded
      then some deployment_superseded
      else after_attempt left (feed i) result more

  -- `runGitUpdateWithRetry`.
  unfoldable pub run_git_update_with_retry : ℕ → Option UpdateError
  run_git_update_with_retry max_attempts = tries max_attempts 1 none

-- What is read of git's configuration: its error, or the number of attempts.
pub data GitConfig : Type 0 where
  unreadable : GitError → GitConfig
  max_attempts : ℕ → GitConfig

abbrev pub with_config : (ℕ → GitAttempt) → List ParameterOverride → GitConfig → Option UpdateError
with_config feed overrides (unreadable g) = some (config_error g)
with_config feed overrides (max_attempts n) = run_git_update_with_retry feed overrides n

abbrev pub with_overrides : (ℕ → GitAttempt) → GitConfig → Option Overrides → Option UpdateError
with_overrides feed config none = none
with_overrides feed config (some (failed e)) = some (invalid_overrides e)
with_overrides feed config (some (parameters ps)) = with_config feed ps config

-- `UpdateGitImageTag`.
unfoldable pub update_git_image_tag :
    (ℕ → GitAttempt) → GitConfig → Application → Task → GitopsRepo → Option UpdateError
update_git_image_tag feed config app task gitops_repo =
    if str_eq gitops_repo.path ""
    then none
    else with_overrides feed config
        (generate_override_file_content app.metadata.annotations task.images)

-- The locker's `WithLock`: the error of a lock that could not be taken, or what is done under it.
abbrev pub with_lock : Option GitError → Option UpdateError → Option UpdateError
with_lock (some g) work = some (lock_error g)
with_lock none work = work

abbrev pub with_repo :
    (ℕ → GitAttempt)
    → GitConfig
    → Option GitError
    → Application
    → Task
    → GitopsRepo × Option String
    → Option UpdateError
with_repo feed config lock app task (gitops_repo, some e) = some (invalid_repo e)
with_repo feed config lock app task (gitops_repo, none) =
    with_lock lock (update_git_image_tag feed config app task gitops_repo)

-- `UpdateIfNeeded` without a batcher: its error, and whether it is counted as skipped.
unfoldable pub update_if_needed :
    (ℕ → GitAttempt)
    → GitConfig
    → Option GitError
    → String
    → Application
    → Task
    → Option UpdateError × Bool
update_if_needed feed config lock repo_cache_path app task =
    if not (is_managed_by_watcher app)
    then (none, false)
    else if not task.validated
    then (none, true)
    else (with_repo feed config lock app task (new_gitops_repo app repo_cache_path), false)
