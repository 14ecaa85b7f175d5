-- ===== src/Argocd/WriteBack/Needed.antt =====
-- internal/argocd/git_updater.go: what it means that `UpdateIfNeeded` returns without an error.
use argo_watcher.Common.{
  ℕ, zero, suc, ◌<◌, ◌≤◌, String, true, false, Option, none, some, str_eq, ◌≡◌, refl, arith, List,
}
use argo_watcher.Models.Task.{Task}
use argo_watcher.Models.Application.{Application, is_managed_by_watcher}
use argo_watcher.Models.Gitops.{GitopsRepo, new_gitops_repo}
use argo_watcher.Models.Gitops.Complete.{new_gitops_repo-path}
use argo_watcher.Argocd.Overrides.{ParameterOverride, parameters, generate_override_file_content}
use argo_watcher.Argocd.BatchWrite.{GitError}
use argo_watcher.Argocd.WriteBack.{
  GitAttempt, GitConfig, unreadable, max_attempts, UpdateError, with_config, with_repo,
  run_git_update_with_retry, run_git_update_attempt, update_git_image_tag, update_if_needed, tries,
}
use argo_watcher.Argocd.WriteBack.Written.{EndsFrom, Retried, run_git_update_with_retry-EndsFrom}

module _ (feed : ℕ → GitAttempt) (ps : List ParameterOverride) where
  -- Some attempt among those that are configured cloned and updated, and those before it failed in
  -- passing.
  abbrev pub Updated : GitConfig → Type 0
  Updated config =
      (n : ℕ) × (config ≡ max_attempts n)
      × (m : ℕ) × (0 < m)
      × (m ≤ n)
      × ((feed m).is_superseded ≡ false)
      × (run_git_update_attempt ps (feed m) ≡ none)
      × ((j : ℕ) → 0 < j → j < m → Retried feed ps j)

  Ended_with_none-Updated :
      (n : ℕ) (result : Option UpdateError)
      → result ≡ none
      → EndsFrom feed ps n 1 result
      → Updated (max_attempts n)
  Ended_with_none-Updated n none h (m, l, u, before, (s, w)) =
      (n, refl, m, omega (arith, l), u, s, w, λ j a b. before j (omega (arith, a)) b)
  Ended_with_none-Updated n (some e) h r = absurd (cc h)

  with_config-Updated : (config : GitConfig) → with_config feed ps config ≡ none → Updated config
  unfolding run_git_update_with_retry tries
  with_config-Updated (unreadable g) h = absurd (cc h)
  with_config-Updated (max_attempts zero) h = absurd (cc h)
  with_config-Updated (max_attempts (suc n)) h =
      Ended_with_none-Updated (suc n) _ h
        (run_git_update_with_retry-EndsFrom feed ps (suc n) (omega arith))

  with_repo-Updated :
      (config : GitConfig) (lock : Option GitError) (app : Application) (task : Task)
      (repo : GitopsRepo × Option String)
      → generate_override_file_content app.metadata.annotations task.images ≡ some (parameters ps)
      → (repo.1 ≡ none → str_eq repo.0.path "" ≡ false)
      → with_repo feed config lock app task repo ≡ none
      → Updated config
  unfolding update_git_image_tag
  with_repo-Updated config lock app task (repo, some e) g p h = absurd (cc h)
  with_repo-Updated config (some e) app task (repo, none) g p h = absurd (cc h)
  with_repo-Updated config none app task (repo, none) g p h =
      with_config-Updated config (rw (p refl, g) at h)

-- On the way without a batcher, for an application that the watcher manages, and a task whose credentials
-- are valid and for whose images the override file is generated: when the update returns without an
-- error, one of the configured attempts, made while the task was not superseded, cloned the repository
-- and updated the application with these overrides, neither with an error; and the attempts before it
-- failed in passing. An update that finds the overrides written already does without a push.
pub update_if_needed-Updated :
    (feed : ℕ → GitAttempt) (config : GitConfig) (lock : Option GitError) (repo_cache_path : String)
    (app : Application) (task : Task) (ps : List ParameterOverride)
    → is_managed_by_watcher app ≡ true
    → task.validated ≡ true
    → generate_override_file_content app.metadata.annotations task.images ≡ some (parameters ps)
    → (update_if_needed feed config lock repo_cache_path app task).0 ≡ none
    → Updated feed ps config
unfolding update_if_needed update_git_image_tag
update_if_needed-Updated feed config lock repo_cache_path app task ps managed valid g h =
    with_repo-Updated feed ps config lock app task (new_gitops_repo app repo_cache_path) g
      (new_gitops_repo-path app repo_cache_path) (rw (managed, valid) at h)
