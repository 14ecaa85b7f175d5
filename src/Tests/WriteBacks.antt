-- ===== src/Tests/WriteBacks.antt =====
-- Examples for the write-back of one application.
use argo_watcher.Common.{ℕ, true, false, [], ◌∷◌, none, some, refl, ltb, arith, if◌then◌else◌}
use argo_watcher.Common.Split.{split, trim_left, trim_right}
use argo_watcher.Models.Application.{Application, is_managed_by_watcher, lookup_text}
use argo_watcher.Models.Gitops.{
  new_gitops_repo, extract_git_overrides, missing_fields, override_all, override,
}
use argo_watcher.Argocd.Overrides.{
  ParameterOverride, generate_override_file_content, extract_managed_images, find_annotation,
  managed_images_of, put, all_overrides, overrides_of,
}
use argo_watcher.Argocd.WriteBack.{
  GitAttempt, max_attempts, run_git_update_with_retry, tries, update_if_needed,
  update_git_image_tag,
}
use argo_watcher.Argocd.WriteBack.Written.{EndsFrom, run_git_update_with_retry-EndsFrom}
use argo_watcher.Argocd.WriteBack.Needed.{Updated, update_if_needed-Updated}
use argo_watcher.Tests.{api_task, outdated}

abbrev tag_override : ParameterOverride
tag_override = record { name = "image.tag"; value = "v2"; force_string = true }

-- The first push is lost to another writer.
abbrev contended : ℕ → GitAttempt
contended i = record {
  is_superseded = false;
  clone = none;
  update_app = λ ps.
      if ltb i 2
      then some (record { message = "non-fast-forward update"; permanent = false })
      else none;
  cancelled = none;
}

abbrev managed_app : Application
managed_app = record outdated {
  metadata = record {
    name = "api";
    annotations =
        ("argo-watcher/managed", "true")
        ∷ ("argo-watcher/managed-images", "app=reg/api")
        ∷ ("argo-watcher/app.helm.image-tag", "image.tag")
        ∷ [];
  };
  spec = record outdated.spec {
    source = record { repo_url = "git@host/gitops"; target_revision = "main"; path = "apps/api" };
  };
}

retry_example :
    EndsFrom contended
      (tag_override ∷ [])
      3
      1
      (run_git_update_with_retry contended (tag_override ∷ []) 3)
retry_example = run_git_update_with_retry-EndsFrom contended (tag_override ∷ []) 3 (omega arith)

updated_example : Updated contended (tag_override ∷ []) (max_attempts 3)
unfolding update_if_needed is_managed_by_watcher lookup_text new_gitops_repo extract_git_overrides
    missing_fields override_all override update_git_image_tag run_git_update_with_retry tries
    generate_override_file_content extract_managed_images find_annotation managed_images_of split
    trim_left trim_right put all_overrides overrides_of
updated_example =
    update_if_needed-Updated contended (max_attempts 3) none "" managed_app api_task
      (tag_override ∷ []) refl refl refl refl
