-- ===== src/Tests/Overrides.antt =====
-- Examples for the override file of internal/updater.
use argo_watcher.Common.{
  String, true, false, ◌&&◌, List, [], ◌∷◌, Option, none, some, str_eq, eq_iff, if◌then◌else◌, ◌≡◌,
  ◌↔◌, ◌⊎◌, refl, ap, inl, inr, Bool-cases,
}
use argo_watcher.Common.Split.{split}
use argo_watcher.Argocd.Overrides.{ParameterOverride}
use argo_watcher.Updater.Merge.{merge_parameters, merge_parameter}
use argo_watcher.Updater.Merge.Again.{DistinctNames}
use argo_watcher.Updater.Paths.{
  CleanPath, join_path, clean_parts, reverse_onto, past_common, rel, assert_inside_root,
  generate_override_file_name_for_app, text_of,
}
use argo_watcher.Updater.Paths.Inside.{Inside, assert_inside_root_iff}
use argo_watcher.Updater.Commit.{
  Clone, Env, failed, committed, unchanged, outside_root, commit_app_local,
  merge_override_file_content, commit_local,
}
use argo_watcher.Updater.Commit.Outcome.{After}
use argo_watcher.Updater.Commit.Written.{RoundTrip, place, commit_app_local-After}
use argo_watcher.Updater.Commit.Repeated.{commit_app_local_idem}
use argo_watcher.Updater.Cache
use argo_watcher.Updater.Cache.{GitRepo, CloneEnv, opened, absent, fetched}
use argo_watcher.Updater.Cache.AtTip.{AtTip, clone-AtTip}

-- A file format for one parameter.
abbrev tag_parameter : String → ParameterOverride
tag_parameter v = record { name = "image.tag"; value = v; force_string = true }

abbrev marshal : List ParameterOverride → Option String
marshal [] = none
marshal (p ∷ q ∷ rest) = none
marshal (p ∷ []) = if str_eq p.name "image.tag" && p.force_string then some p.value else none

abbrev unmarshal : String → Option (List ParameterOverride)
unmarshal text = some (tag_parameter text ∷ [])

is_tag :
    (p : ParameterOverride) (text : String)
    → (if str_eq p.name "image.tag" && p.force_string then some p.value else none) ≡ some text
    → tag_parameter text ≡ p
is_tag p text h = elim (Bool-cases (str_eq p.name "image.tag")) [
  | inl b ↦ elim (Bool-cases p.force_string) [
    | inl f ↦
        let v : some p.value ≡ some text = rw (b, f) at h in
        let n : p.name ≡ "image.tag" = (eq_iff p.name "image.tag").0 b in cc (v, n, f)
    | inr f ↦ absurd (let q : ◌≡◌ {A = Option String} none (some text) = rw (b, f) at h in cc q)
  ]
  | inr b ↦ absurd (let q : ◌≡◌ {A = Option String} none (some text) = rw b at h in cc q)
]

round : RoundTrip unmarshal marshal
round [] text h = absurd (cc h)
round (p ∷ q ∷ rest) text h = absurd (cc h)
round (p ∷ []) text h = ap (λ x. some (x ∷ [])) (is_tag p text h)

abbrev root : CleanPath
root = record { rooted = true; elements = "cache" ∷ "1f" ∷ [] }

abbrev fine : Env
fine = record {
  read_error = none;
  worktree_error = none;
  reread_fails = false;
  write_error = none;
  torn = none;
  add_error = none;
  commit_error = none;
}

-- The file holds an older tag.
abbrev clone : Clone
clone = record {
  files = λ name. if str_eq name "/cache/1f/apps/.argocd-source-api.yaml" then some "v1" else none;
  staged = [];
  commits = [];
}

abbrev new : List ParameterOverride
new = tag_parameter "v2" ∷ []

distinct : DistinctNames new
distinct = (refl, tt)

written_example :
    let result = commit_app_local unmarshal marshal root "api" "apps" "" "update" new fine clone in
    let full_path = place unmarshal marshal root "api" "apps" "" in
    (¬ Inside root full_path × (result ≡ (clone, failed outside_root)))
    ⊎ (Inside root full_path
        × After unmarshal marshal new (text_of full_path) "update" clone result)
written_example =
    commit_app_local-After unmarshal marshal round root "api" "apps" "" "update" new distinct fine
      clone

first_commit :
    (commit_app_local unmarshal marshal root "api" "apps" "" "update" new fine clone).1 ≡ committed
unfolding commit_app_local assert_inside_root rel join_path past_common reverse_onto clean_parts
    split generate_override_file_name_for_app merge_override_file_content text_of commit_local
    merge_parameters merge_parameter
first_commit = refl

repeated_example :
    let (clone', result) =
      commit_app_local unmarshal marshal root "api" "apps" "" "update" new fine clone in
    commit_app_local unmarshal marshal root "api" "apps" "" "again" new fine clone'
    ≡ (clone', unchanged)
repeated_example =
    commit_app_local_idem unmarshal marshal round root "api" "apps" "" "update" "again" new distinct
      fine fine clone first_commit (refl, refl, refl)

-- An annotation that leads out of the clone.
guard_example :
    (assert_inside_root root (join_path root "../2a/secret.yaml") ≡ true)
    ↔ Inside root (join_path root "../2a/secret.yaml")
guard_example = assert_inside_root_iff root (join_path root "../2a/secret.yaml")

escape_refused : assert_inside_root root (join_path root "../2a/secret.yaml") ≡ false
unfolding assert_inside_root rel join_path past_common reverse_onto clean_parts split
escape_refused = refl

-- A cached clone that is behind.
abbrev behind : GitRepo
behind = record {
  repo_cache_path = record { rooted = true; elements = "cache" ∷ [] };
  local_repo_path = none;
  ssh_auth = false;
  local_repo = false;
  on_disk = opened "a1" none;
}

abbrev reachable : CloneEnv
reachable = record {
  tip = "b2";
  key_error = none;
  remove_error = none;
  clone_error = none;
  torn = absent;
  left = absent;
  fetch = fetched;
  worktree_error = none;
  reference_error = none;
  reset_error = none;
}

cloned : (Cache.clone "1f" reachable behind).1 ≡ none
unfolding Cache.clone
cloned = refl

clone_example : AtTip reachable (Cache.clone "1f" reachable behind).0
clone_example = clone-AtTip "1f" reachable behind (λ h. absurd (cc h)) cloned
