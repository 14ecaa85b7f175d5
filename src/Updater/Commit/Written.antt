-- ===== src/Updater/Commit/Written.antt =====
-- internal/updater/updater.go: what a commit of an override file leaves in the clone.
use argo_watcher.Common.{
  String, true, false, List, [], Option, none, some, ◌≡◌, refl, sym, ap, ◌∙◌, subst, ◌⊎◌, inl, inr,
  Bool-cases,
}
use argo_watcher.Argocd.Overrides.{ParameterOverride}
use argo_watcher.Updater.Merge.{merge_parameters}
use argo_watcher.Updater.Merge.Kept.{find_parameter, find_parameter-merge_parameters}
use argo_watcher.Updater.Merge.Again.{DistinctNames, merge_parameters_idem, merge_parameters_self}
use argo_watcher.Updater.Paths.{
  CleanPath, join_path, text_of, assert_inside_root, generate_override_file_name_for_app,
}
use argo_watcher.Updater.Paths.Inside.{Inside, assert_inside_root_iff}
use argo_watcher.Updater.Commit.{
  Clone, Env, failed, read_failed, unmarshal_error, outside_root, merge_into, merge_with,
  merge_override_file_content, commit_local, commit_merged, commit_app_local,
}
use argo_watcher.Updater.Commit.Outcome.{
  or_else, last_parameter-find_parameter, parsed, held, Holds, After, nothing_done,
  with_worktree-After,
}

module _ (unmarshal : String → Option (List ParameterOverride))
    (marshal : List ParameterOverride → Option String) where
  -- What the YAML library reads is what it wrote.
  abbrev pub RoundTrip : Type 0
  RoundTrip =
      (ps : List ParameterOverride) (text : String)
      → marshal ps ≡ some text
      → unmarshal text ≡ some ps

  or_else-none : (x : Option ParameterOverride) → x ≡ or_else x none
  or_else-none none = refl
  or_else-none (some p) = refl

  missing-Holds :
      RoundTrip
      → (new : List ParameterOverride) → DistinctNames new
      → (text : String) → marshal new ≡ some text
      → Holds unmarshal marshal new [] text
  unfolding find_parameter
  missing-Holds round new d text e = (
    new,
    e,
    round new text e,
    merge_parameters_self new d,
    λ name. or_else-none (find_parameter name new),
  )

  existing-Holds :
      RoundTrip
      → (new existing : List ParameterOverride) → DistinctNames new
      → (text : String) → marshal (merge_parameters existing new) ≡ some text
      → Holds unmarshal marshal new existing text
  existing-Holds round new existing d text e = (
    merge_parameters existing new,
    e,
    round (merge_parameters existing new) text e,
    merge_parameters_idem existing new,
    λ name.
        find_parameter-merge_parameters name existing new
        ∙ last_parameter-find_parameter name new (find_parameter name existing) d,
  )

  parsed-After :
      (round : RoundTrip) (env : Env) (new : List ParameterOverride) (d : DistinctNames new)
      (file message text : String) (clone : Clone) (existing : Option (List ParameterOverride))
      → clone.files file ≡ some text
      → unmarshal text ≡ existing
      → After unmarshal marshal new file message clone (
          commit_merged unmarshal marshal env file message
            (merge_into unmarshal marshal new existing)
            clone)
  unfolding commit_local
  parsed-After round env new d file message text clone none there e =
      nothing_done unmarshal marshal new file message clone unmarshal_error
  parsed-After round env new d file message text clone (some existing) there e =
      with_worktree-After unmarshal marshal env.worktree_error env new
        (merge_parameters existing new) file message clone
        (λ written k.
          let same : existing ≡ held unmarshal marshal (clone.files file) =
            ap (parsed unmarshal marshal) (sym e) ∙ ap (held unmarshal marshal) (sym there) in
          subst (λ l. Holds unmarshal marshal new l written) same
            (existing-Holds round new existing d written k))

  merged-After :
      (round : RoundTrip) (env : Env) (new : List ParameterOverride) (d : DistinctNames new)
      (file message : String) (clone : Clone) (read_error content : Option String)
      → clone.files file ≡ content
      → After unmarshal marshal new file message clone (
          commit_merged unmarshal marshal env file message
            (merge_with unmarshal marshal read_error content new)
            clone)
  unfolding commit_local
  merged-After round env new d file message clone read_error none there =
      with_worktree-After unmarshal marshal env.worktree_error env new new file message clone
        (λ written k.
          subst (λ l. Holds unmarshal marshal new l written)
            (ap (held unmarshal marshal) (sym there)) (missing-Holds round new d written k))
  merged-After round env new d file message clone (some e) (some text) there =
      nothing_done unmarshal marshal new file message clone (read_failed e)
  merged-After round env new d file message clone none (some text) there =
      parsed-After round env new d file message text clone (unmarshal text) there refl

  -- Where the override file of an application is.
  abbrev pub place : CleanPath → String → String → String → CleanPath
  place root app_name path file_name =
      join_path root (generate_override_file_name_for_app path file_name app_name)

-- What a commit of an override file of distinct names does, whatever goes wrong on the way. If the file
-- is not below the root of the clone, nothing is done. Otherwise no other file changes. A failure leaves
-- the commits as they were. Without one, the file then holds the new parameters, with every other
-- parameter that it held before; and either there is one more commit, of the file and of what was
-- staged before it, or the clone is as it was.
pub commit_app_local-After :
    (unmarshal : String → Option (List ParameterOverride))
    (marshal : List ParameterOverride → Option String) (round : RoundTrip unmarshal marshal)
    (root : CleanPath) (app_name path file_name message : String) (new : List ParameterOverride)
    (d : DistinctNames new) (env : Env) (clone : Clone)
    → let result =
        commit_app_local unmarshal marshal root app_name path file_name message new env clone in
      let full_path = place unmarshal marshal root app_name path file_name in
      (¬ Inside root full_path × (result ≡ (clone, failed outside_root)))
      ⊎ (Inside root full_path
          × After unmarshal marshal new (text_of full_path) message clone result)
unfolding commit_app_local merge_override_file_content
commit_app_local-After unmarshal marshal round root app_name path file_name message new d env
      clone =
    let full_path = place unmarshal marshal root app_name path file_name in
    let file = text_of full_path in
    elim (Bool-cases (assert_inside_root root full_path)) [
      | inl b ↦ inr (
        (assert_inside_root_iff root full_path).0 b,
        rw b (
            merged-After unmarshal marshal round env new d file message clone env.read_error
              (clone.files file) refl),
      )
      | inr b ↦ inl (
        λ h. let q : true ≡ false = sym ((assert_inside_root_iff root full_path).1 h) ∙ b in cc q,
        rw b refl,
      )
    ]
