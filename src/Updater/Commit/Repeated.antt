-- ===== src/Updater/Commit/Repeated.antt =====
-- internal/updater/updater.go: a write of an override file that is repeated.
use argo_watcher.Common.{
  String, false, List, Option, none, some, eq_refl, ◌≡◌, refl, sym, ap, ◌∙◌, inl, inr,
}
use argo_watcher.Argocd.Overrides.{ParameterOverride}
use argo_watcher.Updater.Merge.{merge_parameters}
use argo_watcher.Updater.Merge.Again.{DistinctNames}
use argo_watcher.Updater.Paths.{CleanPath, text_of}
use argo_watcher.Updater.Paths.Inside.{Inside, assert_inside_root_iff}
use argo_watcher.Updater.Commit.{
  Clone, Env, Committed, failed, committed, unchanged, outside_root, merge_override_file_content,
  commit_local, commit_merged, commit_app_local,
}
use argo_watcher.Updater.Commit.Outcome.{After}
use argo_watcher.Updater.Commit.Written.{RoundTrip, place, commit_app_local-After}

-- Nothing fails when the file is read and the worktree opened.
abbrev pub Readable : Env → Type 0
Readable env = (env.read_error ≡ none) × (env.worktree_error ≡ none) × (env.reread_fails ≡ false)

module _ (unmarshal : String → Option (List ParameterOverride))
    (marshal : List ParameterOverride → Option String) where
  abbrev Stored : List ParameterOverride → String → Clone → Type 0
  Stored new file clone =
      (text : String) × (ps : List ParameterOverride) × (clone.files file ≡ some text)
      × (marshal ps ≡ some text)
      × (unmarshal text ≡ some ps)
      × (merge_parameters ps new ≡ ps)

  Stored-After :
      (new : List ParameterOverride) (file message : String) (clone : Clone) (x : Clone × Committed)
      → x.1 ≡ committed
      → After unmarshal marshal new file message clone x
      → Stored new file x.0
  Stored-After new file message clone (clone', failed e) h a = absurd (cc h)
  Stored-After new file message clone (clone', unchanged) h a = absurd (cc h)
  Stored-After new file message clone (clone', committed) h
        (text, others, at, (ps, m, u, again, rest), commits) =
      (text, ps, at, m, u, again)

  written_again :
      (new : List ParameterOverride) (file message : String) (env : Env) (clone : Clone)
      → Readable env
      → Stored new file clone
      → commit_merged unmarshal marshal env file message
          (merge_override_file_content unmarshal marshal env file new clone)
          clone
        ≡ (clone, unchanged)
  unfolding merge_override_file_content commit_local
  written_again new file message env clone (r, w, f) (text, ps, at, m, u, again) =
      simp (at, r, u, again, w, m, f, eq_refl text) refl

  repeated :
      (root : CleanPath) (app_name path file_name message : String) (new : List ParameterOverride)
      (env : Env) (clone : Clone)
      → Inside root (place unmarshal marshal root app_name path file_name)
      → Readable env
      → Stored new (text_of (place unmarshal marshal root app_name path file_name)) clone
      → commit_app_local unmarshal marshal root app_name path file_name message new env clone
        ≡ (clone, unchanged)
  unfolding commit_app_local
  repeated root app_name path file_name message new env clone inside readable stored =
      let full_path = place unmarshal marshal root app_name path file_name in
      rw ((assert_inside_root_iff root full_path).1 inside)
        (written_again new (text_of full_path) message env clone readable stored)

-- Once an override file of distinct names was committed, the same again finds the file as it is to be:
-- no commit, and so no push, whatever the commit message is.
pub commit_app_local_idem :
    (unmarshal : String → Option (List ParameterOverride))
    (marshal : List ParameterOverride → Option String) (round : RoundTrip unmarshal marshal)
    (root : CleanPath) (app_name path file_name message message' : String)
    (new : List ParameterOverride) (d : DistinctNames new) (env env' : Env) (clone : Clone)
    → let (clone', result) =
        commit_app_local unmarshal marshal root app_name path file_name message new env clone in
      result ≡ committed
      → Readable env'
      → commit_app_local unmarshal marshal root app_name path file_name message' new env' clone'
        ≡ (clone', unchanged)
commit_app_local_idem unmarshal marshal round root app_name path file_name message message' new d
      env env' clone h readable =
    elim (commit_app_local-After unmarshal marshal round root app_name path file_name message new d
      env clone) [
        | inl (_, refused) ↦
            absurd
              (let q : failed outside_root ≡ committed = sym (ap (λ x. x.1) refused) ∙ h in cc q)
        | inr (inside, after) ↦
            repeated unmarshal marshal root app_name path file_name message' new env' _ inside
              readable (Stored-After unmarshal marshal new _ message clone _ h after)
      ]
