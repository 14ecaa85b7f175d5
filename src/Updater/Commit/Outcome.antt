-- ===== src/Updater/Commit/Outcome.antt =====
-- internal/updater/updater.go: what each step of a commit leaves in the clone.
use argo_watcher.Common.{
  String, Bool, true, false, List, [], ◌∷◌, ◌++◌, Option, none, some, str_eq, eq_iff, eq_refl, ◌≡◌,
  ◌≢◌, refl, sym, ap, ◌∙◌, inl, inr, arith, Bool-cases,
}
use argo_watcher.Argocd.Overrides.{ParameterOverride}
use argo_watcher.Updater.Merge.{merge_parameters}
use argo_watcher.Updater.Merge.Kept.{find_parameter, last_parameter}
use argo_watcher.Updater.Merge.Again.{has_name, DistinctNames}
use argo_watcher.Updater.Commit.{
  Clone, Env, Committed, failed, committed, unchanged, UpdaterError, marshal_error, worktree_failed,
  write_file, commit_staged, stage, write_and_commit, is_same, commit_content, with_worktree,
}

abbrev pub or_else : Option ParameterOverride → Option ParameterOverride → Option ParameterOverride
or_else none y = y
or_else (some p) y = some p

unnamed :
    (name : String) (ps : List ParameterOverride) (x : Option ParameterOverride)
    → has_name name ps ≡ false
    → last_parameter name ps x ≡ x
unfolding last_parameter
unnamed name [] x h = refl
unnamed name (p ∷ rest) x h =
    let other : str_eq p.name name ≡ false = ground (arith, h) in
    rw other (unnamed name rest x (ground (arith, h)))

-- Of distinct names, the last of a name is the first.
pub last_parameter-find_parameter :
    (name : String) (ps : List ParameterOverride) (x : Option ParameterOverride)
    → DistinctNames ps
    → last_parameter name ps x ≡ or_else (find_parameter name ps) x
unfolding last_parameter find_parameter
last_parameter-find_parameter name [] x d = refl
last_parameter-find_parameter name (p ∷ rest) x (fresh, d) =
    elim (Bool-cases (str_eq p.name name)) [
      | inl b ↦
          let e : p.name ≡ name = (eq_iff p.name name).0 b in
          rw b (unnamed name rest (some p) (ap (λ n. has_name n rest) (sym e) ∙ fresh))
      | inr b ↦ rw b (last_parameter-find_parameter name rest x d)
    ]

module _ (unmarshal : String → Option (List ParameterOverride))
    (marshal : List ParameterOverride → Option String) where
  abbrev pub parsed : Option (List ParameterOverride) → List ParameterOverride
  parsed none = []
  parsed (some ps) = ps

  -- The parameters that a file holds, none if it is missing.
  abbrev pub held : Option String → List ParameterOverride
  held none = []
  held (some text) = parsed (unmarshal text)

  -- A text with the new parameters over those held before, which the same merge does not change again.
  abbrev pub Holds : List ParameterOverride → List ParameterOverride → String → Type 0
  Holds new before text =
      (ps : List ParameterOverride) × (marshal ps ≡ some text)
      × (unmarshal text ≡ some ps)
      × (merge_parameters ps new ≡ ps)
      × ((name : String)
          → find_parameter name ps ≡ or_else (find_parameter name new) (find_parameter name before))

  -- Only the file's content differs.
  abbrev pub Others : String → Clone → Clone → Type 0
  Others file clone clone' =
      (other : String) → other ≢ file → clone'.files other ≡ clone.files other

  -- What a result says of the clone.
  abbrev pub After : List ParameterOverride → String → String → Clone → Clone × Committed → Type 0
  After new file message clone (clone', failed e) =
      Others file clone clone' × (clone'.commits ≡ clone.commits)
  After new file message clone (clone', unchanged) =
      (text : String) × (clone' ≡ clone)
      × (clone.files file ≡ some text)
      × Holds new (held (clone.files file)) text
  After new file message clone (clone', committed) =
      (text : String) × Others file clone clone'
      × (clone'.files file ≡ some text)
      × Holds new (held (clone.files file)) text
      × (clone'.commits
          ≡ clone.commits
            ++ record { message = message; changes = clone.staged ++ (file, text) ∷ [] } ∷ [])

  write_file-Others :
      (file : String) (content : Option String) (clone : Clone)
      → Others file clone (write_file file content clone)
  write_file-Others file content clone other h = elim (Bool-cases (str_eq file other)) [
    | inl b ↦ absurd (h (sym ((eq_iff file other).0 b)))
    | inr b ↦ rw b refl
  ]

  committed-After :
      (new : List ParameterOverride) (file message text : String) (clone : Clone)
      (commit_error : Option String)
      → Holds new (held (clone.files file)) text
      → After new file message clone (
          commit_staged commit_error message (record (write_file file (some text) clone) {
            staged = clone.staged ++ (file, text) ∷ [];
          }))
  committed-After new file message text clone (some e) h =
      (write_file-Others file (some text) clone, refl)
  committed-After new file message text clone none h =
      (text, write_file-Others file (some text) clone, rw (eq_refl file) refl, h, refl)

  stage-After :
      (new : List ParameterOverride) (file message text : String) (clone : Clone)
      (add_error commit_error : Option String)
      → Holds new (held (clone.files file)) text
      → After new file message clone
          (stage add_error commit_error file text message (write_file file (some text) clone))
  stage-After new file message text clone (some e) commit_error h =
      (write_file-Others file (some text) clone, refl)
  stage-After new file message text clone none commit_error h =
      committed-After new file message text clone commit_error h

  write_and_commit-After :
      (write_error : Option String) (env : Env) (new : List ParameterOverride)
      (file message text : String) (clone : Clone)
      → Holds new (held (clone.files file)) text
      → After new file message clone (write_and_commit write_error env file text message clone)
  write_and_commit-After (some e) env new file message text clone h =
      (write_file-Others file env.torn clone, refl)
  write_and_commit-After none env new file message text clone h =
      stage-After new file message text clone env.add_error env.commit_error h

  pub nothing_done :
      (new : List ParameterOverride) (file message : String) (clone : Clone) (e : UpdaterError)
      → After new file message clone (clone, failed e)
  nothing_done new file message clone e = (λ other h. refl, refl)

  same_text :
      (reread_fails : Bool) (content : Option String) (text : String)
      → is_same reread_fails content text ≡ true
      → content ≡ some text
  same_text reread_fails none text h = absurd (let q : false ≡ true = h in cc q)
  same_text true (some existing) text h = absurd (let q : false ≡ true = h in cc q)
  same_text false (some existing) text h = ap (λ t. some t) ((eq_iff existing text).0 h)

  content-After :
      (env : Env) (new : List ParameterOverride) (file message : String) (clone : Clone)
      (content : Option String)
      → ((text : String) → content ≡ some text → Holds new (held (clone.files file)) text)
      → After new file message clone
          (commit_content unmarshal marshal env file message content clone)
  content-After env new file message clone none h =
      nothing_done new file message clone marshal_error
  content-After env new file message clone (some text) h =
      elim (Bool-cases (is_same env.reread_fails (clone.files file) text)) [
        | inl b ↦
            rw b (text, refl, same_text env.reread_fails (clone.files file) text b, h text refl)
        | inr b ↦
            rw b
              (write_and_commit-After env.write_error env new file message text clone (h text refl))
      ]

  pub with_worktree-After :
      (worktree_error : Option String) (env : Env) (new ps : List ParameterOverride)
      (file message : String) (clone : Clone)
      → ((text : String) → marshal ps ≡ some text → Holds new (held (clone.files file)) text)
      → After new file message clone
          (with_worktree unmarshal marshal worktree_error env file message ps clone)
  with_worktree-After (some e) env new ps file message clone h =
      nothing_done new file message clone (worktree_failed e)
  with_worktree-After none env new ps file message clone h =
      content-After env new file message clone (marshal ps) h
