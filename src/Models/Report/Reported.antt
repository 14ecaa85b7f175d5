-- ===== src/Models/Report/Reported.antt =====
-- What reaches the reader of a failure report: the lines of the resource tree's problems.
use text.Mathlib.TextLemmas.{append-eq-nil_iff, cons≢nil}
use argo_watcher.Common.{
  if◌then◌else◌, ap, text_cases, sym, ◌∙◌, String, Bool, true, false, List, [], ◌∷◌, some, ◌≡◌,
  refl, inl, inr, ◌≢◌, ◌⧺◌, join, Has, Has-select, Has-map, Has-append_left, Has-append_right,
  str_eq, eq_iff, arith,
}
use argo_watcher.Common.Parts.{IsPart, IsPart-append_right, IsPart-trans, IsPart-join}
use argo_watcher.Models.Application.{Application, Tree, TreeNode, is_problem_health_status}
use argo_watcher.Models.Rollout.{rollout_success, get_rollout_status}
use argo_watcher.Models.Rollout.Verdict.{
  Verdict, missing, degraded, not_synced, success, not_healthy, to_Verdict,
}
use argo_watcher.Models.Report.Lines.{with_message, format_tree_node, list_problem_nodes}
use argo_watcher.Models.Report.Sync.{
  listing_section, build_sync_failure_report, text_section, build_drift_explanation,
}
use argo_watcher.Models.Report.Failure.{
  append_diagnostics, operation_section, build_failure_diagnostics, get_rollout_message,
}

-- A line of a listing stands in the listing's section.
listing_section-Has :
    (heading line : String) (lines : List String)
    → Has line lines
    → (section : String) × Has section (listing_section heading lines) × IsPart line section
unfolding listing_section
listing_section-Has heading line [] h = absurd h
listing_section-Has heading line (x ∷ xs) h = (
  heading ⧺ "\n\t" ⧺ join (x ∷ xs) "\n\t",
  inl refl,
  IsPart-append_right line heading ("\n\t" ⧺ join (x ∷ xs) "\n\t")
      (IsPart-append_right line "\n\t" (join (x ∷ xs) "\n\t") (IsPart-join line (x ∷ xs) "\n\t" h)),
)

false_of_ne : (s : String) → s ≢ "" → str_eq s "" ≡ false
false_of_ne s h = ground (arith, eq_iff s "")

with_message-ne-nil : (line message : String) → line ≢ "" → with_message line message ≢ ""
unfolding with_message
with_message-ne-nil line message h e = elim (text_cases message "") [
  | inl m ↦ h (ground (arith, eq_iff message ""))
  | inr m ↦
      h
        (append-eq-nil_iff.0 (
          sym (
            ap (λ b. if b then line else line ⧺ " with message " ⧺ message) (false_of_ne message m))
          ∙ e)).0
]

format_tree_node-ne-nil : (node : TreeNode) → format_tree_node node ≢ ""
unfolding format_tree_node
format_tree_node-ne-nil node =
    with_message-ne-nil _ node.health_message
      (λ e. cons≢nil (append-eq-nil_iff.0 (append-eq-nil_iff.0 e).1).0)

IsPart-append_diagnostics :
    (part base diagnostics : String)
    → part ≢ ""
    → IsPart part diagnostics
    → IsPart part (append_diagnostics base diagnostics)
unfolding append_diagnostics
IsPart-append_diagnostics part base diagnostics ne (a, b, e) = elim (text_cases diagnostics "") [
  | inl empty ↦ absurd (ne (append-eq-nil_iff.0 (append-eq-nil_iff.0 (sym e ∙ empty)).1).0)
  | inr full ↦ rw (false_of_ne diagnostics full) (
      IsPart-append_right part base ("\n\n" ⧺ diagnostics)
        (IsPart-append_right part "\n\n" diagnostics (a, b, e)))
]

module _ (app : Application) (tree : Tree) (node : TreeNode) (held : Has node tree.nodes)
    (problem : is_problem_health_status node.health_status ≡ true) where
  line-Has : Has (format_tree_node node) (list_problem_nodes tree)
  unfolding list_problem_nodes
  line-Has =
      Has-map format_tree_node node _
        (Has-select (λ n. is_problem_health_status n.health_status) node tree.nodes held problem)

  diagnostics-IsPart :
      (fallback : Bool)
      → IsPart (format_tree_node node) (build_failure_diagnostics app (some tree) fallback)
  unfolding build_failure_diagnostics
  diagnostics-IsPart fallback =
      let (section, at, part) =
        listing_section-Has "Unhealthy resources:" (format_tree_node node) (list_problem_nodes tree)
          line-Has in
      IsPart-trans (format_tree_node node) section _ part (
        IsPart-join section _ "\n\n" (
          Has-append_right section (operation_section app) _
            (Has-append_right section _ _ (Has-append_left section _ _ at))))

  sync_report-IsPart :
      (quote : String → String)
      → IsPart (format_tree_node node) (build_sync_failure_report quote app (some tree))
  unfolding build_sync_failure_report
  sync_report-IsPart quote =
      let (section, at, part) =
        listing_section-Has "Unhealthy resources:" (format_tree_node node) (list_problem_nodes tree)
          line-Has in
      IsPart-trans (format_tree_node node) section _ part (
        IsPart-join section _ "\n\n" (
          Has-append_left section _ _ (
            Has-append_right section (text_section (build_drift_explanation app)) _
              (Has-append_right section _ _ (Has-append_left section _ _ at)))))

  by-Verdict :
      (quote : String → String) (images : List String) (proxy : String) (accept : Bool)
      (status : String)
      → status ≢ rollout_success
      → Verdict app images proxy accept status
      → IsPart (format_tree_node node) (get_rollout_message quote app status images (some tree))
  unfolding get_rollout_message
  by-Verdict quote images proxy accept status failed (missing _ e) =
      rw e
        (IsPart-append_diagnostics _ _ _ (format_tree_node-ne-nil node) (diagnostics-IsPart true))
  by-Verdict quote images proxy accept status failed (degraded _ _ _ e) =
      rw e
        (IsPart-append_diagnostics _ _ _ (format_tree_node-ne-nil node) (diagnostics-IsPart false))
  by-Verdict quote images proxy accept status failed (not_synced _ _ _ e) =
      rw e (sync_report-IsPart quote)
  by-Verdict quote images proxy accept status failed (success _ _ _ e) = absurd (failed e)
  by-Verdict quote images proxy accept status failed (not_healthy _ _ _ _ _ e) =
      rw e
        (IsPart-append_diagnostics _ _ _ (format_tree_node-ne-nil node) (diagnostics-IsPart false))

  -- For every failure that `GetRolloutStatus` can name, the report of a failed rollout holds the line of each node of
  -- the resource tree whose health is a problem.
  pub problem_node_reported :
      (quote : String → String) (images : List String) (proxy : String) (accept : Bool)
      → get_rollout_status app images proxy accept ≢ rollout_success
      → IsPart (format_tree_node node) (
          get_rollout_message quote app
            (get_rollout_status app images proxy accept)
            images
            (some tree))
  problem_node_reported quote images proxy accept failed =
      by-Verdict quote images proxy accept _ failed
        (to_Verdict app images proxy accept (get_rollout_status app images proxy accept) refl)
