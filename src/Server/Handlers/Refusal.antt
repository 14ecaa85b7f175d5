-- ===== src/Server/Handlers/Refusal.antt =====
-- internal/server/handlers.go: a submission that is turned away leaves no trace.
use argo_watcher.Common.{
  ℕ, String, Bool, true, false, Option, none, some, ◌≡◌, refl, ◌≢◌, ap, sym, ◌∙◌,
}
use argo_watcher.Common.Int.{ℤ}
use argo_watcher.Models.Task.{Task}
use argo_watcher.State.Repository.{Repository}
use argo_watcher.Argocd.Argo.{Argo, AddResult, accepted, refused, store_failed, add_task}
use argo_watcher.Argocd.Argo.Checks.{add_task-refused}
use argo_watcher.Auth.{Answer}
use argo_watcher.Server.Handlers.{Response, created, down, submitted, respond, handle_add_task}

module _ (r : Repository) (new_id : String) (now : ℕ) (deployment_timeout : ℤ) (argo : Argo r) where
  respond_refused :
      (task : Task) (x : Argo r × AddResult) (argo' : Argo r) (response : Response)
      → add_task r new_id now argo task ≡ x
      → respond x ≡ (argo', response)
      → response ≢ down store_failed
      → ((id : String) → response ≢ created id)
      → argo' ≡ argo
  respond_refused task (a, accepted t) argo' response h e failed fresh =
      absurd (fresh t.id (sym (ap (λ p. p.1) e)))
  respond_refused task (a, refused k) argo' response h e failed fresh =
      sym (ap (λ p. p.0) e)
      ∙ add_task-refused r new_id now argo a task k
          (λ q. failed (sym (ap (λ p. p.1) e) ∙ ap down q)) h

  -- A submission that is answered with anything but 202, because of its payload, a lockdown, its
  -- credentials or a guard of `AddTask`, changes neither the store nor the count of accepted
  -- deployments, unless the answer is that the store failed.
  pub handle_add_task-refused :
      (locked : Bool) (token : Answer) (payload : Option Task) (argo' : Argo r)
      (response : Response)
      → handle_add_task r new_id now deployment_timeout locked token argo payload
        ≡ (argo', response)
      → response ≢ down store_failed
      → ((id : String) → response ≢ created id)
      → argo' ≡ argo
  unfolding handle_add_task
  handle_add_task-refused locked token none argo' response h failed fresh = sym (ap (λ p. p.0) h)
  handle_add_task-refused true token (some task) argo' response h failed fresh =
      sym (ap (λ p. p.0) h)
  handle_add_task-refused false (valid, some e) (some task) argo' response h failed fresh =
      sym (ap (λ p. p.0) h)
  handle_add_task-refused false (valid, none) (some task) argo' response h failed fresh =
      respond_refused (submitted deployment_timeout valid task) _ argo' response refl h failed fresh
