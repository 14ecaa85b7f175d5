-- ===== src/Argocd/Updater/Seen.antt =====
-- internal/argocd/argo_status_updater.go: a deployment that ends without an error has seen its
-- application.
use argo_watcher.Common.{
  true, Option, none, some, ◌≡◌, refl, inl, inr, Bool-cases, is_some, arith, subst,
}
use argo_watcher.Models.Task.{Task}
use argo_watcher.Argocd.Errors.{Err, task_superseded}
use argo_watcher.Argocd.World.{Config}
use argo_watcher.Argocd.Poll.{
  wait_rollout, task_superseded_by, Fetch, fetched, fetch_failed, Retry, RetryLaws,
}
use argo_watcher.Argocd.Poll.Ends.{Reported, wait_rollout-Reported}
use argo_watcher.Argocd.Updater.{
  write_back_ended, store_initial_app_status, confirmed_deployment, Env, final_error,
  wait_for_application_deployment,
}

polled_seen :
    (r : Retry) (laws : RetryLaws r) (c : Config) (env : Env) (task : Task) (e : Option Err)
    → let d = write_back_ended r c env task e in d.error ≡ none → is_some d.application ≡ true
polled_seen r laws c env task none h =
    let (s, err) = wait_rollout r c task env.feed in
    subst (Reported s.application) h (wait_rollout-Reported r laws c task env.feed)
polled_seen r laws c env task (some e) h = cc h

confirmed_seen :
    (r : Retry) (laws : RetryLaws r) (c : Config) (env : Env) (task : Task) (f : Fetch)
    → let d = confirmed_deployment r c env task f in d.error ≡ none → is_some d.application ≡ true
confirmed_seen r laws c env task (fetch_failed e) h = cc h
confirmed_seen r laws c env task (fetched app) h =
    let task' = (store_initial_app_status c task (some app)).0 in
    polled_seen r laws c env task' (env.write_back app task') h

-- A deployment without an error has an application.
pub deployment_seen :
    (r : Retry) (laws : RetryLaws r) (c : Config) (env : Env) (task : Task)
    → let d = wait_for_application_deployment r c env task in
      d.error ≡ none → is_some d.application ≡ true
unfolding wait_for_application_deployment
deployment_seen r laws c env task h = elim (Bool-cases (task_superseded_by env.first_read)) [
  | inl e ↦ let h' : some task_superseded ≡ none = rw e at h in cc h'
  | inr e ↦ rw e (confirmed_seen r laws c env task env.confirmation (rw e at h))
]

pub final_error-none : (env : Env) (err : Option Err) → final_error env err ≡ none → err ≡ none
unfolding final_error
final_error-none env none h = refl
final_error-none env (some e) h = ground arith
