-- ===== src/Tests/Rollouts.antt =====
-- Examples for the rollouts of internal/argocd and internal/models.
use argo_watcher.Common.{
  ◌+◌, true, false, [], ◌∷◌, some, ◌≡◌, ◌≢◌, ◌↔◌, refl, arith, contains, ap, str_eq,
}
use argo_watcher.Models.Status.{status_in_progress}
use argo_watcher.Helpers.Images.{images_contains}
use argo_watcher.Models.Application.{is_problem_health_status}
use argo_watcher.Models.Rollout.{get_rollout_status, rollout_success, all_available}
use argo_watcher.Models.Rollout.Verdict.{Verdict, get_rollout_status_iff}
use argo_watcher.State.Lease.{
  Lease, taken_over, is_claimable, task_lease_renew_interval, task_lease_ttl,
}
use argo_watcher.Argocd.Poll.{wait_rollout}
use argo_watcher.Argocd.Poll.Ends.{Reported, wait_rollout-Reported}
use argo_watcher.Argocd.Guard.{
  Watch, watching, new_lease_guard, is_lost, passes, sweeps, start, then_step,
}
use argo_watcher.Argocd.Guard.Exclusive.{taken-is_lost}
use argo_watcher.Tests.{
  api_task, running, outdated, degraded_node, config, rolling, retry, retry_laws,
}

get_rollout_status_example :
    (get_rollout_status running ("reg/api:v2" ∷ []) "" false ≡ rollout_success)
    ↔ Verdict running ("reg/api:v2" ∷ []) "" false rollout_success
get_rollout_status_example =
    get_rollout_status_iff running ("reg/api:v2" ∷ []) "" false rollout_success

wait_rollout_example :
    Reported
      (wait_rollout retry config api_task rolling).0.application
      (wait_rollout retry config api_task rolling).1
wait_rollout_example = wait_rollout-Reported retry retry_laws config api_task rolling

abbrev claim : Lease
claim = record {
  id = "1";
  owner_id = some "a";
  lease_expires_at = some task_lease_ttl;
  status = status_in_progress;
  created = 0;
}

-- No renewal gets through, and another replica takes the task over.
abbrev unwatched : Watch
unwatched = watching 0 task_lease_renew_interval claim

abbrev late : Watch
late = record unwatched { now = task_lease_ttl + 1 }

abbrev taken : Watch
taken = record late { row = taken_over "b" (task_lease_ttl + 1) claim; taken = true }

taken_example : is_lost taken.now taken.guard ≡ true
unfolding is_claimable new_lease_guard
taken_example =
    taken-is_lost "a" task_lease_renew_interval 0 0 0 task_lease_ttl claim taken (omega arith) refl
      refl (omega arith)
      (then_step unwatched late taken
        (then_step unwatched unwatched late (start unwatched)
          (passes unwatched (task_lease_ttl + 1) (omega arith) tt))
        (sweeps late "b" refl))
      refl

problem : is_problem_health_status degraded_node.health_status ≡ true
unfolding is_problem_health_status
problem = refl

outdated_fails : get_rollout_status outdated ("reg/api:v2" ∷ []) "" false ≢ rollout_success
unfolding get_rollout_status images_contains all_available contains
outdated_fails e = let h : false ≡ true = ap (λ s. str_eq s rollout_success) e in ground (arith, h)
