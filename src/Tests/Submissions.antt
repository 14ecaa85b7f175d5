-- ===== src/Tests/Submissions.antt =====
-- Examples for the handlers of internal/server/handlers.go.
use argo_watcher.Common.{String, true, false, some, none, ◌≡◌, ◌≢◌, refl}
use argo_watcher.Common.Int.{pos}
use argo_watcher.Models.Task.{Task}
use argo_watcher.State.Memory
use argo_watcher.State.Memory.{get_task, find_task}
use argo_watcher.State.Repository.{memory_repository}
use argo_watcher.Argocd.Argo.{add_task, accept, store_failed, is_available}
use argo_watcher.Server.Handlers.{created, down, lockdown_active, handle_add_task}
use argo_watcher.Server.Handlers.Submission.{Recorded, handle_add_task-created}
use argo_watcher.Server.Handlers.Refusal.{handle_add_task-refused}
use argo_watcher.Tests.{api_task}
use argo_watcher.Tests.Deployments.{reachable}

-- A submission that leaves its rollout window to the server.
abbrev request : Task
request = record api_task { timeout = pos 0; validated = false }

created_example :
    Recorded false
      (true, none)
      (some request)
      "2"
      (handle_add_task memory_repository "2" 150
        (pos 900)
        false
        (true, none)
        reachable
        (some request)).0
unfolding handle_add_task add_task accept is_available get_task find_task Memory.add_task
created_example =
    handle_add_task-created "2" 150 (pos 900) reachable false (true, none) (some request) "2" refl
      refl refl

lockdown_failed : lockdown_active ≢ down store_failed
lockdown_failed e = cc e

lockdown_created : (id : String) → lockdown_active ≢ created id
lockdown_created id e = cc e

turned_away_example :
    (handle_add_task memory_repository "2" 150
      (pos 900)
      true
      (true, none)
      reachable
      (some request)).0
    ≡ reachable
unfolding handle_add_task
turned_away_example =
    handle_add_task-refused memory_repository "2" 150 (pos 900) reachable true (true, none)
      (some request)
      (handle_add_task memory_repository "2" 150 (pos 900) true (true, none) reachable
        (some request)).0
      lockdown_active refl lockdown_failed lockdown_created
