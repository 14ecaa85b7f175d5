-- ===== src/Server/Handlers/Paging.antt =====
-- internal/server/handlers.go: how large a listing is that `getState` serves.
use argo_watcher.Common.{ℕ, suc, ◌≤◌, String, List, ◌≡◌, if◌then◌else◌, ◌||◌, not, ◌==◌}
use argo_watcher.Common.Int.{ℤ, pos, lebℤ}
use argo_watcher.Models.Task.{Task}
use argo_watcher.State.Memory.{InMemoryState, matching}
use argo_watcher.Server.Handlers.{max_task_list_limit}

-- The limit that is served.
abbrev pub served : ℤ → ℤ
served limit =
    if lebℤ limit (pos 0) || not (lebℤ limit max_task_list_limit)
    then max_task_list_limit
    else limit

abbrev Within : ℤ → Type 0
Within limit = (n : ℕ) × (limit ≡ pos (suc n)) × (suc n ≤ 1000)

module _ (now : ℕ) (store : InMemoryState) (start_time end_time : ℕ) (app status : String) where
  -- The tasks that match, up to now unless the client names an end.
  abbrev pub found : List Task
  found = matching store start_time (if end_time == 0 then now else end_time) app status
