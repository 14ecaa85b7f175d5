-- ===== src/Argocd/Updater/Safety.antt =====
-- What a monitored rollout leaves behind.
use argo_watcher.Common.{String, Bool, true, false, ◌∷◌, Option, none, some, ◌≡◌}
use argo_watcher.Models.Status.{status_cancelled, status_deployed}
use argo_watcher.Models.Task.{Task}
use argo_watcher.Models.Application.{Application}
use argo_watcher.Models.Rollout.{rollout_success}
use argo_watcher.State.Repository.{Repository}
use argo_watcher.Argocd.Errors.{Err, task_superseded, lease_lost, replica_draining}
use argo_watcher.Argocd.World.{Config, World, resulting_status}
use argo_watcher.Argocd.Updater.{Deployment}
use argo_watcher.Argocd.Updater.Outcomes.{writes, notifications}

module _ (r : Repository) where
  -- Nothing is written, and nothing announced.
  abbrev pub Silent : World r → World r → Type 0
  Silent w w' =
      (w'.store ≡ w.store)
      × (writes w'.events ≡ writes w.events)
      × (notifications w'.events ≡ notifications w.events)

  -- Nothing is written, and the task is announced as cancelled.
  abbrev pub Cancelled : Task → World r → World r → Type 0
  Cancelled task w w' =
      (w'.store ≡ w.store)
      × (writes w'.events ≡ writes w.events)
      × (notifications w'.events
          ≡ record task { status = status_cancelled } ∷ notifications w.events)

  -- One status is written and announced, and read back wherever the write returned no error; it is
  -- `deployed` only after a rollout.
  abbrev pub Recorded : Task → Type 0 → World r → World r → Type 0
  Recorded task rolled_out w w' =
      (status : String) × (reason : String) × (writes w'.events
        ≡ (task.id, status) ∷ writes w.events)
      × (notifications w'.events ≡ record task { status = status } ∷ notifications w.events)
      × (w'.store ≡ (r.set_task_status task.id status reason w.now w.store).0)
      × ((r.set_task_status task.id status reason w.now w.store).1 ≡ true
          → (t : Task) → r.get_task w'.store task.id ≡ some t
          → t.status ≡ status)
      × (status ≡ status_deployed → rolled_out)

  -- The deployment ended without an error, with an application whose rollout succeeded.
  abbrev pub RolledOut : Config → Task → Deployment → Type 0
  RolledOut c task d =
      (d.error ≡ none)
      × (app : Application) × (d.application ≡ some app)
      × (resulting_status r c task app ≡ rollout_success)

  -- How a rollout ends: by whether its claim was lost, whether the replica shuts down, and the error
  -- of the deployment.
  abbrev pub Ending : Task → Type 0 → Bool → Bool → Option Err → World r → World r → Type 0
  Ending task rolled_out true draining err w w' = Silent w w'
  Ending task rolled_out false draining (some task_superseded) w w' = Cancelled task w w'
  Ending task rolled_out false true _ w w' = Silent w w'
  Ending task rolled_out false false (some lease_lost) w w' = Silent w w'
  Ending task rolled_out false false (some replica_draining) w w' = Silent w w'
  Ending task rolled_out false false _ w w' = Recorded task rolled_out w w'

  -- How it ends by the error that the code decides on, and the application it returned.
  abbrev Outcome : Task → Type 0 → Option Err → Option Application → World r → World r → Type 0
  Outcome task rolled_out (some replica_draining) app w w' = Silent w w'
  Outcome task rolled_out (some lease_lost) app w w' = Silent w w'
  Outcome task rolled_out (some task_superseded) app w w' = Cancelled task w w'
  Outcome task rolled_out none none w w' = ⊥
  Outcome task rolled_out _ _ w w' = Recorded task rolled_out w w'
