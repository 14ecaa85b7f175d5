-- ===== src/Argocd/Updater/Outcomes.antt =====
-- internal/argocd/argo_status_updater.go: what each outcome of a rollout writes, and what is announced.
use argo_watcher.Common.{
  ℕ, String, Bool, true, false, List, ◌∷◌, [], Option, ◌≡◌, refl, inl, inr, Bool-cases, str_eq,
  eq_iff,
}
use argo_watcher.Models.Status.{
  status_deployed, status_app_not_found, status_aborted, status_failed,
}
use argo_watcher.Models.Task.{Task, is_app_not_found_error}
use argo_watcher.Models.Application.{Application, Tree}
use argo_watcher.Models.Rollout.{rollout_success}
use argo_watcher.State.Repository.{Repository}
use argo_watcher.Argocd.Errors.{
  Err, ImageError, determine_failure_status, error_text, is_argo_unavailable,
}
use argo_watcher.Argocd.World.{
  Config, Event, notified, status_written, World, handle_argo_api_failure,
  handle_image_not_part_of_app, process_deployment_result, resulting_status,
}
use argo_watcher.Argocd.Updater.{announce}

-- The statuses that were written, the latest first.
abbrev pub writes : List Event → List (String × String)
writes [] = []
writes (status_written id status _ ∷ rest) = (id, status) ∷ writes rest
writes (_ ∷ rest) = writes rest

-- What the notifiers were handed, the latest first.
abbrev pub notifications : List Event → List Task
notifications [] = []
notifications (notified task ∷ rest) = task ∷ notifications rest
notifications (_ ∷ rest) = notifications rest

module _ (r : Repository) where
  -- A status written for the task, before it is announced.
  abbrev pub Settled : Task → Type 0 → World r → World r × Task → Type 0
  Settled task rolled_out w (w', task') =
      (status : String) × (reason : String) × (task' ≡ record task { status = status })
      × (w'.store ≡ (r.set_task_status task.id status reason w.now w.store).0)
      × (writes w'.events ≡ (task.id, status) ∷ writes w.events)
      × (notifications w'.events ≡ notifications w.events)
      × (status ≡ status_deployed → rolled_out)
      × (str_eq status "" ≡ false)

  not_deployed :
      (status : String) (rolled_out : Type 0)
      → str_eq status status_deployed ≡ false
      → status ≡ status_deployed
      → rolled_out
  not_deployed status rolled_out h e = absurd (cc ((eq_iff status status_deployed).1 e, h))

  failure_other :
      (quote : String → String) (task : Task) (err : Err) (other : String)
      → str_eq status_app_not_found other ≡ false
      → str_eq status_aborted other ≡ false
      → str_eq status_failed other ≡ false
      → str_eq (determine_failure_status quote task err) other ≡ false
  unfolding determine_failure_status
  failure_other quote task err other x y z =
      elim (Bool-cases (is_app_not_found_error task (error_text quote err))) [
        | inl a ↦ rw a x
        | inr a ↦ elim (Bool-cases (is_argo_unavailable err)) [
          | inl b ↦ rw (a, b) y
          | inr b ↦ rw (a, b) z
        ]
      ]

  pub handle_argo_api_failure-Settled :
      (c : Config) (task : Task) (rolled_out : Type 0) (err : Err) (confirmed : Bool) (w : World r)
      → Settled task rolled_out w (handle_argo_api_failure r c task err confirmed w)
  unfolding handle_argo_api_failure
  handle_argo_api_failure-Settled c task rolled_out err true w = (
    _,
    _,
    refl,
    refl,
    refl,
    refl,
    not_deployed _ rolled_out (failure_other c.quote task err status_deployed refl refl refl),
    failure_other c.quote task err "" refl refl refl,
  )
  handle_argo_api_failure-Settled c task rolled_out err false w = (
    _,
    _,
    refl,
    refl,
    refl,
    refl,
    not_deployed _ rolled_out (failure_other c.quote task err status_deployed refl refl refl),
    failure_other c.quote task err "" refl refl refl,
  )

  pub handle_image_not_part_of_app-Settled :
      (c : Config) (task : Task) (rolled_out : Type 0) (err : ImageError) (w : World r)
      → Settled task rolled_out w (handle_image_not_part_of_app r c task err w)
  unfolding handle_image_not_part_of_app
  handle_image_not_part_of_app-Settled c task rolled_out err w =
      (_, _, refl, refl, refl, refl, not_deployed _ rolled_out refl, refl)

  pub process_deployment_result-Settled :
      (c : Config) (task : Task) (rolled_out : Type 0) (app : Application) (waited : ℕ)
      (tree : Option Tree) (w : World r)
      → (resulting_status r c task app ≡ rollout_success → rolled_out)
      → Settled task rolled_out w (process_deployment_result r c task app waited tree w)
  unfolding process_deployment_result
  process_deployment_result-Settled c task rolled_out app waited tree w success =
      elim (Bool-cases (str_eq (resulting_status r c task app) rollout_success)) [
        | inl e ↦
            let seen = success ((eq_iff (resulting_status r c task app) rollout_success).0 e) in
            rw e (_, _, refl, refl, refl, refl, λ _. seen, refl)
        | inr e ↦ rw e (_, _, refl, refl, refl, refl, not_deployed _ rolled_out refl, refl)
      ]

  pub announce_lem :
      (task : Task) (confirmed : Bool) (w : World r)
      → let w' = announce r task confirmed w in
        (w'.store ≡ w.store)
        × (writes w'.events ≡ writes w.events)
        × (notifications w'.events ≡ task ∷ notifications w.events)
  unfolding announce
  announce_lem task true w = elim (Bool-cases (str_eq task.status status_deployed)) [
    | inl e ↦ rw e (refl, refl, refl)
    | inr e ↦ rw e (refl, refl, refl)
  ]
  announce_lem task false w = elim (Bool-cases (str_eq task.status status_deployed)) [
    | inl e ↦ rw e (refl, refl, refl)
    | inr e ↦ rw e (refl, refl, refl)
  ]
