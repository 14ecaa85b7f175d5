-- ===== src/Argocd/Argo/Acceptance.antt =====
-- What accepting a deployment does to the in-memory state, from the request to the store.
use mathlib.Core.Option
use argo_watcher.Common.{
  ℕ, ◌+◌, String, Bool, true, false, not, Option, none, some, ◌≡◌, refl, sym, ap, subst, ◌∙◌, ◌≢◌,
  ◌⊎◌, inl, inr, str_eq, eq_iff, eq_refl, is_empty, if◌then◌else◌, Bool-cases, arith,
}
use argo_watcher.Models.Status.{status_in_progress, status_cancelled}
use argo_watcher.Models.Task.{Task, list_images}
use argo_watcher.State.Memory.{InMemoryState, get_task, is_superseded, cancel_in_progress_tasks}
use argo_watcher.State.Memory.Superseded.{
  Supersedes, is_superseded-Supersedes, Supersedes-is_superseded,
}
use argo_watcher.State.Memory
use argo_watcher.State.Memory.Lookup.{superseded_by, get_task-cancel, get_task-add_task}
use argo_watcher.State.Repository.{memory_repository}
use argo_watcher.Argocd.Argo.{
  superseded_task_reason, is_available, Argo, add_task, accept, with_rollback, detect_rollback,
  image_signature, accepted,
}

module _ (new_id : String) (now : ℕ) (argo : Argo memory_repository) (task : Task) where
  -- The task as the store keeps it: all that the request says but for the id, the times, the status
  -- and the rollback fields, which are the server's own.
  abbrev pub stored : Task
  stored =
      let target = detect_rollback memory_repository now argo.store task in
      record task {
        id = new_id;
        created = now;
        updated = now;
        status = status_in_progress;
        rollback_target_id = target;
        is_rollback = not (str_eq target "");
      }

  -- What another task that was read before, or was not found, reads as afterwards.
  abbrev pub Left : Option Task → Option Task → Type 0
  Left none after = after ≡ none
  Left (some t) after =
      (Supersedes task.app task.images task.validated t
        × (after
            ≡ some (record t {
              status = status_cancelled;
              status_reason = superseded_task_reason;
              updated = now;
            })))
      ⊎ (¬ Supersedes task.app task.images task.validated t × (after ≡ some t))

  Left-superseded_by :
      (before : Option Task)
      → Left before (
          Option.map
            (superseded_by task.app task.images superseded_task_reason task.validated now)
            before)
  Left-superseded_by none = refl
  Left-superseded_by (some t) =
      elim (Bool-cases (is_superseded task.app task.images task.validated t)) [
        | inl e ↦ inl (is_superseded-Supersedes task.app task.images task.validated t e, rw e refl)
        | inr e ↦ inr (
          λ h. cc (Supersedes-is_superseded task.app task.images task.validated t h, e),
          rw e refl,
        )
      ]

  abbrev after_cancel : InMemoryState
  after_cancel =
      (cancel_in_progress_tasks task.app task.images superseded_task_reason task.validated now
        argo.store).0

  pub add_task_lem :
      (id : String)
      → is_available argo.availability ≡ true
      → is_empty task.images ≡ false
      → task.app ≢ ""
      → get_task argo.store new_id ≡ none
      → let (argo', result) = add_task memory_repository new_id now argo task in
        (result ≡ accepted stored)
        × (get_task argo'.store id ≡ (
            if str_eq new_id id
            then some stored
            else Option.map
                (superseded_by task.app task.images superseded_task_reason task.validated now)
                (get_task argo.store id)))
        × (argo'.accepted_deployments ≡ argo.accepted_deployments + 1)
  unfolding add_task Memory.add_task
  add_task_lem id up images app fresh =
      rw (up, images, unnamed, add_task)
        (
          refl,
          get_task-add_task new_id id now after_cancel
                (with_rollback task (detect_rollback memory_repository now argo.store task))
                still_fresh
              ∙ ap (λ o. if str_eq new_id id then some stored else o) (cancelled id),
          refl,
        )
    where
      unnamed : str_eq task.app "" ≡ false
      unnamed = ground (arith, eq_iff task.app "")

      cancelled :
          (j : String)
          → get_task after_cancel j
            ≡ Option.map
                (superseded_by task.app task.images superseded_task_reason task.validated now)
                (get_task argo.store j)
      cancelled j =
          get_task-cancel task.app task.images superseded_task_reason task.validated now argo.store
            j

      still_fresh : get_task after_cancel new_id ≡ none
      still_fresh = cancelled new_id ∙ ap (Option.map _) fresh

  -- Over the in-memory state, and with everything reachable, a deployment that names an application
  -- and images is accepted: under its fresh id the store then holds it as it was submitted, but with
  -- this id, the present time, in progress, and with the rollback fields that the server's own
  -- history gives, and so it is returned. Any other task is cancelled, with the reason and the time,
  -- if it was in progress for the same application, names one of the images, and was not submitted
  -- with valid credentials unless this one was; and it is as it was if not.
  pub add_task-accepted :
      (id : String)
      → id ≢ new_id
      → is_available argo.availability ≡ true
      → is_empty task.images ≡ false
      → task.app ≢ ""
      → get_task argo.store new_id ≡ none
      → let (argo', result) = add_task memory_repository new_id now argo task in
        (result ≡ accepted stored)
        × (get_task argo'.store new_id ≡ some stored)
        × Left (get_task argo.store id) (get_task argo'.store id)
        × (argo'.accepted_deployments ≡ argo.accepted_deployments + 1)
  add_task-accepted id other up images app fresh =
      let (result, own, counted) = add_task_lem new_id up images app fresh in
      let (_, others, _) = add_task_lem id up images app fresh in
      (
        result,
        own ∙ simp (eq_refl new_id),
        subst (Left (get_task argo.store id)) (sym (others ∙ rw apart refl))
            (Left-superseded_by (get_task argo.store id)),
        counted,
      )
    where
      apart : str_eq new_id id ≡ false
      apart = elim (Bool-cases (str_eq new_id id)) [
        | inl e ↦ absurd (other (sym ((eq_iff new_id id).0 e)))
        | inr e ↦ e
      ]

-- The rollback fields that a client sends have no influence: the server's history decides them.
pub add_task_ignores_client_rollback :
    (new_id : String) (now : ℕ) (argo : Argo memory_repository) (task : Task) (target : String)
    (claimed : Bool)
    → add_task memory_repository new_id now argo
        (record task { rollback_target_id = target; is_rollback = claimed })
      ≡ add_task memory_repository new_id now argo task
unfolding add_task accept detect_rollback image_signature list_images
add_task_ignores_client_rollback new_id now argo task target claimed = refl
