-- ===== src/Server/Handlers/Submission.antt =====
-- internal/server/handlers.go: what a submitted deployment is stored as, and how large a listing is.
use mathlib.Core.Option.{map}
use argo_watcher.Models.Status.{status_in_progress}
use argo_watcher.Common.{
  ℕ, String, Bool, true, false, List, Option, none, some, ◌≡◌, refl, Bool-cases, inl, inr, ap, ◌∙◌,
  str_eq, eq_iff, is_empty, eq_refl,
}
use argo_watcher.Common.Int.{ℤ, pos, lebℤ}
use argo_watcher.Models.Task.{Task, Image}
use argo_watcher.State.Memory.{get_task}
use argo_watcher.State.Repository.{memory_repository}
use argo_watcher.Argocd.Argo.{
  Argo, AddResult, accepted, refused, argocd_unavailable, without_images, without_app, add_task,
  is_available,
}
use argo_watcher.Argocd.Argo.Acceptance.{stored, add_task_lem}
use argo_watcher.Auth.{Answer}
use argo_watcher.Server.Handlers.{created, down, submitted, respond, handle_add_task}

-- What a client names.
abbrev pub contents : Task → String × String × String × List Image
contents task = (task.app, task.author, task.project, task.images)

-- What a submission under the id has led to.
abbrev pub Recorded : Bool → Answer → Option Task → String → Argo memory_repository → Type 0
Recorded locked token payload id argo =
    (locked ≡ false)
    × (token.1 ≡ none)
    × (t : Task) × (get_task argo.store id ≡ some t)
    × (map contents payload ≡ some (contents t))
    × (t.status ≡ status_in_progress)
    × (t.validated ≡ token.0)
    × (lebℤ t.timeout (pos 0) ≡ false)

module _ (new_id : String) (now : ℕ) (deployment_timeout : ℤ) (argo : Argo memory_repository) where
  timeout_positive :
      (token_valid : Bool) (task : Task)
      → lebℤ deployment_timeout (pos 0) ≡ false
      → lebℤ (submitted deployment_timeout token_valid task).timeout (pos 0) ≡ false
  timeout_positive token_valid task d = elim (Bool-cases (lebℤ task.timeout (pos 0))) [
    | inl e ↦ rw (e) d
    | inr e ↦ rw (e) e
  ]

  responded :
      (x : Argo memory_repository × AddResult) (t : Task)
      → x.1 ≡ accepted t
      → (respond x).1 ≡ created t.id
  responded (a, accepted u) t e = cc e
  responded (a, refused u) t e = absurd (cc e)

  respond_keeps : (x : Argo memory_repository × AddResult) → (respond x).0 ≡ x.0
  respond_keeps (a, accepted u) = refl
  respond_keeps (a, refused u) = refl

  -- What a response 202 says of the guards.
  passed :
      (task : Task) (id : String)
      → (respond (add_task memory_repository new_id now argo task)).1 ≡ created id
      → (is_available argo.availability ≡ true)
        × (is_empty task.images ≡ false)
        × (str_eq task.app "" ≡ false)
  unfolding add_task
  passed task id h = elim (Bool-cases (is_available argo.availability)) [
    | inl a ↦ elim (Bool-cases (is_empty task.images)) [
      | inl i ↦ absurd (let q : down without_images ≡ created id = rw (a, i) at h in cc q)
      | inr i ↦ elim (Bool-cases (str_eq task.app "")) [
        | inl n ↦ absurd (let q : down without_app ≡ created id = rw (a, i, n) at h in cc q)
        | inr n ↦ (a, i, n)
      ]
    ]
    | inr a ↦ absurd (let q : down argocd_unavailable ≡ created id = rw (a) at h in cc q)
  ]

  added :
      (task : Task) (id : String)
      → get_task argo.store new_id ≡ none
      → (respond (add_task memory_repository new_id now argo task)).1 ≡ created id
      → (id ≡ new_id)
        × (get_task (respond (add_task memory_repository new_id now argo task)).0.store id
            ≡ some (stored new_id now argo task))
  added task id fresh h =
      let x = add_task memory_repository new_id now argo task in
      let (a, i, n) = passed task id h in
      let (e, kept, _) =
        add_task_lem new_id now argo task new_id a i (λ q. cc ((eq_iff task.app "").1 q, n))
          fresh in
      let same : id ≡ new_id = cc (h, responded x _ e) in
      (
        same,
        ap (λ a. get_task a.store id) (respond_keeps x)
            ∙ ap (get_task x.0.store) same
            ∙ kept
            ∙ simp (eq_refl new_id),
      )

  -- Over the in-memory state, and with a positive default for the rollout window: a submission that is
  -- answered with 202 arrived while no lockdown was active, and the validation of its credentials
  -- returned no error; it is stored under the id of the answer, in progress, with the application, the
  -- author, the project and the images it named, as validated exactly if the validation says that the
  -- token is valid, and with a positive rollout window.
  pub handle_add_task-created :
      (locked : Bool) (token : Answer) (payload : Option Task) (id : String)
      → lebℤ deployment_timeout (pos 0) ≡ false
      → get_task argo.store new_id ≡ none
      → (handle_add_task memory_repository new_id now deployment_timeout locked token argo
          payload).1
        ≡ created id
      → Recorded locked token payload id
          (handle_add_task memory_repository new_id now deployment_timeout locked token argo
            payload).0
  unfolding handle_add_task
  handle_add_task-created locked token none id d fresh h = absurd (cc h)
  handle_add_task-created true token (some task) id d fresh h = absurd (cc h)
  handle_add_task-created false (valid, some e) (some task) id d fresh h = absurd (cc h)
  handle_add_task-created false (valid, none) (some task) id d fresh h =
      let t = stored new_id now argo (submitted deployment_timeout valid task) in
      let (_, kept) = added (submitted deployment_timeout valid task) id fresh h in
      (refl, refl, t, kept, refl, refl, refl, timeout_positive valid task d)
