-- ===== src/State/Memory/Superseded.antt =====
-- internal/state/in_memory_state.go: what a cancellation does to the list of tasks, task by task.
use argo_watcher.Common.{
  ℕ, suc, String, Bool, true, false, List, [], ◌∷◌, ◌≡◌, refl, ap, ◌∙◌, inl, inr, map, any, str_eq,
  eq_iff, contains, contains-Has, Has-contains, Bool-cases, arith, Has, Has-map, Has-of_map, subst,
}
use argo_watcher.Models.Status.{status_in_progress, status_cancelled}
use argo_watcher.Models.Task.{Task, Image}
use argo_watcher.State.Supersede.{may_supersede, image_names_overlap}
use argo_watcher.State.Memory.{InMemoryState, is_superseded, cancel_in, cancel_in_progress_tasks}
use argo_watcher.State.Memory.Lookup.{cancel_in_progress_tasks_lem}

any-Has :
    {A : Type 0} (f : A → Bool) (xs : List A) → any f xs ≡ true → (x : A) × Has x xs × (f x ≡ true)
any-Has f [] h = absurd (cc h)
any-Has f (x ∷ xs) h = elim (Bool-cases (f x)) [
  | inl e ↦ (x, inl refl, e)
  | inr e ↦ let (y, there, k) = any-Has f xs (rw e at h) in (y, inr there, k)
]

any-of_Has :
    {A : Type 0} (f : A → Bool) (xs : List A) (x : A) → Has x xs → f x ≡ true → any f xs ≡ true
any-of_Has f [] x h k = absurd h
any-of_Has f (y ∷ ys) x (inl e) k = rw (ap f e ∙ k) refl
any-of_Has f (y ∷ ys) x (inr h) k = ground (arith, any-of_Has f ys x h k)

-- Two lists name an image in common.
abbrev pub Overlap : List Image → List Image → Type 0
Overlap xs ys = (a : Image) × (b : Image) × Has a xs × Has b ys × (a.image ≡ b.image)

image_names_overlap-Overlap :
    (xs ys : List Image) → image_names_overlap xs ys ≡ true → Overlap xs ys
unfolding image_names_overlap
image_names_overlap-Overlap xs ys h =
    let (b, there, k) = any-Has (λ i. contains (map (λ i. i.image) xs) i.image) ys h in
    let (a, here, e) = Has-of_map (λ i. i.image) b.image xs (contains-Has _ b.image k) in
    (a, b, here, there, e)

Overlap-image_names_overlap :
    (xs ys : List Image) → Overlap xs ys → image_names_overlap xs ys ≡ true
unfolding image_names_overlap
Overlap-image_names_overlap xs ys (a, b, here, there, e) =
    any-of_Has (λ i. contains (map (λ i. i.image) xs) i.image) ys b there
      (Has-contains _ b.image
        (subst (λ s. Has s (map (λ i. i.image) xs)) e (Has-map (λ i. i.image) a xs here)))

-- A deployment of the application with these images, and with or without valid credentials, ends this
-- task: it is in flight for the same application, no more trusted, and shares an image.
abbrev pub Supersedes : String → List Image → Bool → Task → Type 0
Supersedes app images validated task =
    (task.app ≡ app)
    × (task.status ≡ status_in_progress)
    × (task.validated ≡ true → validated ≡ true)
    × Overlap task.images images

may_supersede_iff :
    (new old : Bool)
    → (may_supersede new old ≡ true → old ≡ true → new ≡ true)
      × ((old ≡ true → new ≡ true) → may_supersede new old ≡ true)
unfolding may_supersede
may_supersede_iff true old = (λ h k. refl, λ h. refl)
may_supersede_iff false true = (λ h k. h, λ h. h refl)
may_supersede_iff false false = (λ h k. k, λ h. refl)

pub is_superseded-Supersedes :
    (app : String) (images : List Image) (validated : Bool) (task : Task)
    → is_superseded app images validated task ≡ true
    → Supersedes app images validated task
unfolding is_superseded
is_superseded-Supersedes app images validated task h =
    let a : str_eq task.app app ≡ true = ground (arith, h) in
    let s : str_eq task.status status_in_progress ≡ true = ground (arith, h) in
    let m : may_supersede validated task.validated ≡ true = ground (arith, h) in
    let o : image_names_overlap task.images images ≡ true = ground (arith, h) in
    (
      (eq_iff task.app app).0 a,
      (eq_iff task.status status_in_progress).0 s,
      (may_supersede_iff validated task.validated).0 m,
      image_names_overlap-Overlap task.images images o,
    )

pub Supersedes-is_superseded :
    (app : String) (images : List Image) (validated : Bool) (task : Task)
    → Supersedes app images validated task
    → is_superseded app images validated task ≡ true
unfolding is_superseded
Supersedes-is_superseded app images validated task (a, s, m, o) =
    rw
      (
        (eq_iff task.app app).1 a,
        (eq_iff task.status status_in_progress).1 s,
        (may_supersede_iff validated task.validated).1 m,
      )
      (Overlap-image_names_overlap task.images images o)

module _ (app : String) (images : List Image) (reason : String) (validated : Bool) (now : ℕ) where
  -- What the deployment makes of a list of tasks, in place, and how many it ends.
  pub data Ends : List Task → List Task → ℕ → Type 0 where
    end : Ends [] [] 0
    ended :
        (task : Task) (old new : List Task) (n : ℕ)
        → Supersedes app images validated task
        → Ends old new n
        → Ends
            (task ∷ old)
            (record task { status = status_cancelled; status_reason = reason; updated = now } ∷ new)
            (suc n)
    kept :
        (task : Task) (old new : List Task) (n : ℕ)
        → ¬ Supersedes app images validated task
        → Ends old new n
        → Ends (task ∷ old) (task ∷ new) n

  cancel_in-Ends :
      (tasks : List Task)
      → let (tasks', count) = cancel_in app images reason validated now tasks in
        Ends tasks tasks' count
  unfolding cancel_in
  cancel_in-Ends [] = end
  cancel_in-Ends (task ∷ rest) = elim (Bool-cases (is_superseded app images validated task)) [
    | inl e ↦ rw e (
        ended task rest _ _ (is_superseded-Supersedes app images validated task e)
          (cancel_in-Ends rest))
    | inr e ↦ rw e (
        kept task rest _ _ (λ h. cc (Supersedes-is_superseded app images validated task h, e))
          (cancel_in-Ends rest))
  ]

  -- In the in-memory state, a deployment that supersedes others ends every task that is in progress
  -- for the same application, names one of its images, and was not submitted with valid credentials
  -- unless the deployment was too: such a task becomes cancelled, with the reason and the time, and is
  -- counted. Every other task stays as it is, all stay in their places, and a repeated call ends none.
  pub cancel_in_progress_tasks-Ends :
      (state : InMemoryState)
      → let (state', count) = cancel_in_progress_tasks app images reason validated now state in
        Ends state.tasks state'.tasks count
        × ((cancel_in_progress_tasks app images reason validated now state').1 ≡ 0)
  unfolding cancel_in_progress_tasks
  cancel_in_progress_tasks-Ends state = (
    cancel_in-Ends state.tasks,
    (cancel_in_progress_tasks_lem app images reason validated now state).2,
  )
