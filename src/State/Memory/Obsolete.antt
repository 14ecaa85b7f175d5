-- ===== src/State/Memory/Obsolete.antt =====
-- What the hourly sweep over the in-memory tasks leaves.
use argo_watcher.Common.{
  ℕ, ◌+◌, ◌≤◌, ◌<◌, false, List, [], ◌∷◌, ◌≡◌, refl, ◌⊎◌, inl, inr, ◌≢◌, eq_iff, str_eq, Bool-cases,
  arith,
}
use argo_watcher.Models.Status.{status_in_progress, status_app_not_found, status_aborted}
use argo_watcher.Models.Task.{Task}
use argo_watcher.State.Memory.{
  task_stale_threshold_seconds, stale_task_abort_reason, is_stale, process_in_memory_obsolete_tasks,
}

-- The task was left in progress for more than the staleness window.
abbrev pub WentStale : ℕ → Task → Task → Type 0
WentStale now before after =
    (before.status ≡ status_in_progress)
    × (before.updated + task_stale_threshold_seconds < now)
    × (after ≡ record before { status = status_aborted; status_reason = stale_task_abort_reason })

abbrev pub LeftAlone : ℕ → Task → Task → Type 0
LeftAlone now before after =
    (before.status ≢ status_app_not_found)
    × ((before.status ≢ status_in_progress) ⊎ (now ≤ before.updated + task_stale_threshold_seconds))
    × (after ≡ before)

-- The sweep as a relation: what becomes of each task, in order.
pub data Swept (now : ℕ) : List Task → List Task → Type 0 where
  done : Swept now [] []
  dropped :
      {t : Task} {before after : List Task}
      → t.status ≡ status_app_not_found
      → Swept now before after
      → Swept now (t ∷ before) after
  aborted :
      {t u : Task} {before after : List Task}
      → WentStale now t u
      → Swept now before after
      → Swept now (t ∷ before) (u ∷ after)
  kept :
      {t u : Task} {before after : List Task}
      → LeftAlone now t u
      → Swept now before after
      → Swept now (t ∷ before) (u ∷ after)

-- Each task of an unknown application is dropped, each one in progress past the window is aborted
-- with the reason, and every other one stays as it was, in its place.
pub process_in_memory_obsolete_tasks-Swept :
    (now : ℕ) (tasks : List Task) → Swept now tasks (process_in_memory_obsolete_tasks now tasks)
unfolding process_in_memory_obsolete_tasks is_stale
process_in_memory_obsolete_tasks-Swept now [] = done
process_in_memory_obsolete_tasks-Swept now (t ∷ rest) =
    let ih = process_in_memory_obsolete_tasks-Swept now rest in
    elim (Bool-cases (str_eq t.status status_app_not_found)) [
      | inl gone ↦ rw gone (dropped ((eq_iff _ _).0 gone) ih)
      | inr there ↦ elim (Bool-cases (is_stale now t)) [
        | inl stale ↦
            rw (there, stale)
              (aborted (ground (arith, eq_iff t.status status_in_progress), ground arith, refl) ih)
        | inr fresh ↦
            rw (there, fresh)
              (kept
                (
                  ground (arith, eq_iff t.status status_app_not_found),
                  ground (arith, eq_iff t.status status_in_progress),
                  refl,
                )
                ih)
      ]
    ]

settled_step :
    (now : ℕ) (t : Task) (rest : List Task)
    → str_eq t.status status_app_not_found ≡ false
    → is_stale now t ≡ false
    → process_in_memory_obsolete_tasks now rest ≡ rest
    → process_in_memory_obsolete_tasks now (t ∷ rest) ≡ t ∷ rest
unfolding process_in_memory_obsolete_tasks
settled_step now t rest there fresh ih = ground arith

fresh_of_LeftAlone : (now : ℕ) (t u : Task) → LeftAlone now t u → is_stale now t ≡ false
unfolding is_stale
fresh_of_LeftAlone now t u l = ground (arith, eq_iff t.status status_in_progress)

abort_is_fresh :
    (now : ℕ) (t : Task)
    → is_stale now (record t { status = status_aborted; status_reason = stale_task_abort_reason })
      ≡ false
unfolding is_stale
abort_is_fresh now t = refl

process_of_Swept :
    (now : ℕ) {before after : List Task}
    → Swept now before after
    → process_in_memory_obsolete_tasks now after ≡ after
unfolding process_in_memory_obsolete_tasks
process_of_Swept now done = refl
process_of_Swept now (dropped e s) = process_of_Swept now s
process_of_Swept now (aborted {t} {u} {after} (p, l, e) s) =
    rw e (settled_step now _ after refl (abort_is_fresh now t) (process_of_Swept now s))
process_of_Swept now (kept {t} {u} {after} l s) = rw l.2 (
    settled_step now t after (ground (arith, eq_iff t.status status_app_not_found))
      (fresh_of_LeftAlone now t u l) (process_of_Swept now s))

-- A second sweep at the same time changes nothing.
pub process_in_memory_obsolete_tasks_idem :
    (now : ℕ) (tasks : List Task)
    → process_in_memory_obsolete_tasks now (process_in_memory_obsolete_tasks now tasks)
      ≡ process_in_memory_obsolete_tasks now tasks
process_in_memory_obsolete_tasks_idem now tasks =
    process_of_Swept now (process_in_memory_obsolete_tasks-Swept now tasks)
