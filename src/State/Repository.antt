-- ===== src/State/Repository.antt =====
-- internal/state/state.go: the interface `TaskRepository`, over a type of stores. The clock's reading
-- and a fresh id are arguments where the implementations take them; an error is `none` or `false`.
use argo_watcher.Common.{
  ℕ, String, Bool, true, false, List, [], ◌∷◌, Option, some, ◌≡◌, ◌≢◌, refl, sym, ap, ◌∙◌, inl, inr,
  eq_refl, eq_iff, str_eq, is_some, Bool-cases, Option-cases,
}
use argo_watcher.Common.Int.{ℤ}
use argo_watcher.Models.Task.{Task, Image}
use argo_watcher.State.Memory.{
  InMemoryState, find_task, set_status_in, with_status, add_task, get_tasks, get_task,
  set_task_status, cancel_in_progress_tasks,
}
use argo_watcher.State.Memory.Lookup.{get_task-set_task_status}

pub record Repository : Type 1 where
  pub Store : Type 0
  pub add_task : String → ℕ → Store → Task → Store × Option Task
  pub get_tasks : Store → ℕ → ℕ → String → String → ℤ → ℤ → List Task × ℕ
  pub get_task : Store → String → Option Task
  pub set_task_status : String → String → String → ℕ → Store → Store × Bool
  pub cancel_in_progress_tasks : String → List Image → String → Bool → ℕ → Store → Store × Option ℕ
  pub check : Store → Bool
  pub claim_task : String → ℕ → Store → Store × Bool

-- What the clients rely on, whenever a write of a status that is not empty, a read before it and a read after it return no
-- error: the task that was written has the new status, reason and time and all else as it was; every
-- other task is as it was; and a write that fails changes nothing.
pub record RepositoryLaws (r : Repository) : Type 0 where
  pub get-set :
      (id status reason : String) (now : ℕ) (s : r.Store) (t t' : Task)
      → status ≢ ""
      → (r.set_task_status id status reason now s).1 ≡ true
      → r.get_task s id ≡ some t
      → r.get_task (r.set_task_status id status reason now s).0 id ≡ some t'
      → t' ≡ with_status status reason now t
  pub get-set_status :
      (id status reason : String) (now : ℕ) (s : r.Store) (t' : Task)
      → status ≢ ""
      → (r.set_task_status id status reason now s).1 ≡ true
      → r.get_task (r.set_task_status id status reason now s).0 id ≡ some t'
      → t'.status ≡ status
  pub get-set_other :
      (id j status reason : String) (now : ℕ) (s : r.Store) (t u u' : Task)
      → (r.set_task_status id status reason now s).1 ≡ true
      → r.get_task s id ≡ some t
      → r.get_task s j ≡ some u
      → t.id ≢ u.id
      → r.get_task (r.set_task_status id status reason now s).0 j ≡ some u'
      → u' ≡ u
  pub set_failed :
      (id status reason : String) (now : ℕ) (s : r.Store)
      → (r.set_task_status id status reason now s).1 ≡ false
      → (r.set_task_status id status reason now s).0 ≡ s

-- The in-memory state: its claims are no-ops, and it is always available.
abbrev pub memory_repository : Repository
memory_repository = record {
  Store = InMemoryState;
  add_task = λ new_id now s task. let (s', t) = add_task new_id now s task in (s', some t);
  get_tasks = get_tasks;
  get_task = get_task;
  set_task_status = set_task_status;
  cancel_in_progress_tasks = λ app images reason validated now s.
      let (s', n) = cancel_in_progress_tasks app images reason validated now s in (s', some n);
  check = λ s. true;
  claim_task = λ id now s. (s, true);
}

inverted : (o : Option Task) (t t' : Task) → o ≡ some t → o ≡ some t' → t ≡ t'
inverted o t t' e f = cc (e, f)

written :
    (id j status reason : String) (now : ℕ) (s : InMemoryState) (t : Task)
    → str_eq id j ≡ true
    → get_task s j ≡ some t
    → get_task (set_task_status id status reason now s).0 j ≡ some (with_status status reason now t)
written id j status reason now s t same e =
    (get_task-set_task_status id j status reason now s).1 ∙ rw (same, e) refl

read_before :
    (id status reason : String) (now : ℕ) (s : InMemoryState)
    → (set_task_status id status reason now s).1 ≡ true
    → (t : Task) × (get_task s id ≡ some t)
read_before id status reason now s ok = elim (Option-cases (get_task s id)) [
  | inl e ↦
      let q : is_some (get_task s id) ≡ true =
        sym (get_task-set_task_status id id status reason now s).0 ∙ ok in
      absurd (cc (rw e at q))
  | inr (t, e) ↦ (t, e)
]

find_task-id :
    (tasks : List Task) (id : String) (t : Task) → find_task tasks id ≡ some t → t.id ≡ id
unfolding find_task
find_task-id [] id t e = cc e
find_task-id (x ∷ rest) id t e = elim (Bool-cases (str_eq x.id id)) [
  | inl h ↦
      let q : some x ≡ some t = rw h at e in
      let same : x ≡ t = cc q in ap (λ t. t.id) (sym same) ∙ (eq_iff x.id id).0 h
  | inr h ↦ find_task-id rest id t (rw h at e)
]

get_task-id : (s : InMemoryState) (id : String) (t : Task) → get_task s id ≡ some t → t.id ≡ id
unfolding get_task
get_task-id s id t e = find_task-id s.tasks id t e

left_alone :
    (id j status reason : String) (now : ℕ) (s : InMemoryState) (t u : Task)
    → get_task s id ≡ some t
    → get_task s j ≡ some u
    → t.id ≢ u.id
    → get_task (set_task_status id status reason now s).0 j ≡ some u
left_alone id j status reason now s t u e f ne =
    (get_task-set_task_status id j status reason now s).1 ∙ elim (Bool-cases (str_eq id j)) [
      | inl h ↦ absurd (ne (get_task-id s id t e ∙ (eq_iff id j).0 h ∙ sym (get_task-id s j u f)))
      | inr h ↦ rw (h, f) refl
    ]

unwritten :
    (id status reason : String) (now : ℕ) (s : InMemoryState)
    → (set_task_status id status reason now s).1 ≡ false
    → (set_task_status id status reason now s).0 ≡ s
unfolding set_task_status
unwritten id status reason now s failed =
    elim (Option-cases (set_status_in id status reason now s.tasks)) [
      | inl e ↦ rw (e, set_task_status) refl
      | inr (tasks, e) ↦ absurd (let q : true ≡ false = rw (e, set_task_status) at failed in cc q)
    ]

pub memory_laws : RepositoryLaws memory_repository
memory_laws = record {
  get-set = λ id status reason now s t t' _ ok e f.
      inverted _ t' (with_status status reason now t) f
        (written id id status reason now s t (eq_refl id) e);
  get-set_status = λ id status reason now s t' _ ok f.
      let (t, e) = read_before id status reason now s ok in
      ap (λ t. t.status)
        (inverted _ t' (with_status status reason now t) f
          (written id id status reason now s t (eq_refl id) e));
  get-set_other = λ id j status reason now s t u u' ok e f ne g.
      inverted _ u' u g (left_alone id j status reason now s t u e f ne);
  set_failed = unwritten;
}
