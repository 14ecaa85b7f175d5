-- ===== src/State/Postgres/Cancel.antt =====
-- internal/state/postgres_state.go: the supersession over the table does what it does in memory.
use argo_watcher.Common.{
  ℕ, ◌*◌, ◌/◌, String, Bool, true, false, ◌&&◌, List, [], ◌∷◌, Option, some, ◌≡◌, refl, inl, inr,
  map, select, any, length, is_empty, str_eq, if◌then◌else◌, arith, Bool-cases, Has, Has-select,
  Has-of_select, Has-map, Has-of_map, Has-any, Has-of_any, map_congr, ap, ap₂, sym, subst, ◌∙◌,
}
use argo_watcher.Models.Status.{status_in_progress, status_cancelled}
use argo_watcher.Models.Task.{Image}
use argo_watcher.State.Memory
use argo_watcher.State.Memory.{InMemoryState, is_superseded}
use argo_watcher.State.Memory.Lookup.{superseded_by, cancel_in_progress_tasks_lem}
use argo_watcher.State.Postgres.{
  TaskModel, HasKey, nanoseconds, convert_to_resumed_task, is_candidate, cancel_in_progress_tasks,
  with_status, update_rows,
}

-- The table as the in-memory state would hold its tasks.
abbrev pub in_memory : List TaskModel → InMemoryState
in_memory rows = record { tasks = map convert_to_resumed_task rows }

map_id : {A : Type 0} (f : A → A) (xs : List A) → ((x : A) → f x ≡ x) → map f xs ≡ xs
map_id f [] h = refl
map_id f (x ∷ xs) h = ap₂ ◌∷◌ (h x) (map_id f xs h)

map-map :
    {A B C : Type 0} (g : B → C) (f : A → B) (xs : List A)
    → map g (map f xs) ≡ map (λ x. g (f x)) xs
map-map g f [] = refl
map-map g f (x ∷ xs) = ap (◌∷◌ (g (f x))) (map-map g f xs)

length-select-map :
    {A B : Type 0} (p : B → Bool) (f : A → B) (xs : List A)
    → length (select p (map f xs)) ≡ length (select (λ x. p (f x)) xs)
length-select-map p f [] = refl
length-select-map p f (x ∷ xs) = ground (arith, length-select-map p f xs)

length-select_congr :
    {A : Type 0} (p q : A → Bool) (xs : List A)
    → ((x : A) → Has x xs → p x ≡ q x)
    → length (select p xs) ≡ length (select q xs)
length-select_congr p q [] h = refl
length-select_congr p q (x ∷ xs) h =
    ground (arith, h x (inl refl), length-select_congr p q xs (λ y k. h y (inr k)))

module _ (app : String) (images : List Image) (reason : String) (validated : Bool) (now : ℕ)
    (rows : List TaskModel) where
  abbrev ids : List String
  ids = map (λ (row : TaskModel). row.id) (select (is_candidate app images validated) rows)

  abbrev ours : List String → TaskModel → Bool
  ours chosen row = any (str_eq row.id) chosen && str_eq row.status status_in_progress

  -- What the two statements do, where the first finds something or not.
  abbrev outcome : List String → List TaskModel × Option ℕ
  outcome chosen = (
    update_rows (ours chosen) (with_status status_cancelled reason (now * nanoseconds)) rows,
    some (length (select (ours chosen) rows)),
  )

  nothing_chosen :
      (chosen : List String)
      → (if is_empty chosen then (rows, some 0) else outcome chosen) ≡ outcome chosen
  nothing_chosen [] =
      ap₂ (λ r n. (r, some n)) (sym (map_id _ rows (λ row. refl))) (sym (none_of rows))
    where
      none_of : (xs : List TaskModel) → length (select (ours []) xs) ≡ 0
      none_of [] = refl
      none_of (x ∷ xs) = none_of xs
  nothing_chosen (id ∷ rest) = refl

  candidate_in_progress :
      (row : TaskModel)
      → is_candidate app images validated row ≡ true
      → str_eq row.status status_in_progress ≡ true
  unfolding is_candidate
  candidate_in_progress row h = ground arith

  ours_candidate :
      (row : TaskModel)
      → HasKey rows
      → Has row rows
      → ours ids row ≡ is_candidate app images validated row
  ours_candidate row key h = elim (Bool-cases (is_candidate app images validated row)) [
    | inl c ↦ rw (
      c,
      candidate_in_progress row c,
      Has-any row.id ids (
          Has-map (λ (r : TaskModel). r.id) row (select (is_candidate app images validated) rows)
            (Has-select (is_candidate app images validated) row rows h c)),
    )
    | inr c ↦ elim (Bool-cases (any (str_eq row.id) ids)) [
      | inr a ↦ rw (c, a)
      | inl a ↦
          let (r, k, e) =
            Has-of_map (λ (r : TaskModel). r.id) row.id
              (select (is_candidate app images validated) rows) (Has-of_any row.id ids a) in
          let (there, q) = Has-of_select (is_candidate app images validated) r rows k in
          absurd (
            let x : false ≡ true =
              sym c
              ∙ subst (λ t. is_candidate app images validated t ≡ true) (key r row there h e) q in
            cc x)
    ]
  ]

  candidate_superseded :
      (row : TaskModel)
      → is_candidate app images validated row
        ≡ is_superseded app images validated (convert_to_resumed_task row)
  unfolding is_candidate is_superseded
  candidate_superseded row = refl

  cancelled_row :
      (row : TaskModel) (b : Bool)
      → is_superseded app images validated (convert_to_resumed_task row) ≡ b
      → convert_to_resumed_task
          (if b then with_status status_cancelled reason (now * nanoseconds) row else row)
        ≡ superseded_by app images reason validated now (convert_to_resumed_task row)
  cancelled_row row true e =
      let t : now * nanoseconds / nanoseconds ≡ now = omega arith in simp (e, t)
  cancelled_row row false e = simp e

  cancelled_rows :
      HasKey rows
      → map convert_to_resumed_task (outcome ids).0
        ≡ map (superseded_by app images reason validated now) (map convert_to_resumed_task rows)
  cancelled_rows key =
      map-map convert_to_resumed_task _ rows
      ∙ map_congr _ _ rows (λ row h.
        cancelled_row row (ours ids row)
          (sym (ours_candidate row key h ∙ candidate_superseded row)))
      ∙ sym (map-map (superseded_by app images reason validated now) convert_to_resumed_task rows)

-- Where no other statement comes between its two, the supersession over the table cancels the tasks that
-- the in-memory state would cancel, leaves all others as they are, and counts the same; what the table
-- holds is read as a replica resumes it.
pub cancel_in_progress_tasks-in_memory :
    (app : String) (images : List Image) (reason : String) (validated : Bool) (now : ℕ)
    (rows : List TaskModel)
    → HasKey rows
    → let (rows', count) =
        cancel_in_progress_tasks false app images reason validated (now * nanoseconds) rows rows in
      let (state', count') =
        Memory.cancel_in_progress_tasks app images reason validated now (in_memory rows) in
      (in_memory rows' ≡ state') × (count ≡ some count')
unfolding cancel_in_progress_tasks
cancel_in_progress_tasks-in_memory app images reason validated now rows key =
    let found = ids app images reason validated now rows in
    let same = nothing_chosen app images reason validated now rows found in
    let (tasks, counted, _) =
      cancel_in_progress_tasks_lem app images reason validated now (in_memory rows) in
    (
      ap (λ r. in_memory r.0) same
          ∙ ap (λ ts. record { tasks = ts })
              (cancelled_rows app images reason validated now rows key ∙ sym tasks),
      ap (λ r. r.1) same
          ∙ ap some (
              length-select_congr _ _ rows (λ row h.
                ours_candidate app images reason validated now rows row key h
                ∙ candidate_superseded app images reason validated now rows row)
              ∙ sym (
                  length-select-map (is_superseded app images validated) convert_to_resumed_task
                    rows)
              ∙ sym counted),
    )
