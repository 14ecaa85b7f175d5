-- ===== src/State/Postgres/Reads.antt =====
-- internal/state/postgres_state.go: what `GetTask` reads after `SetTaskStatus`.
use mathlib.Core.Option
use argo_watcher.Common.{
  ℕ, ◌*◌, ◌/◌, String, Bool, true, false, List, [], ◌∷◌, Option, none, some, ◌≡◌, ◌≢◌, refl, inl,
  inr, select, is_empty, str_eq, eq_iff, arith, Bool-cases, Option-cases, ap, sym, subst, ◌∙◌,
  if◌then◌else◌,
}
use argo_watcher.Models.Task.{Task}
use argo_watcher.State.Memory
use argo_watcher.State.Postgres.{
  TaskModel, nanoseconds, convert_to_external_task, get_task, get_at, set_at, set_task_status,
  find_row, Lookup, found, task_not_found, retrieval_error, lookup_of, with_updates, update_rows,
}

abbrev pub task_of : Lookup → Option Task
task_of (found task) = some task
task_of task_not_found = none
task_of retrieval_error = none

find_row-update_rows :
    (f : TaskModel → TaskModel) (rows : List TaskModel) (id : String)
    → ((row : TaskModel) → (f row).id ≡ row.id)
    → find_row (update_rows (λ row. str_eq row.id id) f rows) id ≡ Option.map f (find_row rows id)
unfolding find_row
find_row-update_rows f [] id same = refl
find_row-update_rows f (row ∷ rest) id same =
    let ids = ap (λ (x : String). str_eq x id) (same row) in
    elim (Bool-cases (str_eq row.id id)) [
      | inl e ↦ rw (e, ids ∙ e)
      | inr e ↦ rw (e, e) (find_row-update_rows f rest id same)
    ]

find_row-update_other :
    (f : TaskModel → TaskModel) (rows : List TaskModel) (id j : String)
    → ((row : TaskModel) → (f row).id ≡ row.id)
    → id ≢ j
    → find_row (update_rows (λ row. str_eq row.id id) f rows) j ≡ find_row rows j
unfolding find_row
find_row-update_other f [] id j same ne = refl
find_row-update_other f (row ∷ rest) id j same ne = elim (Bool-cases (str_eq row.id id)) [
  | inl e ↦
      let apart : str_eq row.id j ≡ false = elim (Bool-cases (str_eq row.id j)) [
        | inl k ↦ absurd (ne (sym ((eq_iff row.id id).0 e) ∙ (eq_iff row.id j).0 k))
        | inr k ↦ k
      ] in
      rw (e, ap (λ (x : String). str_eq x j) (same row) ∙ apart, apart)
        (find_row-update_other f rest id j same ne)
  | inr e ↦ rw e (
      ap (λ o. if str_eq row.id j then some row else o) (find_row-update_other f rest id j same ne))
]

find_row-id :
    (rows : List TaskModel) (id : String) (row : TaskModel)
    → find_row rows id ≡ some row
    → row.id ≡ id
unfolding find_row
find_row-id [] id row e = cc e
find_row-id (r ∷ rest) id row e = elim (Bool-cases (str_eq r.id id)) [
  | inl h ↦
      let q : some r ≡ some row = rw h at e in
      let same : r ≡ row = cc q in ap (λ r. r.id) (sym same) ∙ (eq_iff r.id id).0 h
  | inr h ↦ find_row-id rest id row (rw h at e)
]

none_selected :
    (p : TaskModel → Bool) (f : TaskModel → TaskModel) (rows : List TaskModel)
    → is_empty (select p rows) ≡ true
    → update_rows p f rows ≡ rows
none_selected p f [] h = refl
none_selected p f (row ∷ rest) h = elim (Bool-cases (p row)) [
  | inl e ↦ absurd (let q : false ≡ true = rw e at h in cc q)
  | inr e ↦ rw e (ap (λ rows. row ∷ rows) (none_selected p f rest (rw e at h)))
]

seconds_of : (now : ℕ) → (now * nanoseconds) / nanoseconds ≡ now
seconds_of now = omega arith

some_inj : {x y : TaskModel} → some x ≡ some y → x ≡ y
some_inj e = cc e

pub named_eq : (s : String) → s ≢ "" → str_eq s "" ≡ false
named_eq s named = elim (Bool-cases (str_eq s "")) [
  | inl e ↦ absurd (named ((eq_iff s "").0 e))
  | inr e ↦ e
]

converted :
    (status reason : String) (now : ℕ) (row : TaskModel)
    → status ≢ ""
    → convert_to_external_task (with_updates status reason (now * nanoseconds) row)
      ≡ Memory.with_status status reason now (convert_to_external_task row)
converted status reason now row named = rw (named_eq status named, seconds_of now) refl

-- What `uuid.Parse` and Postgres both read is the same identifier.
abbrev pub Agree : (String → Option String) → (String → Option String) → Type 0
Agree parse read = (id u v : String) → parse id ≡ some u → read id ≡ some v → u ≡ v

module _ (parse : String → Option String) (read : String → Option String)
    (agree : Agree parse read) where
  -- A task that is read stands in the row of the identifier.
  abbrev Found : List TaskModel → String → Task → Type 0
  Found rows id t =
      (u : String) × (row : TaskModel) × (parse id ≡ some u)
      × (find_row rows u ≡ some row)
      × (t ≡ convert_to_external_task row)

  lookup_of-row :
      (o : Option TaskModel) (t : Task)
      → task_of (lookup_of o) ≡ some t
      → (row : TaskModel) × (o ≡ some row) × (t ≡ convert_to_external_task row)
  lookup_of-row none t h = absurd (cc h)
  lookup_of-row (some row) t h = (row, refl, cc h)

  get_at-row :
      (fails : Bool) (rows : List TaskModel) (p q : Option String) (t : Task)
      → task_of (get_at fails rows p q) ≡ some t
      → (u : String) × (v : String) × (row : TaskModel) × (p ≡ some u)
        × (q ≡ some v)
        × (find_row rows v ≡ some row)
        × (t ≡ convert_to_external_task row)
  get_at-row fails rows none q t h = absurd (cc h)
  get_at-row fails rows (some u) none t h = absurd (cc h)
  get_at-row true rows (some u) (some v) t h = absurd (cc h)
  get_at-row false rows (some u) (some v) t h =
      let (row, f, e) = lookup_of-row (find_row rows v) t h in (u, v, row, refl, refl, f, e)

  pub get_task-Found :
      (fails : Bool) (rows : List TaskModel) (id : String) (t : Task)
      → task_of (get_task parse read fails rows id) ≡ some t
      → Found rows id t
  unfolding get_task
  get_task-Found fails rows id t h =
      let (u, v, row, p, q, f, e) = get_at-row fails rows (parse id) (read id) t h in
      (u, row, p, subst (λ x. find_row rows x ≡ some row) (sym (agree id u v p q)) f, e)

  -- What a write without an error has done.
  abbrev Updated : List TaskModel → String → String → String → ℕ → List TaskModel → Type 0
  Updated rows id status reason now rows' =
      (u : String) × (parse id ≡ some u)
      × (rows' ≡ update_rows (λ row. str_eq row.id u) (with_updates status reason now) rows)

  set_at-cases :
      (fails : Bool) (p : Option String) (status reason : String) (now : ℕ) (rows : List TaskModel)
      → let (rows', done) = set_at fails p status reason now rows in
        (done ≡ true
          → (u : String) × (p ≡ some u)
            × (rows' ≡ update_rows (λ row. str_eq row.id u) (with_updates status reason now) rows))
        × (done ≡ false → rows' ≡ rows)
  set_at-cases fails none status reason now rows = (λ h. absurd (cc h), λ h. refl)
  set_at-cases true (some u) status reason now rows = (λ h. absurd (cc h), λ h. refl)
  set_at-cases false (some u) status reason now rows = (
    λ h. (u, refl, refl),
    λ h.
        none_selected (λ row. str_eq row.id u) (with_updates status reason now) rows
          (ground (arith, h)),
  )

  pub set_task_status-cases :
      (fails : Bool) (id status reason : String) (now : ℕ) (rows : List TaskModel)
      → let (rows', done) = set_task_status parse fails id status reason now rows in
        (done ≡ true → Updated rows id status reason now rows') × (done ≡ false → rows' ≡ rows)
  unfolding set_task_status
  set_task_status-cases fails id status reason now rows =
      set_at-cases fails (parse id) status reason now rows

  pub read_status :
      (id status reason : String) (now : ℕ) (rows rows' : List TaskModel) (t' : Task)
      → Updated rows id status reason now rows'
      → Found rows' id t'
      → (row : TaskModel) × (u : String) × (parse id ≡ some u)
        × (find_row rows u ≡ some row)
        × (t' ≡ convert_to_external_task (with_updates status reason now row))
  read_status id status reason now rows rows' t' (u, p, e) (v, row', q, f, g) =
      let same : v ≡ u = cc (p, q) in
      let there : Option.map (with_updates status reason now) (find_row rows u) ≡ some row' =
        sym (find_row-update_rows (with_updates status reason now) rows u (λ row. refl))
        ∙ ap (λ rows. find_row rows u) (sym e)
        ∙ ap (find_row rows') (sym same)
        ∙ f in
      elim (Option-cases (find_row rows u)) [
        | inl n ↦ absurd (let q : none ≡ some row' = rw n at there in cc q)
        | inr (row, k) ↦
            let q : some (with_updates status reason now row) ≡ some row' = rw k at there in
            (row, u, p, k, g ∙ ap convert_to_external_task (sym (some_inj q)))
      ]

  pub read_same :
      (id status reason : String) (now : ℕ) (rows rows' : List TaskModel) (t t' : Task)
      → status ≢ ""
      → Updated rows id status reason (now * nanoseconds) rows'
      → Found rows id t
      → Found rows' id t'
      → t' ≡ Memory.with_status status reason now t
  read_same id status reason now rows rows' t t' named w (v, row, q, f, g) after =
      let (row', u, p, k, e) =
        read_status id status reason (now * nanoseconds) rows rows' t' w after in
      let same : u ≡ v = cc (p, q) in
      let one : row' ≡ row = some_inj (sym k ∙ ap (find_row rows) same ∙ f) in
      e
      ∙ converted status reason now row' named
      ∙ ap (λ row. Memory.with_status status reason now (convert_to_external_task row)) one
      ∙ ap (Memory.with_status status reason now) (sym g)

  pub read_other :
      (id j status reason : String) (now : ℕ) (rows rows' : List TaskModel) (t x x' : Task)
      → Updated rows id status reason now rows'
      → Found rows id t
      → Found rows j x
      → t.id ≢ x.id
      → Found rows' j x'
      → x' ≡ x
  read_other id j status reason now rows rows' t x x' (u, p, e) (v, row, q, f, g)
        (w, other, m, k, o) ne (w', other', m', k', o') =
      let same : u ≡ v = cc (p, q) in
      let again : w ≡ w' = cc (m, m') in
      let apart : u ≢ w = λ h. ne (
        ap (λ t. t.id) g
        ∙ find_row-id rows v row f
        ∙ sym same
        ∙ h
        ∙ sym (find_row-id rows w other k)
        ∙ ap (λ t. t.id) (sym o)) in
      let one : other' ≡ other = some_inj (
        sym k'
        ∙ ap (find_row rows') (sym again)
        ∙ ap (λ rows. find_row rows w) e
        ∙ find_row-update_other (with_updates status reason now) rows u w (λ row. refl) apart
        ∙ k) in
      o' ∙ ap convert_to_external_task one ∙ sym o
