-- ===== src/State/Postgres/Listing.antt =====
-- internal/state/postgres_state.go: the listing of the table is the one of the in-memory state.
use argo_watcher.Common.{
  ℕ, zero, suc, ◌+◌, ◌*◌, ◌/◌, ◌≤◌, ◌==◌, ◌≢◌, String, Bool, Bool-cases, false, List, [], ◌∷◌, ◌≡◌,
  refl, inl, inr, map, select, length, length-map, take, drop, arith, Has, Has-of_select, ap, ap₂,
  sym, ◌∙◌,
}
use argo_watcher.Common.Int.{ℤ, max_int64}
use argo_watcher.Common.Sort.{sort, insert}
use argo_watcher.State.Memory
use argo_watcher.State.Memory.{
  InMemoryState, task_matches_filters, newer, matching, paginate, clamp,
}
use argo_watcher.State.Memory.Listing.{
  Has-of_sort, get_tasks_lem, paginate_bounded, paginate_unbounded,
}
use argo_watcher.State.Postgres.{
  TaskModel, nanoseconds, convert_to_external_task, row_matches, created_desc, limited, get_tasks,
}

-- The elements at any two places are related.
abbrev pub Pairwise : {A : Type 0} → (A → A → Type 0) → List A → Type 0
Pairwise R [] = Unit {0}
Pairwise R (x ∷ xs) = ((y : _) → Has y xs → R x y) × Pairwise R xs

Pairwise-select :
    {A : Type 0} (R : A → A → Type 0) (p : A → Bool) (xs : List A)
    → Pairwise R xs
    → Pairwise R (select p xs)
Pairwise-select R p [] h = tt
Pairwise-select R p (x ∷ xs) (h, k) = elim (Bool-cases (p x)) [
  | inl e ↦ rw e (λ y there. h y (Has-of_select p y xs there).0, Pairwise-select R p xs k)
  | inr e ↦ rw e (Pairwise-select R p xs k)
]

Pairwise-held :
    {A : Type 0} (R S : A → A → Type 0) (xs : List A)
    → ((x y : A) → Has x xs → Has y xs → R x y → S x y)
    → Pairwise R xs
    → Pairwise S xs
Pairwise-held R S [] f h = tt
Pairwise-held R S (x ∷ xs) f (h, k) = (
  λ y there. f x y (inl refl) (inr there) (h y there),
  Pairwise-held R S xs (λ y z l m. f y z (inr l) (inr m)) k,
)

module _ {A B : Type 0} (f : A → B) where
  select-map :
      (p : B → Bool) (q : A → Bool) (xs : List A)
      → ((x : A) → Has x xs → p (f x) ≡ q x)
      → select p (map f xs) ≡ map f (select q xs)
  select-map p q [] h = refl
  select-map p q (x ∷ xs) h = ground (arith, h x (inl refl), select-map p q xs (λ y k. h y (inr k)))

  insert-map :
      (b : B → B → Bool) (c : A → A → Bool) (a : A) (xs : List A)
      → ((x : A) → Has x xs → b (f a) (f x) ≡ c a x)
      → insert b (f a) (map f xs) ≡ map f (insert c a xs)
  unfolding insert
  insert-map b c a [] h = refl
  insert-map b c a (x ∷ xs) h =
      ground (arith, h x (inl refl), insert-map b c a xs (λ y k. h y (inr k)))

  sort-map :
      (b : B → B → Bool) (c : A → A → Bool) (xs : List A)
      → Pairwise (λ x y. b (f x) (f y) ≡ c x y) xs
      → sort b (map f xs) ≡ map f (sort c xs)
  unfolding sort
  sort-map b c [] h = refl
  sort-map b c (x ∷ xs) (h, k) =
      ap (insert b (f x)) (sort-map b c xs k)
      ∙ insert-map b c x (sort c xs) (λ y l. h y (Has-of_sort c y xs l))

  take-map : (n : ℕ) (xs : List A) → take n (map f xs) ≡ map f (take n xs)
  take-map zero xs = refl
  take-map (suc n) [] = refl
  take-map (suc n) (x ∷ xs) = ap (◌∷◌ (f x)) (take-map n xs)

  drop-map : (n : ℕ) (xs : List A) → drop n (map f xs) ≡ map f (drop n xs)
  drop-map zero xs = refl
  drop-map (suc n) [] = refl
  drop-map (suc n) (x ∷ xs) = drop-map n xs

length-insert :
    {A : Type 0} (b : A → A → Bool) (a : A) (xs : List A) → length (insert b a xs) ≡ suc (length xs)
unfolding insert
length-insert b a [] = refl
length-insert b a (x ∷ xs) = ground (arith, length-insert b a xs)

pub length-sort : {A : Type 0} (b : A → A → Bool) (xs : List A) → length (sort b xs) ≡ length xs
unfolding sort
length-sort b [] = refl
length-sort b (x ∷ xs) = length-insert b x (sort b xs) ∙ ap suc (length-sort b xs)

window :
    (limit offset : ℕ) (rows : List TaskModel)
    → limit + offset ≤ max_int64
    → paginate (map convert_to_external_task rows) limit offset
      ≡ map convert_to_external_task (limited limit (drop offset rows))
window zero offset rows fits =
    paginate_unbounded (map convert_to_external_task rows) offset
    ∙ drop-map convert_to_external_task offset rows
window (suc limit) offset rows fits =
    paginate_bounded (map convert_to_external_task rows) limit offset (λ _. omega (arith, fits))
    ∙ ap (take (suc limit)) (drop-map convert_to_external_task offset rows)
    ∙ take-map convert_to_external_task (suc limit) (drop offset rows)

-- The rows were created at whole seconds, to which the in-memory state rounds.
abbrev pub AtSeconds : List TaskModel → Type 0
AtSeconds rows =
    (row : TaskModel) → Has row rows → row.created ≡ row.created / nanoseconds * nanoseconds

row_matches-external :
    (start_time end_time : ℕ) (app status : String) (row : TaskModel)
    → row.created ≡ row.created / nanoseconds * nanoseconds
    → task_matches_filters (convert_to_external_task row) start_time end_time app status
      ≡ row_matches start_time end_time app status row
unfolding task_matches_filters row_matches
row_matches-external start_time end_time app status row whole = ground arith

-- No two rows were created at the same time.
abbrev pub AtTimes : List TaskModel → Type 0
AtTimes rows = Pairwise (λ a b. a.created ≢ b.created) rows

newer-external :
    (tie : TaskModel → TaskModel → Bool) (a b : TaskModel)
    → a.created ≡ a.created / nanoseconds * nanoseconds
    → b.created ≡ b.created / nanoseconds * nanoseconds
    → a.created ≢ b.created
    → newer (convert_to_external_task a) (convert_to_external_task b) ≡ created_desc tie a b
newer-external tie a b p q apart =
    let other : (b.created == a.created) ≡ false = ground (arith, apart) in
    rw other (ground (arith, p, q, apart))

-- Over rows created at whole seconds, no two at the same time, and with a limit and an offset whose sum
-- is within a Go int: the two queries, where neither fails, list and count what the in-memory state
-- does, however the database orders rows of one time.
pub get_tasks-in_memory :
    (tie : TaskModel → TaskModel → Bool) (rows : List TaskModel) (start_time end_time : ℕ)
    (app status : String) (limit offset : ℤ)
    → AtSeconds rows
    → AtTimes rows
    → clamp limit + clamp offset ≤ max_int64
    → get_tasks tie false rows start_time end_time app status limit offset
      ≡ Memory.get_tasks
          (record { tasks = map convert_to_external_task rows })
          start_time
          end_time
          app
          status
          limit
          offset
unfolding get_tasks matching
get_tasks-in_memory tie rows start_time end_time app status limit offset whole apart fits =
    let matches = row_matches start_time end_time app status in
    let there = select matches rows in
    let order = created_desc tie in
    let chosen =
      select-map convert_to_external_task
        (λ t. task_matches_filters t start_time end_time app status) matches rows
        (λ row h. row_matches-external start_time end_time app status row (whole row h)) in
    let in_order =
      ap (sort newer) chosen
      ∙ sort-map convert_to_external_task newer order there (
          Pairwise-held (λ a b. a.created ≢ b.created) _ there
            (λ a b h k.
              newer-external tie a b (whole a (Has-of_select matches a rows h).0)
                (whole b (Has-of_select matches b rows k).0))
            (Pairwise-select (λ a b. a.created ≢ b.created) matches rows apart)) in
    sym (
      get_tasks_lem (record { tasks = map convert_to_external_task rows }) start_time end_time app
        status limit offset
      ∙ ap₂ (λ ts n. (ts, n))
          (ap (λ ts. paginate ts (clamp limit) (clamp offset)) in_order
            ∙ window (clamp limit) (clamp offset) (sort order there) fits)
          (ap length in_order
            ∙ length-map (sort order there) convert_to_external_task
            ∙ length-sort order there))
