-- ===== src/State/Memory/Listing.antt =====
-- What `GetTasks` lists: which tasks, in which order, and how its pages fit together.
use native.Mathlib.Nat.{zero-add, suc-add}
use argo_watcher.Common.{
  ℕ, zero, suc, ◌+◌, ◌≤◌, ◌<◌, String, Bool, true, false, List, [], ◌∷◌, ◌++◌, ◌≡◌, refl, sym, ap,
  ap₂, subst, ◌∙◌, eq_iff, ◌⊎◌, inl, inr, ◌↔◌, Has, Has-select, Has-of_select, select, length, take,
  drop, take-append-drop, length-drop, arith, Bool-cases, leb, ltb, ◌-◌, not, ◌&&◌,
}
use argo_watcher.Common.Int.{ℤ, pos, negsuc, lebℤ, int64, max_int64, int64_of_le}
use argo_watcher.Common.Sort.{insert, sort, IsSorted, sort-IsSorted}
use argo_watcher.Models.Task.{Task}
use argo_watcher.State.Memory.{
  InMemoryState, task_matches_filters, slice, paginate, newer, matching, get_tasks, clamp,
}

module _ {A : Type 0} (before : A → A → Bool) where
  Has-insert : (a x : A) (xs : List A) → Has a (x ∷ xs) → Has a (insert before x xs)
  unfolding insert
  Has-insert a x [] h = h
  Has-insert a x (y ∷ ys) h = elim (Bool-cases (before x y)) [
    | inl b ↦ rw b h
    | inr b ↦ rw b (below a x y ys h (Has-insert a x ys))
  ]
    where
      below :
          (a x y : A) (ys : List A)
          → Has a (x ∷ y ∷ ys)
          → (Has a (x ∷ ys) → Has a (insert before x ys))
          → Has a (y ∷ insert before x ys)
      below a x y ys (inl e) ih = inr (ih (inl e))
      below a x y ys (inr (inl e)) ih = inl e
      below a x y ys (inr (inr h)) ih = inr (ih (inr h))

  Has-of_insert : (a x : A) (xs : List A) → Has a (insert before x xs) → Has a (x ∷ xs)
  unfolding insert
  Has-of_insert a x [] h = h
  Has-of_insert a x (y ∷ ys) h = elim (Bool-cases (before x y)) [
    | inl b ↦ rw b at h
    | inr b ↦ above (Has-of_insert a x ys) (rw b at h)
  ]
    where
      above :
          (Has a (insert before x ys) → Has a (x ∷ ys))
          → Has a (y ∷ insert before x ys)
          → Has a (x ∷ y ∷ ys)
      above ih (inl e) = inr (inl e)
      above ih (inr k) = elim (ih k) [ inl e ↦ inl e | inr l ↦ inr (inr l) ]

  pub Has-sort : (a : A) (xs : List A) → Has a xs → Has a (sort before xs)
  unfolding sort
  Has-sort a [] h = absurd h
  Has-sort a (x ∷ xs) (inl e) = Has-insert a x (sort before xs) (inl e)
  Has-sort a (x ∷ xs) (inr h) = Has-insert a x (sort before xs) (inr (Has-sort a xs h))

  pub Has-of_sort : (a : A) (xs : List A) → Has a (sort before xs) → Has a xs
  unfolding sort
  Has-of_sort a [] h = absurd h
  Has-of_sort a (x ∷ xs) h = elim (Has-of_insert a x (sort before xs) h) [
    | inl e ↦ inl e
    | inr k ↦ inr (Has-of_sort a xs k)
  ]

-- A page is a window of the list, open above where the limit is 0.
module _ {A : Type 0} where
  drop_nil : (k : ℕ) → drop {A = A} k [] ≡ []
  drop_nil zero = refl
  drop_nil (suc k) = refl

  Has-take : (n : ℕ) (a : A) (xs : List A) → Has a (take n xs) → Has a xs
  Has-take zero a xs h = absurd h
  Has-take (suc n) a [] h = absurd h
  Has-take (suc n) a (x ∷ xs) (inl e) = inl e
  Has-take (suc n) a (x ∷ xs) (inr h) = inr (Has-take n a xs h)

  drop_all : (n : ℕ) (ys : List A) → length ys ≤ n → drop n ys ≡ []
  drop_all n [] h = drop_nil n
  drop_all zero (y ∷ ys) h = absurd (omega arith)
  drop_all (suc n) (y ∷ ys) h = drop_all n ys (omega arith)

  take_all : (n : ℕ) (ys : List A) → length ys ≤ n → take n ys ≡ ys
  take_all zero [] h = refl
  take_all (suc n) [] h = refl
  take_all zero (y ∷ ys) h = absurd (omega arith)
  take_all (suc n) (y ∷ ys) h = ap (◌∷◌ y) (take_all n ys (omega arith))

  drop-drop : (m n : ℕ) (ys : List A) → drop n (drop m ys) ≡ drop (m + n) ys
  drop-drop zero n ys = rw zero-add
  drop-drop (suc m) n [] = rw (suc-add, drop_nil n)
  drop-drop (suc m) n (y ∷ ys) = rw suc-add (drop-drop m n ys)

module _ {A : Type 0} (xs : List A) where
  paginate_beyond :
      (limit offset : ℕ)
      → length xs ≤ offset
      → paginate xs (suc limit) offset ≡ take (suc limit) (drop offset xs)
  unfolding paginate
  paginate_beyond limit offset h =
      let out : leb (length xs) offset ≡ true = ground (arith, h) in
      rw (out, drop_all offset xs h) refl

  pub paginate_unbounded : (offset : ℕ) → paginate xs 0 offset ≡ drop offset xs
  unfolding paginate
  paginate_unbounded offset = ground (arith, drop_all offset xs)

  -- The sum of the bounds of a page is a number that fits an `int`.
  abbrev pub Fits : ℕ → ℕ → Type 0
  Fits limit offset = offset < length xs → offset + limit ≤ max_int64

  paginate_inside :
      (limit offset : ℕ)
      → offset < length xs
      → int64 (pos (offset + suc limit)) ≡ pos (offset + suc limit)
      → paginate xs (suc limit) offset ≡ take (suc limit) (drop offset xs)
  unfolding paginate
  paginate_inside limit offset inside e =
      let last = pos (offset + suc limit) in
      let positive : ltb 0 (suc limit) ≡ true = ground arith in
      elim (Bool-cases (lebℤ (pos (length xs)) last)) [
        | inl b ↦
            let short : leb (length xs) offset ≡ false = ground (arith, inside) in
            rw (short, e, positive, b)
              (sym
                (take_all (suc limit) (drop offset xs) (ground (arith, b, length-drop offset xs))))
        | inr b ↦
            let short : leb (length xs) offset ≡ false = ground (arith, inside) in
            let more : (offset + suc limit) - offset ≡ suc limit = omega arith in
            rw (short, e, positive, b, more) refl
      ]

  pub paginate_bounded :
      (limit offset : ℕ)
      → Fits (suc limit) offset
      → paginate xs (suc limit) offset ≡ take (suc limit) (drop offset xs)
  paginate_bounded limit offset fits = elim (Bool-cases (leb (length xs) offset)) [
    | inl e ↦ paginate_beyond limit offset (ground (arith, e))
    | inr e ↦
        let inside : offset < length xs = ground (arith, e) in
        paginate_inside limit offset inside (int64_of_le (offset + suc limit) (fits inside))
  ]

  paginate_split :
      (limit offset : ℕ)
      → Fits (suc limit) offset
      → paginate xs (suc limit) offset ++ paginate xs 0 (offset + suc limit) ≡ paginate xs 0 offset
  paginate_split limit offset fits =
      rw
        (
          paginate_bounded limit offset fits,
          paginate_unbounded (offset + suc limit),
          paginate_unbounded offset,
          ← drop-drop offset (suc limit) xs,
        )
        (take-append-drop (suc limit) (drop offset xs))

module _ (state : InMemoryState) (start_time end_time : ℕ) (app status : String) where
  -- The list that is cut into pages, and a page of it; a `limit` of 0 asks for all the rest.
  abbrev pub page : ℤ → ℤ → List Task
  page limit offset = (get_tasks state start_time end_time app status limit offset).0

  pub get_tasks_lem :
      (limit offset : ℤ)
      → get_tasks state start_time end_time app status limit offset ≡ (
        paginate (matching state start_time end_time app status) (clamp limit) (clamp offset),
        length (matching state start_time end_time app status),
      )
  unfolding get_tasks paginate
  get_tasks_lem limit offset = ground arith

  page_lem :
      (limit offset : ℤ)
      → page limit offset
        ≡ paginate (matching state start_time end_time app status) (clamp limit) (clamp offset)
  page_lem limit offset = ap (λ r. r.0) (get_tasks_lem limit offset)

  page_all : page (pos 0) (pos 0) ≡ matching state start_time end_time app status
  page_all = page_lem (pos 0) (pos 0) ∙ paginate_unbounded _ 0

  -- The pages fit: a page of `limit` tasks is followed by exactly what the listing holds behind it,
  -- and every page comes with the number of tasks in the whole listing.
  pub get_tasks_pages :
      (limit offset : ℕ)
      → Fits (matching state start_time end_time app status) (suc limit) offset
      → (page (pos (suc limit)) (pos offset) ++ page (pos 0) (pos (offset + suc limit))
          ≡ page (pos 0) (pos offset))
        × ((get_tasks state start_time end_time app status (pos limit) (pos offset)).1
            ≡ length (page (pos 0) (pos 0)))
  get_tasks_pages limit offset fits = (
    ap₂ ◌++◌ (page_lem (pos (suc limit)) (pos offset)) (page_lem (pos 0) (pos (offset + suc limit)))
        ∙ paginate_split (matching state start_time end_time app status) limit offset fits
        ∙ sym (page_lem (pos 0) (pos offset)),
    ap (λ r. r.1) (get_tasks_lem (pos limit) (pos offset)) ∙ ap length (sym page_all),
  )

  newer_total : (a b : Task) → newer a b ≡ false → newer b a ≡ true
  newer_total a b h = ground arith

  abbrev pub Listed : Task → Type 0
  Listed task =
      Has task state.tasks
      × (start_time < task.created)
      × (task.created ≤ end_time)
      × ((app ≡ "") ⊎ (app ≡ task.app))
      × ((status ≡ "") ⊎ (status ≡ task.status))

  matches_of :
      (task : Task) → Listed task → task_matches_filters task start_time end_time app status ≡ true
  unfolding task_matches_filters
  matches_of task l =
      ground
        (arith, eq_iff app "", eq_iff app task.app, eq_iff status "", eq_iff status task.status)

  of_matches :
      (task : Task)
      → Has task state.tasks
      → task_matches_filters task start_time end_time app status ≡ true
      → Listed task
  unfolding task_matches_filters
  of_matches task h m = (
    h,
    ground arith,
    ground arith,
    ground (arith, eq_iff app "", eq_iff app task.app),
    ground (arith, eq_iff status "", eq_iff status task.status),
  )

  -- The whole listing is the tasks created within the window that carry the application and the
  -- status asked for, where the empty text asks for any, and it runs from the newest to the oldest.
  pub get_tasks_listing :
      (task : Task)
      → (Has task (page (pos 0) (pos 0)) ↔ Listed task) × IsSorted newer (page (pos 0) (pos 0))
  unfolding matching
  get_tasks_listing task =
      let kept = λ (t : Task). task_matches_filters t start_time end_time app status in
      rw page_all (
        (
          λ h.
              let (held, m) = Has-of_select kept task state.tasks (Has-of_sort newer task _ h) in
              of_matches task held m,
          λ l. Has-sort newer task _ (Has-select kept task state.tasks l.0 (matches_of task l)),
        ),
        sort-IsSorted newer newer_total (select kept state.tasks),
      )

  Has-slice :
      (task : Task) (tasks : List Task) (high : ℤ) → Has task (slice tasks 0 high) → Has task tasks
  Has-slice task tasks (pos high) h = Has-take (high - 0) task tasks h
  Has-slice task tasks (negsuc high) h = absurd h

  Has-bounded :
      (task : Task) (limit : ℕ) (tasks : List Task)
      → Has task (paginate tasks limit 0)
      → Has task tasks
  unfolding paginate
  Has-bounded task limit tasks h =
      let end = int64 (pos (0 + limit)) in
      elim (Bool-cases (leb (length tasks) 0)) [
        | inl e ↦ absurd (rw e at h)
        | inr e ↦ elim (Bool-cases (ltb 0 limit && not (lebℤ (pos (length tasks)) end))) [
          | inl b ↦ Has-slice task tasks end (rw (e, b) at h)
          | inr b ↦ rw (e, b) at h
        ]
      ]

  -- What a first page holds is listed.
  pub page-Listed : (task : Task) (limit : ℕ) → Has task (page (pos limit) (pos 0)) → Listed task
  page-Listed task limit h =
      (get_tasks_listing task).0.0
        (rw page_all (Has-bounded task limit _ (subst (Has task) (page_lem (pos limit) (pos 0)) h)))
